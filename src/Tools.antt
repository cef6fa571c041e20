-- ===== src/Tools.antt =====
-- utils/tools/string.go: the parts of an address, and ports with no host.
pub mod Address
use anyproxy.Base.{
  ℕ, zero, suc, ◌+◌, Bool, true, false, not, ◌&&◌, Bytes, codes, List, [], ◌∷◌, ◌++◌, none, some,
  ◌==◌, if◌then◌else◌, get_or, length, take, drop, is_empty, bytes_eq, contains, atoi, parse_int10,
  itoa_int,
}

-- the loop of `GetPort`, from index `i - 1` down to 0
get_port_from : ℕ → Bytes → Bytes
get_port_from zero addr = []
get_port_from (suc i) addr =
    if get_or addr i 0 == b':' then drop (suc i) addr else get_port_from i addr

-- `GetPort`
unfoldable pub get_port : Bytes → Bytes
unfolding get_port_from
get_port addr = get_port_from (length addr) addr

-- the loop of `GetRemoteIp`, from index `i - 1` down to 1
get_remote_ip_from : ℕ → Bytes → Bytes
get_remote_ip_from zero addr = addr
get_remote_ip_from (suc zero) addr = addr
get_remote_ip_from (suc (suc i)) addr =
    if get_or addr (suc i) 0 == b':' then take (suc i) addr else get_remote_ip_from (suc i) addr

-- `GetRemoteIp`
unfoldable pub get_remote_ip : Bytes → Bytes
unfolding get_remote_ip_from
get_remote_ip addr = get_remote_ip_from (length addr) addr

-- `FillPort`
unfoldable pub fill_port : Bytes → Bytes
unfolding contains parse_int10 itoa_int bytes_eq
fill_port port =
    let d = atoi port in
    if not (contains (codes ":") port)
    then (elim d.error [
      | none ↦ (if bytes_eq (itoa_int d.value) port then codes ":" ++ port else port)
      | some _ ↦ port
    ])
    else port
