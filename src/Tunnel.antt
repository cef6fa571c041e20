-- ===== src/Tunnel.antt =====
-- proto/tunnel.go: how a request finds its server. The network is an environment: each dial has a
-- number, and the environment says how that dial ends. The state is the DNS cache, the two counter
-- managers and the list of the dials made.
pub mod Copy
pub mod Handshake
use anyproxy.Base.{
  ℕ, suc, ◌+◌, Bool, true, false, not, ◌&&◌, ◌||◌, Bytes, codes, List, [], ◌∷◌, ◌++◌, Option, none,
  some, if◌then◌else◌, ◌==◌, is_empty, bytes_eq, contains, itoa, length,
}
use anyproxy.Conf.{PortMap, Host, no_host, Router}
use anyproxy.Cache.{LookupCache, DialState, state_new, state_none, lookup_host, store_host}
use anyproxy.Stats.{Manager, register_counter}
use anyproxy.Crypto.{BlockCipher}

-- What the code calls of the network and of the packages `net`, `base64` and `fmt`; `print_format` is what
-- `Fprintf` writes for a format without operands. The first argument of `reaches`,
-- `reply` and `negotiates` is the number of the dial.
pub record Env : Type 0 where
  pub now : ℕ
  pub reaches : ℕ → Bytes → Bytes → Bool
  pub reply : ℕ → Option Bytes
  pub negotiates : ℕ → Bool
  pub lookup_ip : Bytes → List Bytes
  pub parse_ip : Bytes → Bytes
  pub ip_string : Bytes → Bytes
  pub parse_cidr : Bytes → Option Bytes
  pub cidr_contains : Bytes → Bytes → Bool
  pub base64 : Bytes → Bytes
  pub print_format : Bytes → Bytes
  pub cipher : BlockCipher

-- One connection that the code tries to open, with what it asks of a proxy.
pub data Dial : Type 0 where
  direct : Bytes → Bytes → ℕ → Dial
  probe : Bytes → Dial
  socks : Bytes → Bytes → Bytes → Bytes → Dial
  connect : Bytes → Bytes → Bytes → Dial

pub record World : Type 0 where
  pub cache : LookupCache
  pub inbound : Manager
  pub outbound : Manager
  pub dials : List Dial

-- `getString`
unfoldable pub get_string : Bytes → Bytes → Bytes → Bytes
get_string val def def2 = if is_empty val then (if is_empty def then def2 else def) else val

-- `findHost`: the loop over the hosts
unfoldable pub find_host_in : Router → Bytes → Bytes → List Host → Host
find_host_in conf dst_name dst_ip [] = no_host
find_host_in conf dst_name dst_ip (h ∷ hs) =
    let kind = get_string h.match_kind conf.default.match_kind (codes "equal") in
    let rest = find_host_in conf dst_name dst_ip hs in
    if bytes_eq kind (codes "equal")
    then (if bytes_eq h.name dst_name || bytes_eq h.name dst_ip then h else rest)
    else if bytes_eq kind (codes "contain")
    then (if contains h.name dst_name || contains h.name dst_ip then h else rest)
    else rest

unfoldable pub find_host : Router → Bytes → Bytes → Host
unfolding find_host_in
find_host conf dst_name dst_ip = find_host_in conf dst_name dst_ip conf.hosts

-- `iPInCIDR`
unfoldable pub ip_in_cidr : Env → Bytes → Bytes → Bool
ip_in_cidr env ip cidr = elim (env.parse_cidr cidr) [
  | none ↦ bytes_eq (env.ip_string ip) cidr
  | some net ↦ env.cidr_contains net ip
]

unfoldable any_cidr : Env → Bytes → List Bytes → Bool
any_cidr env ip [] = false
any_cidr env ip (p ∷ ps) = ip_in_cidr env ip p || any_cidr env ip ps

-- `isAllowed`: the result's flag
unfoldable pub is_allowed : Env → Router → Bytes → List Bytes → Bool
unfolding any_cidr
is_allowed env conf inbound_ip allows =
    let all = allows ++ conf.allow_ip in
    if is_empty all then true else any_cidr env (env.parse_ip inbound_ip) all

abbrev pub host_port : Bytes → ℕ → Bytes
host_port host port = host ++ (codes ":" ++ itoa port)

abbrev bracketed : Bytes → Bytes
bracketed ip = codes "[" ++ (ip ++ codes "]")

-- `registerCounter`
unfoldable pub register_counters : World → ℕ → Bytes → Bytes → Bytes → ℕ → World
register_counters w now inbound_ip dst_name dst_ip dst_port =
    let addr =
      if not (is_empty dst_name)
      then host_port dst_name dst_port
      else if contains (codes ":") dst_ip
      then host_port (bracketed dst_ip) dst_port
      else host_port dst_ip dst_port in
    let link = codes "inbound>>>" ++ (inbound_ip ++ (codes ">>>" ++ addr)) in
    record w {
      inbound = (register_counter w.inbound (link ++ codes ">>>uplink") now).0;
      outbound = (register_counter w.outbound (link ++ codes ">>>downlink") now).0;
    }

-- `buildAddress`: the network and the address
unfoldable pub build_address : Bytes → Bytes → ℕ → Bytes × Bytes
build_address dst_name dst_ip dst_port =
    if not (is_empty dst_ip)
    then (if contains (codes ":") dst_ip
        then (codes "tcp6", host_port (bracketed dst_ip) dst_port)
        else (codes "tcp", host_port dst_ip dst_port))
    else if not (is_empty dst_name)
    then (codes "tcp", host_port dst_name dst_port)
    else (codes "tcp", [])

-- the call of `buildAddress` with `addCounter`
unfoldable pub counted : World → ℕ → Bytes → Bytes → Bytes → ℕ → World
counted w now inbound_ip dst_name dst_ip dst_port =
    if is_empty (build_address dst_name dst_ip dst_port).1
    then w
    else register_counters w now inbound_ip dst_name dst_ip dst_port

abbrev pub ten_minutes : ℕ
ten_minutes = 600000000000

-- `lookup`: the cache, then DNS; times are in nanoseconds
unfoldable pub lookup_name : Env → World → Bytes → Bytes → World × Bytes × DialState
lookup_name env w dst_name dst_ip =
    if is_empty dst_name
    then (w, dst_ip, state_none)
    else (let (cache, ip, state) = found in
        if not (is_empty ip)
        then (record w { cache = cache }, ip, state)
        else (elim (env.lookup_ip dst_name) [
          | [] ↦ (record w { cache = cache }, ip, state)
          | up ∷ ups ↦ (
            record w { cache = store_host cache dst_name up state_new ten_minutes env.now },
            up,
            state_new,
          )
        ]))
  where
    found : LookupCache × Bytes × DialState
    found = let (c, a) = lookup_host w.cache dst_name env.now in (c, a.0, a.1)
