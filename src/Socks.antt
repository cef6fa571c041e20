-- ===== src/Socks.antt =====
-- proto/socks5.go: the request of a SOCKS5 client. `net.IP.String` is a parameter.
pub mod Header
use anyproxy.Base.{
  ℕ, ◌+◌, ◌-◌, ◌*◌, ◌/◌, ◌%◌, Bool, true, false, Bytes, codes, List, [], ◌∷◌, ◌++◌, Option, none,
  some, if◌then◌else◌, ◌==◌, ltb, leb, get_or, length, take, drop, replicate, slice, itoa,
  parse_u16, Result, ok, err, ℤ, negsuc, ◌&&◌,
}
use anyproxy.TcpReader.{Reader, ReadError, read, buffered, unread_buf, peek}

pub data SocksError : Type 0 where
  write_failed not_socks short_address bad_port : SocksError
  read_failed : ReadError → SocksError

-- What `ParseHeader` sets of the request.
pub record SocksTarget : Type 0 where
  pub name : Bytes
  pub ip : Bytes
  pub port : ℕ

-- `io.ReadAtLeast` of a reader over `src` into `n` bytes, all of them
unfoldable pub read_at_least : ℕ → Bytes → Result SocksError Bytes
read_at_least n src = if leb n (length src) then ok (take n src) else err short_address

-- the switch over the kind of the address
unfoldable pub address_of : (Bytes → Bytes) → Bytes → Result SocksError (Bytes × Bytes)
unfolding read_at_least
address_of ip_string buffer =
    let kind = get_or buffer 3 0 in
    if kind == 1
    then (elim (read_at_least 4 (drop 4 buffer)) [ ok ip ↦ ok ([], ip_string ip) | err e ↦ err e ])
    else if kind == 4
    then (elim (read_at_least 16 (drop 4 buffer)) [ ok ip ↦ ok ([], ip_string ip) | err e ↦ err e ])
    else if kind == 3
    then (elim (read_at_least (get_or buffer 4 0) (drop 5 buffer)) [
      | ok name ↦ ok (name, [])
      | err e ↦ err e
    ])
    else ok ([], [])

-- the port, from the last two of the `n` bytes read, by its decimal text
unfoldable pub port_of : ℕ → Bytes → Result SocksError ℕ
port_of n buffer =
    let c = parse_u16 (itoa (get_or buffer (n - 2) 0 * 256 + get_or buffer (n - 1) 0)) in
    elim c.error [ none ↦ ok c.value | some e ↦ err bad_port ]

-- `ParseHeader` behind its `Read`, which gave the bytes `got`; the buffer has 1024 bytes
unfoldable pub parse_got : (Bytes → Bytes) → Bytes → Result SocksError SocksTarget
unfolding address_of port_of
parse_got ip_string got =
    let buffer = got ++ replicate (1024 - length got) 0 in
    if ltb (length got) 6 then err not_socks else (elim (address_of ip_string buffer) [
      | err e ↦ err e
      | ok a ↦ (elim (port_of (length got) buffer) [
        | err e ↦ err e
        | ok port ↦ ok (record { name = a.0; ip = a.1; port = port })
      ])
    ])

-- `ParseHeader`: what is written, the reader and the target; `writes` tells whether the write succeeds
unfoldable pub parse_header :
    (Bytes → Bytes) → (Bytes → Bool) → Reader → Reader × Bytes × Result SocksError SocksTarget
unfolding parse_got
parse_header ip_string writes b =
    let answer = 5 ∷ 0 ∷ [] in
    let (b', got, e) = read b 1024 in
    if writes answer
    then (b', answer, (elim e [ some x ↦ err (read_failed x) | none ↦ parse_got ip_string got ]))
    else (b, [], err write_failed)

-- `validHead`, on what `Peek` of two bytes gives; `none` is a run out of fuel, which does not happen
unfoldable pub valid_head : Reader → Option (Reader × Bool)
valid_head b = if ltb (buffered b) 2 then some (b, false) else (elim (peek 2 b) [
  | none ↦ none
  | some (b', bytes, some e) ↦ some (b', false)
  | some (b', bytes, none) ↦
      (if leb 2 (length bytes) && get_or bytes 0 0 == 5
        then some ((unread_buf (negsuc 0) b').0, true)
        else some (b', false))
])
