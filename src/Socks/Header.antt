-- ===== src/Socks/Header.antt =====
-- proto/socks5.go: a well-formed request is read as its client wrote it.
use anyproxy.Base.{
  ℕ, ◌+◌, ◌-◌, ◌*◌, ◌<◌, false, Bytes, [], ◌∷◌, ◌++◌, ltb, get_or, length, replicate, ok, ◌≡◌, ap,
  arith, length-append, take-append_left, append_assoc, get_or-append_right, parse_u16-itoa,
}
use anyproxy.Socks.{read_at_least, address_of, port_of, parse_got}

-- A request for a name: version, command, reserved, kind, length, name and port.
abbrev pub name_request : Bytes → ℕ → ℕ → Bytes
name_request name high low = 5 ∷ 1 ∷ 0 ∷ 3 ∷ length name ∷ (name ++ high ∷ low ∷ [])

address_of-name :
    (ip_string : Bytes → Bytes) (name rest : Bytes)
    → address_of ip_string (5 ∷ 1 ∷ 0 ∷ 3 ∷ length name ∷ (name ++ rest)) ≡ ok (name, [])
unfolding address_of read_at_least
address_of-name ip_string name rest =
    ground (arith, length-append name rest, take-append_left name rest)

port_of-last :
    (front : Bytes) (high low : ℕ) (pad : Bytes) (n : ℕ)
    → n ≡ length front + 2
    → high < 256
    → low < 256
    → port_of n (front ++ high ∷ low ∷ pad) ≡ ok (high * 256 + low)
unfolding port_of
port_of-last front high low pad n e hh hl =
    let first : get_or (front ++ high ∷ low ∷ pad) (n - 2) 0 ≡ high =
      get_or-append_right front (high ∷ low ∷ pad) 0 (n - 2) 0 (omega (arith, e)) in
    let second : get_or (front ++ high ∷ low ∷ pad) (n - 1) 0 ≡ low =
      get_or-append_right front (high ∷ low ∷ pad) 1 (n - 1) 0 (omega (arith, e)) in
    ground (arith, first, second, parse_u16-itoa (high * 256 + low) (omega (arith, hh, hl)))

-- A request for a name of 1 to 255 bytes, with two bytes of a port, which arrives whole, is read as
-- that name and as the port that the two bytes give.
pub parse_got-name :
    (ip_string : Bytes → Bytes) (name : Bytes) (high low : ℕ)
    → 0 < length name
    → length name < 256
    → high < 256
    → low < 256
    → parse_got ip_string (name_request name high low)
      ≡ ok (record { name = name; ip = []; port = high * 256 + low })
unfolding parse_got
parse_got-name ip_string name high low some_name short hh hl =
    let got = name_request name high low in
    let pad : Bytes = replicate (1024 - length got) 0 in
    let long = length-append name (high ∷ low ∷ []) in
    let whole : got ++ pad ≡ 5 ∷ 1 ∷ 0 ∷ 3 ∷ length name ∷ (name ++ high ∷ low ∷ pad) =
      ap (λ t. 5 ∷ 1 ∷ 0 ∷ 3 ∷ length name ∷ t) (append_assoc name (high ∷ low ∷ []) pad) in
    let port =
      port_of-last (5 ∷ 1 ∷ 0 ∷ 3 ∷ length name ∷ name) high low pad (length got)
        (omega (arith, long)) hh hl in
    let enough : ltb (length got) 6 ≡ false = ground (arith, long) in
    ground (arith, enough, whole, address_of-name ip_string name (high ∷ low ∷ pad), port)
