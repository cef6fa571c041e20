-- ===== src/Http.antt =====
-- proto/http.go: a request of an HTTP client. Package `net/url` is the parameter `UrlPackage`.
pub mod Request
pub mod Line
pub mod Body
pub mod Target
use anyproxy.Base.{
  ℕ, suc, ◌+◌, ◌-◌, Bool, true, false, not, ◌&&◌, Bytes, codes, List, [], ◌∷◌, ◌++◌, Option, none,
  some, if◌then◌else◌, ◌==◌, leb, is_empty, bytes_eq, bytes_key, index_byte, contains, split,
  trim_space, to_upper, replace_byte, lookup, length, take, drop, ℤ, pos, negsuc, parse_int10,
  parse_u16,
}
use anyproxy.Conf.{FirstLine}
use anyproxy.Header.{Header}
use anyproxy.TcpReader.{Reader, unread_buf}

-- `url.URL`: the parts that the code reads and writes, and the rest of it.
pub record Url : Type 0 where
  pub scheme : Bytes
  pub host : Bytes
  pub rest : Bytes

pub record UrlPackage : Type 0 where
  pub parse_request_uri : Bytes → Option Url
  pub to_string : Url → Bytes
  pub port_of : Url → Bytes

abbrev pub http_methods : List Bytes
http_methods =
    codes "CONNECT"
    ∷ codes "OPTIONS"
    ∷ codes "DELETE"
    ∷ codes "TRACE"
    ∷ codes "POST"
    ∷ codes "HEAD"
    ∷ codes "GET"
    ∷ codes "PUT"
    ∷ []

unfoldable pub one_of : Bytes → List Bytes → Bool
one_of s [] = false
one_of s (t ∷ ts) = if bytes_eq t s then true else one_of s ts

-- `validHead`, on the eight bytes that `Peek` gives: the method, if it is one of HTTP
unfoldable pub head_method : Bytes → Option Bytes
unfolding one_of
head_method tmp = elim (index_byte b' ' tmp) [
  | none ↦ none
  | some s1 ↦
      (let method = to_upper (take s1 tmp) in
        if one_of method http_methods then some method else none)
]

-- `parseRequestLine`: the URI and the protocol
unfoldable pub parse_request_line : Bytes → Option (Bytes × Bytes)
parse_request_line line = elim (index_byte b' ' line) [
  | none ↦ none
  | some s1 ↦
      (let rest = drop (suc s1) line in
        elim (index_byte b' ' rest) [
          | none ↦ none
          | some s2 ↦ some (take s2 rest, drop (suc s2) rest)
        ])
]

-- the checks of `readFistLine` on the line
unfoldable pub first_line_parts : Bytes → Option (Bytes × Bytes)
unfolding parse_request_line
first_line_parts line = elim (parse_request_line line) [
  | none ↦ none
  | some parts ↦
      (if not (bytes_eq parts.1 (codes "HTTP/1.0")) && not (bytes_eq parts.1 (codes "HTTP/1.1"))
        then none
        else some parts)
]

-- `parseContentLength`; an error is `none`
unfoldable pub parse_content_length : Bytes → Option ℤ
parse_content_length cl =
    let s = trim_space cl in
    if is_empty s
    then some (negsuc 0)
    else (let n = parse_int10 s in
        elim n.error [
          | some e ↦ none
          | none ↦ (elim n.value [ pos k ↦ some (pos k) | negsuc k ↦ none ])
        ])

-- `int(bodyLen) - len(body)`
abbrev pub minus : ℤ → ℕ → ℤ
minus (pos n) k = if leb k n then pos (n - k) else negsuc (k - suc n)
minus (negsuc n) k = negsuc (n + k)

-- `v, ok := h[key]` with `v[0]`; a key of a header that was read has a value
abbrev pub first_value : Bytes → Header → Option Bytes
first_value key h = elim (lookup key h) [ none ↦ none | some [] ↦ none | some (v ∷ vs) ↦ some v ]

-- the return of `readBody` behind the content length
unfoldable pub take_body : ℤ → Reader → Reader × Bytes × ℤ
take_body n b = let (b', body) = unread_buf n b in (b', body, minus n (length body))

-- the returns of `readBody` that treat the connection as a long one
unfoldable pub take_all : Reader → Reader × Bytes × ℤ
take_all b = let (b', body) = unread_buf (negsuc 0) b in (b', body, negsuc 0)

-- `readBody`: the reader, the body and the bytes of it that the client has not sent yet
unfoldable pub read_body : Bytes → Bytes → Header → Reader → Reader × Bytes × ℤ
unfolding take_all take_body
read_body method proto h b =
    if bytes_eq method (codes "CONNECT")
    then take_all b
    else if bytes_eq proto (codes "HTTP/1.1")
    then (if elim (first_value (codes "Connection") h) [
      | none ↦ false
      | some v ↦ bytes_eq v (codes "Upgrade")
    ]
        then take_all b
        else (elim (lookup (codes "Transfer-Encoding") h) [
          | some v ↦ take_all b
          | none ↦ (elim (first_value (codes "Content-Length") h) [
            | none ↦ (b, [], pos 0)
            | some v ↦ (elim (parse_content_length v) [
              | none ↦ (b, [], pos 0)
              | some n ↦ take_body n b
            ])
          ])
        ]))
    else take_all b

-- the end of `getNameIPPort`
unfoldable pub default_port : Bytes → Bytes → ℕ
default_port url_port scheme =
    let c = (parse_u16 url_port).value in
    if c == 0 then (if bytes_eq scheme (codes "https") then 443 else 80) else c

unfoldable pub name_and_port : List Bytes → Bytes → Bytes → Bytes × ℕ
unfolding default_port
name_and_port [] url_port scheme = ([], default_port url_port scheme)
name_and_port (name ∷ port ∷ []) url_port scheme =
    let c = (parse_u16 port).value in (name, if c == 0 then default_port url_port scheme else c)
name_and_port (name ∷ _) url_port scheme = (name, default_port url_port scheme)

-- `getNameIPPort`: the name and the port of the host, or of the URL
unfoldable pub get_name_ip_port : Bytes → Bytes → Bytes → Bytes × ℕ
get_name_ip_port host url_port scheme = name_and_port (split (codes ":") host) url_port scheme

-- `firstLineHost`
unfoldable pub first_line_host : FirstLine → Bytes → Bytes
first_line_host conf host = elim (lookup (replace_byte b':' b'.' host) conf.custom) [
  | some val ↦ val
  | none ↦ (if bytes_eq conf.host (codes "off") then codes "off" else codes "on")
]
