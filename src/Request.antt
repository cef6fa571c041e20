-- ===== src/Request.antt =====
-- proto/request.go: the kind of a request by its first bytes. proto/http.go, proto/socks5.go: how the
-- request is read. proto/client.go, proto/server.go, proto/keep.go: which requests are answered.
pub mod Lines
pub mod Heads
pub mod Pick
pub mod Serve
use anyproxy.Base.{
  Bool, true, false, not, ◌&&◌, Bytes, codes, Option, none, some, ltb, if◌then◌else◌, is_empty,
  bytes_eq, has_prefix, ◌++◌, Result, ok, err, ℕ, ℤ, negsuc,
}
use anyproxy.Conf.{Router}
use anyproxy.Tunnel.Handshake.{get_token}
use anyproxy.TcpReader.{ReadError, Script, Reader, new_reader_with_buf, buffered, peek}
use anyproxy.TextReader.{read_line_slice, read_header}
use anyproxy.Http.{head_method, first_line_parts, read_body, get_name_ip_port}
use anyproxy.Http.Request.{
  RequestEnv, RequestError, HttpRequest, decode_target, bad_uri, read_request,
}
use anyproxy.Socks.{SocksError, SocksTarget, valid_head, parse_header}

-- `Stream` with `Proto`; an HTTP request has its method, its URI and its protocol.
pub data Stream : Type 0 where
  tcp_copy socks5 tcp : Stream
  http : Bytes → Bytes → Bytes → Stream

-- `readFistLine`: the method, the URI and the protocol
unfoldable pub read_first_line : Bytes → Reader → Option (Reader × Option (Bytes × Bytes × Bytes))
read_first_line method b = elim (read_line_slice true b) [
  | none ↦ none
  | some (b', line, some e) ↦ some (b', none)
  | some (b', line, none) ↦ elim (first_line_parts line) [
    | none ↦ some (b', none)
    | some parts ↦ some (b', some (method, parts.0, parts.1))
  ]
]

-- `validHead` of an HTTP stream
unfoldable pub valid_http_head : Reader → Option (Reader × Option (Bytes × Bytes × Bytes))
unfolding read_first_line
valid_http_head b = elim (ltb (buffered b) 8) [
  | true ↦ some (b, none)
  | false ↦ elim (peek 8 b) [
    | none ↦ none
    | some (b', tmp, some e) ↦ some (b', none)
    | some (b', tmp, none) ↦ elim (head_method tmp) [
      | none ↦ some (b', none)
      | some method ↦ read_first_line method b'
    ]
  ]
]

-- the streams that are tried in turn
unfoldable pub try_streams : Reader → Option (Reader × Stream)
unfolding valid_http_head
try_streams b = elim (valid_http_head b) [
  | none ↦ none
  | some (b1, some (method, uri, proto)) ↦ some (b1, http method uri proto)
  | some (b1, none) ↦ elim (valid_head b1) [
    | none ↦ none
    | some (b2, true) ↦ some (b2, socks5)
    | some (b2, false) ↦ some (b2, tcp)
  ]
]

-- `ReadRequest`, up to the stream's own `readRequest`
unfoldable pub pick_stream : Router → Reader → Option (Reader × Result ReadError Stream)
unfolding try_streams
pick_stream conf b =
    if conf.tcp_copy.enable && not (is_empty conf.tcp_copy.ip) && ltb 0 conf.tcp_copy.port
    then some (b, ok tcp_copy)
    else (elim (peek 1 b) [
      | none ↦ none
      | some (b1, s, some e) ↦ some (b1, err e)
      | some (b1, s, none) ↦ (elim (try_streams b1) [
        | none ↦ none
        | some (b2, stream) ↦ some (b2, ok stream)
      ])
    ])

-- What the code calls of other packages and of the connection: whether it has a remote address, and
-- whether its writes succeed.
pub record ServeEnv : Type 0 where
  pub has_remote : Bool
  pub request : RequestEnv
  pub ip_string : Bytes → Bytes
  pub writes : Bytes → Bool

-- A request that was read.
pub data Requested : Type 0 where
  copied plain : Requested
  to_socks : SocksTarget → Requested
  to_http : Bytes → HttpRequest → Bytes → ℤ → Bytes × ℕ → Requested

-- Why a request is not answered.
pub data ServeError : Type 0 where
  no_bytes : ReadError → ServeError
  bad_request : RequestError → ServeError
  bad_socks : SocksError → ServeError
  no_remote not_http not_connect : ServeError

-- The end of `readRequest` that comes before the header is read.
unfoldable pub early_error : RequestEnv → Bytes → Bytes → Bool → Bytes → Option RequestError
early_error env token method from_server uri =
    elim (decode_target env token method from_server uri) [
      | err e ↦ some e
      | ok rawurl ↦
          let added = bytes_eq method (codes "CONNECT") && not (has_prefix (codes "/") rawurl) in
          elim (env.url.parse_request_uri (if added then codes "http://" ++ rawurl else rawurl)) [
            | none ↦ some bad_uri
            | some url ↦ none
          ]
    ]

-- `readRequest` of an HTTP stream from its header on: the body, the name and the port
unfoldable pub read_rest :
    ServeEnv
    → Router
    → Bool
    → Bytes
    → Bytes
    → Bytes
    → Reader
    → Option (Reader × Result ServeError Requested)
read_rest env conf from_server method uri proto b = elim (read_header b) [
  | none ↦ none
  | some (b1, m, e) ↦
      let header = elim e as (λ _. Option anyproxy.Header.Header) [
        | none ↦ some m
        | some x ↦ none
      ] in
      elim (read_request env.request conf.first_line (get_token conf) method from_server uri proto
        header) [
          | err x ↦ some (b1, err (bad_request x))
          | ok r ↦
              let (b2, body, unread) = read_body method proto r.header b1 in
              some (
                b2,
                ok (
                    to_http method r body unread
                      (get_name_ip_port r.host (env.request.url.port_of r.url) r.url.scheme)),
              )
        ]
]

-- `readRequest` of an HTTP stream
unfoldable pub read_http :
    ServeEnv
    → Router
    → Bool
    → Bytes
    → Bytes
    → Bytes
    → Reader
    → Option (Reader × Result ServeError Requested)
unfolding early_error read_rest
read_http env conf from_server method uri proto b =
    elim (early_error env.request (get_token conf) method from_server uri) [
      | some e ↦ some (b, err (bad_request e))
      | none ↦ read_rest env conf from_server method uri proto b
    ]

-- the stream's `readRequest`
unfoldable pub read_stream :
    ServeEnv → Router → Bool → Stream → Reader → Option (Reader × Result ServeError Requested)
unfolding read_http
read_stream env conf from_server tcp_copy b = some (b, ok copied)
read_stream env conf from_server tcp b = some (b, ok plain)
read_stream env conf from_server socks5 b =
    let (b', answer, target) = parse_header env.ip_string env.writes b in
    some (b', elim target [ ok t ↦ ok (to_socks t) | err e ↦ err (bad_socks e) ])
read_stream env conf from_server (http method uri proto) b =
    read_http env conf from_server method uri proto b

-- `ReadRequest`
unfoldable pub read_any :
    ServeEnv → Router → Bool → Reader → Option (Reader × Result ServeError Requested)
unfolding pick_stream read_stream
read_any env conf from_server b = elim (pick_stream conf b) [
  | none ↦ none
  | some (b', err e) ↦ some (b', err (no_bytes e))
  | some (b', ok stream) ↦ read_stream env conf from_server stream b'
]

-- `ClientHandler`: what is answered
unfoldable pub client_handler :
    ServeEnv → Router → Reader → Option (Reader × Result ServeError Requested)
unfolding read_any
client_handler env conf b =
    if env.has_remote then read_any env conf false b else some (b, err no_remote)

-- the checks of `ServerHandler` and of `KeepHandler` on a request that was read
unfoldable pub only_connect : Requested → Result ServeError Requested
only_connect (to_http method r body unread target) =
    if bytes_eq method (codes "CONNECT")
    then ok (to_http method r body unread target)
    else err not_connect
only_connect copied = err not_http
only_connect plain = err not_http
only_connect (to_socks t) = err not_http

unfoldable pub only_http : Requested → Result ServeError Requested
only_http (to_http method r body unread target) = ok (to_http method r body unread target)
only_http copied = err not_http
only_http plain = err not_http
only_http (to_socks t) = err not_http

-- a handler that answers only some of the requests
unfoldable pub filtered :
    (Requested → Result ServeError Requested)
    → Option (Reader × Result ServeError Requested)
    → Option (Reader × Result ServeError Requested)
filtered check none = none
filtered check (some (b, err e)) = some (b, err e)
filtered check (some (b, ok r)) = some (b, check r)

-- `ServerHandler`
unfoldable pub server_handler :
    ServeEnv → Router → Reader → Option (Reader × Result ServeError Requested)
unfolding read_any only_connect filtered
server_handler env conf b =
    if env.has_remote
    then filtered only_connect (read_any env conf true b)
    else some (b, err no_remote)

-- `KeepHandler`, on the bytes that were read before
unfoldable pub keep_handler :
    ServeEnv → Router → Script → Bytes → Option (Reader × Result ServeError Requested)
unfolding read_any only_http filtered
keep_handler env conf rd buf =
    let b = new_reader_with_buf rd buf in
    if env.has_remote
    then filtered only_http (read_any env conf false b)
    else some (b, err no_remote)

-- `isKeepAliveHttp`: whether the bytes begin an HTTP request, and what is left of the connection
unfoldable pub is_keep_alive_http : ServeEnv → Router → Bytes → Script → Option (Bool × Script)
unfolding pick_stream read_stream
is_keep_alive_http env conf buf rd = elim (pick_stream conf (new_reader_with_buf rd buf)) [
  | none ↦ none
  | some (b, err e) ↦ some (false, b.rd)
  | some (b, ok (http method uri proto)) ↦ elim (read_http env conf false method uri proto b) [
    | none ↦ none
    | some (b', r) ↦ some (true, b'.rd)
  ]
  | some (b, ok tcp_copy) ↦ some (false, b.rd)
  | some (b, ok tcp) ↦ some (false, b.rd)
  | some (b, ok socks5) ↦ some (false, (parse_header env.ip_string env.writes b).0.rd)
]
