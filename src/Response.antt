-- ===== src/Response.antt =====
-- The responses of the streams, up to the transfer: proto/http.go, proto/socks5.go, proto/stream.go,
-- proto/tcpcopy.go and proto/websocket.go. The original destination comes from a system call, and is an
-- argument, as is the order in which the runtime traverses the map of the websocket clients.
pub mod Answers
pub mod Forwarded
use anyproxy.Base.{
  ℕ, ◌+◌, ◌/◌, Bool, true, false, not, ◌&&◌, Bytes, codes, List, [], ◌∷◌, ◌++◌, Option, none, some,
  if◌then◌else◌, is_empty, bytes_eq, ℤ, negsuc,
}
use anyproxy.Conf.{Router, ProxyServer}
use anyproxy.TcpReader.{Reader, pending}
use anyproxy.Header.{Header, get_value, del_value, write_header}
use anyproxy.Header.Wire.{buffer_write}
use anyproxy.TextReader.{crlf}
use anyproxy.Tunnel.{Env, World, find_host, get_string, is_allowed, build_address, counted}
use anyproxy.Tunnel.Handshake.{
  Proto, tcp, http, https, Dest, HandshakeError, not_allowed, target_empty, dial, handshake,
}
use anyproxy.Http.Request.{HttpRequest}
use anyproxy.Socks.{SocksTarget}
use anyproxy.Nat.ClientHub.{Client, get_client}
use anyproxy.Request.{Requested, copied, plain, to_socks, to_http}

pub data ResponseError : Type 0 where
  no_handshake : HandshakeError → ResponseError
  client_write_failed no_original_address : ResponseError

-- What a response does: the state of the tunnels, what the client and the server are sent, the websocket
-- client that takes the request with what it is sent, and the count with which a transfer begins.
pub record Response : Type 0 where
  pub world : World
  pub to_client : Bytes
  pub to_server : Bytes
  pub over_ws : Option (ℕ × Bytes)
  pub transfers : Option ℤ
  pub error : Option ResponseError

-- What the responses read: the configuration, the address of the client, the hub of the websocket
-- clients, whether writes to the client succeed, and the original destination of its connection.
pub record Situation : Type 0 where
  pub env : Env
  pub conf : Router
  pub proxy : ProxyServer
  pub inbound_ip : Bytes
  pub ws_enabled : Bool
  pub clients : List Client
  pub order : List ℕ
  pub client_writes : Bool
  pub original : Option (Bytes × ℕ)

abbrev pub fails : World → Bytes → ResponseError → Response
fails w to_client e = record {
  world = w;
  to_client = to_client;
  to_server = [];
  over_ws = none;
  transfers = none;
  error = some e;
}

abbrev pub begins : World → Bytes → Bytes → ℤ → Response
begins w to_client to_server unread = record {
  world = w;
  to_client = to_client;
  to_server = to_server;
  over_ws = none;
  transfers = some unread;
  error = none;
}

-- behind a handshake: its error, or what follows
unfoldable pub after_handshake :
    World × Option HandshakeError → Bytes → (World → Response) → Response
after_handshake (w, some e) to_client next = fails w to_client (no_handshake e)
after_handshake (w, none) to_client next = next w

-- `wsTunnel.getTarget`
unfoldable pub ws_target : Router → Bytes → Bool
unfolding find_host get_string
ws_target conf name =
    if is_empty name
    then false
    else not (
        bytes_eq (get_string (find_host conf name name).target conf.default.target (codes "auto"))
          (codes "deny"))

-- the first line, the header and the part of the body that was read
unfoldable pub request_bytes : Bytes → Header → Bytes → Bytes
request_bytes first_line h body =
    (write_header buffer_write (first_line ++ crlf) h).0 ++ (crlf ++ body)

abbrev pub special_header : Bytes
special_header = codes "Anyproxy-Action"

abbrev pub established : Bytes
established = codes "HTTP/1.1 200 Connection established\r\n\r\n"

-- whether a request asks for a websocket client
unfoldable pub wants_ws : Situation → Bytes → Header → Bool
wants_ws s method h =
    not (bytes_eq method (codes "CONNECT"))
    && s.ws_enabled
    && bytes_eq (get_value h special_header) (codes "websocket")

-- the end of an HTTP response, over a tunnel
unfoldable pub http_tunnel :
    Situation → World → Bytes → HttpRequest → Header → Bytes → ℤ → Bytes × ℕ → Response
unfolding after_handshake request_bytes
http_tunnel s w method r h body unread target =
    let dest : Dest = record {
      inbound_ip = s.inbound_ip;
      name = target.0;
      ip = [];
      port = target.1;
    } in
    if bytes_eq method (codes "CONNECT")
    then after_handshake (handshake s.env s.conf s.proxy w https dest) [] (λ w'.
      if s.client_writes
      then begins w' established [] (negsuc 0)
      else fails w' [] client_write_failed)
    else after_handshake (handshake s.env s.conf s.proxy w http dest) []
        (λ w'. begins w' [] (request_bytes r.first_line h body) unread)

-- `response` of an HTTP stream; the special header goes also where no client takes the request
unfoldable pub http_response :
    Situation → World → Bytes → HttpRequest → Bytes → ℤ → Bytes × ℕ → Response
unfolding wants_ws ws_target http_tunnel
http_response s w method r body unread target =
    if wants_ws s method r.header
    then (let h = del_value r.header special_header in
        if ws_target s.conf target.0
        then (elim (get_client h s.order s.clients) [
          | some p ↦ record {
            world = w;
            to_client = [];
            to_server = [];
            over_ws = some (p, request_bytes r.first_line h body);
            transfers = none;
            error = none;
          }
          | none ↦ http_tunnel s w method r h body unread target
        ])
        else http_tunnel s w method r h body unread target)
    else http_tunnel s w method r r.header body unread target

-- `response` of a SOCKS5 stream: the answer comes first
unfoldable pub socks_response : Situation → World → SocksTarget → Response
unfolding after_handshake
socks_response s w t =
    let answer = 5 ∷ 0 ∷ 0 ∷ 1 ∷ 0 ∷ 0 ∷ 0 ∷ 0 ∷ 0 ∷ 0 ∷ [] in
    let dest : Dest = record {
      inbound_ip = s.inbound_ip;
      name = t.name;
      ip = t.ip;
      port = t.port;
    } in
    if s.client_writes
    then after_handshake (handshake s.env s.conf s.proxy w tcp dest) answer
        (λ w'. begins w' answer [] (negsuc 0))
    else fails w [] client_write_failed

-- `response` of a TCP stream, whose reader holds what was read
unfoldable pub tcp_response : Situation → World → Reader → Response
unfolding after_handshake
tcp_response s w b = elim s.original [
  | none ↦ fails w [] no_original_address
  | some (ip, port) ↦
      let dest : Dest = record { inbound_ip = s.inbound_ip; name = []; ip = ip; port = port } in
      after_handshake (handshake s.env s.conf s.proxy w tcp dest) []
        (λ w'. begins w' [] (pending b) (negsuc 0))
]

-- `response` of a copied request
unfoldable pub copy_response : Situation → World → Response
unfolding after_handshake
copy_response s w =
    let ip = s.conf.tcp_copy.ip in
    let port = s.conf.tcp_copy.port in
    let address = build_address [] ip port in
    if not (is_allowed s.env s.conf s.inbound_ip [])
    then fails w [] (no_handshake not_allowed)
    else if is_empty address.1
    then fails w [] (no_handshake target_empty)
    else after_handshake
        (dial s.env (counted w (s.env.now / 1000000000) s.inbound_ip [] ip port) address.0 address.1
          0)
        [] (λ w'. begins w' [] [] (negsuc 0))

-- `Stream.response`
unfoldable pub response : Situation → World → Reader → Requested → Response
unfolding http_response socks_response tcp_response copy_response
response s w b (to_http method r body unread target) = http_response s w method r body unread target
response s w b (to_socks t) = socks_response s w t
response s w b plain = tcp_response s w b
response s w b copied = copy_response s w
