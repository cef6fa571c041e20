-- ===== src/Response/Answers.antt =====
-- The responses of the streams: nothing is sent on without a connection that answered.
use anyproxy.Base.{
  List, ℕ, ◌/◌, ◌≡◌, ◌≢◌, refl, not, Bytes, codes, [], ◌∷◌, Option, none, some, is_empty, bytes_eq,
  ℤ, negsuc, arith, if-elim,
}
use anyproxy.TcpReader.{Reader, pending}
use anyproxy.Header.{Header, del_value}
use anyproxy.Socks.{SocksTarget}
use anyproxy.Tunnel.{Dial, Env, World, is_allowed, build_address, counted}
use anyproxy.Tunnel.Handshake.{
  tcp, http, https, Dest, HandshakeError, dial, handshake, not_allowed, target_empty,
}
use anyproxy.Tunnel.Handshake.Policy.{counted-dials}
use anyproxy.Tunnel.Handshake.Growth.{Grows-same, Grows-self}
use anyproxy.Tunnel.Handshake.Success.{Connects, handshake-Connects, dial-Connects}
use anyproxy.Http.Request.{HttpRequest}
use anyproxy.Nat.ClientHub.{get_client}
use anyproxy.Request.{Requested, copied, plain, to_socks, to_http}
use anyproxy.Response.{
  ResponseError, no_handshake, client_write_failed, no_original_address, Response, Situation, fails,
  begins, after_handshake, ws_target, wants_ws, special_header, request_bytes, established,
  http_tunnel, http_response, socks_response, tcp_response, copy_response, response,
}

-- What is sent to a server, and a transfer, stand behind a connection that was tried and answered; and a
-- response that failed has sent nothing to a server.
pub record IsEarned (env : Env) (ds : List Dial) (r : Response) : Type 0 where
  pub transfer_connects : r.transfers ≢ none → Connects env ds (r.world, none)
  pub sent_transfers : r.to_server ≢ [] → r.transfers ≢ none
  pub failed_quiet : r.error ≢ none → (r.transfers ≡ none) × (r.over_ws ≡ none)

fails-IsEarned :
    (env : Env) (ds : List Dial) (w : World) (s : Bytes) (e : ResponseError)
    → IsEarned env ds (fails w s e)
fails-IsEarned env ds w s e = record {
  transfer_connects = λ h. absurd (h refl);
  sent_transfers = λ h. absurd (h refl);
  failed_quiet = λ _. (refl, refl);
}

begins-IsEarned :
    (env : Env) (ds : List Dial) (w : World) (c s : Bytes) (u : ℤ)
    → Connects env ds (w, none)
    → IsEarned env ds (begins w c s u)
begins-IsEarned env ds w c s u h = record {
  transfer_connects = λ _. h;
  sent_transfers = λ _ e. ground (arith, e);
  failed_quiet = λ e. absurd (e refl);
}

after_handshake-IsEarned :
    (env : Env) (ds : List Dial) (end : World × Option HandshakeError) (c : Bytes)
    (next : World → Response)
    → Connects env ds end
    → ((w : World) → Connects env ds (w, none) → IsEarned env ds (next w))
    → IsEarned env ds (after_handshake end c next)
unfolding after_handshake
after_handshake-IsEarned env ds (w, some e) c next h k = fails-IsEarned env ds w c (no_handshake e)
after_handshake-IsEarned env ds (w, none) c next h k = k w h

http_tunnel-IsEarned :
    (s : Situation) (w : World) (method : Bytes) (r : HttpRequest) (h : Header) (body : Bytes)
    (unread : ℤ) (target : Bytes × ℕ)
    → IsEarned s.env w.dials (http_tunnel s w method r h body unread target)
unfolding http_tunnel
http_tunnel-IsEarned s w method r h body unread target =
    let ds = w.dials in
    let dest : Dest = record {
      inbound_ip = s.inbound_ip;
      name = target.0;
      ip = [];
      port = target.1;
    } in
    if-elim (IsEarned s.env ds) (bytes_eq method (codes "CONNECT"))
      (λ _.
        after_handshake-IsEarned s.env ds (handshake s.env s.conf s.proxy w https dest) [] _
          (handshake-Connects s.env s.conf s.proxy w https dest)
          (λ w' k.
            if-elim (IsEarned s.env ds) s.client_writes
              (λ _. begins-IsEarned s.env ds w' established [] (negsuc 0) k)
              (λ _. fails-IsEarned s.env ds w' [] client_write_failed)))
      (λ _.
        after_handshake-IsEarned s.env ds (handshake s.env s.conf s.proxy w http dest) [] _
          (handshake-Connects s.env s.conf s.proxy w http dest)
          (λ w' k. begins-IsEarned s.env ds w' [] _ unread k))

http_response-IsEarned :
    (s : Situation) (w : World) (method : Bytes) (r : HttpRequest) (body : Bytes) (unread : ℤ)
    (target : Bytes × ℕ)
    → IsEarned s.env w.dials (http_response s w method r body unread target)
unfolding http_response
http_response-IsEarned s w method r body unread target =
    let ds = w.dials in
    let h = del_value r.header special_header in
    if-elim (IsEarned s.env ds) (wants_ws s method r.header)
      (λ _.
        if-elim (IsEarned s.env ds) (ws_target s.conf target.0)
          (λ _. by_client (get_client h s.order s.clients))
          (λ _. http_tunnel-IsEarned s w method r h body unread target))
      (λ _. http_tunnel-IsEarned s w method r r.header body unread target)
  where
    by_client :
        (o : Option ℕ)
        → IsEarned s.env w.dials (elim o as (λ _. Response) [
          | some p ↦ record {
            world = w;
            to_client = [];
            to_server = [];
            over_ws = some (p, request_bytes r.first_line (del_value r.header special_header) body);
            transfers = none;
            error = none;
          }
          | none ↦ http_tunnel s w method r (del_value r.header special_header) body unread target
        ])
    by_client none =
        http_tunnel-IsEarned s w method r (del_value r.header special_header) body unread target
    by_client (some p) = record {
      transfer_connects = λ h. absurd (h refl);
      sent_transfers = λ h. absurd (h refl);
      failed_quiet = λ e. absurd (e refl);
    }

socks_response-IsEarned :
    (s : Situation) (w : World) (t : SocksTarget) → IsEarned s.env w.dials (socks_response s w t)
unfolding socks_response
socks_response-IsEarned s w t =
    let ds = w.dials in
    let answer = 5 ∷ 0 ∷ 0 ∷ 1 ∷ 0 ∷ 0 ∷ 0 ∷ 0 ∷ 0 ∷ 0 ∷ [] in
    let dest : Dest = record {
      inbound_ip = s.inbound_ip;
      name = t.name;
      ip = t.ip;
      port = t.port;
    } in
    if-elim (IsEarned s.env ds) s.client_writes
      (λ _.
        after_handshake-IsEarned s.env ds (handshake s.env s.conf s.proxy w tcp dest) answer
          (λ w'. begins w' answer [] (negsuc 0))
          (handshake-Connects s.env s.conf s.proxy w tcp dest)
          (λ w' k. begins-IsEarned s.env ds w' answer [] (negsuc 0) k))
      (λ _. fails-IsEarned s.env ds w [] client_write_failed)

tcp_response-IsEarned :
    (s : Situation) (w : World) (b : Reader) → IsEarned s.env w.dials (tcp_response s w b)
unfolding tcp_response
tcp_response-IsEarned s w b = by_original s.original
  where
    by_original :
        (o : Option (Bytes × ℕ))
        → IsEarned s.env w.dials (elim o as (λ _. Response) [
          | none ↦ fails w [] no_original_address
          | some (ip, port) ↦
              after_handshake
                (handshake s.env s.conf s.proxy w tcp
                  (record { inbound_ip = s.inbound_ip; name = []; ip = ip; port = port }))
                []
                (λ w'. begins w' [] (pending b) (negsuc 0))
        ])
    by_original none = fails-IsEarned s.env w.dials w [] no_original_address
    by_original (some (ip, port)) =
        after_handshake-IsEarned s.env w.dials _ [] (λ w'. begins w' [] (pending b) (negsuc 0))
          (handshake-Connects s.env s.conf s.proxy w tcp
            (record { inbound_ip = s.inbound_ip; name = []; ip = ip; port = port }))
          (λ w' k. begins-IsEarned s.env w.dials w' [] (pending b) (negsuc 0) k)

copy_response-IsEarned : (s : Situation) (w : World) → IsEarned s.env w.dials (copy_response s w)
unfolding copy_response
copy_response-IsEarned s w =
    let ds = w.dials in
    let ip = s.conf.tcp_copy.ip in
    let port = s.conf.tcp_copy.port in
    let address = build_address [] ip port in
    let w' = counted w (s.env.now / 1000000000) s.inbound_ip [] ip port in
    if-elim (IsEarned s.env ds) (not (is_allowed s.env s.conf s.inbound_ip []))
      (λ _. fails-IsEarned s.env ds w [] (no_handshake not_allowed))
      (λ _.
        if-elim (IsEarned s.env ds) (is_empty address.1)
          (λ _. fails-IsEarned s.env ds w [] (no_handshake target_empty))
          (λ _.
            after_handshake-IsEarned s.env ds (dial s.env w' address.0 address.1 0) []
              (λ w'. begins w' [] [] (negsuc 0))
              (dial-Connects s.env ds w' address.0 address.1 0 (
                Grows-same ds ds _
                  (counted-dials w (s.env.now / 1000000000) s.inbound_ip [] ip port)
                  (Grows-self ds)))
              (λ w' k. begins-IsEarned s.env ds w' [] [] (negsuc 0) k)))

-- Whatever request is answered: a transfer begins only behind a connection that was tried for it and
-- answered, a server is sent nothing unless a transfer begins, and a response with an error begins none
-- and hands nothing to a websocket client.
pub response-IsEarned :
    (s : Situation) (w : World) (b : Reader) (r : Requested)
    → IsEarned s.env w.dials (response s w b r)
unfolding response
response-IsEarned s w b (to_http method r body unread target) =
    http_response-IsEarned s w method r body unread target
response-IsEarned s w b (to_socks t) = socks_response-IsEarned s w t
response-IsEarned s w b plain = tcp_response-IsEarned s w b
response-IsEarned s w b copied = copy_response-IsEarned s w
