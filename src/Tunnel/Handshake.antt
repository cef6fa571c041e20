-- ===== src/Tunnel/Handshake.antt =====
-- proto/tunnel.go: `handshake`, which connects a request to its server, directly or by a proxy.
pub mod Policy
pub mod Growth
pub mod Success
pub mod Secret
use anyproxy.Base.{
  ℕ, suc, ◌+◌, ◌-◌, ◌/◌, Bool, true, false, not, ◌&&◌, ◌||◌, Bytes, codes, List, [], ◌∷◌, ◌++◌,
  Option, none, some, if◌then◌else◌, ◌==◌, ltb, leb, is_empty, bytes_eq, contains, itoa, length,
  get_or, take, drop, split, trim_space, atoi, to_u16,
}
use anyproxy.Conf.{PortMap, Host, Router, ProxyServer}
use anyproxy.Cache.{DialState, state_new, state_fail, state_none, store_host}
use anyproxy.Crypto.{Outcome, done, failed, panics, encrypt_aes}
use anyproxy.Tunnel.{
  Env, Dial, direct, probe, socks, connect, World, get_string, find_host, is_allowed, host_port,
  build_address, counted, lookup_name,
}

pub data Proto : Type 0 where
  tcp http https : Proto

pub data HandshakeError : Type 0 where
  not_allowed denied all_proxies_failed target_empty scheme_error no_destination : HandshakeError
  dial_failed encrypt_failed aes_panics no_response bad_response : HandshakeError

-- The end of a step: the state, and the error if there is one.
abbrev pub End : Type 0
End = World × Option HandshakeError

abbrev aes_token : Bytes
aes_token = codes "anyproxyproxyany"

-- `getToken`
unfoldable pub get_token : Router → Bytes
get_token conf = if is_empty conf.token then aes_token else conf.token

-- One attempt of `net.DialTimeout`: it is noted, and the environment decides.
unfoldable pub attempt : Env → World → Dial → Bytes → Bytes → World × Bool
attempt env w d network addr =
    (record w { dials = d ∷ w.dials }, env.reaches (length w.dials) network addr)

abbrev pub error_unless : Bool → HandshakeError → Option HandshakeError
error_unless true e = none
error_unless false e = some e

-- `dail`
unfoldable pub dial : Env → World → Bytes → Bytes → ℕ → End
unfolding attempt
dial env w network addr second =
    let (w', reached) =
      attempt env w (direct network addr (if ltb 0 second then second else 5)) network addr in
    (w', error_unless reached dial_failed)

-- `getProxyServer`, on the parts around `:`
unfoldable pub proxy_of_parts : Env → World → Bytes → List Bytes → World × Option ProxyServer
unfolding attempt
proxy_of_parts env w scheme (server ∷ port ∷ []) =
    let n = atoi port in
    elim n.error [
      | some e ↦ (w, none)
      | none ↦
          (let addr = host_port server (to_u16 n.value) in
            let (w', reached) = attempt env w (probe addr) (codes "tcp") addr in
            (
              w',
              if reached
                  then some (record { scheme = scheme; server = server; port = to_u16 n.value })
                  else none,
            ))
    ]
proxy_of_parts env w scheme _ = (w, none)

unfoldable pub proxy_of_scheme : Env → World → Bytes → List Bytes → World × Option ProxyServer
proxy_of_scheme env w spec (scheme ∷ rest ∷ []) =
    proxy_of_parts env w scheme (split (codes ":") rest)
proxy_of_scheme env w spec _ = proxy_of_parts env w (codes "tunnel") (split (codes ":") spec)

-- `getProxyServer`; its errors are only logged
unfoldable pub get_proxy_server : Env → World → Bytes → World × Option ProxyServer
get_proxy_server env w spec =
    if is_empty spec then (w, none) else proxy_of_scheme env w spec (split (codes "://") spec)

-- the loop over the proxies of a host, up to the first that answers
unfoldable pub first_proxy : Env → World → List Bytes → World × Option ProxyServer
first_proxy env w [] = (w, none)
first_proxy env w (p ∷ ps) =
    let tried = get_proxy_server env w (trim_space p) in
    let rest = first_proxy env tried.0 ps in elim tried.1 [ some s ↦ tried | none ↦ rest ]

-- The proxy to use and the strategy.
pub record Plan : Type 0 where
  pub proxy : ProxyServer
  pub target : Bytes

-- `host.Proxy` without its last word of five bytes, and that word; no such word is the empty one
unfoldable pub proxy_option : Bytes → Bytes × Bytes
proxy_option s =
    let at = length s - 5 in
    if leb 5 (length s) && get_or s at 0 == b' ' then (take at s, drop (suc at) s) else (s, [])

-- the part of `handshake` under `host.Proxy != ""`
unfoldable pub own_proxy : Env → World → Bytes → Plan → World × Option Plan
own_proxy env w spec plan =
    let (proxies, op_name) = proxy_option spec in
    let (w', found) = first_proxy env w (split (codes ",") proxies) in
    elim found [
      | some p ↦ (w', some (record { proxy = p; target = codes "remote" }))
      | none ↦
          (if bytes_eq op_name (codes "last")
            then (w', some (record plan { proxy = record (plan.proxy) { server = [] } }))
            else if bytes_eq op_name (codes "deny")
            then (w', none)
            else (w', some plan))
    ]

unfoldable pub choose_proxy : Env → World → Bytes → Plan → World × Option Plan
unfolding own_proxy
choose_proxy env w spec plan = if is_empty spec then (w, some plan) else own_proxy env w spec plan

-- the text that `httpConnect` sends, and the error that keeps it from doing so
unfoldable pub connect_request : Env → Router → Bytes → Bool → Outcome Bytes
connect_request env conf target encrypt =
    let line =
      λ (t : Bytes). env.print_format (codes "CONNECT " ++ (t ++ codes " HTTP/1.1\r\n\r\n")) in
    if encrypt
    then (elim (encrypt_aes env.cipher target (get_token conf)) [
      | done x ↦ done (line (env.base64 x))
      | failed ↦ failed
      | panics ↦ panics
    ])
    else done (line target)

abbrev pub sent_text : Outcome Bytes → Bytes
sent_text (done x) = x
sent_text _ = []

-- what follows the dial in `httpConnect`
unfoldable pub connect_reply : Outcome Bytes → Option Bytes → Option HandshakeError
connect_reply failed reply = some encrypt_failed
connect_reply panics reply = some aes_panics
connect_reply (done x) none = some no_response
connect_reply (done x) (some status) = error_unless (contains (codes "200") status) bad_response

-- `httpConnect`
unfoldable pub http_connect : Env → Router → World → Bytes → Bytes → Bytes → Bool → End
unfolding attempt connect_reply
http_connect env conf w network addr target encrypt =
    let request = connect_request env conf target encrypt in
    let (w', reached) = attempt env w (connect network addr (sent_text request)) network addr in
    (w', if reached then connect_reply request (env.reply (length w.dials)) else some dial_failed)

-- `socks5`, whose dial and negotiation are those of the proxy package
unfoldable pub socks5 : Env → World → Bytes → Bytes → Bytes → Bytes → End
socks5 env w network addr target_net target = (
  record w { dials = socks network addr target_net target ∷ w.dials },
  error_unless (env.negotiates (length w.dials)) dial_failed,
)

abbrev pub is_http : Proto → Bool
is_http http = true
is_http _ = false

-- the switch over the scheme of the proxy
unfoldable pub by_scheme :
    Env → Router → World → Proto → Bytes → Bytes × Bytes → Bytes × Bytes → End
unfolding dial
by_scheme env conf w proto scheme (network, addr) (target_net, target) =
    if bytes_eq scheme (codes "socks5")
    then socks5 env w network addr target_net target
    else if bytes_eq scheme (codes "tunnel")
    then http_connect env conf w network addr target true
    else if bytes_eq scheme (codes "http")
    then (if is_http proto
        then dial env w network addr 0
        else http_connect env conf w network addr target false)
    else (w, some scheme_error)

-- A destination: what `handshake` knows of it after the lookup and the change of the port.
pub record Dest : Type 0 where
  pub inbound_ip : Bytes
  pub name : Bytes
  pub ip : Bytes
  pub port : ℕ

abbrev seconds : Env → ℕ
seconds env = env.now / 1000000000

abbrev pub no_host_part : Bytes → Bool
no_host_part addr = is_empty addr || get_or addr 0 0 == b':'

-- the address that a proxy is asked for
unfoldable pub remote_address : Bytes → Dest → Bytes × Bytes
remote_address conf_dns d =
    if bytes_eq conf_dns (codes "remote")
    then build_address (if is_empty d.name then d.ip else d.name) [] d.port
    else build_address [] d.ip d.port

-- the remote part
unfoldable pub by_proxy : Env → Router → World → Proto → ProxyServer → Bytes → Dest → End
by_proxy env conf w proto p conf_dns d =
    let target = remote_address conf_dns d in
    let w' = counted w (seconds env) d.inbound_ip p.server [] p.port in
    if no_host_part target.1
    then (w, some target_empty)
    else by_scheme env conf w' proto p.scheme (build_address p.server [] p.port) target

abbrev one_hour : ℕ
one_hour = 3600000000000

-- a direct dial with its counters
unfoldable pub counted_dial : Env → World → Dest → ℕ → End
counted_dial env w d second =
    let (network, addr) = build_address d.name d.ip d.port in
    dial env (counted w (seconds env) d.inbound_ip d.name d.ip d.port) network addr second

-- the note that the address of a name cannot be dialled
unfoldable pub note_fail : Env → World → Dest → World
note_fail env w d =
    if not (is_empty d.name) && not (is_empty d.ip)
    then record w { cache = store_host w.cache d.name d.ip state_fail one_hour env.now }
    else w

-- the local try of `auto`; a success ends the handshake
unfoldable pub auto_try : Env → World → Dest → DialState → End
unfolding note_fail
auto_try env w d state_fail = (w, some dial_failed)
auto_try env w d state =
    let (w', e) =
      (if is_empty (build_address d.name d.ip d.port).1
        then (w, some no_destination)
        else counted_dial env w d 1) in
    elim e [ none ↦ (w', none) | some x ↦ (note_fail env w' d, some x) ]

unfoldable pub by_auto : Env → Router → World → Proto → ProxyServer → Dest → DialState → End
by_auto env conf w proto p d state =
    let (w', e) = auto_try env w d state in
    elim e [ none ↦ (w', none) | some x ↦ by_proxy env conf w' proto p (codes "remote") d ]

-- the direct part
unfoldable pub by_direct : Env → World → Dest → End
by_direct env w d =
    if is_empty (build_address d.name d.ip d.port).1
    then (w, some no_destination)
    else counted_dial env w d 0

-- the part of `handshake` behind the choice of the proxy
unfoldable pub connect_by : Env → Router → World → Proto → Plan → Bytes → Dest → DialState → End
connect_by env conf w proto plan conf_dns d state =
    let p = plan.proxy in
    if not (is_empty p.server) && ltb 0 p.port && not (bytes_eq plan.target (codes "local"))
    then (if bytes_eq plan.target (codes "auto")
        then by_auto env conf w proto p d state
        else by_proxy env conf w proto p conf_dns d)
    else by_direct env w d

-- the change of the port
unfoldable pub map_port : List PortMap → ℕ → ℕ
map_port [] port = port
map_port (p ∷ ps) port = if p.from == port then p.to else map_port ps port

-- the strategy of a host, by the protocol
unfoldable pub target_of : Router → Proto → Host → Bytes
target_of conf tcp host = get_string host.target conf.default.tcp_target (codes "auto")
target_of conf _ host = get_string host.target conf.default.target (codes "auto")

-- the address and its state; the state is new where the cache is not asked
unfoldable pub resolve_host : Env → World → Host → Bytes → Bytes → Bytes → World × Bytes × DialState
resolve_host env w host conf_dns name ip =
    if not (is_empty host.ip)
    then (w, host.ip, state_new)
    else if not (is_empty name) && not (bytes_eq conf_dns (codes "remote"))
    then lookup_name env w name ip
    else (w, ip, state_new)

-- `handshake` where the client may visit
unfoldable pub handshake_allowed : Env → Router → ProxyServer → World → Proto → Host → Dest → End
handshake_allowed env conf proxy w proto host d =
    let conf_target = target_of conf proto host in
    let conf_dns = get_string host.dns conf.default.dns (codes "local") in
    let (w1, ip, state) = resolve_host env w host conf_dns d.name d.ip in
    let d1 = record d { ip = ip; port = map_port host.ports d.port } in
    let (w2, plan) =
      choose_proxy env w1 host.proxy (record { proxy = proxy; target = conf_target }) in
    if bytes_eq conf_target (codes "deny") then (w1, some denied) else (elim plan [
      | none ↦ (w2, some all_proxies_failed)
      | some p ↦ connect_by env conf w2 proto p conf_dns d1 state
    ])

-- `handshake`
unfoldable pub handshake : Env → Router → ProxyServer → World → Proto → Dest → End
unfolding handshake_allowed
handshake env conf proxy w proto d =
    let host = find_host conf d.name d.ip in
    if is_allowed env conf d.inbound_ip host.allow_ip
    then handshake_allowed env conf proxy w proto host d
    else (w, some not_allowed)
