-- ===== src/Tunnel/Handshake/Success.antt =====
-- proto/tunnel.go: a handshake without an error has a connection that answered.
use anyproxy.Base.{
  ℕ, ◌/◌, Bool, true, false, not, ◌&&◌, Bytes, codes, List, [], ◌∷◌, Option, none, some,
  if◌then◌else◌, ltb, is_empty, bytes_eq, contains, length, ◌≡◌, refl, inl, inr, arith, Bool-cases,
  if-elim,
}
use anyproxy.Conf.{Host, Router, ProxyServer}
use anyproxy.Cache.{DialState, state_new, state_fail, state_none}
use anyproxy.Crypto.{Outcome, done, failed, panics}
use anyproxy.Tunnel.{
  Env, Dial, direct, probe, socks, connect, World, get_string, find_host, is_allowed, build_address,
}
use anyproxy.Tunnel.Handshake.{
  sent_text, Proto, HandshakeError, not_allowed, denied, End, attempt, dial, Plan,
  all_proxies_failed, map_port, choose_proxy, connect_request, connect_reply, http_connect, socks5,
  by_scheme, Dest, by_proxy, counted_dial, note_fail, auto_try, by_auto, by_direct, connect_by,
  target_of, resolve_host, no_host_part, is_http, remote_address, no_destination, target_empty,
  scheme_error, dial_failed, handshake_allowed, handshake,
}
use anyproxy.Tunnel.Handshake.Policy.{counted-dials, resolve_host-dials, note_fail-dials}
use anyproxy.Tunnel.Handshake.Growth.{Grows, Grows-self, Grows-cons, Grows-same, choose_proxy-Grows}

-- The connection tried last answered, and was not a mere test of a proxy: it was reached, the
-- negotiation was accepted, or the proxy's answer to `CONNECT` has the 200.
pub Answered : Env → List Dial → Type 0
Answered env [] = ⊥
Answered env (direct network addr second ∷ ds) = env.reaches (length ds) network addr ≡ true
Answered env (probe addr ∷ ds) = ⊥
Answered env (socks network addr target_net target ∷ ds) = env.negotiates (length ds) ≡ true
Answered env (connect network addr text ∷ ds) =
    (env.reaches (length ds) network addr ≡ true)
    × (status : Bytes) × (env.reply (length ds) ≡ some status)
    × (contains (codes "200") status ≡ true)

-- A step that started where `ds` had been tried only adds to them, and without an error has added a
-- connection, the last of which answered.
pub Connects : Env → List Dial → End → Type 0
Connects env ds r =
    Grows ds r.0.dials
    × (r.1 ≡ none
        → ((last : Dial) × (earlier : List Dial) × (r.0.dials ≡ last ∷ earlier) × Grows ds earlier)
          × Answered env r.0.dials)

Connects-fail :
    (env : Env) (ds : List Dial) (w : World) (x : HandshakeError)
    → Grows ds w.dials
    → Connects env ds (w, some x)
unfolding Connects
Connects-fail env ds w x h = (h, (λ e. ground (arith, e)))

-- A dial that succeeds has tried a connection that answered.
pub dial-Connects :
    (env : Env) (ds : List Dial) (w : World) (network addr : Bytes) (second : ℕ)
    → Grows ds w.dials
    → Connects env ds (dial env w network addr second)
unfolding dial Connects Answered
dial-Connects env ds w network addr second h =
    let d = direct network addr (if ltb 0 second then second else 5) in
    (Grows-cons d ds w.dials h, (λ e. ((d, w.dials, refl, h), ground (arith, e))))

socks5-Connects :
    (env : Env) (ds : List Dial) (w : World) (network addr target_net target : Bytes)
    → Grows ds w.dials
    → Connects env ds (socks5 env w network addr target_net target)
unfolding socks5 Connects Answered
socks5-Connects env ds w network addr target_net target h =
    let d = socks network addr target_net target in
    (Grows-cons d ds w.dials h, (λ e. ((d, w.dials, refl, h), ground (arith, e))))

connect_reply-status :
    (request : Outcome Bytes) (reply : Option Bytes)
    → connect_reply request reply ≡ none
    → (status : Bytes) × (reply ≡ some status) × (contains (codes "200") status ≡ true)
unfolding connect_reply
connect_reply-status failed reply h = absurd (ground arith)
connect_reply-status panics reply h = absurd (ground arith)
connect_reply-status (done x) none h = absurd (ground arith)
connect_reply-status (done x) (some status) h = (status, refl, ground arith)

http_connect-Connects :
    (env : Env) (conf : Router) (ds : List Dial) (w : World) (network addr target : Bytes)
    (encrypt : Bool)
    → Grows ds w.dials
    → Connects env ds (http_connect env conf w network addr target encrypt)
unfolding http_connect attempt Connects Answered
http_connect-Connects env conf ds w network addr target encrypt h =
    let request = connect_request env conf target encrypt in
    let reply = env.reply (length w.dials) in
    let d = connect network addr (sent_text request) in
    (
      Grows-cons d ds w.dials h,
      λ e. (
        (d, w.dials, refl, h),
        elim (Bool-cases (env.reaches (length w.dials) network addr)) [
          | inl t ↦
              (let (status, said, good) =
                  connect_reply-status request reply (ground (arith, e, t)) in
                (t, status, said, good))
          | inr f ↦ absurd (ground (arith, e, f))
        ],
      ),
    )

by_scheme-Connects :
    (env : Env) (conf : Router) (ds : List Dial) (w : World) (proto : Proto) (scheme : Bytes)
    (to target : Bytes × Bytes)
    → Grows ds w.dials
    → Connects env ds (by_scheme env conf w proto scheme to target)
unfolding by_scheme
by_scheme-Connects env conf ds w proto scheme (network, addr) (target_net, target) h =
    let P = Connects env ds in
    if-elim P (bytes_eq scheme (codes "socks5"))
      (λ _. socks5-Connects env ds w network addr target_net target h)
      (λ _.
        if-elim P (bytes_eq scheme (codes "tunnel"))
          (λ _. http_connect-Connects env conf ds w network addr target true h)
          (λ _.
            if-elim P (bytes_eq scheme (codes "http"))
              (λ _.
                if-elim P (is_http proto) (λ _. dial-Connects env ds w network addr 0 h)
                  (λ _. http_connect-Connects env conf ds w network addr target false h))
              (λ _. Connects-fail env ds w scheme_error h)))

by_proxy-Connects :
    (env : Env) (conf : Router) (ds : List Dial) (w : World) (proto : Proto) (p : ProxyServer)
    (dns : Bytes) (d : Dest)
    → Grows ds w.dials
    → Connects env ds (by_proxy env conf w proto p dns d)
unfolding by_proxy
by_proxy-Connects env conf ds w proto p dns d h =
    let same = counted-dials w (env.now / 1000000000) d.inbound_ip p.server [] p.port in
    if-elim (Connects env ds) (no_host_part (remote_address dns d).1)
      (λ _. Connects-fail env ds w target_empty h)
      (λ _. by_scheme-Connects env conf ds _ proto p.scheme _ _ (Grows-same ds w.dials _ same h))

counted_dial-Connects :
    (env : Env) (ds : List Dial) (w : World) (d : Dest) (second : ℕ)
    → Grows ds w.dials
    → Connects env ds (counted_dial env w d second)
unfolding counted_dial
counted_dial-Connects env ds w d second h =
    let same = counted-dials w (env.now / 1000000000) d.inbound_ip d.name d.ip d.port in
    dial-Connects env ds _ _ _ second (Grows-same ds w.dials _ same h)

-- The dial of the destination itself, where it has an address.
local-Connects :
    (env : Env) (ds : List Dial) (w : World) (d : Dest) (second : ℕ)
    → Grows ds w.dials
    → Connects env ds (
        if is_empty (build_address d.name d.ip d.port).1
        then (w, some no_destination)
        else counted_dial env w d second)
local-Connects env ds w d second h =
    if-elim (Connects env ds) (is_empty (build_address d.name d.ip d.port).1)
      (λ _. Connects-fail env ds w no_destination h)
      (λ _. counted_dial-Connects env ds w d second h)

by_direct-Connects :
    (env : Env) (ds : List Dial) (w : World) (d : Dest)
    → Grows ds w.dials
    → Connects env ds (by_direct env w d)
unfolding by_direct
by_direct-Connects env ds w d h = local-Connects env ds w d 0 h

-- A failed step is followed by one that starts where it stopped.
or_else-Connects :
    (env : Env) (ds : List Dial) (r : End) (after : World → HandshakeError → End)
    → Connects env ds r
    → ((w : World) (x : HandshakeError) → Grows ds w.dials → Connects env ds (after w x))
    → Connects env ds (elim r.1 [ none ↦ (r.0, none) | some x ↦ after r.0 x ])
unfolding Connects
or_else-Connects env ds (w, none) after c h = c
or_else-Connects env ds (w, some x) after c h = h w x c.0

noted-Connects :
    (env : Env) (ds : List Dial) (w : World) (d : Dest) (x : HandshakeError)
    → Grows ds w.dials
    → Connects env ds (note_fail env w d, some x)
noted-Connects env ds w d x h =
    Connects-fail env ds (note_fail env w d) x (Grows-same ds w.dials _ (note_fail-dials env w d) h)

auto_try-Connects :
    (env : Env) (ds : List Dial) (w : World) (d : Dest) (state : DialState)
    → Grows ds w.dials
    → Connects env ds (auto_try env w d state)
unfolding auto_try
auto_try-Connects env ds w d state_fail h = Connects-fail env ds w dial_failed h
auto_try-Connects env ds w d state_new h =
    or_else-Connects env ds _ (λ w' x. (note_fail env w' d, some x)) (local-Connects env ds w d 1 h)
      (λ w' x. noted-Connects env ds w' d x)
auto_try-Connects env ds w d state_none h =
    or_else-Connects env ds _ (λ w' x. (note_fail env w' d, some x)) (local-Connects env ds w d 1 h)
      (λ w' x. noted-Connects env ds w' d x)

by_auto-Connects :
    (env : Env) (conf : Router) (ds : List Dial) (w : World) (proto : Proto) (p : ProxyServer)
    (d : Dest) (state : DialState)
    → Grows ds w.dials
    → Connects env ds (by_auto env conf w proto p d state)
unfolding by_auto
by_auto-Connects env conf ds w proto p d state h =
    or_else-Connects env ds (auto_try env w d state)
      (λ w' _. by_proxy env conf w' proto p (codes "remote") d)
      (auto_try-Connects env ds w d state h)
      (λ w' _ h'. by_proxy-Connects env conf ds w' proto p _ d h')

connect_by-Connects :
    (env : Env) (conf : Router) (ds : List Dial) (w : World) (proto : Proto) (plan : Plan)
    (dns : Bytes) (d : Dest) (state : DialState)
    → Grows ds w.dials
    → Connects env ds (connect_by env conf w proto plan dns d state)
unfolding connect_by
connect_by-Connects env conf ds w proto plan dns d state h =
    let p = plan.proxy in
    if-elim (Connects env ds)
      (not (is_empty p.server) && ltb 0 p.port && not (bytes_eq plan.target (codes "local")))
      (λ _.
        if-elim (Connects env ds) (bytes_eq plan.target (codes "auto"))
          (λ _. by_auto-Connects env conf ds w proto plan.proxy d state h)
          (λ _. by_proxy-Connects env conf ds w proto plan.proxy dns d h))
      (λ _. by_direct-Connects env ds w d h)

chosen-Connects :
    (env : Env) (conf : Router) (ds : List Dial) (w : World) (plan : Option Plan) (proto : Proto)
    (dns : Bytes) (d : Dest) (state : DialState)
    → Grows ds w.dials
    → Connects env ds (elim plan [
      | none ↦ (w, some all_proxies_failed)
      | some p ↦ connect_by env conf w proto p dns d state
    ])
chosen-Connects env conf ds w none proto dns d state h = Connects-fail env ds w all_proxies_failed h
chosen-Connects env conf ds w (some p) proto dns d state h =
    connect_by-Connects env conf ds w proto p dns d state h

handshake_allowed-Connects :
    (env : Env) (conf : Router) (proxy : ProxyServer) (ds : List Dial) (w : World) (proto : Proto)
    (host : Host) (d : Dest)
    → Grows ds w.dials
    → Connects env ds (handshake_allowed env conf proxy w proto host d)
unfolding handshake_allowed
handshake_allowed-Connects env conf proxy ds w proto host d h =
    let conf_target = target_of conf proto host in
    let conf_dns = get_string host.dns conf.default.dns (codes "local") in
    let resolved = resolve_host env w host conf_dns d.name d.ip in
    let kept : Grows ds resolved.0.dials =
      Grows-same ds w.dials _ (resolve_host-dials env w host conf_dns d.name d.ip) h in
    let plan : Plan = record { proxy = proxy; target = conf_target } in
    let chosen = choose_proxy env resolved.0 host.proxy plan in
    if-elim (Connects env ds) (bytes_eq conf_target (codes "deny"))
      (λ _. Connects-fail env ds resolved.0 denied kept)
      (λ _.
        chosen-Connects env conf ds chosen.0 chosen.1 proto conf_dns
          (record d { ip = resolved.1; port = map_port host.ports d.port }) resolved.2
          (choose_proxy-Grows env ds resolved.0 host.proxy plan kept))

-- A handshake keeps the list of the connections that were tried before it, and only adds to it. Where it
-- ends without an error, it has added a connection, and the one it tried last, which is not a mere test of
-- a proxy, answered.
pub handshake-Connects :
    (env : Env) (conf : Router) (proxy : ProxyServer) (w : World) (proto : Proto) (d : Dest)
    → Connects env w.dials (handshake env conf proxy w proto d)
unfolding handshake
handshake-Connects env conf proxy w proto d =
    let host = find_host conf d.name d.ip in
    if-elim (Connects env _) (is_allowed env conf d.inbound_ip host.allow_ip)
      (λ _. handshake_allowed-Connects env conf proxy _ w proto host d (Grows-self w.dials))
      (λ _. Connects-fail env _ w not_allowed (Grows-self w.dials))
