-- ===== src/Tunnel/Handshake/Policy.antt =====
-- proto/tunnel.go: which connections `handshake` tries, by the configured strategy.
use anyproxy.Base.{
  ℕ, ◌/◌, All, false, not, ◌&&◌, Bytes, codes, List, [], ◌∷◌, Option, none, some, ltb, is_empty,
  bytes_eq, ◌≡◌, subst, ◌≢◌, refl, sym, ap, ◌∙◌, ◌⊎◌, inl, inr, arith, if-elim, bytes_eq_self,
}
use anyproxy.Conf.{Host, Router, ProxyServer}
use anyproxy.Cache.{DialState}
use anyproxy.Tunnel.{
  Env, Dial, direct, World, get_string, find_host, is_allowed, build_address, counted, lookup_name,
  register_counters,
}
use anyproxy.Tunnel.Handshake.{
  Proto, tcp, http, https, End, attempt, dial, Plan, choose_proxy, Dest, counted_dial, note_fail,
  by_direct, connect_by, target_of, map_port, all_proxies_failed, resolve_host, handshake_allowed,
  handshake,
}

pub counted-dials :
    (w : World) (now : ℕ) (inbound_ip name ip : Bytes) (port : ℕ)
    → (counted w now inbound_ip name ip port).dials ≡ w.dials
unfolding counted register_counters
counted-dials w now inbound_ip name ip port = ground arith

lookup_name-dials :
    (env : Env) (w : World) (name ip : Bytes) → (lookup_name env w name ip).0.dials ≡ w.dials
unfolding lookup_name
lookup_name-dials env w name ip = ground arith

pub resolve_host-dials :
    (env : Env) (w : World) (host : Host) (dns name ip : Bytes)
    → (resolve_host env w host dns name ip).0.dials ≡ w.dials
unfolding resolve_host
resolve_host-dials env w host dns name ip = ground (arith, lookup_name-dials env w name ip)

pub note_fail-dials : (env : Env) (w : World) (d : Dest) → (note_fail env w d).dials ≡ w.dials
unfolding note_fail
note_fail-dials env w d = ground arith

-- The connections tried so far are those of `ds`, and there is an error.
pub IsRefused : List Dial → End → Type 0
IsRefused ds r = (r.1 ≢ none) × (r.0.dials ≡ ds)

-- An address is not that of a rule of `allow_ip`: not in its network, or not the address itself where it
-- is no network.
abbrev pub Misses : Env → Bytes → Bytes → Option Bytes → Type 0
Misses env ip rule none = env.ip_string ip ≢ rule
Misses env ip rule (some net) = env.cidr_contains net ip ≡ false

-- The host, or all hosts, are limited to addresses of which the client's is none.
pub record IsOutside (env : Env) (conf : Router) (inbound_ip : Bytes) (host : Host) : Type 0 where
  pub limited : (host.allow_ip ≢ []) ⊎ (conf.allow_ip ≢ [])
  pub by_host :
      All (λ rule. Misses env (env.parse_ip inbound_ip) rule (env.parse_cidr rule)) host.allow_ip
  pub by_all :
      All (λ rule. Misses env (env.parse_ip inbound_ip) rule (env.parse_cidr rule)) conf.allow_ip

-- The strategy of a host is its own, or, without one, the default for the protocol.
abbrev pub default_target : Router → Proto → Bytes
default_target conf tcp = conf.default.tcp_target
default_target conf http = conf.default.target
default_target conf https = conf.default.target

abbrev pub HasTarget : Router → Proto → Host → Bytes → Type 0
HasTarget conf proto host target =
    (host.target ≡ target) ⊎ ((host.target ≡ []) × (default_target conf proto ≡ target))

target_of-HasTarget :
    (conf : Router) (proto : Proto) (host : Host) (c : ℕ) (s : Bytes)
    → HasTarget conf proto host (c ∷ s)
    → target_of conf proto host ≡ c ∷ s
unfolding target_of get_string
target_of-HasTarget conf tcp host c s h = ground (arith, h)
target_of-HasTarget conf http host c s h = ground (arith, h)
target_of-HasTarget conf https host c s h = ground (arith, h)

-- At most one connection was tried after those of `ds`, and it was a direct one to the address.
pub IsDirectFrom : List Dial → Bytes × Bytes → End → Type 0
IsDirectFrom ds (network, addr) r = (r.0.dials ≡ ds) ⊎ (r.0.dials ≡ direct network addr 5 ∷ ds)

by_direct-IsDirectFrom :
    (env : Env) (w : World) (d : Dest)
    → IsDirectFrom w.dials (build_address d.name d.ip d.port) (by_direct env w d)
unfolding by_direct counted_dial dial attempt IsDirectFrom
by_direct-IsDirectFrom env w d =
    let (network, addr) = build_address d.name d.ip d.port in
    if-elim (IsDirectFrom w.dials (network, addr)) (is_empty addr) (λ _. inl refl)
      (λ _. inr (
        ap (◌∷◌ (direct network addr 5))
          (counted-dials w (env.now / 1000000000) d.inbound_ip d.name d.ip d.port)))

connect_by-IsDirectFrom :
    (env : Env) (conf : Router) (w : World) (proto : Proto) (plan : Plan) (dns : Bytes) (d : Dest)
    (state : DialState)
    → plan.target ≡ codes "local"
    → IsDirectFrom w.dials
        (build_address d.name d.ip d.port)
        (connect_by env conf w proto plan dns d state)
unfolding connect_by
connect_by-IsDirectFrom env conf w proto plan dns d state h =
    let p = plan.proxy in
    if-elim (IsDirectFrom w.dials (build_address d.name d.ip d.port))
      (not (is_empty p.server) && ltb 0 p.port && not (bytes_eq plan.target (codes "local")))
      (λ e.
        absurd (
          ground (arith, e, ap (λ t. bytes_eq t (codes "local")) h, bytes_eq_self (codes "local"))))
      (λ _. by_direct-IsDirectFrom env w d)

IsDirectFrom-from :
    (w : World) (ds : List Dial) (to : Bytes × Bytes) (r : End)
    → w.dials ≡ ds
    → IsDirectFrom w.dials to r
    → IsDirectFrom ds to r
unfolding IsDirectFrom
IsDirectFrom-from w ds to r h (inl e) = inl (e ∙ h)
IsDirectFrom-from w ds to r h (inr e) = inr (e ∙ ap (◌∷◌ (direct to.0 to.1 5)) h)

-- The address of the destination itself: its name, or its address where it is configured, given or
-- found, and its port as the host maps it.
abbrev pub own_address : Env → Router → World → Host → Dest → Bytes × Bytes
own_address env conf w host d =
    let dns = get_string host.dns conf.default.dns (codes "local") in
    build_address d.name (resolve_host env w host dns d.name d.ip).1 (map_port host.ports d.port)

choose_proxy-none :
    (env : Env) (w : World) (spec : Bytes) (plan : Plan)
    → spec ≡ []
    → choose_proxy env w spec plan ≡ (w, some plan)
unfolding choose_proxy
choose_proxy-none env w [] plan h = refl
choose_proxy-none env w (c ∷ spec) plan h = absurd (ground (arith, h))

handshake_allowed-IsDirectFrom :
    (env : Env) (conf : Router) (proxy : ProxyServer) (w : World) (proto : Proto) (host : Host)
    (d : Dest)
    → target_of conf proto host ≡ codes "local"
    → host.proxy ≡ []
    → IsDirectFrom w.dials
        (own_address env conf w host d)
        (handshake_allowed env conf proxy w proto host d)
unfolding handshake_allowed IsDirectFrom
handshake_allowed-IsDirectFrom env conf proxy w proto host d h none_own =
    let dns = get_string host.dns conf.default.dns (codes "local") in
    let resolved = resolve_host env w host dns d.name d.ip in
    let same = resolve_host-dials env w host dns d.name d.ip in
    let plan : Plan = record { proxy = proxy; target = target_of conf proto host } in
    let d1 = record d { ip = resolved.1; port = map_port host.ports d.port } in
    let after = λ (c : World × Option Plan). elim c.1 as (λ _. End) [
      | none ↦ (c.0, some all_proxies_failed)
      | some p ↦ connect_by env conf c.0 proto p dns d1 resolved.2
    ] in
    let to = own_address env conf w host d in
    let direct_end : IsDirectFrom resolved.0.dials to (after (resolved.0, some plan)) =
      connect_by-IsDirectFrom env conf resolved.0 proto plan dns d1 resolved.2 h in
    if-elim (IsDirectFrom w.dials to) (bytes_eq (target_of conf proto host) (codes "deny"))
      (λ _. inl same)
      (λ _.
        IsDirectFrom-from resolved.0 w.dials to
          (after (choose_proxy env resolved.0 host.proxy plan)) same
          (subst (λ c. IsDirectFrom resolved.0.dials to (after c))
            (sym (choose_proxy-none env resolved.0 host.proxy plan none_own)) direct_end))

-- Where the strategy of the host, its own or by default, is `local` and the host has no proxy of its own, a handshake tries
-- at most one connection, directly to the address of the destination itself.
pub handshake-IsDirectFrom :
    (env : Env) (conf : Router) (proxy : ProxyServer) (w : World) (proto : Proto) (d : Dest)
    → HasTarget conf proto (find_host conf d.name d.ip) (codes "local")
    → (find_host conf d.name d.ip).proxy ≡ []
    → IsDirectFrom w.dials
        (own_address env conf w (find_host conf d.name d.ip) d)
        (handshake env conf proxy w proto d)
unfolding handshake IsDirectFrom
handshake-IsDirectFrom env conf proxy w proto d h none_own =
    let host = find_host conf d.name d.ip in
    if-elim (IsDirectFrom w.dials (own_address env conf w host d))
      (is_allowed env conf d.inbound_ip host.allow_ip)
      (λ _.
        handshake_allowed-IsDirectFrom env conf proxy w proto host d
          (target_of-HasTarget conf proto host _ _ h) none_own)
      (λ _. inl refl)
