-- ===== src/Tunnel/Handshake/Growth.antt =====
-- proto/tunnel.go: the connections that choosing a proxy tries are added to those before it.
use anyproxy.Base.{
  ◌++◌, ◌∙◌, atoi, to_u16, Bytes, codes, List, [], ◌∷◌, Option, none, some, if◌then◌else◌, is_empty,
  bytes_eq, ◌≡◌, refl, ap, split, trim_space, if-elim,
}
use anyproxy.Conf.{ProxyServer}
use anyproxy.Tunnel.{host_port, Env, Dial, probe, World}
use anyproxy.Tunnel.Handshake.{
  attempt, proxy_of_parts, proxy_of_scheme, get_proxy_server, first_proxy, Plan, proxy_option,
  own_proxy, choose_proxy,
}

-- The connections tried are those of `ds`, and maybe others after them.
abbrev pub Grows : List Dial → List Dial → Type 0
Grows ds es = (newer : List Dial) × (es ≡ newer ++ ds)

pub Grows-self : (ds : List Dial) → Grows ds ds
Grows-self ds = ([], refl)

pub Grows-cons : (d : Dial) (ds es : List Dial) → Grows ds es → Grows ds (d ∷ es)
Grows-cons d ds es (newer, e) = (d ∷ newer, ap (◌∷◌ d) e)

pub Grows-same : (ds es fs : List Dial) → fs ≡ es → Grows ds es → Grows ds fs
Grows-same ds es fs s (newer, e) = (newer, s ∙ e)

-- Choosing a proxy only adds to the connections tried.
proxy_of_parts-Grows :
    (env : Env) (ds : List Dial) (w : World) (scheme : Bytes) (parts : List Bytes)
    → Grows ds w.dials
    → Grows ds (proxy_of_parts env w scheme parts).0.dials
unfolding proxy_of_parts attempt
proxy_of_parts-Grows env ds w scheme [] h = h
proxy_of_parts-Grows env ds w scheme (a ∷ []) h = h
proxy_of_parts-Grows env ds w scheme (a ∷ b ∷ []) h = ended (atoi b).error
  where
    ended :
        {E : Type 0} (x : Option E)
        → Grows ds (
            (elim x as (λ _. World × Option ProxyServer) [
              | some e ↦ (w, none)
              | none ↦
                  (let addr = host_port a (to_u16 (atoi b).value) in
                    let (w', reached) = attempt env w (probe addr) (codes "tcp") addr in
                    (
                      w',
                      if reached
                          then some
                              (record { scheme = scheme; server = a; port = to_u16 (atoi b).value })
                          else none,
                    ))
            ]).0.dials)
    ended (some e) = h
    ended none = Grows-cons _ ds w.dials h
proxy_of_parts-Grows env ds w scheme (a ∷ b ∷ c ∷ l) h = h

proxy_of_scheme-Grows :
    (env : Env) (ds : List Dial) (w : World) (spec : Bytes) (parts : List Bytes)
    → Grows ds w.dials
    → Grows ds (proxy_of_scheme env w spec parts).0.dials
unfolding proxy_of_scheme
proxy_of_scheme-Grows env ds w spec [] h =
    proxy_of_parts-Grows env ds w _ (split (codes ":") spec) h
proxy_of_scheme-Grows env ds w spec (a ∷ []) h =
    proxy_of_parts-Grows env ds w _ (split (codes ":") spec) h
proxy_of_scheme-Grows env ds w spec (a ∷ b ∷ []) h =
    proxy_of_parts-Grows env ds w a (split (codes ":") b) h
proxy_of_scheme-Grows env ds w spec (a ∷ b ∷ c ∷ l) h =
    proxy_of_parts-Grows env ds w _ (split (codes ":") spec) h

get_proxy_server-Grows :
    (env : Env) (ds : List Dial) (w : World) (spec : Bytes)
    → Grows ds w.dials
    → Grows ds (get_proxy_server env w spec).0.dials
unfolding get_proxy_server
get_proxy_server-Grows env ds w spec h =
    if-elim (λ (r : World × Option ProxyServer). Grows ds r.0.dials) (is_empty spec) (λ _. h)
      (λ _. proxy_of_scheme-Grows env ds w spec (split (codes "://") spec) h)

first_proxy-Grows :
    (env : Env) (ds : List Dial) (w : World) (specs : List Bytes)
    → Grows ds w.dials
    → Grows ds (first_proxy env w specs).0.dials
unfolding first_proxy
first_proxy-Grows env ds w [] h = h
first_proxy-Grows env ds w (p ∷ ps) h =
    let tried = get_proxy_server-Grows env ds w (trim_space p) h in
    let rest = first_proxy-Grows env ds (get_proxy_server env w (trim_space p)).0 ps tried in
    picked (get_proxy_server env w (trim_space p)).1 tried rest
  where
    picked :
        (o : Option ProxyServer)
        → Grows ds (get_proxy_server env w (trim_space p)).0.dials
        → Grows ds (first_proxy env (get_proxy_server env w (trim_space p)).0 ps).0.dials
        → Grows ds (
            (elim o as (λ _. World × Option ProxyServer) [
              | some s ↦ get_proxy_server env w (trim_space p)
              | none ↦ first_proxy env (get_proxy_server env w (trim_space p)).0 ps
            ]).0.dials)
    picked (some s) a b = a
    picked none a b = b

pub choose_proxy-Grows :
    (env : Env) (ds : List Dial) (w : World) (spec : Bytes) (plan : Plan)
    → Grows ds w.dials
    → Grows ds (choose_proxy env w spec plan).0.dials
unfolding choose_proxy own_proxy
choose_proxy-Grows env ds w spec plan h =
    let grown = first_proxy-Grows env ds w (split (codes ",") (proxy_option spec).0) h in
    if-elim (λ (r : World × Option Plan). Grows ds r.0.dials) (is_empty spec) (λ _. h)
      (λ _. found (first_proxy env w (split (codes ",") (proxy_option spec).0)).1 grown)
  where
    found :
        (o : Option ProxyServer)
        → Grows ds (first_proxy env w (split (codes ",") (proxy_option spec).0)).0.dials
        → let w' = (first_proxy env w (split (codes ",") (proxy_option spec).0)).0 in
          Grows ds (
            (elim o as (λ _. World × Option Plan) [
              | some p ↦ (w', some (record { proxy = p; target = codes "remote" }))
              | none ↦
                  (if bytes_eq (proxy_option spec).1 (codes "last")
                    then (w', some (record plan { proxy = record (plan.proxy) { server = [] } }))
                    else if bytes_eq (proxy_option spec).1 (codes "deny")
                    then (w', none)
                    else (w', some plan))
            ]).0.dials)
    found (some p) g = g
    found none g =
        let Q = λ (r : World × Option Plan). Grows ds r.0.dials in
        if-elim Q (bytes_eq (proxy_option spec).1 (codes "last")) (λ _. g)
          (λ _. if-elim Q (bytes_eq (proxy_option spec).1 (codes "deny")) (λ _. g) (λ _. g))
