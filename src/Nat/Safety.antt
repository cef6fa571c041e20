-- ===== src/Nat/Safety.antt =====
-- nat/: neither hub closes a channel twice or sends on a closed one, and no channel overflows.
use anyproxy.Base.{
  ℕ, zero, suc, Bool, true, false, List, [], ◌∷◌, ◌++◌, Option, some, ◌==◌, ltb, length, bytes_eq,
  ◌≡◌, refl, sym, ◌∙◌, ap, subst, ◌≤◌, inl, inr, arith, All, All-append, Option-cases, Bool-cases,
  if-elim, length-append,
}
use anyproxy.Nat.{
  method_close, Message, Member, close_member, leave, offer, at, put, change, visit, receive,
}
use anyproxy.Nat.BridgeHub.{Bridge, new_bridge, serve_bridge, BridgeEvent, bridge_step, run_bridges}
use anyproxy.Nat.ClientHub.{Client, new_client, serve_client, ClientEvent, client_step, run_clients}

module _ {A B : Type 0} where
  -- A member is registered exactly while its channel is open, which holds at most `c` messages.
  pub IsSound : ℕ → Member A B → Type 0
  IsSound c m = (m.registered ≡ m.is_open) × (length m.queue ≤ c)

  -- The operation does not panic, and leaves sound members.
  pub IsSafe : ℕ → Option (List (Member A B)) → Type 0
  IsSafe c r = (ms : List (Member A B)) × (r ≡ some ms) × All (IsSound c) ms

  at-IsSound :
      (c p : ℕ) (ms : List (Member A B)) (m : Member A B)
      → All (IsSound c) ms
      → at p ms ≡ some m
      → IsSound c m
  unfolding at
  at-IsSound c p [] m h e = absurd (ground (arith, e))
  at-IsSound c zero (x ∷ ms) m (h, hs) e = subst (IsSound c) (ground (arith, e)) h
  at-IsSound c (suc p) (x ∷ ms) m (h, hs) e = at-IsSound c p ms m hs e

  put-IsSound :
      (c p : ℕ) (m : Member A B) (ms : List (Member A B))
      → IsSound c m
      → All (IsSound c) ms
      → All (IsSound c) (put p m ms)
  unfolding put
  put-IsSound c p m [] h hs = tt
  put-IsSound c zero m (x ∷ ms) h (hx, hs) = (h, hs)
  put-IsSound c (suc p) m (x ∷ ms) h (hx, hs) = (hx, put-IsSound c p m ms h hs)

  change-IsSafe :
      (c p : ℕ) (f : Member A B → Option (Member A B)) (ms : List (Member A B))
      → ((m : Member A B) → IsSound c m → (m' : Member A B) × (f m ≡ some m') × IsSound c m')
      → All (IsSound c) ms
      → IsSafe c (change f p ms)
  unfolding change IsSafe
  change-IsSafe c p f ms good hs = elim (Option-cases (at p ms)) [
    | inl e ↦ (ms, rw (e, change) refl, hs)
    | inr x ↦
        (let (m, e) = x in
          let (m', done, h') = good m (at-IsSound c p ms m hs e) in
          (put p m' ms, (rw (e, done, change) refl), put-IsSound c p m' ms h' hs))
  ]

  visit-IsSafe :
      (c : ℕ) (f : ℕ → Member A B → Option (Member A B × Bool)) (ps : List ℕ)
      (ms : List (Member A B))
      → ((p : ℕ) (m : Member A B)
          → m.registered ≡ true
          → IsSound c m
          → (r : Member A B × Bool) × (f p m ≡ some r) × IsSound c r.0)
      → All (IsSound c) ms
      → IsSafe c (visit f ps ms)
  unfolding visit IsSafe
  visit-IsSafe c f [] ms good hs = (ms, refl, hs)
  visit-IsSafe c f (p ∷ ps) ms good hs = elim (Option-cases (at p ms)) [
    | inl e ↦ rw (e, visit) (visit-IsSafe c f ps ms good hs)
    | inr x ↦
        (let (m, e) = x in
          elim (Bool-cases m.registered) [
            | inl there ↦
                (let (r, done, h') = good p m there (at-IsSound c p ms m hs e) in
                  let next = put-IsSound c p r.0 ms h' hs in
                  rw (e, done, there, visit)
                    (if-elim (IsSafe c) r.1 (λ _. (put p r.0 ms, refl, next))
                      (λ _. visit-IsSafe c f ps (put p r.0 ms) good next)))
            | inr gone ↦ rw (e, gone, visit) (visit-IsSafe c f ps ms good hs)
          ])
  ]

  leave-IsSound :
      (c : ℕ) (m : Member A B)
      → IsSound c m
      → (m' : Member A B) × (leave m ≡ some m') × IsSound c m'
  unfolding leave close_member IsSound
  leave-IsSound c m h = elim (Bool-cases m.registered) [
    | inl t ↦
        (record m { registered = false; is_open = false }, rw (t, sym h.0 ∙ t) refl, (refl, h.1))
    | inr f ↦ (m, rw f refl, h)
  ]

  receive-IsSound :
      (c : ℕ) (m : Member A B)
      → IsSound c m
      → (m' : Member A B) × (receive m ≡ some m') × IsSound c m'
  unfolding receive IsSound
  receive-IsSound c m h = take m.queue refl
    where
      take :
          (q : List A)
          → m.queue ≡ q
          → (m' : Member A B) × ((elim q [ [] ↦ some m | x ∷ xs ↦ some (record m { queue = xs }) ])
              ≡ some m')
            × IsSound c m'
      take [] e = (m, refl, h)
      take (x ∷ xs) e = (record m { queue = xs }, refl, (h.0, omega (arith, h.1, ap length e)))

  offer-IsSound :
      (c : ℕ) (x : A) (m : Member A B)
      → m.registered ≡ true
      → IsSound c m
      → (r : Member A B × Bool) × (offer c x m ≡ some r) × IsSound c r.0
  unfolding offer close_member IsSound
  offer-IsSound c x m there h =
      let o : m.is_open ≡ true = sym h.0 ∙ there in
      elim (Bool-cases (ltb (length m.queue) c)) [
        | inl room ↦ (
          (record m { queue = m.queue ++ x ∷ [] }, true),
          rw (o, room) refl,
          (h.0, ground (arith, room, length-append m.queue (x ∷ []))),
        )
        | inr full ↦ (
          (record m { registered = false; is_open = false }, false),
          rw (o, full) refl,
          (refl, h.1),
        )
      ]

serve_bridge-IsSound :
    (x : Message) (p : ℕ) (b : Bridge)
    → b.registered ≡ true
    → IsSound 100 b
    → (r : Bridge × Bool) × (serve_bridge x p b ≡ some r) × IsSound 100 r.0
unfolding serve_bridge close_member IsSound
serve_bridge-IsSound x p b there h =
    let o : b.is_open ≡ true = sym h.0 ∙ there in
    elim (Bool-cases (b.info == x.id)) [
      | inr other ↦ ((b, false), rw other refl, h)
      | inl mine ↦ (elim (Bool-cases (bytes_eq x.method method_close)) [
        | inl last ↦ (
          (record b { registered = false; is_open = false }, true),
          rw (mine, last, o) refl,
          (refl, h.1),
        )
        | inr more ↦
            (let (r, done, h') = offer-IsSound 100 x.body b there h in
              (r, rw (mine, more, done) refl, h'))
      ])
    ]

bridge_step-IsSafe :
    (e : BridgeEvent) (bs : List Bridge) → All (IsSound 100) bs → IsSafe 100 (bridge_step e bs)
unfolding bridge_step new_bridge IsSafe IsSound
bridge_step-IsSafe (BridgeEvent.register req_id) bs h =
    (_, refl, All-append (IsSound 100) bs (new_bridge req_id ∷ []) h ((refl, omega arith), tt))
bridge_step-IsSafe (BridgeEvent.unregister p) bs h =
    change-IsSafe 100 p leave bs (leave-IsSound 100) h
bridge_step-IsSafe (BridgeEvent.broadcast x order) bs h =
    visit-IsSafe 100 (serve_bridge x) order bs (serve_bridge-IsSound x) h
bridge_step-IsSafe (BridgeEvent.pump p) bs h =
    change-IsSafe 100 p receive bs (receive-IsSound 100) h

run_bridges_from :
    (es : List BridgeEvent) (bs : List Bridge)
    → All (IsSound 100) bs
    → IsSafe 100 (run_bridges es bs)
unfolding run_bridges IsSafe
run_bridges_from [] bs h = (bs, refl, h)
run_bridges_from (e ∷ es) bs h =
    let (bs', done, h') = bridge_step-IsSafe e bs h in
    rw (done, run_bridges) (run_bridges_from es bs' h')

-- Whatever the hub of the bridges receives from its start, and in whatever order its map is
-- traversed, it never closes a channel twice and never sends on a closed one; a bridge is
-- registered exactly while its channel is open, and no channel holds more than 100 messages.
pub run_bridges-IsSafe : (es : List BridgeEvent) → IsSafe 100 (run_bridges es [])
run_bridges-IsSafe es = run_bridges_from es [] tt

serve_client-IsSound :
    (to : ℕ) (x : Message) (p : ℕ) (c : Client)
    → c.registered ≡ true
    → IsSound 200 c
    → (r : Client × Bool) × (serve_client to x p c ≡ some r) × IsSound 200 r.0
unfolding serve_client IsSound
serve_client-IsSound to x p c there h = elim (Bool-cases (p == to)) [
  | inr other ↦ ((c, false), rw other refl, h)
  | inl mine ↦ rw mine (offer-IsSound 200 x c there h)
]

client_step-IsSafe :
    (e : ClientEvent) (cs : List Client) → All (IsSound 200) cs → IsSafe 200 (client_step e cs)
unfolding client_step new_client IsSafe IsSound
client_step-IsSafe (ClientEvent.register subscribe) cs h =
    (_, refl, All-append (IsSound 200) cs (new_client subscribe ∷ []) h ((refl, omega arith), tt))
client_step-IsSafe (ClientEvent.unregister p) cs h =
    change-IsSafe 200 p leave cs (leave-IsSound 200) h
client_step-IsSafe (ClientEvent.broadcast to x order) cs h =
    visit-IsSafe 200 (serve_client to x) order cs (serve_client-IsSound to x) h
client_step-IsSafe (ClientEvent.pump p) cs h =
    change-IsSafe 200 p receive cs (receive-IsSound 200) h

run_clients_from :
    (es : List ClientEvent) (cs : List Client)
    → All (IsSound 200) cs
    → IsSafe 200 (run_clients es cs)
unfolding run_clients IsSafe
run_clients_from [] cs h = (cs, refl, h)
run_clients_from (e ∷ es) cs h =
    let (cs', done, h') = client_step-IsSafe e cs h in
    rw (done, run_clients) (run_clients_from es cs' h')

-- Whatever the hub of the clients receives from its start, and in whatever order its map is
-- traversed, it never closes a channel twice and never sends on a closed one; a client is registered
-- exactly while its channel is open, and no channel holds more than 200 messages.
pub run_clients-IsSafe : (es : List ClientEvent) → IsSafe 200 (run_clients es [])
run_clients-IsSafe es = run_clients_from es [] tt
