-- ===== src/Tunnel/Copy/Rounds.antt =====
-- proto/tunnel.go: what one round of the copy of the request changes besides what it sends.
use Prim.Native.Nat.{min}
use anyproxy.Base.{
  ℕ, Bytes, List, [], ◌∷◌, subst, ◌++◌, Option, none, some, ltb, ◌==◌, if◌then◌else◌, length, ◌≡◌,
  ◌≢◌, ◌⊎◌, inl, inr, refl, sym, ap, ◌∙◌, arith, Bool-cases, Option-cases,
}
use anyproxy.TcpReader.{ReadError, read}
use anyproxy.TcpReader.Stream.{stream}
use anyproxy.Tunnel.Copy.{
  server, Transfer, turn, KeepAlive, Side, request, state_idle, Pipe, CopyError, Copy, Write,
  copy_size, add_bytes, write_out, read_end, round_end, forward, copy_round, live_round,
}
use anyproxy.Tunnel.Copy.Account.{Accounts, check_reuse-cases, Holds, read-Holds, Leaves, Spares}

-- What a round of the request changes besides: the state is only made idle with the bytes that were
-- read and not sent, and then the copy has returned.
pub record Asks (all : Bytes) (p q : Pipe) (c : Copy) : Type 0 where
  pub same_out : q.outbound ≡ p.outbound
  pub same_reused : q.reused ≡ p.reused
  pub same_client : q.client_closed ≡ p.client_closed
  pub idle :
      q.cur_state ≡ state_idle
      → (c.returned ≡ some none) × (all ≡ c.sent ++ (q.buf ++ stream c.src))

-- The state that a `Write` for the request leaves.
added :
    (w : Write) (n : ℕ) (q : Pipe)
    → let r = (if ltb 0 n then add_bytes request n q else q) in
      (r.outbound ≡ q.outbound)
      × (r.reused ≡ q.reused)
      × (r.client_closed ≡ q.client_closed)
      × (r.cur_state ≡ q.cur_state)
unfolding add_bytes
added w n q = elim (Bool-cases (ltb 0 n)) [
  | inl e ↦ rw e (refl, refl, refl, refl)
  | inr e ↦ rw e (refl, refl, refl, refl)
]

pub write_out-pipe :
    (side : Side) (w : Write) (got : Bytes) (q : Pipe) (c : Copy)
    → let nw = min w.accepts (length got) in
      (write_out side w got (q, c)).0 ≡ (if ltb 0 nw then add_bytes side nw q else q)
unfolding write_out
write_out-pipe side w got q c = elim (Option-cases w.error) [
  | inr (x, e) ↦ rw (e, write_out) refl
  | inl e ↦ elim (Bool-cases (length got == min w.accepts (length got))) [
    | inl f ↦ rw (e, f, write_out) refl
    | inr f ↦ rw (e, f, write_out) refl
  ]
]

write_out-Asks :
    (w : Write) (all got : Bytes) (p q : Pipe) (c : Copy)
    → (q.outbound ≡ p.outbound) × (q.reused ≡ p.reused) × (q.client_closed ≡ p.client_closed)
    → q.cur_state ≢ state_idle
    → let s = write_out request w got (q, c) in Asks all p s.0 s.1
write_out-Asks w all got p q c (o, r, k) n =
    let nw = min w.accepts (length got) in
    let same = write_out-pipe request w got q c in
    let (o', r', k', n') = added w nw q in
    record {
      same_out = ap (λ x. x.outbound) same ∙ o' ∙ o;
      same_reused = ap (λ x. x.reused) same ∙ r' ∙ r;
      same_client = ap (λ x. x.client_closed) same ∙ k' ∙ k;
      idle = λ i. absurd (n (sym n' ∙ ap (λ x. x.cur_state) (sym same) ∙ i));
    }

round_end-Asks :
    (er : Option ReadError) (all : Bytes) (p : Pipe) (s : Pipe × Copy)
    → Asks all p s.0 s.1
    → let r = round_end request er s in Asks all p r.0 r.1
unfolding round_end read_end
round_end-Asks er all p (q, c) a = after c.returned er
  where
    after :
        (r : Option (Option CopyError)) (er : Option ReadError)
        → let s = elim r as (λ _. Pipe × Copy) [
          | some e ↦ (q, c)
          | none ↦ elim er [ none ↦ (q, c) | some x ↦ read_end request x (q, c) ]
        ] in
          Asks all p s.0 s.1
    after (some e) er = a
    after none none = a
    after none (some x) = record {
      same_out = a.same_out;
      same_reused = a.same_reused;
      same_client = a.same_client;
      idle = λ i. absurd (ground (arith, i));
    }

forward-Asks :
    (is_http : KeepAlive) (w : Write) (all got : Bytes) (p : Pipe) (c : Copy)
    (l : Leaves is_http request got p c.src.rd)
    → Holds request all got p c
    → p.cur_state ≢ state_idle
    → let s = forward request is_http w got (p, c) in Asks all p s.0 s.1
unfolding forward
forward-Asks is_http w all got p c l h n = elim (check_reuse-cases is_http p got c.src.rd l) [
  | inl e ↦
      rw (e, forward)
        (record {
          same_out = refl;
          same_reused = refl;
          same_client = refl;
          idle = λ _. (refl, h.split);
        })
  | inr (u, e) ↦
      rw (e, forward)
        (write_out-Asks w all got p (record p { client_unread = u }) c (refl, refl, refl) n)
]

pub copy_round-Asks :
    (is_http : KeepAlive) (w : Write) (all : Bytes) (p : Pipe) (c : Copy)
    (l : Spares is_http request p c)
    → Accounts request all p c
    → c.returned ≡ none
    → p.cur_state ≢ state_idle
    → let s = copy_round request is_http w (p, c) in Asks all p s.0 s.1
unfolding copy_round
copy_round-Asks is_http w all p c l a r n =
    let res = read c.src copy_size in
    let c' = record c { src = res.0 } in
    round_end-Asks res.2 all p
      (if ltb 0 (length res.1) then forward request is_http w res.1 (p, c') else (p, c'))
      (elim (Bool-cases (ltb 0 (length res.1))) [
        | inl e ↦ rw e (forward-Asks is_http w all res.1 p c' l (read-Holds request all p c a r) n)
        | inr e ↦ rw e (record {
          same_out = refl;
          same_reused = refl;
          same_client = refl;
          idle = λ i. absurd (n i);
        })
      ])

-- In the turns taken, each check for a reused connection takes nothing from it.
abbrev pub Undisturbed : KeepAlive → List (Side × Write) → Transfer → Type 0
Undisturbed is_http [] t = Unit {0}
Undisturbed is_http ((request, w) ∷ ss) t =
    (t.up.returned ≡ none → Spares is_http request t.pipe t.up)
    × Undisturbed is_http ss (turn is_http (request, w) t)
Undisturbed is_http ((server, w) ∷ ss) t = Undisturbed is_http ss (turn is_http (server, w) t)

-- A round of a copy, whether it has returned or not.
pub live_round-cases :
    (side : Side) (is_http : KeepAlive) (w : Write) (p : Pipe) (c : Copy)
    → ((c.returned ≡ none) × (live_round side is_http w (p, c) ≡ copy_round side is_http w (p, c)))
      ⊎ ((c.returned ≢ none) × (live_round side is_http w (p, c) ≡ (p, c)))
unfolding live_round
live_round-cases side is_http w p c = by_return c.returned refl
  where
    round : Option (Option CopyError) → Pipe × Copy
    round o = elim o as (λ _. Pipe × Copy) [
      | some e ↦ (p, c)
      | none ↦ copy_round side is_http w (p, c)
    ]

    by_return :
        (o : Option (Option CopyError))
        → c.returned ≡ o
        → ((c.returned ≡ none) × (round c.returned ≡ copy_round side is_http w (p, c)))
          ⊎ ((c.returned ≢ none) × (round c.returned ≡ (p, c)))
    by_return none e = inl (e, ap round e)
    by_return (some x) e = inr ((λ n. ground (arith, n, e)), ap round e)

-- A copy of the request that has returned makes no check.
pub returned-Undisturbed :
    (is_http : KeepAlive) (ss : List (Side × Write)) (t : Transfer)
    → t.up.returned ≢ none
    → Undisturbed is_http ss t
unfolding turn
returned-Undisturbed is_http [] t n = tt
returned-Undisturbed is_http ((request, w) ∷ ss) t n = (
  (λ e. absurd (n e)),
  returned-Undisturbed is_http ss (turn is_http (request, w) t)
      (elim (live_round-cases request is_http w t.pipe t.up) [
        | inl e ↦ absurd (n e.0)
        | inr e ↦ subst (λ (s : Pipe × Copy). s.1.returned ≢ none) (sym e.1) n
      ]),
)
returned-Undisturbed is_http ((server, w) ∷ ss) t n =
    returned-Undisturbed is_http ss (turn is_http (server, w) t) n
