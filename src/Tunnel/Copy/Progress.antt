-- ===== src/Tunnel/Copy/Progress.antt =====
-- proto/tunnel.go: each copy of a transfer returns.
use Prim.Native.Nat.{min}
use anyproxy.Base.{
  ℕ, suc, ◌+◌, ◌≤◌, ◌<◌, Bytes, List, [], ◌∷◌, Option, none, some, ltb, ◌==◌, if◌then◌else◌, length,
  ℤ, ◌≡◌, ◌≢◌, ◌⊎◌, inl, inr, refl, sym, ap, ◌∙◌, subst, arith, Bool-cases, Option-cases, if-elim,
}
use anyproxy.TcpReader.{ReadError, Reader, read}
use anyproxy.TcpReader.Stream.{Inv, read-Reads}
use anyproxy.Tunnel.Copy.{
  KeepAlive, Side, request, server, Pipe, CopyError, Copy, Write, copy_size, write_out, read_end,
  round_end, forward, copy_round, Transfer, start_transfer, live_round, turn, run_turns,
}
use anyproxy.Tunnel.Copy.Account.{Leaves, Spares, check_reuse-cases}
use anyproxy.Tunnel.Copy.Rounds.{Undisturbed, live_round-cases}
use anyproxy.Tunnel.Copy.Work.{work, read-work}

-- What a round does to its copy: the source is that of the read, and a failed read ends the copy.
write_out-src :
    (side : Side) (w : Write) (got : Bytes) (p : Pipe) (c : Copy)
    → (write_out side w got (p, c)).1.src ≡ c.src
unfolding write_out
write_out-src side w got p c = elim (Option-cases w.error) [
  | inr (x, e) ↦ rw (e, write_out) refl
  | inl e ↦ elim (Bool-cases (length got == min w.accepts (length got))) [
    | inl f ↦ rw (e, f, write_out) refl
    | inr f ↦ rw (e, f, write_out) refl
  ]
]

forward-src :
    (side : Side) (is_http : KeepAlive) (w : Write) (got : Bytes) (p : Pipe) (c : Copy)
    (l : Leaves is_http side got p c.src.rd)
    → (forward side is_http w got (p, c)).1.src ≡ c.src
unfolding forward
forward-src server is_http w got p c l = write_out-src server w got p c
forward-src request is_http w got p c l = elim (check_reuse-cases is_http p got c.src.rd l) [
  | inl e ↦ rw (e, forward) refl
  | inr (u, e) ↦ rw (e, forward) (write_out-src request w got (record p { client_unread = u }) c)
]

read_end-Ends :
    (side : Side) (x : ReadError) (p : Pipe) (c : Copy)
    → ((read_end side x (p, c)).1.src ≡ c.src) × ((read_end side x (p, c)).1.returned ≢ none)
unfolding read_end
read_end-Ends request x p c = (refl, (λ e. ground (arith, e)))
read_end-Ends server x p c = (refl, (λ e. ground (arith, e)))

round_end-Ends :
    (side : Side) (er : Option ReadError) (s : Pipe × Copy)
    → ((round_end side er s).1.src ≡ s.1.src)
      × (er ≢ none → (round_end side er s).1.returned ≢ none)
unfolding round_end
round_end-Ends side er (p, c) = after c.returned refl er
  where
    after :
        (r : Option (Option CopyError))
        → c.returned ≡ r
        → (er : Option ReadError)
        → let s = elim r as (λ _. Pipe × Copy) [
          | some e ↦ (p, c)
          | none ↦ elim er [ none ↦ (p, c) | some x ↦ read_end side x (p, c) ]
        ] in
          (s.1.src ≡ c.src) × (er ≢ none → s.1.returned ≢ none)
    after (some e) h er = (refl, (λ _ n. ground (arith, n, h)))
    after none h none = (refl, (λ n. absurd (n refl)))
    after none h (some x) = ((read_end-Ends side x p c).0, (λ _. (read_end-Ends side x p c).1))

-- A source that can be read on.
pub record IsReadable (b : Reader) : Type 0 where
  pub inv : Inv b
  pub room : 0 < length b.buf

copy_round-work :
    (side : Side) (is_http : KeepAlive) (w : Write) (p : Pipe) (c : Copy)
    → Spares is_http side p c
    → IsReadable c.src
    → let d = (copy_round side is_http w (p, c)).1 in
      IsReadable d.src × ((d.returned ≢ none) ⊎ (work d.src < work c.src))
unfolding copy_round
copy_round-work side is_http w p c l v =
    let res = read c.src copy_size in
    let c' = record c { src = res.0 } in
    let s : Pipe × Copy =
      if ltb 0 (length res.1) then forward side is_http w res.1 (p, c') else (p, c') in
    let (h, small) = read-Reads c.src copy_size v.inv in
    let same : s.1.src ≡ res.0 =
      if-elim (λ (x : Pipe × Copy). x.1.src ≡ res.0) (ltb 0 (length res.1))
        (λ _. forward-src side is_http w res.1 p c' l) (λ _. refl) in
    let (kept, ends) = round_end-Ends side res.2 s in
    let src = kept ∙ same in
    (
      subst IsReadable (sym src)
          (record { inv = h.inv; room = omega (arith, v.room, h.same_size) }),
      elim (read-work c.src copy_size v.inv (omega arith) v.room) [
        | inl e ↦ inl (ends e)
        | inr e ↦ inr (subst (λ b. work b < work c.src) (sym src) e)
      ],
    )

-- How often a side has its turn.
abbrev pub turns_of : Side → List (Side × Write) → ℕ
turns_of side [] = 0
turns_of request ((request, w) ∷ ss) = suc (turns_of request ss)
turns_of request ((server, w) ∷ ss) = turns_of request ss
turns_of server ((request, w) ∷ ss) = turns_of server ss
turns_of server ((server, w) ∷ ss) = suc (turns_of server ss)

-- Where a copy stands after some of its turns: it has returned, or each turn has used up work.
Nears : Copy → ℕ → Copy → Type 0
Nears c n d = IsReadable d.src × ((d.returned ≢ none) ⊎ (work d.src + n ≤ work c.src))

live_round-Nears :
    (side : Side) (is_http : KeepAlive) (w : Write) (p : Pipe) (c : Copy)
    → (c.returned ≡ none → Spares is_http side p c)
    → IsReadable c.src
    → Nears c 1 (live_round side is_http w (p, c)).1
unfolding Nears
live_round-Nears side is_http w p c l v = elim (live_round-cases side is_http w p c) [
  | inl e ↦
      subst (λ s. Nears c 1 s.1) (sym e.1)
        (let (k, near) = copy_round-work side is_http w p c (l e.0) v in
          (k, elim near [ inl x ↦ inl x | inr x ↦ inr (omega (arith, x)) ]))
  | inr e ↦ subst (λ s. Nears c 1 s.1) (sym e.1) (v, inl e.0)
]

-- A copy that has returned stays as it is.
live_round-returned :
    (side : Side) (is_http : KeepAlive) (w : Write) (p : Pipe) (c : Copy)
    → c.returned ≢ none
    → (live_round side is_http w (p, c)).1.returned ≢ none
live_round-returned side is_http w p c r = elim (live_round-cases side is_http w p c) [
  | inl e ↦ absurd (r e.0)
  | inr e ↦ subst (λ (s : Pipe × Copy). s.1.returned ≢ none) (sym e.1) r
]

-- The copy of a side.
abbrev pub copy_of : Side → Transfer → Copy
copy_of request t = t.up
copy_of server t = t.down

-- A turn, for a side: a round of its copy or nothing, and as many turns less.
turn-copy_of :
    (side : Side) (is_http : KeepAlive) (s : Side × Write) (ss : List (Side × Write)) (t : Transfer)
    → ((copy_of side (turn is_http s t) ≡ copy_of side t)
        × (turns_of side (s ∷ ss) ≡ turns_of side ss))
      ⊎ ((copy_of side (turn is_http s t)
            ≡ (live_round side is_http s.1 (t.pipe, copy_of side t)).1)
          × (turns_of side (s ∷ ss) ≡ suc (turns_of side ss)))
unfolding turn
turn-copy_of request is_http (request, w) ss t = inr (refl, refl)
turn-copy_of request is_http (server, w) ss t = inl (refl, refl)
turn-copy_of server is_http (request, w) ss t = inl (refl, refl)
turn-copy_of server is_http (server, w) ss t = inr (refl, refl)

run_turns-stays :
    (side : Side) (is_http : KeepAlive) (ss : List (Side × Write)) (t : Transfer)
    → (copy_of side t).returned ≢ none
    → (copy_of side (run_turns is_http ss t)).returned ≢ none
unfolding run_turns
run_turns-stays side is_http [] t r = r
run_turns-stays side is_http (s ∷ ss) t r =
    run_turns-stays side is_http ss (turn is_http s t) (elim (turn-copy_of side is_http s ss t) [
      | inl e ↦ subst (λ (c : Copy). c.returned ≢ none) (sym e.0) r
      | inr e ↦
          subst (λ (c : Copy). c.returned ≢ none) (sym e.0)
            (live_round-returned side is_http s.1 t.pipe (copy_of side t) r)
    ])

-- What the check spares in a turn of a side, and in those behind it.
spared :
    (side : Side) (is_http : KeepAlive) (s : Side × Write) (ss : List (Side × Write)) (t : Transfer)
    → Undisturbed is_http (s ∷ ss) t
    → (turns_of side (s ∷ ss) ≡ suc (turns_of side ss)
        → (copy_of side t).returned ≡ none
        → Spares is_http side t.pipe (copy_of side t))
      × Undisturbed is_http ss (turn is_http s t)
spared request is_http (request, w) ss t l = ((λ _ r. l.0 r), l.1)
spared request is_http (server, w) ss t l = ((λ e. absurd (omega (arith, e))), l)
spared server is_http (request, w) ss t l = ((λ e. absurd (omega (arith, e))), l.1)
spared server is_http (server, w) ss t l = ((λ _ r. tt), l)

run_turns-Nears :
    (side : Side) (is_http : KeepAlive) (ss : List (Side × Write)) (t : Transfer)
    → Undisturbed is_http ss t
    → IsReadable (copy_of side t).src
    → (copy_of side (run_turns is_http ss t)).returned ≢ none
      ⊎ (turns_of side ss ≤ work (copy_of side t).src)
unfolding run_turns Nears
run_turns-Nears side is_http [] t l v = inr (omega arith)
run_turns-Nears side is_http (s ∷ ss) t l v =
    let (here, behind) = spared side is_http s ss t l in
    let c = copy_of side t in
    let t' = turn is_http s t in
    elim (turn-copy_of side is_http s ss t) [
      | inl (e, n) ↦
          elim (run_turns-Nears side is_http ss t' behind
            (subst (λ (d : Copy). IsReadable d.src) (sym e) v)) [
              | inl x ↦ inl x
              | inr x ↦ inr (omega (arith, x, n, ap (λ (d : Copy). work d.src) e))
            ]
      | inr (e, n) ↦
          let (k, near) =
            subst (Nears c 1) (sym e) (live_round-Nears side is_http s.1 t.pipe c (here n) v) in
          elim near [
            | inl r ↦ inl (run_turns-stays side is_http ss t' r)
            | inr less ↦ elim (run_turns-Nears side is_http ss t' behind k) [
              | inl x ↦ inl x
              | inr x ↦ inr (omega (arith, x, n, less))
            ]
          ]
    ]

some_end : (o : Option (Option CopyError)) → o ≢ none → (e : Option CopyError) × (o ≡ some e)
some_end none n = absurd (n refl)
some_end (some e) n = (e, refl)

run_turns_end :
    (side : Side) (is_http : KeepAlive) (ss : List (Side × Write)) (t : Transfer)
    → Undisturbed is_http ss t
    → IsReadable (copy_of side t).src
    → work (copy_of side t).src < turns_of side ss
    → (e : Option CopyError) × ((copy_of side (run_turns is_http ss t)).returned ≡ some e)
run_turns_end side is_http ss t l v enough =
    some_end (copy_of side (run_turns is_http ss t)).returned
      (elim (run_turns-Nears side is_http ss t l v) [
        | inl r ↦ r
        | inr x ↦ absurd (omega (arith, x, enough))
      ])

-- Whatever the order of the turns and however the writes end, where each check for a reused connection
-- that is made takes nothing more from it than the bytes it was given:
-- each copy of a transfer has returned when it had more turns than there are bytes and arrivals left in its source, if its reader has a
-- buffer and indices in order.
pub run_turns-returns :
    (is_http : KeepAlive) (ss : List (Side × Write)) (unread : ℤ) (from_client from_server : Reader)
    → IsReadable from_client
    → IsReadable from_server
    → Undisturbed is_http ss (start_transfer unread from_client from_server)
    → let t = run_turns is_http ss (start_transfer unread from_client from_server) in
      (work from_client < turns_of request ss → (e : Option CopyError) × (t.up.returned ≡ some e))
      × (work from_server < turns_of server ss
          → (e : Option CopyError) × (t.down.returned ≡ some e))
run_turns-returns is_http ss unread from_client from_server v w l =
    let t = start_transfer unread from_client from_server in
    (run_turns_end request is_http ss t l v, run_turns_end server is_http ss t l w)
