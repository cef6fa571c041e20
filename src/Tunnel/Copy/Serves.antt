-- ===== src/Tunnel/Copy/Serves.antt =====
-- proto/tunnel.go: what one round of the copy from the server changes besides what it sends.
use Prim.Native.Nat.{min}
use anyproxy.Base.{
  ℕ, true, Bytes, [], ◌∷◌, ◌++◌, Option, none, some, ltb, if◌then◌else◌, length, ◌≡◌, ◌≢◌, inl, inr,
  refl, sym, ap, ◌∙◌, arith, Bool-cases,
}
use anyproxy.TcpReader.{ReadError, read}
use anyproxy.Tunnel.Copy.{
  KeepAlive, server, CurState, state_new, state_active, state_closed, state_idle, Pipe, CopyError,
  Copy, Write, copy_size, add_bytes, server_eof, is_eof, read_end, round_end, forward, copy_round,
}
use anyproxy.Tunnel.Copy.Rounds.{write_out-pipe}

-- What a round of the server changes besides: at its end of file, a connection that is idle is used
-- again, and one that is neither idle nor closed is closed.
pub data Ended (p q : Pipe) (c : Copy) : Type 0 where
  goes_on : q.reused ≡ p.reused → q.client_closed ≡ p.client_closed → Ended p q c
  reuses :
      q.reused ≡ p.reused ++ p.buf ∷ []
      → q.client_closed ≡ p.client_closed
      → p.cur_state ≡ state_idle
      → c.returned ≢ none
      → Ended p q c
  closes : q.reused ≡ p.reused → c.returned ≢ none → Ended p q c

pub record Serves (p q : Pipe) (c : Copy) : Type 0 where
  pub same_in : q.inbound ≡ p.inbound
  pub same_state : q.cur_state ≡ p.cur_state
  pub same_buf : q.buf ≡ p.buf
  pub ended : Ended p q c

added_down :
    (n : ℕ) (q : Pipe) (c : Copy) → Serves q (if ltb 0 n then add_bytes server n q else q) c
unfolding add_bytes
added_down n q c = elim (Bool-cases (ltb 0 n)) [
  | inl e ↦
      rw e
        (record { same_in = refl; same_state = refl; same_buf = refl; ended = goes_on refl refl })
  | inr e ↦
      rw e
        (record { same_in = refl; same_state = refl; same_buf = refl; ended = goes_on refl refl })
]

server_eof-Ended : (p : Pipe) (c : Copy) → c.returned ≢ none → Serves p (server_eof p) c
unfolding server_eof
server_eof-Ended p c n = by_state p.cur_state refl
  where
    by_state :
        (k : CurState)
        → p.cur_state ≡ k
        → Serves p
            (elim k as (λ _. Pipe) [
              | state_idle ↦ record p { reused = p.reused ++ p.buf ∷ [] }
              | state_closed ↦ p
              | state_new ↦ record p { client_closed = true }
              | state_active ↦ record p { client_closed = true }
            ])
            c
    by_state state_idle e = record {
      same_in = refl;
      same_state = refl;
      same_buf = refl;
      ended = reuses refl refl e n;
    }
    by_state state_closed e = record {
      same_in = refl;
      same_state = refl;
      same_buf = refl;
      ended = goes_on refl refl;
    }
    by_state state_new e = record {
      same_in = refl;
      same_state = refl;
      same_buf = refl;
      ended = closes refl n;
    }
    by_state state_active e = record {
      same_in = refl;
      same_state = refl;
      same_buf = refl;
      ended = closes refl n;
    }

-- A change of the counter comes before the end.
Serves-trans :
    (p q r : Pipe) (c d : Copy)
    → q.reused ≡ p.reused
    → q.client_closed ≡ p.client_closed
    → Serves p q c
    → Serves q r d
    → Serves p r d
Serves-trans p q r c d er ec a b = record {
  same_in = b.same_in ∙ a.same_in;
  same_state = b.same_state ∙ a.same_state;
  same_buf = b.same_buf ∙ a.same_buf;
  ended = whole b.ended;
}
  where
    whole : Ended q r d → Ended p r d
    whole (goes_on x y) = goes_on (x ∙ er) (y ∙ ec)
    whole (reuses x y i n) =
        reuses (x ∙ ap (λ t. t ++ q.buf ∷ []) er ∙ ap (λ t. p.reused ++ t ∷ []) a.same_buf) (y ∙ ec)
          (sym a.same_state ∙ i) n
    whole (closes x n) = closes (x ∙ er) n

read_end-Serves :
    (x : ReadError) (q : Pipe) (c : Copy) → let s = read_end server x (q, c) in Serves q s.0 s.1
unfolding read_end
read_end-Serves x q c = elim (Bool-cases (is_eof x)) [
  | inl e ↦ rw e (server_eof-Ended q (record c { returned = some none }) (λ h. ground (arith, h)))
  | inr e ↦
      rw e
        (record { same_in = refl; same_state = refl; same_buf = refl; ended = goes_on refl refl })
]

round_end-Serves :
    (er : Option ReadError) (s : Pipe × Copy) → let r = round_end server er s in Serves s.0 r.0 r.1
unfolding round_end
round_end-Serves er (q, c) = after c.returned er
  where
    still : Serves q q c
    still = record { same_in = refl; same_state = refl; same_buf = refl; ended = goes_on refl refl }

    after :
        (r : Option (Option CopyError)) (er : Option ReadError)
        → let s = elim r as (λ _. Pipe × Copy) [
          | some e ↦ (q, c)
          | none ↦ elim er [ none ↦ (q, c) | some x ↦ read_end server x (q, c) ]
        ] in
          Serves q s.0 s.1
    after (some e) er = still
    after none none = still
    after none (some x) = read_end-Serves x q c

forward_down :
    (is_http : KeepAlive) (w : Write) (got : Bytes) (p : Pipe) (c : Copy)
    → let q = (forward server is_http w got (p, c)).0 in
      Serves p q c × (q.reused ≡ p.reused) × (q.client_closed ≡ p.client_closed)
unfolding forward add_bytes
forward_down is_http w got p c =
    let nw = min w.accepts (length got) in
    rw (write_out-pipe server w got p c) (elim (Bool-cases (ltb 0 nw)) [
      | inl e ↦ rw e (
        record { same_in = refl; same_state = refl; same_buf = refl; ended = goes_on refl refl },
        refl,
        refl,
      )
      | inr e ↦ rw e (
        record { same_in = refl; same_state = refl; same_buf = refl; ended = goes_on refl refl },
        refl,
        refl,
      )
    ])

pub copy_round-Serves :
    (is_http : KeepAlive) (w : Write) (p : Pipe) (c : Copy)
    → let s = copy_round server is_http w (p, c) in Serves p s.0 s.1
unfolding copy_round
copy_round-Serves is_http w p c =
    let res = read c.src copy_size in
    let c' = record c { src = res.0 } in
    elim (Bool-cases (ltb 0 (length res.1))) [
      | inl e ↦
          let s = forward server is_http w res.1 (p, c') in
          let (a, r, k) = forward_down is_http w res.1 p c' in
          let t = round_end server res.2 s in
          rw e (Serves-trans p s.0 t.0 c' t.1 r k a (round_end-Serves res.2 s))
      | inr e ↦ rw e (round_end-Serves res.2 (p, c'))
    ]
