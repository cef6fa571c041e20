-- ===== src/Tunnel/Copy/Account.antt =====
-- proto/tunnel.go: what a transfer does with the bytes it reads.
use Prim.Native.Nat.{min}
use anyproxy.Base.{
  ℕ, ◌+◌, true, false, Bytes, List, [], ◌∷◌, ◌++◌, append_assoc, Option, none, some, ltb, ◌==◌,
  if◌then◌else◌, length, length-append, length-take, take, drop, take-append-drop, length-drop, ℤ,
  pos, negsuc, ◌≡◌, ◌⊎◌, inl, inr, refl, sym, ap, ◌∙◌, arith, Bool-cases,
}
use anyproxy.TcpReader.{ReadError, Script, read}
use anyproxy.TcpReader.Stream.{stream, Inv, read-Reads}
use anyproxy.Tunnel.Copy.{
  KeepAlive, Side, request, server, state_closed, state_idle, Pipe, CopyError, read_failed,
  short_write, Copy, Write, copy_size, unread_minus, check_reuse, add_bytes, write_out, server_eof,
  is_eof, read_end, round_end, forward, copy_round,
}

abbrev pub sum : List ℕ → ℕ
sum [] = 0
sum (n ∷ ns) = n + sum ns

pub sum-append : (xs ys : List ℕ) → sum (xs ++ ys) ≡ sum xs + sum ys
sum-append [] ys = omega arith
sum-append (x ∷ xs) ys = omega (arith, sum-append xs ys)

-- The counter of a side.
abbrev pub counter_of : Side → Pipe → List ℕ
counter_of request p = p.inbound
counter_of server p = p.outbound

-- What a copy did with the bytes of its source: it sent the first of them, in order, and none is lost
-- before it returns; what it says it wrote, and what was added to its counter, is what it sent.
pub record Accounts (side : Side) (all : Bytes) (p : Pipe) (c : Copy) : Type 0 where
  pub unsent : Bytes
  pub split : all ≡ c.sent ++ (unsent ++ stream c.src)
  pub inv : Inv c.src
  pub lossless : c.returned ≡ none → unsent ≡ []
  pub written : c.written ≡ length c.sent
  pub counts : sum (counter_of side p) ≡ c.written

-- The same between a read and its `Write`, with the bytes in hand.
pub record Holds (side : Side) (all got : Bytes) (p : Pipe) (c : Copy) : Type 0 where
  pub split : all ≡ c.sent ++ (got ++ stream c.src)
  pub inv : Inv c.src
  pub written : c.written ≡ length c.sent
  pub counts : sum (counter_of side p) ≡ c.written

counter_of-add_bytes :
    (side : Side) (n : ℕ) (p : Pipe)
    → sum (counter_of side (add_bytes side n p)) ≡ sum (counter_of side p) + n
unfolding add_bytes
counter_of-add_bytes request n p = omega (arith, sum-append p.inbound (n ∷ []))
counter_of-add_bytes server n p = omega (arith, sum-append p.outbound (n ∷ []))

add_some :
    (side : Side) (n : ℕ) (p : Pipe)
    → sum (counter_of side (if ltb 0 n then add_bytes side n p else p))
      ≡ sum (counter_of side p) + n
add_some side n p = elim (Bool-cases (ltb 0 n)) [
  | inl e ↦ rw e (counter_of-add_bytes side n p)
  | inr e ↦ rw e (ground arith)
]

nothing_left : (s : Bytes) → length s ≡ 0 → s ≡ []
nothing_left [] e = refl
nothing_left (x ∷ s) e = absurd (omega arith)

write_out-Accounts :
    (side : Side) (w : Write) (all got : Bytes) (p : Pipe) (c : Copy)
    → Holds side all got p c
    → c.returned ≡ none
    → let s = write_out side w got (p, c) in Accounts side all s.0 s.1
unfolding write_out
write_out-Accounts side w all got p c h r = ended w.error
  where
    nw : ℕ
    nw = min w.accepts (length got)

    c' : Copy
    c' = record c { sent = c.sent ++ take nw got; written = c.written + nw }

    p' : Pipe
    p' = if ltb 0 nw then add_bytes side nw p else p

    sent : all ≡ c'.sent ++ (drop nw got ++ stream c.src)
    sent =
        h.split
        ∙ ap (λ g. c.sent ++ (g ++ stream c.src)) (sym (take-append-drop nw got))
        ∙ ap (◌++◌ c.sent) (append_assoc (take nw got) (drop nw got) (stream c.src))
        ∙ sym (append_assoc c.sent (take nw got) (drop nw got ++ stream c.src))

    made :
        (r : Option (Option CopyError))
        → (r ≡ none → drop nw got ≡ [])
        → Accounts side all p' (record c' { returned = r })
    made r none_lost = record {
      unsent = drop nw got;
      split = sent;
      inv = h.inv;
      lossless = none_lost;
      written = omega (arith, h.written, length-append c.sent (take nw got), length-take nw got);
      counts = add_some side nw p ∙ ap (λ k. k + nw) h.counts;
    }

    ended :
        (e : Option ℕ)
        → let s = elim e as (λ _. Pipe × Copy) [
          | some e ↦ (p', record c' { returned = some (some (CopyError.write_failed e)) })
          | none ↦
              (if length got == nw
                then (p', c')
                else (p', record c' { returned = some (some short_write) }))
        ] in
          Accounts side all s.0 s.1
    ended (some e) = made (some (some (CopyError.write_failed e))) (λ x. absurd (ground (arith, x)))
    ended none = elim (Bool-cases (length got == nw)) [
      | inl e ↦ rw e (
          made c.returned (λ _. nothing_left (drop nw got) (ground (arith, length-drop nw got, e))))
      | inr e ↦ rw e (made (some (some short_write)) (λ x. absurd (ground (arith, x))))
    ]

-- A copy that returned, or whose loop goes on, with another end of its own.
reads_end :
    (side : Side) (all : Bytes) (p q : Pipe) (c : Copy) (e : Option CopyError)
    → counter_of side q ≡ counter_of side p
    → Accounts side all p c
    → Accounts side all q (record c { returned = some e })
reads_end side all p q c e same a = record {
  unsent = a.unsent;
  split = a.split;
  inv = a.inv;
  lossless = λ x. absurd (ground (arith, x));
  written = a.written;
  counts = ap sum same ∙ a.counts;
}

server_eof_inbound :
    (p : Pipe) → ((server_eof p).inbound ≡ p.inbound) × ((server_eof p).outbound ≡ p.outbound)
unfolding server_eof
server_eof_inbound p = ground arith

read_end-Accounts :
    (side : Side) (x : ReadError) (all : Bytes) (p : Pipe) (c : Copy)
    → Accounts side all p c
    → let s = read_end side x (p, c) in Accounts side all s.0 s.1
unfolding read_end
read_end-Accounts request x all p c a =
    reads_end request all p (record p { server_closed = true; cur_state = state_closed }) c _ refl a
read_end-Accounts server x all p c a = elim (Bool-cases (is_eof x)) [
  | inl e ↦ rw e (reads_end server all p (server_eof p) c none (server_eof_inbound p).1 a)
  | inr e ↦ rw e (reads_end server all p p c (some (read_failed x)) refl a)
]

round_end-Accounts :
    (side : Side) (er : Option ReadError) (all : Bytes) (s : Pipe × Copy)
    → Accounts side all s.0 s.1
    → let r = round_end side er s in Accounts side all r.0 r.1
unfolding round_end
round_end-Accounts side er all (p, c) a = after c.returned er
  where
    after :
        (r : Option (Option CopyError)) (er : Option ReadError)
        → let s = elim r as (λ _. Pipe × Copy) [
          | some e ↦ (p, c)
          | none ↦ elim er [ none ↦ (p, c) | some x ↦ read_end side x (p, c) ]
        ] in
          Accounts side all s.0 s.1
    after (some e) er = a
    after none none = a
    after none (some x) = read_end-Accounts side x all p c a

-- The check, where it is made of bytes of the request, takes nothing from the connection behind them.
abbrev pub Leaves : KeepAlive → Side → Bytes → Pipe → Script → Type 0
Leaves is_http server got p rd = Unit {0}
Leaves is_http request got p rd = p.client_unread ≡ pos 0 → (is_http got rd).1 ≡ rd

-- So does the check that the next round of a copy makes, if it makes one.
abbrev pub Spares : KeepAlive → Side → Pipe → Copy → Type 0
Spares is_http side p c = let res = read c.src copy_size in Leaves is_http side res.1 p res.0.rd

-- The two outcomes of such a check for a reused connection.
pub check_reuse-cases :
    (is_http : KeepAlive) (p : Pipe) (got : Bytes) (rd : Script)
    → Leaves is_http request got p rd
    → (check_reuse is_http p got rd
        ≡ (record p { server_closed = true; cur_state = state_idle; buf = got }, true, rd))
      ⊎ ((u : ℤ) × (check_reuse is_http p got rd ≡ (record p { client_unread = u }, false, rd)))
unfolding check_reuse
check_reuse-cases is_http p got rd l = of_unread p.client_unread refl
  where
    of_unread :
        (u : ℤ)
        → p.client_unread ≡ u
        → (check_reuse is_http p got rd
            ≡ (record p { server_closed = true; cur_state = state_idle; buf = got }, true, rd))
          ⊎ ((u : ℤ) × (check_reuse is_http p got rd ≡ (record p { client_unread = u }, false, rd)))
    of_unread (negsuc n) e =
        inr
          (negsuc n, rw (e, check_reuse) (ap (λ u. (record p { client_unread = u }, false, rd)) e))
    of_unread (pos n) e = elim (Bool-cases (n == 0)) [
      | inr f ↦ inr (unread_minus n (length got), rw (e, f, check_reuse) refl)
      | inl f ↦ elim (Bool-cases (is_http got rd).0) [
        | inl g ↦ inl (
            rw (e, f, g, l (ground (arith, e, f)), check_reuse)
              (ap
                (λ u. (
                  record p {
                    server_closed = true;
                    cur_state = state_idle;
                    buf = got;
                    client_unread = u;
                  },
                  true,
                  rd,
                ))
                e))
        | inr g ↦ inr (negsuc 0, rw (e, f, g, l (ground (arith, e, f)), check_reuse) refl)
      ]
    ]

forward-Accounts :
    (side : Side) (is_http : KeepAlive) (w : Write) (all got : Bytes) (p : Pipe) (c : Copy)
    (l : Leaves is_http side got p c.src.rd)
    → Holds side all got p c
    → c.returned ≡ none
    → let s = forward side is_http w got (p, c) in Accounts side all s.0 s.1
unfolding forward
forward-Accounts server is_http w all got p c l h r = write_out-Accounts server w all got p c h r
forward-Accounts request is_http w all got p c l h r =
    elim (check_reuse-cases is_http p got c.src.rd l) [
      | inl e ↦
          rw (e, forward)
            (record {
              unsent = got;
              split = h.split;
              inv = h.inv;
              lossless = λ x. absurd (ground (arith, x));
              written = h.written;
              counts = h.counts;
            })
      | inr (u, e) ↦
          rw (e, forward)
            (write_out-Accounts request w all got (record p { client_unread = u }) c
              (record { split = h.split; inv = h.inv; written = h.written; counts = h.counts }) r)
    ]

-- The bytes that a round read, in hand.
pub read-Holds :
    (side : Side) (all : Bytes) (p : Pipe) (c : Copy)
    → Accounts side all p c
    → c.returned ≡ none
    → let res = read c.src copy_size in Holds side all res.1 p (record c { src = res.0 })
read-Holds side all p c a r =
    let (h, small) = read-Reads c.src copy_size a.inv in
    record {
      split =
          a.split
          ∙ ap (λ u. c.sent ++ (u ++ stream c.src)) (a.lossless r)
          ∙ ap (◌++◌ c.sent) h.handed;
      inv = h.inv;
      written = a.written;
      counts = a.counts;
    }

pub copy_round-Accounts :
    (side : Side) (is_http : KeepAlive) (w : Write) (all : Bytes) (p : Pipe) (c : Copy)
    (l : Spares is_http side p c)
    → Accounts side all p c
    → c.returned ≡ none
    → let s = copy_round side is_http w (p, c) in Accounts side all s.0 s.1
unfolding copy_round
copy_round-Accounts side is_http w all p c l a r =
    let res = read c.src copy_size in
    let c' = record c { src = res.0 } in
    let h = read-Holds side all p c a r in
    round_end-Accounts side res.2 all
      (if ltb 0 (length res.1) then forward side is_http w res.1 (p, c') else (p, c'))
      (elim (Bool-cases (ltb 0 (length res.1))) [
        | inl e ↦ rw e (forward-Accounts side is_http w all res.1 p c' l h r)
        | inr e ↦ rw e (record {
          unsent = res.1;
          split = h.split;
          inv = h.inv;
          lossless = λ _. nothing_left res.1 (ground (arith, e));
          written = h.written;
          counts = h.counts;
        })
      ])
