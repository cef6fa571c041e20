-- ===== src/TextReader/Ending.antt =====
-- proto/text/reader.go: `ReadHeader` ends, whatever the peer sends and however the connection fails.
use anyproxy.Base.{
  ℕ, zero, suc, ◌+◌, ◌≤◌, ◌<◌, ◌≡◌, inl, inr, refl, ap, Bytes, [], ◌∷◌, ◌++◌, length-append, Option,
  none, some, length, arith, Bool-cases, ◌==◌, ◌&&◌, bytes_eq, subst, if-elim, is_empty, Result, ok,
  err,
}
use anyproxy.TcpReader.{drop_break_of, ReadError, Script, Reader, buffered}
use anyproxy.TcpReader.Stream.{stream, Inv, Hands, Hands-trans}
use anyproxy.TcpReader.Steady.{IsSteady}
use anyproxy.TcpReader.Peeks.{peek-Looks}
use anyproxy.TcpReader.Peers.{Plain, Plain-IsSteady}
use anyproxy.Header.{Header}
use anyproxy.TextReader.{
  TextError, malformed_initial, read_failed, newline_count, upcoming_header_newlines, HeaderStep,
  crash, stop, next, header_field, keep_field, field_step, drop_break, crlf, header_step,
  header_loop, starts_blank, read_fields, read_header,
}
use anyproxy.TextReader.Slice.{
  GoodSlice, SliceEnd, whole_slice, cut_slice, read_line_slice-GoodSlice,
}

-- The outcome of reading a header, whose bytes were handed out once and in order.
pub record IsHeaderOf (b : Reader) (res : Reader × Header × Option TextError) : Type 0 where
  pub bytes : Bytes
  pub hands : Hands b bytes res.0

-- The operation ends with such an outcome.
pub EndsOn : Reader → Option (Reader × Header × Option TextError) → Type 0
EndsOn b r = (res : Reader × Header × Option TextError) × (r ≡ some res) × IsHeaderOf b res

behind :
    (b c : Reader) (s : Bytes) (r : Option (Reader × Header × Option TextError))
    → Hands b s c
    → EndsOn c r
    → EndsOn b r
unfolding EndsOn
behind b c s r h (res, e, k) =
    (res, e, record { bytes = s ++ k.bytes; hands = Hands-trans h k.hands })

-- A step that goes on had a line, so a byte was handed out.
some_line :
    (m : Header) (hint : ℕ) (last kv : Bytes) (e : Option ReadError) (m' : Header) (hint' : ℕ)
    (last' : Bytes)
    → header_step m hint last kv e ≡ next m' hint' last'
    → 0 < length kv
unfolding header_step
some_line m hint last [] e m' hint' last' h = absurd (ground (arith, h))
some_line m hint last (c ∷ kv) e m' hint' last' h = omega arith

-- A step does not panic.
abbrev Steps : HeaderStep → Type 0
Steps crash = ⊥
Steps (stop m x) = Unit {0}
Steps (next m hint last) = Unit {0}

field_step-Steps :
    (m : Header) (hint : ℕ) (last : Bytes) (e : Option ReadError) (kv : Bytes)
    → Steps (field_step m hint last e kv)
unfolding field_step keep_field
field_step-Steps m hint last e kv =
    if-elim Steps (is_empty kv) (λ _. tt) (λ _. of (header_field kv) e)
  where
    of :
        (r : Result TextError (Bytes × Bytes)) (e : Option ReadError)
        → Steps (elim r as (λ _. HeaderStep) [
          | err x ↦ stop m (some x)
          | ok field ↦ keep_field m hint last e field
        ])
    of (err x) e = tt
    of (ok (key, value)) none = if-elim Steps (is_empty key) (λ _. tt) (λ _. tt)
    of (ok (key, value)) (some x) = if-elim Steps (is_empty key) (λ _. tt) (λ _. tt)

-- The break is dropped only of a line that has a byte.
header_step-Steps :
    (m : Header) (hint : ℕ) (last kv : Bytes) (e : Option ReadError)
    → Steps (header_step m hint last kv e)
unfolding header_step drop_break
header_step-Steps m hint last [] none = tt
header_step-Steps m hint last [] (some x) = tt
header_step-Steps m hint last (c ∷ kv) e =
    if-elim Steps (bytes_eq (c ∷ kv) crlf && bytes_eq last crlf) (λ _. tt)
      (λ _. field_step-Steps m hint _ e (drop_break_of (c ∷ kv)))

got_some :
    (P : Script → Option ReadError → Type 0) (got : Bytes) (res : Reader × Bytes × Option ReadError)
    (s : IsSteady P)
    → SliceEnd P s [] got res
    → 0 < length res.1
    → 0 < length got
got_some P got res s (whole_slice e before eq l r) n = omega (arith, n, ap length r)
got_some P got res s (cut_slice x l p q (inl (e, r))) n = omega (arith, n, ap length r)
got_some P got res s (cut_slice x l p q (inr (e, r))) n = absurd (omega (arith, n, ap length r))

header_loop-EndsOn :
    (fuel : ℕ) (m : Header) (hint : ℕ) (last : Bytes) (b : Reader)
    → 2 ≤ length b.buf
    → Inv b
    → Plain b.rd b.error
    → length (stream b) < fuel
    → EndsOn b (header_loop fuel m hint last b)
unfolding header_loop EndsOn
header_loop-EndsOn zero m hint last b two v p f = elim f [ ]
header_loop-EndsOn (suc fuel) m hint last b two v p f =
    let (res, e, g) = read_line_slice-GoodSlice Plain Plain-IsSteady b two v p in
    rw (e, header_loop)
      (stepped res g (header_step m hint last res.1 res.2) refl (λ m' hint' last' some_bytes.
        header_loop-EndsOn fuel m' hint' last' res.0 (omega (arith, two, g.hands.same_size))
          g.hands.inv g.keeps
          (omega
            (arith, f, ap length g.hands.handed, length-append g.got (stream res.0), some_bytes))))
  where
    stepped :
        (res : Reader × Bytes × Option ReadError)
        → (g : GoodSlice Plain Plain-IsSteady [] b res) → (step : HeaderStep)
        → header_step m hint last res.1 res.2 ≡ step
        → ((m' : Header) (hint' : ℕ) (last' : Bytes)
            → 0 < length g.got
            → EndsOn res.0 (header_loop fuel m' hint' last' res.0))
        → EndsOn b (elim step as (λ _. Option (Reader × Header × Option TextError)) [
          | crash ↦ none
          | stop m' x ↦ some (res.0, m', x)
          | next m' hint' last' ↦ header_loop fuel m' hint' last' res.0
        ])
    stepped res g crash e ih = absurd (subst Steps e (header_step-Steps m hint last res.1 res.2))
    stepped res g (stop m' x) e ih = (_, refl, record { bytes = g.got; hands = g.hands })
    stepped res g (next m' hint' last') e ih = behind b res.0 g.got _ g.hands (
        ih m' hint' last' (
          got_some Plain g.got res Plain-IsSteady g.ending
            (some_line m hint last res.1 res.2 m' hint' last' e)))

module _ (P : Script → Option ReadError → Type 0) (s : IsSteady P) where
  -- Counting the lines ahead hands out nothing.
  pub upcoming_header_newlines-Hands :
      (b : Reader)
      → Inv b
      → P b.rd b.error
      → (c : Reader) × (n : ℕ) × (upcoming_header_newlines b ≡ some (c, n))
        × Hands b [] c
        × P c.rd c.error
  unfolding upcoming_header_newlines
  upcoming_header_newlines-Hands b v p =
      let (r1, e1, l1) = peek-Looks P s 1 b v p in
      let (r2, e2, l2) = peek-Looks P s (buffered r1.0) r1.0 l1.hands.inv l1.keeps in
      elim (Bool-cases (buffered r1.0 == 0)) [
        | inl none_left ↦
            (r1.0, 0, rw (e1, none_left, upcoming_header_newlines) refl, l1.hands, l1.keeps)
        | inr some_left ↦ (
          r2.0,
          newline_count (length r2.1) r2.1,
          rw (e1, some_left, e2, upcoming_header_newlines) refl,
          Hands-trans l1.hands l2.hands,
          l2.keeps,
        )
      ]

initial_line :
    (b : Reader) (res : Reader × Bytes × Option ReadError)
    → GoodSlice Plain Plain-IsSteady [] b res
    → EndsOn b (elim (some res) as (λ _. Option (Reader × Header × Option TextError)) [
      | none ↦ none
      | some (b2, line, none) ↦ some (b2, [], some (malformed_initial line))
      | some (b2, line, some x) ↦ some (b2, [], some (read_failed x))
    ])
unfolding EndsOn
initial_line b (c, line, none) g = (_, refl, record { bytes = g.got; hands = g.hands })
initial_line b (c, line, some x) g = (_, refl, record { bytes = g.got; hands = g.hands })

read_fields-EndsOn :
    (b : Reader) (hint : ℕ)
    → 2 ≤ length b.buf
    → Inv b
    → Plain b.rd b.error
    → EndsOn b (read_fields b hint)
unfolding read_fields
read_fields-EndsOn b hint two v p =
    let (r, e, l) = peek-Looks Plain Plain-IsSteady 1 b v p in
    let c = r.0 in
    let two_c : 2 ≤ length c.buf = omega (arith, two, l.hands.same_size) in
    elim (Bool-cases (starts_blank r.1 r.2)) [
      | inr field ↦
          rw (e, field, read_fields)
            (behind b c [] _ l.hands (
              header_loop-EndsOn (length (stream c) + 1) [] hint (0 ∷ 0 ∷ []) c two_c l.hands.inv
                l.keeps (omega arith)))
      | inl blank ↦
          let (line, e2, g) =
            read_line_slice-GoodSlice Plain Plain-IsSteady c two_c l.hands.inv l.keeps in
          rw (e, blank, e2, read_fields) (behind b c [] _ l.hands (initial_line c line g))
    ]

-- On a reader whose buffer has two bytes or more, whose indices are in order and in the buffer, and
-- whose connection does not fail with the reader's own `ErrBufferFull`, `ReadHeader` ends and does
-- not panic; the bytes it took are handed out once and in order.
pub read_header-IsHeaderOf :
    (b : Reader)
    → 2 ≤ length b.buf
    → Inv b
    → Plain b.rd b.error
    → (res : Reader × Header × Option TextError) × (read_header b ≡ some res) × IsHeaderOf b res
unfolding read_header EndsOn
read_header-IsHeaderOf b two v p =
    let (c, n, e, h, q) = upcoming_header_newlines-Hands Plain Plain-IsSteady b v p in
    rw (e, read_header)
      (behind b c [] (read_fields c n) h
        (read_fields-EndsOn c n (omega (arith, two, h.same_size)) h.inv q))
