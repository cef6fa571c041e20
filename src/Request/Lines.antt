-- ===== src/Request/Lines.antt =====
-- proto/text/reader.go: a line that is read without its break.
use anyproxy.Base.{
  ◌≢◌, sym, ℕ, zero, suc, ◌+◌, ◌≤◌, ◌≡◌, inl, inr, ap, Bool, true, false, Bytes, [], ◌∷◌, ◌++◌,
  Option, none, some, length, if◌then◌else◌, arith, Bool-cases, Option-cases,
}
use anyproxy.TcpReader.{
  drop_break_of, ReadError, Reader, LineRead, read_slice, read_line, is_buffer_full, full_line,
  whole_line,
}
use anyproxy.TcpReader.Stream.{stream, Inv, Hands}
use anyproxy.TcpReader.Peers.{Plain, Plain-IsSteady}
use anyproxy.TextReader.{read_slice_parts, read_line_slice}
use anyproxy.TextReader.Slice.{read_line_slice-GoodSlice}

pub some_inj : {A : Type 0} (a b : A) → some a ≡ some b → a ≡ b
some_inj {A} a b e = ap (λ (o : Option A). elim o as (λ _. A) [ none ↦ a | some x ↦ x ]) e

-- A part of a line is the same where breaks are dropped, and a line loses its break.
pub read_line-part :
    (b : Reader) (lr : LineRead)
    → read_line false b ≡ some lr
    → lr.is_prefix ≡ true
    → read_line true b ≡ some lr
unfolding read_line whole_line
read_line-part b lr e p = elim (Option-cases (read_slice b b'\n')) [
  | inl h ↦ absurd (ground (arith, rw (h, read_line) at e))
  | inr (res, h) ↦ rw (h, read_line) (sliced res (rw (h, read_line) at e))
]
  where
    whole :
        (c : Reader) (s : Bytes) (x : Option ReadError)
        → some (whole_line false c s x) ≡ some lr
        → some (whole_line true c s x) ≡ some lr
    whole c [] x h =
        absurd (ground (arith, ap (λ l. l.is_prefix) (some_inj {A = LineRead} _ lr h), p))
    whole c (y ∷ s) x h =
        absurd (ground (arith, ap (λ l. l.is_prefix) (some_inj {A = LineRead} _ lr h), p))

    sliced :
        (res : Reader × Bytes × Option ReadError)
        → (if is_buffer_full res.2
            then full_line res.0 res.1
            else some (whole_line false res.0 res.1 res.2))
          ≡ some lr
        → (if is_buffer_full res.2
            then full_line res.0 res.1
            else some (whole_line true res.0 res.1 res.2))
          ≡ some lr
    sliced (c, s, x) h = elim (Bool-cases (is_buffer_full x)) [
      | inl f ↦ rw f (rw f at h)
      | inr f ↦ rw f (whole c s x (rw f at h))
    ]

pub read_line-whole :
    (b : Reader) (lr : LineRead)
    → read_line false b ≡ some lr
    → lr.is_prefix ≡ false
    → lr.line ≢ []
    → read_line true b ≡ some (record lr { line = drop_break_of lr.line })
unfolding read_line whole_line full_line
read_line-whole b lr e p n = elim (Option-cases (read_slice b b'\n')) [
  | inl h ↦ absurd (ground (arith, rw (h, read_line) at e))
  | inr (res, h) ↦ rw (h, read_line) (sliced res (rw (h, read_line) at e))
]
  where
    dropped : LineRead → Option LineRead
    dropped l = some (record l { line = drop_break_of l.line })

    whole :
        (c : Reader) (s : Bytes) (x : Option ReadError)
        → some (whole_line false c s x) ≡ some lr
        → some (whole_line true c s x) ≡ dropped lr
    whole c [] x h = absurd (n (sym (ap (λ l. l.line) (some_inj {A = LineRead} _ lr h))))
    whole c (y ∷ s) x h = ap dropped (some_inj {A = LineRead} _ lr h)

    part : (c : Reader) (s : Bytes) → full_line c s ≡ some lr → ⊥
    part c s h = ground (arith, h, p)

    sliced :
        (res : Reader × Bytes × Option ReadError)
        → (if is_buffer_full res.2
            then full_line res.0 res.1
            else some (whole_line false res.0 res.1 res.2))
          ≡ some lr
        → (if is_buffer_full res.2
            then full_line res.0 res.1
            else some (whole_line true res.0 res.1 res.2))
          ≡ dropped lr
    sliced (c, s, x) h = elim (Bool-cases (is_buffer_full x)) [
      | inl f ↦ absurd (part c s (rw f at h))
      | inr f ↦ rw f (whole c s x (rw f at h))
    ]

-- Dropping the break changes nothing but the line.
read_line-drops :
    (b : Reader) (lr : LineRead)
    → read_line false b ≡ some lr
    → (line : Bytes) × (read_line true b ≡ some (record lr { line = line }))
unfolding read_line whole_line
read_line-drops b lr e = elim (Option-cases (read_slice b b'\n')) [
  | inl h ↦ absurd (ground (arith, rw (h, read_line) at e))
  | inr (res, h) ↦ rw (h, read_line) (sliced res (rw (h, read_line) at e))
]
  where
    sliced :
        (res : Reader × Bytes × Option ReadError)
        → (if is_buffer_full res.2
            then full_line res.0 res.1
            else some (whole_line false res.0 res.1 res.2))
          ≡ some lr
        → (line : Bytes) × ((if is_buffer_full res.2
              then full_line res.0 res.1
              else some (whole_line true res.0 res.1 res.2))
            ≡ some (record lr { line = line }))
    sliced (c, s, x) h = elim (Bool-cases (is_buffer_full x)) [
      | inl f ↦ rw f (lr.line, rw f at h)
      | inr f ↦ rw f (whole s x (rw f at h))
    ]
      where
        whole :
            (s : Bytes) (x : Option ReadError)
            → some (whole_line false c s x) ≡ some lr
            → (line : Bytes) × (some (whole_line true c s x) ≡ some (record lr { line = line }))
        whole [] x h = (
          [],
          ap (λ (l : LineRead). some (record l { line = [] })) (some_inj {A = LineRead} _ lr h),
        )
        whole (y ∷ s) x h =
            let line = (whole_line true c (y ∷ s) x).line in
            (
              line,
              ap (λ (l : LineRead). some (record l { line = line }))
                  (some_inj {A = LineRead} _ lr h),
            )

read_slice_parts-drops :
    (fuel : ℕ) (line line' : Bytes) (b : Reader) (res : Reader × Bytes × Option ReadError)
    → read_slice_parts fuel false line b ≡ some res
    → (got : Bytes) × (read_slice_parts fuel true line' b ≡ some (res.0, got, res.2))
unfolding read_slice_parts
read_slice_parts-drops zero line line' b res e = absurd (ground (arith, e))
read_slice_parts-drops (suc fuel) line line' b res e = elim (Option-cases (read_line false b)) [
  | inl h ↦ absurd (ground (arith, rw (h, read_slice_parts) at e))
  | inr (lr, h) ↦
      let (l, k) = read_line-drops b lr h in
      rw (k, read_slice_parts)
        (part (λ a b c. read_slice_parts-drops fuel a b c res) lr l lr.error lr.is_prefix
          (rw (h, read_slice_parts) at e))
]
  where
    part :
        ((line line' : Bytes) (b : Reader)
          → read_slice_parts fuel false line b ≡ some res
          → (got : Bytes) × (read_slice_parts fuel true line' b ≡ some (res.0, got, res.2)))
        → (lr : LineRead) (l : Bytes) (x : Option ReadError) (p : Bool)
        → (elim x as (λ _. Option (Reader × Bytes × Option ReadError)) [
          | some e ↦ some (lr.reader, [], some e)
          | none ↦ elim p [
            | true ↦ read_slice_parts fuel false (line ++ lr.line) lr.reader
            | false ↦ some (lr.reader, line ++ lr.line, none)
          ]
        ])
          ≡ some res
        → (got : Bytes) × ((elim x as (λ _. Option (Reader × Bytes × Option ReadError)) [
          | some e ↦ some (lr.reader, [], some e)
          | none ↦ elim p [
            | true ↦ read_slice_parts fuel true (line' ++ l) lr.reader
            | false ↦ some (lr.reader, line' ++ l, none)
          ]
        ])
            ≡ some (res.0, got, res.2))
    part ih lr l (some x) p e = (
      [],
      ap (λ (r : Reader × Bytes × Option ReadError). some (r.0, [], r.2))
          (some_inj {A = Reader × Bytes × Option ReadError} _ res e),
    )
    part ih lr l none true e = ih (line ++ lr.line) (line' ++ l) lr.reader e
    part ih lr l none false e = (
      line' ++ l,
      ap (λ (r : Reader × Bytes × Option ReadError). some (r.0, line' ++ l, r.2))
          (some_inj {A = Reader × Bytes × Option ReadError} _ res e),
    )

-- A line without its break is read from the bytes of the line.
pub record IsLine (b : Reader) (res : Reader × Bytes × Option ReadError) : Type 0 where
  pub taken : Bytes
  pub hands : Hands b taken res.0
  pub keeps : Plain res.0.rd res.0.error

pub read_line_slice-IsLine :
    (b : Reader)
    → 2 ≤ length b.buf
    → Inv b
    → Plain b.rd b.error
    → (res : Reader × Bytes × Option ReadError) × (read_line_slice true b ≡ some res) × IsLine b res
unfolding read_line_slice
read_line_slice-IsLine b two v p =
    let (res, e, g) = read_line_slice-GoodSlice Plain Plain-IsSteady b two v p in
    let (got, k) = read_slice_parts-drops (length (stream b) + 1) [] [] b res e in
    ((res.0, got, res.2), k, record { taken = g.got; hands = g.hands; keeps = g.keeps })
