-- ===== src/TcpReader/Lines.antt =====
-- proto/tcp/reader.go: `ReadSlice` ends, never panics, and stops at the first delimiter.
use anyproxy.Base.{
  ℕ, zero, suc, ◌+◌, ◌-◌, ◌≤◌, ◌<◌, ◌≡◌, ◌≢◌, ◌⊎◌, inl, inr, refl, sym, ap, ◌∙◌, true, false, Bytes,
  [], ◌∷◌, ◌++◌, append_assoc, append-nil, Option, none, some, leb, length, take, take-append_eq,
  slice, slice-split, slice_empty, length-slice, arith, Bool-cases, Option-cases, Lacks, All-append,
  index_byte,
}
use anyproxy.TcpReader.{
  ReadError, buffer_full, Reader, pending, buffered, fill, read_slice_loop, read_slice, with_last,
}
use anyproxy.TcpReader.Stream.{Inv, Hands, Hands-trans, stream, arriving, advance, fill_lem, Fills}

index_byte-none : (d : ℕ) (s : Bytes) → index_byte d s ≡ none → Lacks d s
unfolding index_byte
index_byte-none d [] e = tt
index_byte-none d (c ∷ s) e = ground (arith, index_byte-none d s)

index_byte-some :
    (d : ℕ) (s : Bytes) (i : ℕ)
    → index_byte d s ≡ some i
    → Lacks d (take i s) × (take (suc i) s ≡ take i s ++ d ∷ []) × (i < length s)
unfolding index_byte
index_byte-some d [] i e = absurd (cc)
index_byte-some d (c ∷ s) zero e = ground arith
index_byte-some d (c ∷ s) (suc i) e = ground (arith, index_byte-some d s i)

-- How a line ends: with its first delimiter and no error, or with an error and no delimiter.
abbrev pub Ends : ℕ → Bytes → Option ReadError → Type 0
Ends d line none = (before : Bytes) × (line ≡ before ++ d ∷ []) × Lacks d before
Ends d line (some e) = Lacks d line

prefix_eq : (xs ys zs ws : Bytes) → length xs ≡ length zs → xs ++ ys ≡ zs ++ ws → xs ≡ zs
prefix_eq xs ys zs ws l e =
    sym (take-append_eq xs ys (length xs) refl)
    ∙ ap (take (length xs)) e
    ∙ take-append_eq zs ws (length xs) l

-- rounds that the loop can still make
unfoldable pub left : Reader → ℕ
left b = (length b.buf - buffered b) + (elim b.error [ none ↦ 1 | some e ↦ 0 ])

abbrev Line : Type 0
Line = Reader × Bytes × Option ReadError

-- What the loop promises of its outcome.
abbrev Good : Reader → ℕ → Line → Type 0
Good b d res = Hands b res.1 res.0 × Ends d res.1 res.2

-- The part of the buffer that was searched stays what it was when more is read behind it.
searched :
    (b c : Reader) (d : ℕ)
    → Inv b
    → Hands b [] c
    → buffered b ≤ buffered c
    → Lacks d (pending b)
    → Lacks d (slice c.r (c.r + (b.w - b.r)) c.buf)
searched b c d v h l p =
    let n = b.w - b.r in
    let k = c.r + n in
    let same : pending b ≡ slice c.r k c.buf =
      prefix_eq (pending b) (arriving b.rd) (slice c.r k c.buf) (slice k c.w c.buf ++ arriving c.rd)
        (omega (
          arith,
          length-slice b.r b.w b.buf v.in_buffer,
          length-slice c.r k c.buf (omega (arith, h.inv.in_buffer, h.inv.in_order)),
        ))
        (h.handed
          ∙ ap (λ s. s ++ arriving c.rd)
              (slice-split c.r k c.w c.buf (omega arith) (omega (arith, h.inv.in_order)))
          ∙ append_assoc (slice c.r k c.buf) (slice k c.w c.buf) (arriving c.rd)) in
    rw same at p

found :
    (b : Reader) (s i d : ℕ)
    → Inv b
    → s ≤ buffered b
    → Lacks d (slice b.r (b.r + s) b.buf)
    → index_byte d (slice (b.r + s) b.w b.buf) ≡ some i
    → Good b d (record b { r = b.r + (i + s) + 1 }, slice b.r (b.r + (i + s) + 1) b.buf, none)
found b s i d v l before e =
    let win = slice (b.r + s) b.w b.buf in
    let (clean, cut, lt) = index_byte-some d win i e in
    let k0 = b.r + s in
    let k = b.r + (i + s) + 1 in
    let long = length-slice k0 b.w b.buf v.in_buffer in
    let fits : k ≤ b.w = omega (arith, lt, long) in
    let a = advance b k v (omega arith) fits in
    let head : take (suc i) win ≡ slice k0 k b.buf =
      ap (take (suc i)) (slice-split k0 k b.w b.buf (omega arith) fits)
      ∙ take-append_eq (slice k0 k b.buf) (slice k b.w b.buf) (suc i)
          (omega (arith, length-slice k0 k b.buf (omega (arith, v.in_buffer)))) in
    (
      record {
        handed = a.handed;
        inv = record { in_order = a.inv.in_order; in_buffer = v.in_buffer };
        same_size = refl;
      },
      (
        slice b.r k0 b.buf ++ take i win,
        slice-split b.r k0 k b.buf (omega arith) (omega arith)
            ∙ ap (◌++◌ (slice b.r k0 b.buf)) (sym head ∙ cut)
            ∙ sym (append_assoc (slice b.r k0 b.buf) (take i win) (d ∷ [])),
        All-append _ (slice b.r k0 b.buf) (take i win) before clean,
      ),
    )

pub left_bound : (b : Reader) → left b < length b.buf + 2
unfolding left
left_bound b = ground arith

pub full_buffer : (b : Reader) → Inv b → length b.buf ≤ buffered b → pending b ≡ b.buf
full_buffer b v h =
    ap (λ i. slice i b.w b.buf) {x = b.r} {y = 0} (omega (arith, v.in_buffer))
    ∙ ap (λ j. slice 0 j b.buf) {x = b.w} {y = length b.buf} (omega (arith, v.in_buffer))
    ∙ sym (append-nil (slice 0 (length b.buf) b.buf))
    ∙ ap (λ n. take n b.buf ++ []) {x = length b.buf - 0} {y = length b.buf} (omega arith)
    ∙ append-nil (take (length b.buf) b.buf)
    ∙ whole b.buf
  where
    whole : (xs : Bytes) → take (length xs) xs ≡ xs
    whole xs = ap (take (length xs)) (sym (append-nil xs)) ∙ take-append_eq xs [] (length xs) refl

pub left_fewer :
    (b c : Reader) (fuel : ℕ)
    → b.error ≡ none
    → buffered b < length b.buf
    → length c.buf ≡ length b.buf
    → buffered b ≤ buffered c
    → (c.error ≢ none) ⊎ (buffered b < buffered c)
    → left b < suc fuel
    → left c < fuel
unfolding left
left_fewer b c fuel e room size le (inl x) f = ground arith
left_fewer b c fuel e room size le (inr x) f = ground arith

-- The loop ends with an outcome, and its outcome is good.
abbrev Ok : Reader → ℕ → Option Line → Type 0
Ok b d r = (res : Line) × (r ≡ some res) × (Good b d res)

missed :
    (b : Reader) (d : ℕ) (loop : Reader → Option Line) (e : Option ReadError)
    → b.error ≡ e
    → Inv b
    → Lacks d (pending b)
    → ((c : Reader) → b.error ≡ none → buffered b < length b.buf → Fills b c → Ok c d (loop c))
    → Ok b d (elim e [
      | some x ↦ some (record b { r = b.w; error = none }, pending b, some x)
      | none ↦ elim (leb (length b.buf) (buffered b)) [
        | true ↦ some (record b { r = b.w }, b.buf, some buffer_full)
        | false ↦ elim (fill b) [ none ↦ none | some b' ↦ loop b' ]
      ]
    ])
missed b d loop (some x) e v p ih =
    let a = advance b b.w v v.in_order (omega arith) in
    (
      _,
      refl,
      (
        record {
          handed = a.handed;
          inv = record { in_order = a.inv.in_order; in_buffer = v.in_buffer };
          same_size = refl;
        },
        p,
      ),
    )
missed b d loop none e v p ih = elim (Bool-cases (leb (length b.buf) (buffered b))) [
  | inl full ↦
      let a = advance b b.w v v.in_order (omega arith) in
      let all = full_buffer b v (ground arith) in
      rw full (
        _,
        refl,
        (
          record {
            handed = a.handed ∙ ap (λ s. s ++ stream (record b { r = b.w })) all;
            inv = record { in_order = a.inv.in_order; in_buffer = v.in_buffer };
            same_size = refl;
          },
          rw all at p,
        ),
      )
  | inr room ↦
      let less : buffered b < length b.buf = ground arith in
      let (c, got, filled) = fill_lem b v less in
      let (res, ends, good) = ih c e less filled in
      rw (room, got) (res, ends, (Hands-trans filled.0 good.0, good.1))
]

read_slice_loop-Ok :
    (fuel : ℕ) (b : Reader) (s d : ℕ)
    → Inv b
    → s ≤ buffered b
    → Lacks d (slice b.r (b.r + s) b.buf)
    → left b < fuel
    → Ok b d (read_slice_loop fuel b s d)
unfolding read_slice_loop
read_slice_loop-Ok zero b s d v l before f = elim f [ ]
read_slice_loop-Ok (suc fuel) b s d v l before f =
    elim (Option-cases (index_byte d (slice (b.r + s) b.w b.buf))) [
      | inr (i, e) ↦ rw (e, read_slice_loop) (_, refl, found b s i d v l before e)
      | inl e ↦
          let clean : Lacks d (pending b) =
            rw (slice-split b.r (b.r + s) b.w b.buf (omega arith) (omega (arith, v.in_order))) (
              All-append _ (slice b.r (b.r + s) b.buf) (slice (b.r + s) b.w b.buf) before
                (index_byte-none d _ e)) in
          rw (e, read_slice_loop)
            (missed b d (λ c. read_slice_loop fuel c (b.w - b.r) d) b.error refl v clean
              (λ c none_yet room filled.
                read_slice_loop-Ok fuel c (b.w - b.r) d filled.0.inv filled.1
                  (searched b c d v filled.0 filled.1 clean)
                  (left_fewer b c fuel none_yet room filled.0.same_size filled.1 filled.2 f)))
    ]

-- From a reader whose indices are in order and in its buffer, `ReadSlice` never panics and its loop
-- ends. It hands out the next bytes of the stream, and its
-- error is nil exactly when they end in the delimiter, which then stands nowhere before their end.
pub read_slice-Ends :
    (b : Reader) (d : ℕ)
    → Inv b
    → (res : Reader × Bytes × Option ReadError) × (read_slice b d ≡ some res)
      × Hands b res.1 res.0
      × Ends d res.1 res.2
unfolding read_slice
read_slice-Ends b d v =
    let nothing : Lacks d (slice b.r (b.r + 0) b.buf) =
      rw (ap (λ k. slice b.r k b.buf) {x = b.r + 0} {y = b.r} (omega arith) ∙ slice_empty b.r b.buf)
        tt in
    let (res, e, good) =
      read_slice_loop-Ok (length b.buf + 2) b 0 d v (omega arith) nothing (left_bound b) in
    (
      with_last res,
      rw (e, read_slice),
      record {
        handed = good.0.handed;
        inv = record { in_order = good.0.inv.in_order; in_buffer = good.0.inv.in_buffer };
        same_size = good.0.same_size;
      },
      good.1,
    )
