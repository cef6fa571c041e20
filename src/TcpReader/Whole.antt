-- ===== src/TcpReader/Whole.antt =====
-- proto/tcp/reader.go: what `ReadLine` hands out, and how its lines end.
use anyproxy.Base.{
  ℕ, zero, suc, ◌-◌, ◌≤◌, ◌<◌, ◌≡◌, ◌⊎◌, inl, inr, refl, sym, ap, ◌∙◌, true, false, Bytes, [], ◌∷◌,
  ◌++◌, append_assoc, length-append, length-take, Option, none, some, ltb, ◌==◌, if◌then◌else◌,
  length, take, drop, take-append-drop, take-ge, length-drop, ap₂, get_or, slice, slice_empty,
  Lacks, arith, Bool-cases, Bool, ◌+◌, drop-append_eq,
}
use anyproxy.TcpReader.{
  ReadError, eof, buffer_full, no_progress, Script, Reader, pending, LineRead, full_line,
  whole_line, read_line, is_buffer_full,
}
use anyproxy.TcpReader.Stream.{stream, arriving, Inv, Hands}
use anyproxy.TcpReader.Lines.{Ends, read_slice-Ends}
use anyproxy.TcpReader.Steady.{IsSteady, Tail, read_slice-Kept}

-- Whether a text ends with a `\r`.
abbrev pub ends_cr : Bytes → Bool
ends_cr [] = false
ends_cr (c ∷ []) = c == b'\r'
ends_cr (c ∷ d ∷ s) = ends_cr (d ∷ s)

ends_cr-get_or : (s : Bytes) (n : ℕ) → n + 1 ≡ length s → ends_cr s ≡ (get_or s n 0 == b'\r')
ends_cr-get_or [] n e = absurd (omega (arith, e))
ends_cr-get_or (c ∷ []) zero e = refl
ends_cr-get_or (c ∷ []) (suc n) e = absurd (omega (arith, e))
ends_cr-get_or (c ∷ d ∷ s) zero e = absurd (omega (arith, e))
ends_cr-get_or (c ∷ d ∷ s) (suc n) e = ends_cr-get_or (d ∷ s) n (omega (arith, e))

last_cr :
    (line t : Bytes) (n : ℕ)
    → n + 1 ≡ length line
    → ends_cr line ≡ true
    → drop n (line ++ t) ≡ b'\r' ∷ t
last_cr [] t n l e = absurd (omega (arith, l))
last_cr (c ∷ []) t zero l e = ap (λ k. k ∷ t) (ground (arith, e))
last_cr (c ∷ []) t (suc n) l e = absurd (omega (arith, l))
last_cr (c ∷ d ∷ line) t zero l e = absurd (omega (arith, l))
last_cr (c ∷ d ∷ line) t (suc n) l e = last_cr (d ∷ line) t n (omega (arith, l)) e

-- A part of a line that ends with a `\r` is followed by another one.
abbrev pub Guarded : Bytes → Reader → Type 0
Guarded line b = (ends_cr line ≡ false) ⊎ ((rest : Bytes) × (stream b ≡ b'\r' ∷ rest))

put_back_cr :
    (b c d : Reader) (line : Bytes)
    → 0 < length line
    → ends_cr line ≡ true
    → Hands b line c
    → Hands b (take (length line - 1) line) d
    → stream d ≡ b'\r' ∷ stream c
put_back_cr b c d line l e h k =
    let n = length line - 1 in
    sym (drop-append_eq (take n line) (stream d) n (omega (arith, length-take n line)))
    ∙ ap (drop n) (sym k.handed ∙ h.handed)
    ∙ last_cr line (stream c) n (omega (arith, l)) e

module _ (P : Script → Option ReadError → Type 0) (s : IsSteady P) where
  -- How `ReadLine` without dropping breaks ends: with a part of a line, with a line and its break, or
  -- with what came before the connection failed.
  pub data LineEnd (lr : LineRead) : Type 0 where
    more :
        lr.is_prefix ≡ true
        → lr.error ≡ none
        → 0 < length lr.line
        → Lacks b'\n' lr.line
        → Guarded lr.line lr.reader
        → LineEnd lr
    whole :
        lr.is_prefix ≡ false
        → lr.error ≡ none
        → (before : Bytes) → lr.line ≡ before ++ b'\n' ∷ []
        → Lacks b'\n' before
        → LineEnd lr
    cut :
        (x : ReadError)
        → lr.is_prefix ≡ false
        → Lacks b'\n' lr.line
        → P lr.reader.rd (some x)
        → lr.reader.r ≡ lr.reader.w
        → (lr.error ≡ none) ⊎ ((lr.error ≡ some x) × (lr.line ≡ []))
        → LineEnd lr

  pub record GoodLine (b : Reader) (lr : LineRead) : Type 0 where
    pub hands : Hands b lr.line lr.reader
    pub keeps : P lr.reader.rd lr.reader.error
    pub ending : LineEnd lr

  of_Tail :
      (c : Reader) (line : Bytes) (x : ReadError)
      → (some x ≡ some buffer_full → ⊥)
      → Tail P s c line (some x)
      → P c.rd (some x) × (c.r ≡ c.w)
  of_Tail c line buffer_full n t = absurd (n refl)
  of_Tail c line eof n t = t
  of_Tail c line no_progress n t = t
  of_Tail c line ReadError.negative_count n t = t
  of_Tail c line ReadError.empty_read n t = t
  of_Tail c line (ReadError.net_error k) n t = t

  whole_line-GoodLine :
      (b c : Reader) (line : Bytes) (e : Option ReadError)
      → (e ≡ some buffer_full → ⊥)
      → Hands b line c
      → P c.rd c.error
      → Tail P s c line e
      → Ends b'\n' line e
      → GoodLine b (whole_line false c line e)
  unfolding whole_line
  whole_line-GoodLine b c [] none n h p t (before, eq, lacks) =
      absurd (omega (arith, ap length eq, length-append before (b'\n' ∷ [])))
  whole_line-GoodLine b c (a ∷ line) none n h p t (before, eq, lacks) = record {
    hands = h;
    keeps = p;
    ending = whole refl refl before eq lacks;
  }
  whole_line-GoodLine b c [] (some x) n h p t lacks =
      let (q, r) = of_Tail c [] x n t in
      record { hands = h; keeps = p; ending = cut x refl lacks q r (inr (refl, refl)) }
  whole_line-GoodLine b c (a ∷ line) (some x) n h p t lacks =
      let (q, r) = of_Tail c (a ∷ line) x n t in
      record { hands = h; keeps = p; ending = cut x refl lacks q r (inl refl) }

  whole_buffer :
      (b c : Reader) (line : Bytes)
      → Tail P s c line (some buffer_full)
      → Hands b line c
      → length line ≡ length b.buf
  whole_buffer b c line t h = omega (arith, ap length t.0, h.same_size)

  -- The `\r` that goes back is the next byte of the stream again.
  put_back :
      (b c : Reader) (line : Bytes)
      → Hands b line c
      → Tail P s c line (some buffer_full)
      → 2 ≤ length line
      → Hands b (take (length line - 1) line) (record c { r = c.r - 1 })
  put_back b c line h t two =
      let n = length line - 1 in
      let long : length line ≡ length c.buf = ap length t.0 in
      let seen : pending c ≡ [] =
        ap (λ k. slice c.r k c.buf) {x = c.w} {y = c.r} t.2 ∙ slice_empty c.r c.buf in
      let last : slice (c.r - 1) c.w c.buf ≡ drop n line =
        take-ge (c.w - (c.r - 1)) (drop (c.r - 1) c.buf)
          (omega (arith, length-drop (c.r - 1) c.buf, h.inv.in_buffer))
        ∙ ap₂ drop {x = c.r - 1} {y = n} (omega (arith, long, t.1)) (sym t.0) in
      record {
        handed =
            h.handed
            ∙ ap (λ x. line ++ (x ++ arriving c.rd)) seen
            ∙ ap (λ x. x ++ arriving c.rd) (sym (take-append-drop n line))
            ∙ append_assoc (take n line) (drop n line) (arriving c.rd)
            ∙ ap (λ x. take n line ++ (x ++ arriving c.rd)) (sym last);
        inv = record { in_order = omega (arith, t.2); in_buffer = h.inv.in_buffer };
        same_size = h.same_size;
      }

  take-Lacks : (d n : ℕ) (line : Bytes) → Lacks d line → Lacks d (take n line)
  take-Lacks d zero line h = tt
  take-Lacks d (suc n) [] h = tt
  take-Lacks d (suc n) (c ∷ line) h = (h.0, take-Lacks d n line h.1)

  full_line-GoodLine :
      (b c : Reader) (line : Bytes)
      → 2 ≤ length b.buf
      → Hands b line c
      → P c.rd c.error
      → Tail P s c line (some buffer_full)
      → Lacks b'\n' line
      → (lr : LineRead) × (full_line c line ≡ some lr) × GoodLine b lr
  unfolding full_line
  full_line-GoodLine b c line two h p t lacks =
      let long : length line ≡ length b.buf = whole_buffer b c line t h in
      let some_line : ltb 0 (length line) ≡ true = ground (arith, long, two) in
      let last = ends_cr-get_or line (length line - 1) (omega (arith, long, two)) in
      let moved : (c.r == 0) ≡ false = ground (arith, t.1, h.same_size, two) in
      elim (Bool-cases (get_or line (length line - 1) 0 == b'\r')) [
        | inl cr ↦ (
          record {
            reader = record c { r = c.r - 1 };
            line = take (length line - 1) line;
            is_prefix = true;
            error = none;
          },
          rw (some_line, cr, moved) refl,
          record {
            hands = put_back b c line h t (omega (arith, long, two));
            keeps = p;
            ending =
                more refl refl (omega (arith, length-take (length line - 1) line, long, two))
                  (take-Lacks b'\n' (length line - 1) line lacks)
                  (inr (
                    stream c,
                    put_back_cr b c (record c { r = c.r - 1 }) line (omega (arith, long, two))
                        (last ∙ cr) h (put_back b c line h t (omega (arith, long, two))),
                  ));
          },
        )
        | inr other ↦ (
          record { reader = c; line = line; is_prefix = true; error = none },
          rw (some_line, other) refl,
          record {
            hands = h;
            keeps = p;
            ending = more refl refl (omega (arith, long, two)) lacks (inl (last ∙ other));
          },
        )
      ]

  line_of :
      (b c : Reader) (line : Bytes) (e : Option ReadError)
      → 2 ≤ length b.buf
      → Hands b line c
      → P c.rd c.error
      → Tail P s c line e
      → Ends b'\n' line e
      → (lr : LineRead) × ((if is_buffer_full e
            then full_line c line
            else some (whole_line false c line e))
          ≡ some lr)
        × GoodLine b lr
  line_of b c line none two h p t lacks =
      (_, refl, whole_line-GoodLine b c line none (λ e. ground (arith, e)) h p t lacks)
  line_of b c line (some buffer_full) two h p t lacks = full_line-GoodLine b c line two h p t lacks
  line_of b c line (some eof) two h p t lacks =
      (_, refl, whole_line-GoodLine b c line (some eof) (λ e. ground (arith, e)) h p t lacks)
  line_of b c line (some no_progress) two h p t lacks = (
    _,
    refl,
    whole_line-GoodLine b c line (some no_progress) (λ e. ground (arith, e)) h p t lacks,
  )
  line_of b c line (some ReadError.negative_count) two h p t lacks = (
    _,
    refl,
    whole_line-GoodLine b c line (some ReadError.negative_count) (λ e. ground (arith, e)) h p t
        lacks,
  )
  line_of b c line (some ReadError.empty_read) two h p t lacks = (
    _,
    refl,
    whole_line-GoodLine b c line (some ReadError.empty_read) (λ e. ground (arith, e)) h p t lacks,
  )
  line_of b c line (some (ReadError.net_error k)) two h p t lacks = (
    _,
    refl,
    whole_line-GoodLine b c line (some (ReadError.net_error k)) (λ e. ground (arith, e)) h p t
        lacks,
  )

  -- With a buffer of two bytes or more, `ReadLine` without dropping breaks hands out the next bytes
  -- of the stream, and its outcome tells how they end.
  pub read_line-GoodLine :
      (b : Reader)
      → 2 ≤ length b.buf
      → Inv b
      → P b.rd b.error
      → (lr : LineRead) × (read_line false b ≡ some lr) × GoodLine b lr
  unfolding read_line
  read_line-GoodLine b two v p =
      let (res, e, h, ends) = read_slice-Ends b b'\n' v in
      let (q, t) = read_slice-Kept P s b b'\n' res v p e in
      let (lr, made, good) = line_of b res.0 res.1 res.2 two h q t ends in
      (lr, rw (e, read_line) made, good)
