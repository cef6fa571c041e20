-- ===== src/TextReader/Break.antt =====
-- proto/text/reader.go: a line that ends in `\r\n`, read without its break.
use anyproxy.Base.{
  ℕ, zero, suc, ◌+◌, ◌≤◌, ◌<◌, ◌≡◌, ◌≢◌, ◌⊎◌, inl, inr, refl, sym, ap, ◌∙◌, subst, true, false,
  Bytes, [], ◌∷◌, ◌++◌, append_assoc, append-nil, length-append, Option, none, some, length, ◌==◌,
  Lacks, All-append, arith,
}
use anyproxy.TcpReader.{ReadError, Script, Reader, LineRead, read_line, drop_break_of}
use anyproxy.TcpReader.Stream.{stream, Inv}
use anyproxy.TcpReader.Steady.{IsSteady}
use anyproxy.TcpReader.Whole.{
  ends_cr, Guarded, LineEnd, more, whole, cut, GoodLine, read_line-GoodLine,
}
use anyproxy.TextReader.{crlf, read_slice_parts, read_line_slice}
use anyproxy.TextReader.Field.{drop_break_of-crlf}
use anyproxy.Request.Lines.{read_line-part, read_line-whole, some_inj}

ends_cr-append : (s t : Bytes) → 0 < length t → ends_cr (s ++ t) ≡ ends_cr t
ends_cr-append [] t l = refl
ends_cr-append (c ∷ []) [] l = absurd (omega (arith, l))
ends_cr-append (c ∷ []) (d ∷ t) l = refl
ends_cr-append (c ∷ d ∷ s) t l = ends_cr-append (d ∷ s) t l

ends_cr_last : (s : Bytes) → ends_cr (s ++ b'\r' ∷ []) ≡ true
ends_cr_last s = ends_cr-append s (b'\r' ∷ []) (omega arith)

-- Two texts that are the same with a byte behind them.
same_start : (b : ℕ) (p q : Bytes) → p ++ b ∷ [] ≡ q ++ b ∷ [] → p ≡ q
same_start b [] [] e = refl
same_start b [] (c ∷ q) e = absurd (omega (arith, ap length e, length-append q (b ∷ [])))
same_start b (c ∷ p) [] e = absurd (omega (arith, ap length e, length-append p (b ∷ [])))
same_start b (c ∷ p) (d ∷ q) e =
    let k = same_start b p q (ground (arith, e)) in ground (arith, k, e)

-- A text is empty or has a last byte.
last_of : (s : Bytes) → (s ≡ []) ⊎ ((p : Bytes) × (c : ℕ) × (s ≡ p ++ c ∷ []))
last_of [] = inl refl
last_of (c ∷ s) = elim (last_of s) [
  | inl e ↦ inr ([], c, ap (◌∷◌ c) e)
  | inr (p, d, e) ↦ inr (c ∷ p, d, ap (◌∷◌ c) e)
]

lf_in : (p q : Bytes) → Lacks b'\n' p → p ≡ q ++ crlf → ⊥
lf_in p [] l e = (subst (Lacks b'\n') e l).1.0 refl
lf_in [] (c ∷ q) l e = ground (arith, e)
lf_in (d ∷ p) (c ∷ q) l e = lf_in p q l.1 (ground (arith, e))

module _ (P : Script → Option ReadError → Type 0) (s : IsSteady P) where
  -- The last part of the line, behind those read before it.
  last_part :
      (line before q : Bytes) (b c : Reader)
      → Guarded line b
      → stream b ≡ (before ++ b'\n' ∷ []) ++ stream c
      → line ++ (before ++ b'\n' ∷ []) ≡ q ++ crlf
      → line ++ drop_break_of (before ++ b'\n' ∷ []) ≡ q
  last_part line before q b c g handed e =
      let same : line ++ before ≡ q ++ b'\r' ∷ [] =
        same_start b'\n' (line ++ before) (q ++ b'\r' ∷ []) (
          append_assoc line before (b'\n' ∷ [])
          ∙ e
          ∙ sym (append_assoc q (b'\r' ∷ []) (b'\n' ∷ []))) in
      elim (last_of before) [
        | inl nothing ↦
            let cr : ends_cr line ≡ true =
              ap ends_cr (sym (append-nil line))
              ∙ ap (λ x. ends_cr (line ++ x)) (sym nothing)
              ∙ ap ends_cr same
              ∙ ends_cr_last q in
            let lf : stream b ≡ b'\n' ∷ stream c =
              handed ∙ ap (λ x. (x ++ b'\n' ∷ []) ++ stream c) nothing in
            elim g [
              | inl n ↦ absurd (ground (arith, cr, n))
              | inr (rest, n) ↦ absurd (ground (arith, lf, n))
            ]
        | inr (p, d, last) ↦
            let joined : (line ++ p) ++ d ∷ [] ≡ q ++ b'\r' ∷ [] =
              append_assoc line p (d ∷ []) ∙ ap (◌++◌ line) (sym last) ∙ same in
            let is_cr : d ≡ b'\r' = cr_of d (
              sym (ends_cr-append (line ++ p) (d ∷ []) (omega arith))
              ∙ ap ends_cr joined
              ∙ ends_cr_last q) in
            let start : line ++ p ≡ q =
              same_start b'\r' (line ++ p) q
                (ap (λ x. (line ++ p) ++ x ∷ []) (sym is_cr) ∙ joined) in
            let line_end : before ++ b'\n' ∷ [] ≡ p ++ crlf =
              ap (λ x. x ++ b'\n' ∷ []) (last ∙ ap (λ x. p ++ x ∷ []) is_cr)
              ∙ append_assoc p (b'\r' ∷ []) (b'\n' ∷ []) in
            ap (λ x. line ++ drop_break_of x) line_end
            ∙ ap (◌++◌ line) (drop_break_of-crlf p)
            ∙ start
      ]
    where
      cr_of : (d : ℕ) → (d == b'\r') ≡ true → d ≡ b'\r'
      cr_of d e = ground (arith, e)

  read_slice_parts-crlf :
      (fuel : ℕ) (line q : Bytes) (b c : Reader)
      → 2 ≤ length b.buf
      → Inv b
      → P b.rd b.error
      → Lacks b'\n' line
      → Guarded line b
      → read_slice_parts fuel false line b ≡ some (c, q ++ crlf, none)
      → read_slice_parts fuel true line b ≡ some (c, q, none)
  unfolding read_slice_parts
  read_slice_parts-crlf zero line q b c two v p l g e = absurd (ground (arith, e))
  read_slice_parts-crlf (suc fuel) line q b c two v p l g e =
      let (lr, made, good) = read_line-GoodLine P s b two v p in
      ended (read_slice_parts-crlf fuel) lr made good good.ending
    where
      ended :
          ((line q : Bytes) (b c : Reader)
            → 2 ≤ length b.buf
            → Inv b
            → P b.rd b.error
            → Lacks b'\n' line
            → Guarded line b
            → read_slice_parts fuel false line b ≡ some (c, q ++ crlf, none)
            → read_slice_parts fuel true line b ≡ some (c, q, none))
          → (lr : LineRead) → read_line false b ≡ some lr
          → GoodLine P s b lr
          → LineEnd P s lr
          → read_slice_parts (suc fuel) true line b ≡ some (c, q, none)
      ended ih lr made good (more pre none_yet some_bytes lacks guard) =
          rw (read_line-part b lr made pre, none_yet, pre, read_slice_parts)
            (ih (line ++ lr.line) q lr.reader c (omega (arith, two, good.hands.same_size))
              good.hands.inv good.keeps (All-append _ line lr.line l lacks)
              (elim guard [
                | inl n ↦ inl (ends_cr-append line lr.line some_bytes ∙ n)
                | inr n ↦ inr n
              ])
              (rw (made, none_yet, pre, read_slice_parts) at e))
      ended ih lr made good (whole pre none_yet before eq lacks) =
          let same =
            some_inj {A = Reader × Bytes × Option ReadError} _ _
              (rw (made, none_yet, pre, read_slice_parts) at e) in
          let full : lr.line ≢ [] =
            λ n. omega (arith, ap length n, ap length eq, length-append before (b'\n' ∷ [])) in
          let dropped : line ++ drop_break_of lr.line ≡ q =
            ap (λ x. line ++ drop_break_of x) eq
            ∙ last_part line before q b lr.reader g
                (good.hands.handed ∙ ap (λ x. x ++ stream lr.reader) eq)
                (ap (◌++◌ line) (sym eq) ∙ ap (λ r. r.1) same) in
          rw (read_line-whole b lr made pre full, none_yet, pre, read_slice_parts)
            (ap (λ x. some (lr.reader, x, none)) dropped ∙ ap (λ r. some (r.0, q, none)) same)
      ended ih lr made good (cut x pre lacks k r (inl none_yet)) =
          let same =
            some_inj {A = Reader × Bytes × Option ReadError} _ _
              (rw (made, none_yet, pre, read_slice_parts) at e) in
          absurd
            (lf_in (line ++ lr.line) q (All-append _ line lr.line l lacks) (ap (λ r. r.1) same))
      ended ih lr made good (cut x pre lacks k r (inr (failed, nothing))) =
          absurd (ground (arith, rw (made, failed, read_slice_parts) at e))

  -- A line that is read as `q` and its break is read as `q` where breaks are dropped, however the
  -- buffer cuts it.
  pub read_line_slice-crlf :
      (q : Bytes) (b c : Reader)
      → 2 ≤ length b.buf
      → Inv b
      → P b.rd b.error
      → read_line_slice false b ≡ some (c, q ++ crlf, none)
      → read_line_slice true b ≡ some (c, q, none)
  unfolding read_line_slice
  read_line_slice-crlf q b c two v p e =
      read_slice_parts-crlf (length (stream b) + 1) [] q b c two v p tt (inl refl) e
