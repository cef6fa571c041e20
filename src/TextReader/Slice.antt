-- ===== src/TextReader/Slice.antt =====
-- proto/text/reader.go: `readLineSlice` ends and gives the next line of the stream.
use anyproxy.Base.{
  ℕ, zero, suc, ◌+◌, ◌≤◌, ◌<◌, ◌≡◌, ◌⊎◌, inl, inr, refl, sym, ap, ◌∙◌, false, Bytes, [], ◌∷◌, ◌++◌,
  append_assoc, length-append, Option, none, some, length, Lacks, All-append, arith,
}
use anyproxy.TcpReader.{ReadError, Script, Reader, LineRead, read_line}
use anyproxy.TcpReader.Stream.{stream, Inv, Hands, Hands-trans}
use anyproxy.TcpReader.Steady.{IsSteady}
use anyproxy.TcpReader.Whole.{LineEnd, more, whole, cut, GoodLine, read_line-GoodLine}
use anyproxy.TextReader.{read_slice_parts, read_line_slice}

module _ (P : Script → Option ReadError → Type 0) (s : IsSteady P) where
  -- How a line ends that was read behind `line`: with its break, or where the connection failed.
  pub data SliceEnd (line got : Bytes) (res : Reader × Bytes × Option ReadError) : Type 0 where
    whole_slice :
        res.2 ≡ none
        → (before : Bytes) → got ≡ before ++ b'\n' ∷ []
        → Lacks b'\n' before
        → res.1 ≡ line ++ got
        → SliceEnd line got res
    cut_slice :
        (x : ReadError)
        → Lacks b'\n' got
        → P res.0.rd (some x)
        → res.0.r ≡ res.0.w
        → ((res.2 ≡ none) × (res.1 ≡ line ++ got)) ⊎ ((res.2 ≡ some x) × (res.1 ≡ []))
        → SliceEnd line got res

  -- What is handed out for a line, which is all of it if there is no error.
  pub record GoodSlice (line : Bytes) (b : Reader) (res : Reader × Bytes × Option ReadError)
      : Type 0 where
    pub got : Bytes
    pub hands : Hands b got res.0
    pub keeps : P res.0.rd res.0.error
    pub ending : SliceEnd line got res

  longer :
      (line part : Bytes) (b c : Reader) (res : Reader × Bytes × Option ReadError)
      → Hands b part c
      → Lacks b'\n' part
      → GoodSlice (line ++ part) c res
      → GoodSlice line b res
  longer line part b c res h lacks g = record {
    got = part ++ g.got;
    hands = Hands-trans h g.hands;
    keeps = g.keeps;
    ending = longer_end g.got g.ending;
  }
    where
      longer_end : (got : Bytes) → SliceEnd (line ++ part) got res → SliceEnd line (part ++ got) res
      longer_end got (whole_slice e before eq l r) =
          whole_slice e (part ++ before)
            (ap (◌++◌ part) eq ∙ sym (append_assoc part before (b'\n' ∷ [])))
            (All-append _ part before lacks l) (r ∙ append_assoc line part got)
      longer_end got (cut_slice x l p rw_eq (inl (e, r))) =
          cut_slice x (All-append _ part got lacks l) p rw_eq
            (inl (e, r ∙ append_assoc line part got))
      longer_end got (cut_slice x l p rw_eq (inr r)) =
          cut_slice x (All-append _ part got lacks l) p rw_eq (inr r)

  read_slice_parts-GoodSlice :
      (fuel : ℕ) (line : Bytes) (b : Reader)
      → 2 ≤ length b.buf
      → Inv b
      → P b.rd b.error
      → length (stream b) < fuel
      → (res : Reader × Bytes × Option ReadError) × (read_slice_parts fuel false line b ≡ some res)
        × GoodSlice line b res
  unfolding read_slice_parts
  read_slice_parts-GoodSlice zero line b two v p f = elim f [ ]
  read_slice_parts-GoodSlice (suc fuel) line b two v p f =
      let (lr, e, g) = read_line-GoodLine P s b two v p in
      ended (read_slice_parts-GoodSlice fuel) lr e g g.ending
    where
      ended :
          ((l : Bytes) (c : Reader)
            → 2 ≤ length c.buf
            → Inv c
            → P c.rd c.error
            → length (stream c) < fuel
            → (res : Reader × Bytes × Option ReadError) × (read_slice_parts fuel false l c
                ≡ some res)
              × GoodSlice l c res)
          → (lr : LineRead) → read_line false b ≡ some lr
          → GoodLine P s b lr
          → LineEnd P s lr
          → (res : Reader × Bytes × Option ReadError) × (read_slice_parts (suc fuel) false line b
              ≡ some res)
            × GoodSlice line b res
      ended ih lr e g (more pre none_yet some_bytes lacks guard) =
          let shorter : length (stream lr.reader) < fuel = omega (
            arith,
            f,
            ap length g.hands.handed,
            length-append lr.line (stream lr.reader),
            some_bytes,
          ) in
          let (res, made, good) =
            ih (line ++ lr.line) lr.reader (omega (arith, two, g.hands.same_size)) g.hands.inv
              g.keeps shorter in
          (
            res,
            rw (e, none_yet, pre, read_slice_parts) made,
            longer line lr.line b lr.reader res g.hands lacks good,
          )
      ended ih lr e g (whole pre none_yet before eq lacks) = (
        (lr.reader, line ++ lr.line, none),
        rw (e, none_yet, pre, read_slice_parts) refl,
        record {
          got = lr.line;
          hands = g.hands;
          keeps = g.keeps;
          ending = whole_slice refl before eq lacks refl;
        },
      )
      ended ih lr e g (cut x pre lacks q r (inl none_yet)) = (
        (lr.reader, line ++ lr.line, none),
        rw (e, none_yet, pre, read_slice_parts) refl,
        record {
          got = lr.line;
          hands = g.hands;
          keeps = g.keeps;
          ending = cut_slice x lacks q r (inl (refl, refl));
        },
      )
      ended ih lr e g (cut x pre lacks q r (inr (failed, nothing))) = (
        (lr.reader, [], some x),
        rw (e, failed, read_slice_parts) refl,
        record {
          got = lr.line;
          hands = g.hands;
          keeps = g.keeps;
          ending = cut_slice x lacks q r (inr (refl, refl));
        },
      )

  -- `readLineSlice` ends and gives the next line of the stream, with its break, or what is left of
  -- the stream before the connection failed, or the error.
  pub read_line_slice-GoodSlice :
      (b : Reader)
      → 2 ≤ length b.buf
      → Inv b
      → P b.rd b.error
      → (res : Reader × Bytes × Option ReadError) × (read_line_slice false b ≡ some res)
        × GoodSlice [] b res
  unfolding read_line_slice
  read_line_slice-GoodSlice b two v p =
      read_slice_parts-GoodSlice (length (stream b) + 1) [] b two v p (omega arith)
