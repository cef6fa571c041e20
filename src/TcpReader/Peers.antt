-- ===== src/TcpReader/Peers.antt =====
-- Two kinds of connection for proto/tcp/reader.go: one that fails as it likes, and one that sends all
-- its bytes and then ends.
use anyproxy.Base.{
  inl, inr, ℕ, zero, suc, ◌-◌, ◌<◌, ◌≡◌, ◌≢◌, refl, sym, subst, ◌∙◌, Bool, true, false, [], ◌∷◌,
  Option, none, some, ltb, leb, lt→ltb, length, length-take, length-drop, arith, All, Bool-cases,
  write_at, ◌+◌,
}
use anyproxy.TcpReader.{
  ReadError, eof, buffer_full, Arrival, Script, net_read, Reader, buffered, fill_loop, slide, fill,
  max_consecutive_empty_reads,
}
use anyproxy.TcpReader.Stream.{Inv, slide-Hands}
use anyproxy.TcpReader.Steady.{IsSteady}

-- No error of the connection is the reader's own `ErrBufferFull`.
abbrev pub Plain : Script → Option ReadError → Type 0
Plain rd e = All (λ a. a.error ≢ some buffer_full) rd × (e ≢ some buffer_full)

net_read-Plain :
    (size : ℕ) (rd : Script) → Plain rd none → Plain (net_read size rd).2 (net_read size rd).1
unfolding net_read
net_read-Plain size [] p = (tt, (λ e. ground (arith, e)))
net_read-Plain size (a ∷ rest) ((pa, pr), pe) = elim (Bool-cases (leb (length a.bytes) size)) [
  | inl e ↦ rw e (pr, pa)
  | inr e ↦ rw e ((pa, pr), (λ h. ground (arith, h)))
]

fill_loop-Plain :
    (i : ℕ) (b : Reader) → Plain b.rd b.error → Plain (fill_loop i b).rd (fill_loop i b).error
unfolding fill_loop
fill_loop-Plain zero b p = (p.0, (λ e. ground (arith, e)))
fill_loop-Plain (suc i) b p =
    let size = length b.buf - b.w in
    let n = net_read size b.rd in
    let q = net_read-Plain size b.rd (p.0, (λ e. ground (arith, e))) in
    let b0 = record b { buf = write_at b.buf b.w n.0; rd = n.2; w = b.w + length n.0 } in
    came b0 i n.1 (ltb 0 (length n.0)) q (q.0, p.1) (fill_loop-Plain i b0 (q.0, p.1))
  where
    came :
        (b0 : Reader) (i : ℕ) (e : Option ReadError) (grew : Bool)
        → Plain b0.rd e
        → Plain b0.rd b0.error
        → Plain (fill_loop i b0).rd (fill_loop i b0).error
        → let c = elim e as (λ _. Reader) [
          | some x ↦ record b0 { error = some x }
          | none ↦ elim grew [ true ↦ b0 | false ↦ fill_loop i b0 ]
        ] in
          Plain c.rd c.error
    came b0 i (some x) grew q k ih = q
    came b0 i none true q k ih = k
    came b0 i none false q k ih = ih

-- Sliding touches neither the connection nor the error.
slide_rd : (b : Reader) → ((slide b).rd ≡ b.rd) × ((slide b).error ≡ b.error)
unfolding slide
slide_rd b = ground arith

-- A filled buffer comes from the loop on the slid one, which has room.
fill_is :
    (b c : Reader)
    → Inv b
    → buffered b < length b.buf
    → fill b ≡ some c
    → c ≡ fill_loop max_consecutive_empty_reads (slide b)
unfolding fill
fill_is b c v room e = let (h, ew, er, ee) = slide-Hands b v in ground (arith, ew, h.same_size, e)

pub Plain-IsSteady : IsSteady Plain
Plain-IsSteady = record {
  clears = λ rd e p. (p.0, (λ h. ground (arith, h)));
  fills = λ b c v room e p got.
      let (same_rd, same_e) = slide_rd b in
      let q : Plain (slide b).rd (slide b).error = rw (same_rd, same_e) p in
      subst (λ x. Plain x.rd x.error) (sym (fill_is b c v room got))
        (fill_loop-Plain max_consecutive_empty_reads (slide b) q);
  not_full = λ rd p. p.1 refl;
}

-- The connection sends something each time and does not fail before its end.
abbrev pub Calm : Script → Option ReadError → Type 0
Calm rd e =
    All (λ a. (a.error ≡ none) × (0 < length a.bytes)) rd × (e ≢ none → (rd ≡ []) × (e ≡ some eof))

net_read-Calm :
    (size : ℕ) (a : Arrival) (rest : Script)
    → 0 < size
    → Calm (a ∷ rest) none
    → let n = net_read size (a ∷ rest) in
      (n.1 ≡ none) × (0 < length n.0) × All (λ x. (x.error ≡ none) × (0 < length x.bytes)) n.2
unfolding net_read
net_read-Calm size a rest room ((pa, pr), pe) = elim (Bool-cases (leb (length a.bytes) size)) [
  | inl small ↦ rw small (pa.0, pa.1, pr)
  | inr large ↦ rw large (
    refl,
    omega (arith, length-take size a.bytes, room, pa.1),
    ((pa.0, ground (arith, length-drop size a.bytes, large)), pr),
  )
]

fill_loop_end :
    (i : ℕ) (b : Reader)
    → Calm
        (fill_loop (suc i) (record b { rd = [] })).rd
        (fill_loop (suc i) (record b { rd = [] })).error
unfolding fill_loop net_read
fill_loop_end i b = (tt, (λ _. (refl, refl)))

fill_loop-Calm :
    (i : ℕ) (b : Reader) (rd : Script)
    → b.w < length b.buf
    → Calm rd b.error
    → b.error ≡ none
    → Calm
        (fill_loop (suc i) (record b { rd = rd })).rd
        (fill_loop (suc i) (record b { rd = rd })).error
unfolding fill_loop
fill_loop-Calm i b [] room p e = fill_loop_end i b
fill_loop-Calm i b (a ∷ rest) room p e =
    let (ok_read, some_bytes, calm) =
      net_read-Calm (length b.buf - b.w) a rest (omega (arith, room))
        (p.0, (λ h. absurd (h refl))) in
    rw (ok_read, lt→ltb 0 _ some_bytes, fill_loop) (calm, (λ h. absurd (h e)))

pub Calm-IsSteady : IsSteady Calm
Calm-IsSteady = record {
  clears = λ rd e p. (p.0, (λ h. absurd (h refl)));
  fills = λ b c v room e p got.
      let (same_rd, same_e) = slide_rd b in
      let (h, ew, er, ee) = slide-Hands b v in
      let q : Calm (slide b).rd (slide b).error = rw (same_rd, same_e) p in
      subst (λ x. Calm x.rd x.error) (sym (fill_is b c v room got))
        (fill_loop-Calm 99 (slide b) (slide b).rd (omega (arith, ew, h.same_size, room)) q
          (same_e ∙ e));
  not_full = λ rd p. ground (arith, p.1 (λ h. ground (arith, h)));
}
