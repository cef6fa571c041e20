-- ===== src/TcpReader/Peeks.antt =====
-- proto/tcp/reader.go: `Peek` ends, hands out nothing, and shows the next bytes.
use anyproxy.Base.{
  ℕ, zero, suc, ◌+◌, ◌≤◌, ◌<◌, ◌≡◌, inl, inr, refl, ap, ◌∙◌, ◌&&◌, Bytes, [], ◌++◌, append_assoc,
  Option, none, some, ltb, length, slice, slice-split, length-slice, arith, Bool-cases,
}
use anyproxy.TcpReader.{ReadError, Script, Reader, buffered, fill, peek_loop, peek_take, peek}
use anyproxy.TcpReader.Stream.{arriving, stream, Inv, Hands, Hands-trans, Fills, fill_lem}
use anyproxy.TcpReader.Lines.{left, left_bound, left_fewer}
use anyproxy.TcpReader.Steady.{IsSteady}

module _ (P : Script → Option ReadError → Type 0) (s : IsSteady P) where
  -- The loop ends on a reader that hands out the same.
  Waits : Reader → Option Reader → Type 0
  Waits b r = (c : Reader) × (r ≡ some c) × Hands b [] c × P c.rd c.error

  Waits-on :
      (b : Reader) (n : ℕ) (loop : Reader → Option Reader) (e : Option ReadError)
      → b.error ≡ e
      → Inv b
      → P b.rd b.error
      → buffered b < length b.buf
      → ((c : Reader) → b.error ≡ none → Fills b c → P c.rd c.error → Waits c (loop c))
      → Waits b
          (elim e [ some x ↦ some b | none ↦ elim (fill b) [ none ↦ none | some b' ↦ loop b' ] ])
  unfolding Waits
  Waits-on b n loop (some x) e v p room ih =
      (b, refl, record { handed = refl; inv = v; same_size = refl }, p)
  Waits-on b n loop none e v p room ih =
      let (c, got, filled) = fill_lem b v room in
      let (d, made, h, q) = ih c e filled (s.fills b c v room e p got) in
      (d, rw got made, Hands-trans filled.0 h, q)

  peek_loop-Waits :
      (fuel n : ℕ) (b : Reader)
      → Inv b
      → P b.rd b.error
      → left b < fuel
      → Waits b (peek_loop fuel n b)
  unfolding peek_loop Waits
  peek_loop-Waits zero n b v p f = elim f [ ]
  peek_loop-Waits (suc fuel) n b v p f =
      elim (Bool-cases (ltb (buffered b) n && ltb (buffered b) (length b.buf))) [
        | inr enough ↦
            (b, rw (enough, peek_loop) refl, record { handed = refl; inv = v; same_size = refl }, p)
        | inl short ↦
            let room : buffered b < length b.buf = ground arith in
            rw (short, peek_loop)
              (Waits-on b n (peek_loop fuel n) b.error refl v p room (λ c none_yet filled q.
                peek_loop-Waits fuel n c filled.0.inv q
                  (left_fewer b c fuel none_yet room filled.0.same_size filled.1 filled.2 f)))
      ]

  -- What `Peek` of `n` bytes gives, on a reader that hands out the same: without an error, the next
  -- `n` bytes.
  pub record Looks (n : ℕ) (b : Reader) (res : Reader × Bytes × Option ReadError) : Type 0 where
    pub hands : Hands b [] res.0
    pub keeps : P res.0.rd res.0.error
    pub shows : res.2 ≡ none → (length res.1 ≡ n) × (rest : Bytes) × (stream b ≡ res.1 ++ rest)

  shown :
      (n : ℕ) (b c : Reader)
      → Hands b [] c
      → n ≤ buffered c
      → (length (slice c.r (c.r + n) c.buf) ≡ n)
        × (rest : Bytes) × (stream b ≡ slice c.r (c.r + n) c.buf ++ rest)
  shown n b c h l = (
    omega (
      arith,
      length-slice c.r (c.r + n) c.buf (omega (arith, l, h.inv.in_order, h.inv.in_buffer)),
    ),
    slice (c.r + n) c.w c.buf ++ arriving c.rd,
    h.handed
        ∙ ap (λ x. x ++ arriving c.rd)
            (slice-split c.r (c.r + n) c.w c.buf (omega arith) (omega (arith, l, h.inv.in_order)))
        ∙ append_assoc (slice c.r (c.r + n) c.buf) (slice (c.r + n) c.w c.buf) (arriving c.rd),
  )

  peek_take-Looks :
      (n : ℕ) (b c : Reader) → Hands b [] c → P c.rd c.error → Looks n b (peek_take n c)
  unfolding peek_take
  peek_take-Looks n b c h p = elim (Bool-cases (ltb (length c.buf) n)) [
    | inl large ↦ rw large (record { hands = h; keeps = p; shows = λ e. ground (arith, e) })
    | inr fits ↦ (elim (Bool-cases (ltb (buffered c) n)) [
      | inl short ↦
          rw (fits, short)
            (record {
              hands = record {
                handed = h.handed;
                inv = record { in_order = h.inv.in_order; in_buffer = h.inv.in_buffer };
                same_size = h.same_size;
              };
              keeps = s.clears c.rd c.error p;
              shows = λ e. ground (arith, e);
            })
      | inr there ↦
          rw (fits, there)
            (record { hands = h; keeps = p; shows = λ e. shown n b c h (ground arith) })
    ])
  ]

  -- `Peek` ends, hands out nothing, and without an error shows the next bytes of the stream.
  pub peek-Looks :
      (n : ℕ) (b : Reader)
      → Inv b
      → P b.rd b.error
      → (res : Reader × Bytes × Option ReadError) × (peek n b ≡ some res) × Looks n b res
  unfolding peek Waits
  peek-Looks n b v p =
      let b0 = record b { last_byte = none } in
      let v0 : Inv b0 = record { in_order = v.in_order; in_buffer = v.in_buffer } in
      let (c, e, h, q) = peek_loop-Waits (length b.buf + 2) n b0 v0 p (left_bound b0) in
      let from : Hands b [] c = record {
        handed = h.handed;
        inv = h.inv;
        same_size = h.same_size;
      } in
      (peek_take n c, rw (e, peek) refl, peek_take-Looks n b c from q)
