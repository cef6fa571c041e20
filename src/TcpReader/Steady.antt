-- ===== src/TcpReader/Steady.antt =====
-- proto/tcp/reader.go: what `ReadSlice` keeps of a connection, for a predicate on what the
-- peer is still going to send and on the error that is kept, which filling the buffer preserves.
use anyproxy.Base.{
  ℕ, zero, suc, ◌+◌, ◌-◌, ◌<◌, ◌≡◌, inl, inr, refl, subst, true, false, Bytes, Option, none, some,
  leb, length, slice, index_byte, arith, Bool-cases, Option-cases,
}
use anyproxy.TcpReader.{
  ReadError, eof, buffer_full, no_progress, Script, Reader, pending, buffered, fill,
  read_slice_loop, read_slice, with_last,
}
use anyproxy.TcpReader.Stream.{Inv, fill_lem}

-- A predicate on a connection that filling the buffer keeps; the reader's own error is never in it.
pub record IsSteady (P : Script → Option ReadError → Type 0) : Type 0 where
  pub clears : (rd : Script) (e : Option ReadError) → P rd e → P rd none
  pub fills :
      (b c : Reader)
      → Inv b
      → buffered b < length b.buf
      → b.error ≡ none
      → P b.rd b.error
      → fill b ≡ some c
      → P c.rd c.error
  pub not_full : (rd : Script) → P rd (some buffer_full) → ⊥

module _ (P : Script → Option ReadError → Type 0) (s : IsSteady P) where
  -- Why a slice ended without its delimiter: the buffer is full of it, or the connection failed.
  abbrev pub Tail : Reader → Bytes → Option ReadError → Type 0
  Tail c line none = Unit {0}
  Tail c line (some buffer_full) = (line ≡ c.buf) × (c.r ≡ length c.buf) × (c.w ≡ c.r)
  Tail c line (some x) = P c.rd (some x) × (c.r ≡ c.w)

  -- A predicate on the outcome, if there is one.
  abbrev pub When {ℓ} : {A : Type ℓ} → (A → Type 0) → Option A → Type 0
  When Q none = Unit {0}
  When Q (some a) = Q a

  Kept : Reader × Bytes × Option ReadError → Type 0
  Kept res = P res.0.rd res.0.error × Tail res.0 res.1 res.2

  failed_Tail :
      (c : Reader) (line : Bytes) (x : ReadError)
      → P c.rd (some x)
      → c.r ≡ c.w
      → Tail c line (some x)
  failed_Tail c line buffer_full p e = absurd (s.not_full c.rd p)
  failed_Tail c line eof p e = (p, e)
  failed_Tail c line no_progress p e = (p, e)
  failed_Tail c line ReadError.negative_count p e = (p, e)
  failed_Tail c line ReadError.empty_read p e = (p, e)
  failed_Tail c line (ReadError.net_error k) p e = (p, e)

  read_slice_missed :
      (b : Reader) (loop : Reader → Option (Reader × Bytes × Option ReadError))
      (e : Option ReadError)
      → b.error ≡ e
      → Inv b
      → P b.rd b.error
      → ((c : Reader) → Inv c → P c.rd c.error → When Kept (loop c))
      → When Kept (elim e [
        | some x ↦ some (record b { r = b.w; error = none }, pending b, some x)
        | none ↦ elim (leb (length b.buf) (buffered b)) [
          | true ↦ some (record b { r = b.w }, b.buf, some buffer_full)
          | false ↦ elim (fill b) [ none ↦ none | some b' ↦ loop b' ]
        ]
      ])
  unfolding Kept
  read_slice_missed b loop (some x) e v p ih = (
    s.clears b.rd b.error p,
    failed_Tail (record b { r = b.w; error = none }) (pending b) x (subst (P b.rd) e p) refl,
  )
  read_slice_missed b loop none e v p ih = elim (Bool-cases (leb (length b.buf) (buffered b))) [
    | inl full ↦
        let w_end : b.w ≡ length b.buf = ground (arith, v.in_buffer) in
        rw full (p, (refl, w_end, refl))
    | inr room ↦
        let (c, got, filled) = fill_lem b v (ground arith) in
        rw (room, got) (ih c filled.0.inv (s.fills b c v (ground arith) e p got))
  ]

  read_slice_loop-Kept :
      (fuel : ℕ) (b : Reader) (k d : ℕ)
      → Inv b
      → P b.rd b.error
      → When Kept (read_slice_loop fuel b k d)
  unfolding read_slice_loop Kept
  read_slice_loop-Kept zero b k d v p = tt
  read_slice_loop-Kept (suc fuel) b k d v p =
      elim (Option-cases (index_byte d (slice (b.r + k) b.w b.buf))) [
        | inr (i, e) ↦ rw (e, read_slice_loop) (p, tt)
        | inl e ↦
            rw (e, read_slice_loop)
              (read_slice_missed b (λ c. read_slice_loop fuel c (b.w - b.r) d) b.error refl v p
                (λ c w q. read_slice_loop-Kept fuel c (b.w - b.r) d w q))
      ]

  last_Kept :
      (r : Option (Reader × Bytes × Option ReadError))
      → When Kept r
      → When Kept (elim r [ none ↦ none | some res ↦ some (with_last res) ])
  unfolding Kept
  last_Kept none h = tt
  last_Kept (some (b, line, none)) h = h
  last_Kept (some (b, line, some x)) h = (h.0, last_Tail x h.1)
    where
      last_Tail :
          (x : ReadError)
          → Tail b line (some x)
          → Tail (record b { last_byte = (with_last (b, line, some x)).0.last_byte }) line (some x)
      last_Tail buffer_full t = t
      last_Tail eof t = t
      last_Tail no_progress t = t
      last_Tail ReadError.negative_count t = t
      last_Tail ReadError.empty_read t = t
      last_Tail (ReadError.net_error k) t = t

  -- `ReadSlice` keeps the predicate, and tells by its error why it ended.
  pub read_slice-Kept :
      (b : Reader) (d : ℕ) (res : Reader × Bytes × Option ReadError)
      → Inv b
      → P b.rd b.error
      → read_slice b d ≡ some res
      → P res.0.rd res.0.error × Tail res.0 res.1 res.2
  unfolding read_slice Kept
  read_slice-Kept b d res v p e = subst (When Kept) e (
      last_Kept (read_slice_loop (length b.buf + 2) b 0 d)
        (read_slice_loop-Kept (length b.buf + 2) b 0 d v p))
