-- ===== src/Tunnel/Copy/Work.antt =====
-- proto/tcp/reader.go: each read of a copy brings the end of its source nearer.
use Prim.Native.Nat.{min}
use anyproxy.Base.{
  ℕ, ◌+◌, ◌-◌, ◌≤◌, ◌<◌, Bytes, [], ◌∷◌, ◌++◌, Option, none, some, leb, ◌==◌, length, length-append,
  length-take, length-slice, drop, slice, ◌≡◌, ◌≢◌, ◌⊎◌, inl, inr, ap, ◌∙◌, arith, Bool-cases,
}
use anyproxy.TcpReader.{
  ReadError, Script, net_read, Reader, read, read_empty, read_direct, read_through, copy_out,
}
use anyproxy.TcpReader.Stream.{stream, Inv, read-Reads}

-- How a read brings the end of its source nearer: it fails, or an arrival is used up, or bytes are read.
abbrev Nearer : Script → Script → Bytes → Option ReadError → Type 0
Nearer rd rd' got e =
    (length rd' ≤ length rd) × ((e ≢ none) ⊎ ((length rd' < length rd) ⊎ (0 < length got)))

net_read-Nearer :
    (size : ℕ) (rd : Script) → 0 < size → let r = net_read size rd in Nearer rd r.2 r.0 r.1
unfolding net_read
net_read-Nearer size [] h = (omega arith, inl (λ e. ground (arith, e)))
net_read-Nearer size (a ∷ rest) h = elim (Bool-cases (leb (length a.bytes) size)) [
  | inl e ↦ rw e (omega arith, inr (inl (omega arith)))
  | inr e ↦ rw e (omega arith, inr (inr (ground (arith, e, length-take size a.bytes))))
]

length-copy_out : (b : Reader) (n : ℕ) → Inv b → length (copy_out b n).1 ≡ min n (b.w - b.r)
unfolding copy_out
length-copy_out b n v = omega (
  arith,
  length-slice b.r (b.r + min n (b.w - b.r)) b.buf (omega (arith, v.in_order, v.in_buffer)),
)

abbrev Advances : Reader → Reader × Bytes × Option ReadError → Type 0
Advances b r = Nearer b.rd r.0.rd r.1 r.2

some_out :
    (n : ℕ) (got old : Bytes)
    → 0 < n
    → 0 < length got
    → 0 < length (slice 0 (0 + min n (0 + length got - 0)) (got ++ old))
some_out n got old h g = omega (
  arith,
  h,
  g,
  length-append got old,
  length-slice 0 (0 + min n (0 + length got - 0)) (got ++ old)
      (omega (arith, length-append got old)),
)

read_through-Advances :
    (b : Reader) (n : ℕ) → Inv b → 0 < n → 0 < length b.buf → Advances b (read_through b n)
unfolding read_through copy_out
read_through-Advances b n v h l =
    let got = net_read (length b.buf) b.rd in
    let k = net_read-Nearer (length b.buf) b.rd l in
    elim (Bool-cases (length got.0 == 0)) [
      | inl p ↦
          rw (p, read_through)
            (
              k.0,
              elim k.1 [
                | inl e ↦ inl e
                | inr (inl e) ↦ inr (inl e)
                | inr (inr e) ↦ absurd (ground (arith, p, e))
              ],
            )
      | inr p ↦
          rw (p, read_through)
            (
              k.0,
              inr (inr (some_out n got.0 (drop (0 + length got.0) b.buf) h (ground (arith, p)))),
            )
    ]

read_empty-Advances :
    (b : Reader) (n : ℕ) (e : Option ReadError)
    → Inv b
    → 0 < n
    → 0 < length b.buf
    → Advances b (read_empty b n e)
unfolding read_empty read_direct
read_empty-Advances b n (some e) v h l = (omega arith, inl (λ x. ground (arith, x)))
read_empty-Advances b n none v h l = elim (Bool-cases (leb (length b.buf) n)) [
  | inl e ↦ rw (e, read_empty) (net_read-Nearer n b.rd h)
  | inr e ↦ rw (e, read_empty) (read_through-Advances b n v h l)
]

-- A `Read` fails, or uses up an arrival, or gives bytes.
read-Advances : (b : Reader) (n : ℕ) → Inv b → 0 < n → 0 < length b.buf → Advances b (read b n)
unfolding read copy_out
read-Advances b n v h l = elim (Bool-cases (n == 0)) [
  | inl e0 ↦ absurd (ground (arith, e0))
  | inr e0 ↦ elim (Bool-cases (b.r == b.w)) [
    | inl e1 ↦ rw (e0, e1, read) (read_empty-Advances b n b.error v h l)
    | inr e1 ↦ rw (e0, e1, read) (left_over b n v h (ground (arith, e1, v.in_order)))
  ]
]
  where
    left_over : (b : Reader) (n : ℕ) → Inv b → 0 < n → b.r < b.w → Advances b (copy_out b n)
    left_over b n v h l = (omega arith, inr (inr (omega (arith, length-copy_out b n v, h, l))))

-- What is left to do before the source ends.
abbrev pub work : Reader → ℕ
work b = length (stream b) + length b.rd

pub read-work :
    (b : Reader) (n : ℕ)
    → Inv b
    → 0 < n
    → 0 < length b.buf
    → ((read b n).2 ≢ none) ⊎ (work (read b n).0 < work b)
read-work b n v h l =
    let (few, near) = read-Advances b n v h l in
    let (k, small) = read-Reads b n v in
    let total : length (stream b) ≡ length (read b n).1 + length (stream (read b n).0) =
      ap length k.handed ∙ length-append (read b n).1 (stream (read b n).0) in
    elim near [
      | inl e ↦ inl e
      | inr (inl e) ↦ inr (omega (arith, total, few, e))
      | inr (inr e) ↦ inr (omega (arith, total, few, e))
    ]
