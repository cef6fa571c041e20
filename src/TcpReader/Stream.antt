-- ===== src/TcpReader/Stream.antt =====
-- proto/tcp/reader.go: the reader passes the peer's bytes on, all of them, in order, and once.
use Prim.Native.Nat.{min}
use anyproxy.Base.{
  ℕ, zero, suc, ◌+◌, ◌-◌, ◌≤◌, ◌<◌, ◌≡◌, ◌≢◌, ◌⊎◌, inl, inr, refl, sym, ap, ◌∙◌, Bool, true, false,
  Bytes, [], ◌∷◌, ◌++◌, append_assoc, Option, none, some, ltb, leb, ◌==◌, if◌then◌else◌, length,
  take, drop, take-append-drop, length-take, slice, slice-split, slice_empty, length-slice,
  write_at, slice-write_at, length-slice, length-write_at, arith, Bool-cases, ℤ, pos, negsuc,
}
use anyproxy.TcpReader.{
  ReadError, Script, net_read, Reader, pending, buffered, copy_out, read_direct, read_through,
  read_empty, read, fill_loop, slide, fill, max_consecutive_empty_reads, unread_buf,
}

-- The bytes that are still to come.
abbrev pub arriving : Script → Bytes
arriving [] = []
arriving (a ∷ rest) = a.bytes ++ arriving rest

-- The bytes that the reader has still to hand out.
abbrev pub stream : Reader → Bytes
stream b = pending b ++ arriving b.rd

pub record Inv (b : Reader) : Type 0 where
  pub in_order : b.r ≤ b.w
  pub in_buffer : b.w ≤ length b.buf

-- From `b` to `b'` exactly `bytes` are handed out, and the buffer keeps its size.
pub record Hands (b : Reader) (bytes : Bytes) (b' : Reader) : Type 0 where
  pub handed : stream b ≡ bytes ++ stream b'
  pub inv : Inv b'
  pub same_size : length b'.buf ≡ length b.buf

net_read_lem :
    (size : ℕ) (rd : Script)
    → let (got, e, rd') = net_read size rd in
      (arriving rd ≡ got ++ arriving rd') × (length got ≤ size)
unfolding net_read
net_read_lem size [] = (refl, omega arith)
net_read_lem size (a ∷ rest) = elim (Bool-cases (leb (length a.bytes) size)) [
  | inl e ↦ rw e (refl, ground arith)
  | inr e ↦ rw e (
    ap (λ s. s ++ arriving rest) (sym (take-append-drop size a.bytes))
        ∙ append_assoc (take size a.bytes) (drop size a.bytes) (arriving rest),
    omega (arith, length-take size a.bytes),
  )
]

-- Handing out the bytes up to `k`.
pub advance :
    (b : Reader) (k : ℕ)
    → Inv b
    → b.r ≤ k
    → k ≤ b.w
    → Hands b (slice b.r k b.buf) (record b { r = k })
advance b k v h l = record {
  handed =
      ap (λ s. s ++ arriving b.rd) (slice-split b.r k b.w b.buf h l)
      ∙ append_assoc (slice b.r k b.buf) (slice k b.w b.buf) (arriving b.rd);
  inv = record { in_order = l; in_buffer = v.in_buffer };
  same_size = refl;
}

-- Bytes that come are put behind the unread ones.
load :
    (b : Reader) (got : Bytes) (rd' : Script) (e : Option ReadError)
    → Inv b
    → b.w + length got ≤ length b.buf
    → arriving b.rd ≡ got ++ arriving rd'
    → Hands b []
        (record b { buf = write_at b.buf b.w got; rd = rd'; w = b.w + length got; error = e })
load b got rd' e v l a = record {
  handed =
      ap (◌++◌ (pending b)) a
      ∙ sym (append_assoc (pending b) got (arriving rd'))
      ∙ ap (λ s. s ++ arriving rd') (sym (slice-write_at b.buf got b.r b.w v.in_order l));
  inv = record {
    in_order = omega (arith, v.in_order);
    in_buffer = omega (arith, length-write_at b.buf got b.w l, l);
  };
  same_size = length-write_at b.buf got b.w l;
}

copy_out-Hands :
    (b : Reader) (n : ℕ)
    → Inv b
    → let (b', bytes, e) = copy_out b n in Hands b bytes b' × (length bytes ≤ n)
unfolding copy_out
copy_out-Hands b n v =
    let k = b.r + min n (b.w - b.r) in
    let a = advance b k v (omega arith) (omega (arith, v.in_order)) in
    (
      record {
        handed = a.handed;
        inv = record { in_order = a.inv.in_order; in_buffer = v.in_buffer };
        same_size = refl;
      },
      omega (arith, length-slice b.r k b.buf (omega (arith, v.in_order, v.in_buffer))),
    )

pub slide-Hands :
    (b : Reader)
    → Inv b
    → Hands b [] (slide b)
      × ((slide b).w ≡ b.w - b.r)
      × ((slide b).r ≡ 0)
      × ((slide b).error ≡ b.error)
unfolding slide
slide-Hands b v = elim (Bool-cases (ltb 0 b.r)) [
  | inr e ↦
      rw e (record { handed = refl; inv = v; same_size = refl }, ground arith, ground arith, refl)
  | inl e ↦ rw e (
    record {
      handed = ap (λ s. s ++ arriving b.rd) (sym moved);
      inv = record {
        in_order = omega arith;
        in_buffer = omega (arith, v.in_buffer, v.in_order, size);
      };
      same_size = size;
    },
    refl,
    refl,
    refl,
  )
]
  where
    long : length (pending b) ≡ b.w - b.r
    long = length-slice b.r b.w b.buf v.in_buffer

    fits : 0 + length (pending b) ≤ length b.buf
    fits = omega (arith, long, v.in_buffer)

    size : length (write_at b.buf 0 (pending b)) ≡ length b.buf
    size = length-write_at b.buf (pending b) 0 fits

    moved : slice 0 (b.w - b.r) (write_at b.buf 0 (pending b)) ≡ pending b
    moved =
        ap (λ k. slice 0 k (write_at b.buf 0 (pending b))) {x = b.w - b.r}
          {y = 0 + length (pending b)} (omega (arith, long))
        ∙ slice-write_at b.buf (pending b) 0 0 (omega arith) fits
        ∙ ap (λ s. s ++ pending b) (slice_empty 0 b.buf)

pub Hands-trans : {b c d : Reader} {s t : Bytes} → Hands b s c → Hands c t d → Hands b (s ++ t) d
Hands-trans {b} {c} {d} {s} {t} h k = record {
  handed = h.handed ∙ ap (◌++◌ s) k.handed ∙ sym (append_assoc s t (stream d));
  inv = k.inv;
  same_size = k.same_size ∙ h.same_size;
}

-- Nothing is handed out, no less is buffered, and there is an error or more is buffered.
abbrev pub Fills : Reader → Reader → Type 0
Fills b c =
    Hands b [] c × (buffered b ≤ buffered c) × ((c.error ≢ none) ⊎ (buffered b < buffered c))

fill_cases :
    (b b0 : Reader) (i : ℕ) (e : Option ReadError) (grew : Bool)
    → Hands b [] b0
    → buffered b ≤ buffered b0
    → (grew ≡ true → buffered b < buffered b0)
    → Fills b0 (fill_loop i b0)
    → Fills b (elim e [
      | some x ↦ record b0 { error = some x }
      | none ↦ elim grew [ true ↦ b0 | false ↦ fill_loop i b0 ]
    ])
fill_cases b b0 i (some x) grew h le lt ih = (
  record {
    handed = h.handed;
    inv = record { in_order = h.inv.in_order; in_buffer = h.inv.in_buffer };
    same_size = h.same_size;
  },
  le,
  inl (λ e. cc),
)
fill_cases b b0 i none true h le lt ih = (h, le, inr (lt refl))
fill_cases b b0 i none false h le lt (k, m, inl x) = (Hands-trans h k, omega arith, inl x)
fill_cases b b0 i none false h le lt (k, m, inr x) =
    (Hands-trans h k, omega arith, inr (omega arith))

fill_loop-Fills : (i : ℕ) (b : Reader) → Inv b → Fills b (fill_loop i b)
unfolding fill_loop
fill_loop-Fills zero b v = (
  record {
    handed = refl;
    inv = record { in_order = v.in_order; in_buffer = v.in_buffer };
    same_size = refl;
  },
  omega arith,
  inl (λ e. cc),
)
fill_loop-Fills (suc i) b v =
    let size = length b.buf - b.w in
    let n = net_read size b.rd in
    let (came, small) = net_read_lem size b.rd in
    let fits : b.w + length n.0 ≤ length b.buf = omega (arith, small, v.in_buffer) in
    let h = load b n.0 n.2 b.error v fits came in
    let b0 = record b { buf = write_at b.buf b.w n.0; rd = n.2; w = b.w + length n.0 } in
    fill_cases b b0 i n.1 (ltb 0 (length n.0)) h (omega (arith, v.in_order))
      (λ p. ground (arith, v.in_order)) (fill_loop-Fills i b0 h.inv)

slid_buffered : (b : Reader) → Inv b → buffered (slide b) ≡ buffered b
slid_buffered b v = let (h, ew, er, ee) = slide-Hands b v in omega (arith, ew, er)

grown : (b s c : Reader) → buffered s ≡ buffered b → Hands b [] s → Fills s c → Fills b c
grown b s c e h (k, le, inl x) = (Hands-trans h k, omega arith, inl x)
grown b s c e h (k, le, inr x) = (Hands-trans h k, omega arith, inr (omega arith))

-- `fill` does not panic on a buffer with room, and then reads something or meets an error.
pub fill_lem :
    (b : Reader)
    → Inv b
    → buffered b < length b.buf
    → (c : Reader) × (fill b ≡ some c) × (Fills b c)
unfolding fill
fill_lem b v room =
    let s = slide b in
    let (h, ew, er, ee) = slide-Hands b v in
    let more = fill_loop-Fills max_consecutive_empty_reads s h.inv in
    (
      fill_loop max_consecutive_empty_reads s,
      ground (arith, ew, h.same_size),
      grown b s (fill_loop max_consecutive_empty_reads s) (slid_buffered b v) h more,
    )

abbrev Reads : Reader → ℕ → Reader × Bytes × Option ReadError → Type 0
Reads b n res = Hands b res.1 res.0 × (length res.1 ≤ n)

empty_pending : (b : Reader) → b.r ≡ b.w → pending b ≡ []
empty_pending b e = ap (λ k. slice b.r k b.buf) (sym e) ∙ slice_empty b.r b.buf

read_direct-Reads : (b : Reader) (n : ℕ) → Inv b → b.r ≡ b.w → Reads b n (read_direct b n)
unfolding read_direct
read_direct-Reads b n v e =
    let (came, small) = net_read_lem n b.rd in
    (
      record {
        handed = rw (empty_pending b e) came;
        inv = record { in_order = v.in_order; in_buffer = v.in_buffer };
        same_size = refl;
      },
      small,
    )

read_through-Reads : (b : Reader) (n : ℕ) → Inv b → b.r ≡ b.w → Reads b n (read_through b n)
unfolding read_through
read_through-Reads b n v e =
    let got = net_read (length b.buf) b.rd in
    let (came, small) = net_read_lem (length b.buf) b.rd in
    let loaded = record b {
      buf = write_at b.buf 0 got.0;
      rd = got.2;
      r = 0;
      w = 0 + length got.0;
      error = got.1;
    } in
    let start = record b { r = 0; w = 0 } in
    let h =
      load start got.0 got.2 got.1 (record { in_order = omega arith; in_buffer = omega arith })
        (omega (arith, small)) came in
    let before : stream b ≡ stream loaded =
      ap (λ s. s ++ arriving b.rd) (empty_pending b e)
      ∙ sym (ap (λ s. s ++ arriving b.rd) (slice_empty 0 b.buf))
      ∙ h.handed in
    let (k, small') = copy_out-Hands loaded n h.inv in
    elim (Bool-cases (length got.0 == 0)) [
      | inl p ↦
          rw (p, read_through)
            (
              record {
                handed = before;
                inv = record { in_order = h.inv.in_order; in_buffer = h.inv.in_buffer };
                same_size = h.same_size;
              },
              omega arith,
            )
      | inr p ↦
          rw (p, read_through)
            (
              record {
                handed = before ∙ k.handed;
                inv = k.inv;
                same_size = k.same_size ∙ h.same_size;
              },
              small',
            )
    ]

read_empty-Reads :
    (b : Reader) (n : ℕ) (e : Option ReadError) → Inv b → b.r ≡ b.w → Reads b n (read_empty b n e)
unfolding read_empty
read_empty-Reads b n (some x) v p = (
  record {
    handed = refl;
    inv = record { in_order = v.in_order; in_buffer = v.in_buffer };
    same_size = refl;
  },
  omega arith,
)
read_empty-Reads b n none v p = elim (Bool-cases (leb (length b.buf) n)) [
  | inl e ↦ rw e (read_direct-Reads b n v p)
  | inr e ↦ rw e (read_through-Reads b n v p)
]

-- From a reader whose indices are in order and in its buffer, `Read` hands out the next bytes of the
-- stream, no more than were asked for, and the indices stay in order and in a buffer of one size.
pub read-Reads :
    (b : Reader) (n : ℕ) → Inv b → Hands b (read b n).1 (read b n).0 × (length (read b n).1 ≤ n)
unfolding read
read-Reads b n v = elim (Bool-cases (n == 0)) [
  | inl e0 ↦ rw (e0, read) (record { handed = refl; inv = v; same_size = refl }, omega arith)
  | inr e0 ↦ elim (Bool-cases (b.r == b.w)) [
    | inr e1 ↦ rw (e0, e1, read) (copy_out-Hands b n v)
    | inl e1 ↦ rw (e0, e1, read) (read_empty-Reads b n b.error v (ground arith))
  ]
]

-- From such a reader, `UnreadBuf` hands out the next bytes of the stream, whatever its bound, and
-- takes nothing from the connection.
pub unread_buf-Hands :
    (b : Reader) (max : ℤ)
    → Inv b
    → Hands b (unread_buf max b).1 (unread_buf max b).0 × ((unread_buf max b).0.rd ≡ b.rd)
unfolding unread_buf
unread_buf-Hands b (negsuc n) v =
    let a = advance b b.w v v.in_order (omega arith) in
    (
      record {
        handed = a.handed;
        inv = record { in_order = a.inv.in_order; in_buffer = v.in_buffer };
        same_size = refl;
      },
      refl,
    )
unread_buf-Hands b (pos n) v = elim (Bool-cases (n == 0)) [
  | inl e ↦ rw e (record { handed = refl; inv = v; same_size = refl }, refl)
  | inr e ↦
      let k = if ltb n (buffered b) then b.r + n else b.w in
      let h : (b.r ≤ k) × (k ≤ b.w) = ground (arith, v.in_order) in
      let a = advance b k v h.0 h.1 in
      rw e (
        record {
          handed = a.handed;
          inv = record { in_order = a.inv.in_order; in_buffer = v.in_buffer };
          same_size = refl;
        },
        refl,
      )
]

-- `UnreadBuf` hands out at most its bound, if that is not negative.
pub unread_buf-le : (n : ℕ) (b : Reader) → Inv b → length (unread_buf (pos n) b).1 ≤ n
unfolding unread_buf
unread_buf-le n b v = elim (Bool-cases (n == 0)) [
  | inl e ↦ rw e (omega arith)
  | inr e ↦
      (let k = if ltb n (buffered b) then b.r + n else b.w in
        let h : (k ≤ b.w) × (k ≤ b.r + n) = ground (arith, v.in_order) in
        rw e (omega (arith, length-slice b.r k b.buf (omega (arith, h.0, v.in_buffer)), h.1)))
]
