-- ===== src/Header/Wire.antt =====
-- proto/http/header.go: what `Write` puts on the wire, and that no value breaks out of its line.
use anyproxy.Base.{
  ℕ, ◌+◌, Bool, true, false, ◌≡◌, ◌≢◌, refl, ap, ◌∙◌, Bytes, codes, List, [], ◌∷◌, ◌++◌, append-nil,
  append_assoc, if◌then◌else◌, ◌==◌, trim_left, trim_right, replace_byte, Lacks, All, length, arith,
}
use anyproxy.Header.{
  Header, insert_sorted, sorted_key_values, clean_value, write_parts, write_values, write_fields,
  write_subset, write_header,
}

-- `bytes.Buffer`, whose writes do not fail
abbrev pub buffer_write : Bytes → Bytes → Bytes × Bool
buffer_write w s = (w ++ s, true)

abbrev pub field_line : Bytes → Bytes → Bytes
field_line key v = key ++ (codes ": " ++ (clean_value v ++ codes "\r\n"))

abbrev pub value_lines : Bytes → List Bytes → Bytes
value_lines key [] = []
value_lines key (v ∷ vs) = field_line key v ++ value_lines key vs

abbrev pub lines : Header → Bytes
lines [] = []
lines ((key, vs) ∷ kvs) = value_lines key vs ++ lines kvs

write_values-lines :
    (w key : Bytes) (vs : List Bytes)
    → write_values buffer_write w key vs ≡ (w ++ value_lines key vs, true)
unfolding write_values write_parts
write_values-lines w key [] = rw append-nil
write_values-lines w key (v ∷ vs) =
    write_values-lines ((((w ++ key) ++ codes ": ") ++ clean_value v) ++ codes "\r\n") key vs
    ∙ simp append_assoc

write_fields-lines :
    (w : Bytes) (kvs : Header) → write_fields buffer_write w kvs ≡ (w ++ lines kvs, true)
unfolding write_fields
write_fields-lines w [] = rw append-nil
write_fields-lines w ((key, vs) ∷ kvs) =
    rw (write_values-lines w key vs)
      (write_fields-lines (w ++ value_lines key vs) kvs ∙ simp append_assoc)

-- `Write` to a buffer appends one line for each value, by sorted keys, and succeeds.
pub write_header-lines :
    (w : Bytes) (h : Header)
    → write_header buffer_write w h ≡ (w ++ lines (sorted_key_values (λ k. false) h), true)
unfolding write_header write_subset
write_header-lines w h = write_fields-lines w (sorted_key_values (λ k. false) h)

replace_byte-Lacks_self : (a b : ℕ) (s : Bytes) → b ≢ a → Lacks a (replace_byte a b s)
replace_byte-Lacks_self a b [] n = tt
replace_byte-Lacks_self a b (c ∷ s) n = (ground arith, replace_byte-Lacks_self a b s n)

replace_byte-Lacks : (a b d : ℕ) (s : Bytes) → b ≢ d → Lacks d s → Lacks d (replace_byte a b s)
replace_byte-Lacks a b d [] n h = tt
replace_byte-Lacks a b d (c ∷ s) n (hc, h) = (ground arith, replace_byte-Lacks a b d s n h)

trim_left-Lacks : (d : ℕ) (p : ℕ → Bool) (s : Bytes) → Lacks d s → Lacks d (trim_left p s)
unfolding trim_left
trim_left-Lacks d p [] h = tt
trim_left-Lacks d p (c ∷ s) (hc, h) = ground (arith, trim_left-Lacks d p s h)

trim_right-Lacks : (d : ℕ) (p : ℕ → Bool) (s : Bytes) → Lacks d s → Lacks d (trim_right p s)
unfolding trim_right
trim_right-Lacks d p [] h = tt
trim_right-Lacks d p (c ∷ s) (hc, h) = ground (arith, trim_right-Lacks d p s h)

-- A written value holds no line feed and no carriage return.
pub clean_value-Lacks : (v : Bytes) → Lacks b'\n' (clean_value v) × Lacks b'\r' (clean_value v)
unfolding clean_value
clean_value-Lacks v =
    let v1 = replace_byte b'\n' b' ' v in
    let v2 = replace_byte b'\r' b' ' v1 in
    let lf1 = replace_byte-Lacks_self b'\n' b' ' v (λ e. omega arith) in
    let lf2 = replace_byte-Lacks b'\r' b' ' b'\n' v1 (λ e. omega arith) lf1 in
    let cr2 = replace_byte-Lacks_self b'\r' b' ' v1 (λ e. omega arith) in
    (
      trim_right-Lacks b'\n' _ _ (trim_left-Lacks b'\n' _ v2 lf2),
      trim_right-Lacks b'\r' _ _ (trim_left-Lacks b'\r' _ v2 cr2),
    )

abbrev pub count_byte : ℕ → Bytes → ℕ
count_byte b [] = 0
count_byte b (c ∷ s) = (if c == b then 1 else 0) + count_byte b s

count_byte-append : (b : ℕ) (s t : Bytes) → count_byte b (s ++ t) ≡ count_byte b s + count_byte b t
count_byte-append b [] t = omega arith
count_byte-append b (c ∷ s) t = omega (arith, count_byte-append b s t)

count_byte-Lacks : (b : ℕ) (s : Bytes) → Lacks b s → count_byte b s ≡ 0
count_byte-Lacks b [] h = refl
count_byte-Lacks b (c ∷ s) (hc, h) = ground (arith, count_byte-Lacks b s h)

-- No key holds a line feed.
abbrev pub PlainKeys : Header → Type 0
PlainKeys = All (λ kv. Lacks b'\n' kv.0)

abbrev pub value_count : Header → ℕ
value_count [] = 0
value_count ((key, vs) ∷ kvs) = length vs + value_count kvs

value_lines-count :
    (key : Bytes) (vs : List Bytes)
    → Lacks b'\n' key
    → count_byte b'\n' (value_lines key vs) ≡ length vs
value_lines-count key [] h = refl
value_lines-count key (v ∷ vs) h =
    let clean = count_byte-Lacks b'\n' (clean_value v) (clean_value-Lacks v).0 in
    omega (
      arith,
      count_byte-append b'\n' (field_line key v) (value_lines key vs),
      count_byte-append b'\n' key (codes ": " ++ (clean_value v ++ codes "\r\n")),
      count_byte-append b'\n' (clean_value v) (codes "\r\n"),
      count_byte-Lacks b'\n' key h,
      clean,
      value_lines-count key vs h,
    )

lines-count : (kvs : Header) → PlainKeys kvs → count_byte b'\n' (lines kvs) ≡ value_count kvs
lines-count [] h = refl
lines-count ((key, vs) ∷ kvs) (hk, h) = omega (
  arith,
  count_byte-append b'\n' (value_lines key vs) (lines kvs),
  value_lines-count key vs hk,
  lines-count kvs h,
)

insert_sorted-PlainKeys :
    (kv : Bytes × List Bytes) (h : Header)
    → Lacks b'\n' kv.0
    → PlainKeys h
    → PlainKeys (insert_sorted kv h)
      × (value_count (insert_sorted kv h) ≡ length kv.1 + value_count h)
unfolding insert_sorted
insert_sorted-PlainKeys kv [] k h = ((k, tt), refl)
insert_sorted-PlainKeys kv (x ∷ xs) k (hx, h) = ground (arith, insert_sorted-PlainKeys kv xs k h)

sorted-PlainKeys :
    (h : Header)
    → PlainKeys h
    → PlainKeys (sorted_key_values (λ k. false) h)
      × (value_count (sorted_key_values (λ k. false) h) ≡ value_count h)
unfolding sorted_key_values
sorted-PlainKeys [] p = (tt, refl)
sorted-PlainKeys ((k, vv) ∷ h) (pk, p) =
    let (q, n) = sorted-PlainKeys h p in
    let (r, m) = insert_sorted-PlainKeys (k, vv) (sorted_key_values (λ j. false) h) pk q in
    (r, omega arith)

-- What is written of a header whose keys hold no line feed has as many line feeds as the header
-- has values, whatever bytes the values hold.
pub write_header_line_count :
    (h : Header) → PlainKeys h → count_byte b'\n' (write_header buffer_write [] h).0 ≡ value_count h
write_header_line_count h p =
    let (q, n) = sorted-PlainKeys h p in
    ap (λ r. count_byte b'\n' r.0) (write_header-lines [] h)
    ∙ lines-count (sorted_key_values (λ k. false) h) q
    ∙ n
