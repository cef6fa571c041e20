-- ===== src/TextReader/Field.antt =====
-- proto/text/reader.go and proto/http/header.go: a written field, read again.
use anyproxy.Base.{
  some, inl, inr, ℕ, suc, ◌-◌, ◌<◌, ◌≡◌, ◌≢◌, refl, ap, ◌∙◌, Bool, true, false, ◌&&◌, Bytes, codes,
  List, [], ◌∷◌, ◌++◌, append_assoc, length-append, none, ok, ltb, leb, ◌==◌, if◌then◌else◌,
  is_empty, bytes_eq, bytes_eq_iff, bytes_key, index_byte-append, Lacks, trim_left, trim_right,
  get_or, get_or-append_right, length, take, drop, take-append_left, drop-append_cons,
  take-append_eq, insert, arith, Bool-cases,
}
use anyproxy.TcpReader.{drop_break_of}
use anyproxy.Header.{Header, values_of, clean_value, trim_string_space}
use anyproxy.Header.Canonical.{canonical_mime_header_key}
use anyproxy.TextReader.{
  is_blank, drop_break, header_field, add_field, next, keep_field, field_step, crlf, header_step,
}

-- A key that a header can be sent under: it is canonical and not empty, and no byte of it ends it.
pub record IsKey (key : Bytes) : Type 0 where
  pub canonical : canonical_mime_header_key key ≡ key
  pub not_empty : key ≢ []
  pub no_colon : Lacks b':' key
  pub no_space : Lacks b' ' key
  pub no_tab : Lacks b'\t' key
  pub no_break : Lacks b'\n' key

-- The first byte, if there is one, is none of these.
abbrev Starts : (ℕ → Bool) → Bytes → Type 0
Starts p [] = Unit {0}
Starts p (c ∷ s) = p c ≡ false

trim_left-Starts : (p : ℕ → Bool) (s : Bytes) → Starts p (trim_left p s)
unfolding trim_left
trim_left-Starts p [] = tt
trim_left-Starts p (c ∷ s) = elim (Bool-cases (p c)) [
  | inl e ↦ rw e (trim_left-Starts p s)
  | inr e ↦ rw e e
]

trim_right-Starts : (p : ℕ → Bool) (s : Bytes) → Starts p s → Starts p (trim_right p s)
unfolding trim_right
trim_right-Starts p [] h = tt
trim_right-Starts p (c ∷ s) h = go (trim_right p s)
  where
    go :
        (rest : Bytes)
        → Starts p
            (elim rest as (λ _. Bytes) [ [] ↦ (if p c then [] else c ∷ []) | d ∷ ds ↦ c ∷ d ∷ ds ])
    go [] = rw h h
    go (d ∷ ds) = h

blank_space : (c : ℕ) → trim_string_space c ≡ false → is_blank c ≡ false
blank_space c h = ground (arith, h)

trim_left_kept : (s : Bytes) → Starts trim_string_space s → trim_left is_blank s ≡ s
unfolding trim_left
trim_left_kept [] h = refl
trim_left_kept (c ∷ s) h = rw (blank_space c h) refl

clean_value-Starts : (v : Bytes) → Starts trim_string_space (clean_value v)
unfolding clean_value
clean_value-Starts v = trim_right-Starts trim_string_space _ (trim_left-Starts trim_string_space _)

trim_right-Lacks : (s : Bytes) → Lacks b' ' s → trim_right (λ c. c == b' ') s ≡ s
unfolding trim_right
trim_right-Lacks [] h = refl
trim_right-Lacks (c ∷ s) h = ground (arith, trim_right-Lacks s h.1, h.0)

abbrev pub field_text : Bytes → Bytes → Bytes
field_text key v = key ++ (codes ": " ++ clean_value v)

header_field-field_text :
    (key v : Bytes) → IsKey key → header_field (field_text key v) ≡ ok (key, clean_value v)
unfolding header_field trim_left
header_field-field_text key v k =
    let value = clean_value v in
    let at = index_byte-append b':' key (b' ' ∷ value) k.no_colon in
    let name : take (length key) (key ++ b':' ∷ b' ' ∷ value) ≡ key = take-append_left key _ in
    let rest : drop (suc (length key)) (key ++ b':' ∷ b' ' ∷ value) ≡ b' ' ∷ value =
      drop-append_cons key (b' ' ∷ value) b':' (length key) refl in
    let trimmed : trim_left is_blank (b' ' ∷ value) ≡ value =
      trim_left_kept value (clean_value-Starts v) in
    rw (at, name, rest, trim_right-Lacks key k.no_space, k.canonical, trimmed, header_field) refl

pub drop_break_of-crlf : (s : Bytes) → drop_break_of (s ++ crlf) ≡ s
unfolding drop_break_of
drop_break_of-crlf s =
    let long = length-append s crlf in
    let last : get_or (s ++ crlf) (length (s ++ crlf) - 1) 0 ≡ b'\n' =
      get_or-append_right s crlf 1 _ 0 (omega (arith, long)) in
    let before : get_or (s ++ crlf) (length (s ++ crlf) - 2) 0 ≡ b'\r' =
      get_or-append_right s crlf 0 _ 0 (omega (arith, long)) in
    let two : ltb 1 (length (s ++ crlf)) ≡ true = ground (arith, long) in
    rw (last, two, before) (take-append_eq s crlf (length (s ++ crlf) - 2) (omega (arith, long)))

drop_break-crlf : (s : Bytes) → drop_break (s ++ crlf) ≡ some s
unfolding drop_break
drop_break-crlf [] = ap some (drop_break_of-crlf [])
drop_break-crlf (c ∷ s) = ap some (drop_break_of-crlf (c ∷ s))

-- The line is kept behind the values of its key, whether one of the hinted strings is used or not.
add_field-insert :
    (m : Header) (hint : ℕ) (key value : Bytes)
    → (add_field m hint key value).0 ≡ insert key (values_of key m ++ value ∷ []) m
unfolding add_field
add_field-insert m hint key value = hinted (values_of key m)
  where
    hinted :
        (vv : List Bytes)
        → (if◌then◌else◌ {A = Header × ℕ}
            (is_empty vv && ltb 0 hint)
            (insert key (value ∷ []) m, hint - 1)
            (insert key (vv ++ value ∷ []) m, hint)).0
          ≡ insert key (vv ++ value ∷ []) m
    hinted [] = ground arith
    hinted (v ∷ vs) = refl

not_empty_of : (s t : Bytes) → s ≢ [] → is_empty (s ++ t) ≡ false
not_empty_of [] t n = absurd (n refl)
not_empty_of (c ∷ s) t n = refl

not_crlf : (s : Bytes) → 2 < length s → bytes_eq s crlf ≡ false
not_crlf s l = elim (Bool-cases (bytes_eq s crlf)) [
  | inr other ↦ other
  | inl same ↦ absurd (omega (arith, l, ap length ((bytes_eq_iff s crlf).0 same)))
]

keep_field-next :
    (m : Header) (hint : ℕ) (last key value : Bytes)
    → key ≢ []
    → (hint' : ℕ) × (keep_field m hint last none (key, value)
        ≡ next (insert key (values_of key m ++ value ∷ []) m) hint' last)
unfolding keep_field
keep_field-next m hint last [] value n = absurd (n refl)
keep_field-next m hint last (c ∷ key) value n = (
  (add_field m hint (c ∷ key) value).1,
  ap (λ x. next x (add_field m hint (c ∷ key) value).1 last)
      (add_field-insert m hint (c ∷ key) value),
)

-- A written field is kept as its cleaned value behind the values of its key.
pub header_step-next :
    (m : Header) (hint : ℕ) (last key v : Bytes)
    → IsKey key
    → (hint' : ℕ) × (last' : Bytes) × (header_step m hint last (field_text key v ++ crlf) none
        ≡ next (insert key (values_of key m ++ clean_value v ∷ []) m) hint' last')
unfolding header_step field_step
header_step-next m hint last key v k =
    let text = field_text key v in
    let long = length-append text crlf in
    let long' = length-append key (codes ": " ++ clean_value v) in
    let last' =
      if leb 2 (length (text ++ crlf))
      then drop (length (text ++ crlf) - 2) (text ++ crlf)
      else last in
    let (hint', e) = keep_field-next m hint last' key (clean_value v) k.not_empty in
    let full : is_empty (text ++ crlf) ≡ false =
      ap is_empty (append_assoc key _ crlf) ∙ not_empty_of key _ k.not_empty in
    let other : bytes_eq (text ++ crlf) crlf ≡ false =
      not_crlf (text ++ crlf) (omega (arith, long, long')) in
    (
      hint',
      last',
      rw
          (
            full,
            other,
            drop_break-crlf text,
            not_empty_of key (codes ": " ++ clean_value v) k.not_empty,
            header_field-field_text key v k,
          )
          e,
    )
