-- ===== src/Header/Canonical.antt =====
-- proto/http/header.go: canonical header keys. The quick check is an optimisation of the slow path.
use anyproxy.Base.{
  ◌⊎◌, ℕ, ◌+◌, ◌-◌, Bool, true, false, ◌&&◌, ◌||◌, not, ◌≡◌, refl, sym, ap, ◌∙◌, Bytes, codes, List,
  [], ◌∷◌, if◌then◌else◌, ltb, leb, ◌==◌, bytes_eq, bytes_eq_iff, to_lower, lower_byte, arith,
  Bool-cases, inl, inr,
}

abbrev is_lower : ℕ → Bool
is_lower c = leb b'a' c && leb c b'z'

abbrev is_upper : ℕ → Bool
is_upper c = leb b'A' c && leb c b'Z'

abbrev is_digit : ℕ → Bool
is_digit c = leb b'0' c && leb c b'9'

any_byte : ℕ → Bytes → Bool
any_byte b [] = false
any_byte b (c ∷ s) = b == c || any_byte b s

-- `isTokenTable`, a table of 127 entries
is_token : ℕ → Bool
unfolding any_byte
is_token c = is_digit c || is_lower c || is_upper c || any_byte c (codes "!#$%&'*+-.^_`|~")

-- `validHeaderFieldByte`
unfoldable pub valid_header_field_byte : ℕ → Bool
unfolding is_token
valid_header_field_byte b = ltb b 127 && is_token b

abbrev to_lower_gap : ℕ
to_lower_gap = b'a' - b'A'

-- the map that `init` fills: each key is its own value
unfoldable pub common_header : List Bytes
common_header =
    codes "Accept"
    ∷ codes "Accept-Charset"
    ∷ codes "Accept-Encoding"
    ∷ codes "Accept-Language"
    ∷ codes "Accept-Ranges"
    ∷ codes "Cache-Control"
    ∷ codes "Cc"
    ∷ codes "Connection"
    ∷ codes "Content-Id"
    ∷ codes "Content-Language"
    ∷ codes "Content-Length"
    ∷ codes "Content-Transfer-Encoding"
    ∷ codes "Content-Type"
    ∷ codes "Cookie"
    ∷ codes "Date"
    ∷ codes "Dkim-Signature"
    ∷ codes "Etag"
    ∷ codes "Expires"
    ∷ codes "From"
    ∷ codes "Host"
    ∷ codes "If-Modified-Since"
    ∷ codes "If-None-Match"
    ∷ codes "In-Reply-To"
    ∷ codes "Last-Modified"
    ∷ codes "Location"
    ∷ codes "Message-Id"
    ∷ codes "Mime-Version"
    ∷ codes "Pragma"
    ∷ codes "Received"
    ∷ codes "Return-Path"
    ∷ codes "Server"
    ∷ codes "Set-Cookie"
    ∷ codes "Subject"
    ∷ codes "To"
    ∷ codes "User-Agent"
    ∷ codes "Via"
    ∷ codes "X-Forwarded-For"
    ∷ codes "X-Imforwards"
    ∷ codes "X-Powered-By"
    ∷ []

unfoldable pub any_key : Bytes → List Bytes → Bool
any_key k [] = false
any_key k (j ∷ js) = bytes_eq j k || any_key k js

-- one byte of `tmp`
unfoldable pub title_byte : Bool → ℕ → ℕ
title_byte upper c =
    if upper && is_lower c
    then c - to_lower_gap
    else if not upper && is_upper c
    then c + to_lower_gap
    else c

-- the loop that fills `tmp`
unfoldable pub title_from : Bool → Bytes → Bytes
title_from upper [] = []
title_from upper (c ∷ a) = let d = title_byte upper c in d ∷ title_from (d == b'-') a

unfoldable pub all_valid : Bytes → Bool
all_valid [] = true
all_valid (c ∷ a) = valid_header_field_byte c && all_valid a

-- `canonicalMIMEHeaderKey`
unfoldable pub canonical_slow : Bytes → Bytes
unfolding all_valid title_from
canonical_slow a =
    if not (all_valid a)
    then a
    else let tmp = title_from true a in if any_key tmp common_header then tmp else a

-- the loop of `CanonicalMIMEHeaderKey` over the rest of `s`
quick_check : Bytes → Bool → Bytes → Bytes
quick_check s upper [] = s
quick_check s upper (c ∷ rest) =
    let later = quick_check s (c == b'-') rest in
    if not (valid_header_field_byte c)
    then s
    else if upper && is_lower c
    then canonical_slow s
    else if not upper && is_upper c
    then canonical_slow s
    else later

-- `CanonicalMIMEHeaderKey`
unfoldable pub canonical_mime_header_key : Bytes → Bytes
unfolding quick_check
canonical_mime_header_key s = quick_check s true s

-- The loop answers as the slow path does, if that leaves `s` alone where the rest is not valid and
-- where the rest has its title form already.
quick_check-slow :
    (s : Bytes) (upper : Bool) (rest : Bytes)
    → (all_valid rest ≡ false → canonical_slow s ≡ s)
    → (title_from upper rest ≡ rest → canonical_slow s ≡ s)
    → quick_check s upper rest ≡ canonical_slow s
unfolding quick_check all_valid title_from title_byte
quick_check-slow s upper [] hv ht = sym (ht refl)
quick_check-slow s upper (c ∷ rest) hv ht = elim (Bool-cases (valid_header_field_byte c)) [
  | inr e ↦ let same = hv (ground arith) in ground arith
  | inl e ↦ elim (Bool-cases (upper && is_lower c)) [
    | inl e1 ↦ ground arith
    | inr e1 ↦ elim (Bool-cases (not upper && is_upper c)) [
      | inl e2 ↦ ground arith
      | inr e2 ↦
          let later =
            quick_check-slow s (c == b'-') rest (λ p. hv (ground arith)) (λ p. ht (ground arith)) in
          ground arith
    ]
  ]
]

slow_invalid : (a : Bytes) → all_valid a ≡ false → canonical_slow a ≡ a
unfolding canonical_slow
slow_invalid a e = rw e

slow_titled : (a : Bytes) → title_from true a ≡ a → canonical_slow a ≡ a
unfolding canonical_slow
slow_titled a e = ground arith

-- The early ends of `CanonicalMIMEHeaderKey` change no result.
pub canonical_mime_header_key-canonical_slow :
    (s : Bytes) → canonical_mime_header_key s ≡ canonical_slow s
unfolding canonical_mime_header_key
canonical_mime_header_key-canonical_slow s =
    quick_check-slow s true s (slow_invalid s) (slow_titled s)

-- The table of common keys, checked entry by entry.
all_titled : List Bytes → Bool
all_titled [] = true
all_titled (j ∷ js) = bytes_eq (title_from true j) j && all_valid j && all_titled js

common_header_titled : all_titled common_header ≡ true
unfolding all_titled title_from title_byte all_valid common_header valid_header_field_byte bytes_eq
common_header_titled = refl

all_titled-any_key :
    (k : Bytes) (js : List Bytes)
    → all_titled js ≡ true
    → any_key k js ≡ true
    → (title_from true k ≡ k) × (all_valid k ≡ true)
unfolding all_titled any_key
all_titled-any_key k [] h a = absurd (cc)
all_titled-any_key k (j ∷ js) h a =
    ground (arith, bytes_eq_iff j k, bytes_eq_iff (title_from true j) j, all_titled-any_key k js)

slow_common :
    (k : Bytes)
    → all_valid k ≡ true
    → any_key (title_from true k) common_header ≡ true
    → canonical_slow k ≡ title_from true k
unfolding canonical_slow
slow_common k v c = rw (v, c)

-- The two cases of the slow path.
canonical_slow-cases :
    (s : Bytes)
    → ((canonical_slow s ≡ s) × (all_valid s && any_key (title_from true s) common_header ≡ false))
      ⊎ ((canonical_slow s ≡ title_from true s)
          × (all_valid s ≡ true)
          × (any_key (title_from true s) common_header ≡ true))
unfolding canonical_slow
canonical_slow-cases s = ground arith

-- A canonical key is its own canonical key.
pub canonical_mime_header_key_idem :
    (s : Bytes)
    → canonical_mime_header_key (canonical_mime_header_key s) ≡ canonical_mime_header_key s
canonical_mime_header_key_idem s =
    rw (canonical_mime_header_key-canonical_slow s, canonical_mime_header_key-canonical_slow)
      (idem (canonical_slow-cases s))
  where
    idem :
        ((canonical_slow s ≡ s)
            × (all_valid s && any_key (title_from true s) common_header ≡ false))
          ⊎ ((canonical_slow s ≡ title_from true s)
              × (all_valid s ≡ true)
              × (any_key (title_from true s) common_header ≡ true))
        → canonical_slow (canonical_slow s) ≡ canonical_slow s
    idem (inl (e, _)) = ap canonical_slow e
    idem (inr (e, _, a)) =
        let titled =
          (all_titled-any_key (title_from true s) common_header common_header_titled a).0 in
        rw e (slow_titled (title_from true s) titled)

valid-lower_byte : (c : ℕ) → valid_header_field_byte (lower_byte c) ≡ valid_header_field_byte c
unfolding valid_header_field_byte any_byte
valid-lower_byte c = ground arith

lower-valid : (s t : Bytes) → to_lower s ≡ to_lower t → all_valid s ≡ all_valid t
unfolding all_valid
lower-valid [] [] e = refl
lower-valid [] (d ∷ t) e = cc
lower-valid (c ∷ s) [] e = cc
lower-valid (c ∷ s) (d ∷ t) e =
    ground (arith, valid-lower_byte c, valid-lower_byte d, lower-valid s t)

lower-title_byte :
    (u : Bool) (c d : ℕ) → lower_byte c ≡ lower_byte d → title_byte u c ≡ title_byte u d
unfolding title_byte
lower-title_byte u c d e = ground arith

lower-title : (u : Bool) (s t : Bytes) → to_lower s ≡ to_lower t → title_from u s ≡ title_from u t
unfolding title_from
lower-title u [] [] e = refl
lower-title u [] (d ∷ t) e = cc
lower-title u (c ∷ s) [] e = cc
lower-title u (c ∷ s) (d ∷ t) e =
    cc (lower-title_byte u c d (cc), lower-title (title_byte u c == b'-') s t (cc))

common_titled :
    (k : Bytes) → any_key k common_header ≡ true → (title_from true k ≡ k) × (all_valid k ≡ true)
common_titled k a = all_titled-any_key k common_header common_header_titled a

-- A text whose canonical form is a common key has that key as its title form.
common_form :
    (s : Bytes)
    → any_key (canonical_slow s) common_header ≡ true
    → (canonical_slow s ≡ title_from true s)
      × (all_valid s ≡ true)
      × (any_key (title_from true s) common_header ≡ true)
common_form s a = form (canonical_slow-cases s)
  where
    form :
        ((canonical_slow s ≡ s)
            × (all_valid s && any_key (title_from true s) common_header ≡ false))
          ⊎ ((canonical_slow s ≡ title_from true s)
              × (all_valid s ≡ true)
              × (any_key (title_from true s) common_header ≡ true))
        → (canonical_slow s ≡ title_from true s)
          × (all_valid s ≡ true)
          × (any_key (title_from true s) common_header ≡ true)
    form (inl (e, _)) =
        let own = rw e at a in
        let (titled, valid) = common_titled s own in (e ∙ sym titled, valid, rw titled own)
    form (inr r) = r

-- Keys that differ in case only have one canonical form, if that of one of them is a common key.
pub canonical_mime_header_key_fold :
    (s t : Bytes)
    → to_lower s ≡ to_lower t
    → any_key (canonical_mime_header_key s) common_header ≡ true
    → canonical_mime_header_key t ≡ canonical_mime_header_key s
canonical_mime_header_key_fold s t e a =
    let slow = canonical_mime_header_key-canonical_slow s in
    let (form, valid, common) = common_form s (rw slow at a) in
    let valid' = sym (lower-valid s t e) ∙ valid in
    let title' = lower-title true s t e in
    rw (canonical_mime_header_key-canonical_slow t, slow, form)
      (slow_common t valid' (rw title' at common) ∙ sym title')
