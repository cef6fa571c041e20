-- ===== src/Base/Decimal.antt =====
-- What the Go code calls of `strconv`: numbers to and from text.
use Prim.Native.Nat.{ℕ, zero, suc, ◌+◌, ◌-◌, ◌*◌, ◌/◌, ◌%◌, ◌≤◌, ◌<◌}
use mathlib.Core.Path.{◌≡◌, refl, sym, ap, subst, ◌∙◌}
use mathlib.Core.Logic.{◌≢◌, ◌⊎◌, inl, inr}
use mathlib.Core.Bool.{Bool, true, false, ◌&&◌, ◌||◌, not}
use mathlib.Core.Option.{Option, none, some}
use mathlib.Core.List.{[], ◌∷◌}
use native.Mathlib.Omega.{arith}
use anyproxy.Base.Compare.{◌==◌, ltb, leb, if◌then◌else◌, Bool-cases}
use anyproxy.Base.Lists.{All}
use anyproxy.Base.Text.{Bytes}
use anyproxy.Base.Strings.{lower_byte}

abbrev pub u16_mod : ℕ
u16_mod = 65536

abbrev pub max_u64 : ℕ
max_u64 = 18446744073709551615

abbrev pub min_i64 : ℕ
min_i64 = 9223372036854775808

pub data NumError : Type 0 where
  syntax_error range_error : NumError

-- `negsuc n` is -(n + 1).
pub data ℤ : Type 0 where
  pos : ℕ → ℤ
  negsuc : ℕ → ℤ

-- `uint16(n)`: the low sixteen bits of the two's complement
abbrev pub to_u16 : ℤ → ℕ
to_u16 (pos n) = n % u16_mod
to_u16 (negsuc n) = u16_mod - 1 - n % u16_mod

-- A number with its error: `strconv` returns both, and the caller may use the first beside the second.
pub record Parsed (A : Type 0) : Type 0 where
  pub value : A
  pub error : Option NumError

abbrev pub parsed : {A : Type 0} → A → Option NumError → Parsed A
parsed a e = record { value = a; error = e }

-- the value of a digit, 36 for a byte that is none
abbrev pub digit_value : ℕ → ℕ
digit_value c =
    if leb b'0' c && leb c b'9'
    then c - b'0'
    else if leb b'a' (lower_byte c) && leb (lower_byte c) b'z'
    then lower_byte c - b'a' + 10
    else 36

-- The loop of `strconv.ParseUint`: `under` allows underscores.
unfoldable pub scan_uint : ℕ → Bool → ℕ → ℕ → Bytes → Parsed ℕ
scan_uint base under limit n [] = parsed n none
scan_uint base under limit n (c ∷ s) =
    let m = n * base + digit_value c in
    let skipped = scan_uint base under limit n s in
    let rest = scan_uint base under limit m s in
    if under && c == b'_'
    then skipped
    else if leb base (digit_value c)
    then parsed 0 (some syntax_error)
    else if ltb limit m
    then parsed limit (some range_error)
    else rest

-- `strconv.ParseUint(s, 10, 64)`
unfoldable pub parse_uint10 : Bytes → Parsed ℕ
unfolding scan_uint
parse_uint10 [] = parsed 0 (some syntax_error)
parse_uint10 (c ∷ s) = scan_uint 10 false max_u64 0 (c ∷ s)

-- The end of `strconv.ParseInt(s, 10, 64)`, on the sign and the magnitude.
signed : Bool → ℕ → Option NumError → Parsed ℤ
signed neg n (some syntax_error) = parsed (pos 0) (some syntax_error)
signed false n e =
    if leb min_i64 n then parsed (pos (min_i64 - 1)) (some range_error) else parsed (pos n) none
signed true n e =
    if ltb min_i64 n
    then parsed (negsuc (min_i64 - 1)) (some range_error)
    else if n == 0
    then parsed (pos 0) none
    else parsed (negsuc (n - 1)) none

-- `strconv.ParseInt(s, 10, 64)`, which is also `strconv.Atoi(s)`
unfoldable pub parse_int10 : Bytes → Parsed ℤ
unfolding parse_uint10 signed
parse_int10 [] = parsed (pos 0) (some syntax_error)
parse_int10 (c ∷ s) =
    let unsigned = parse_uint10 (c ∷ s) in
    let magnitude = parse_uint10 s in
    if c == b'+'
    then signed false magnitude.value magnitude.error
    else if c == b'-'
    then signed true magnitude.value magnitude.error
    else signed false unsigned.value unsigned.error

abbrev pub atoi : Bytes → Parsed ℤ
atoi = parse_int10

-- `underscoreOK` of `strconv`, behind the base prefix; `prev` is `0`, `_`, `!` or `^` of its loop.
underscores_from : Bool → ℕ → Bytes → Bool
underscores_from hex prev [] = not (prev == b'_')
underscores_from hex prev (c ∷ s) =
    let digit =
      (leb b'0' c && leb c b'9') || (hex && leb b'a' (lower_byte c) && leb (lower_byte c) b'f') in
    let rest = underscores_from hex (if digit then b'0' else if c == b'_' then b'_' else b'!') s in
    if digit then rest else if c == b'_' then prev == b'0' && rest else not (prev == b'_') && rest

-- The base of `strconv.ParseUint(s, 0, …)`, and the digits behind its prefix.
based : Bytes → ℕ × Bytes
based [] = (10, [])
based (z ∷ []) = if z == b'0' then (8, []) else (10, z ∷ [])
based (z ∷ p ∷ []) = if z == b'0' then (8, p ∷ []) else (10, z ∷ p ∷ [])
based (z ∷ p ∷ d ∷ s) =
    if not (z == b'0')
    then (10, z ∷ p ∷ d ∷ s)
    else if lower_byte p == b'b'
    then (2, d ∷ s)
    else if lower_byte p == b'o'
    then (8, d ∷ s)
    else if lower_byte p == b'x'
    then (16, d ∷ s)
    else (8, p ∷ d ∷ s)

-- `underscoreOK(s)` on a text with no sign
underscores_ok : Bytes → Bool
unfolding underscores_from
underscores_ok [] = true
underscores_ok (z ∷ []) = underscores_from false b'^' (z ∷ [])
underscores_ok (z ∷ p ∷ s) =
    let q = lower_byte p in
    if z == b'0' && (q == b'b' || q == b'o' || q == b'x')
    then underscores_from (q == b'x') b'0' s
    else underscores_from false b'^' (z ∷ p ∷ s)

has_byte : ℕ → Bytes → Bool
has_byte b [] = false
has_byte b (c ∷ s) = c == b || has_byte b s

-- `strconv.ParseUint(s, 0, 16)`
unfoldable pub parse_u16 : Bytes → Parsed ℕ
unfolding scan_uint based underscores_ok has_byte
parse_u16 [] = parsed 0 (some syntax_error)
parse_u16 (c ∷ s) =
    let (base, digits) = based (c ∷ s) in
    let r = scan_uint base true (u16_mod - 1) 0 digits in
    elim r.error [
      | some e ↦ r
      | none ↦
          (if has_byte b'_' digits && not (underscores_ok (c ∷ s))
            then parsed 0 (some syntax_error)
            else r)
    ]

-- `strconv.Itoa(n)` of a number that is not negative, on fuel: each round divides by ten.
itoa_onto : ℕ → ℕ → Bytes → Bytes
itoa_onto zero n out = out
itoa_onto (suc fuel) n out = elim (ltb n 10) [
  | true ↦ (b'0' + n) ∷ out
  | false ↦ itoa_onto fuel (n / 10) ((b'0' + n % 10) ∷ out)
]

unfoldable pub itoa : ℕ → Bytes
unfolding itoa_onto
itoa n = itoa_onto (suc n) n []

-- The value that decimal digits spell behind `n`.
abbrev pub decimal_value : ℕ → Bytes → ℕ
decimal_value n [] = n
decimal_value n (c ∷ s) = decimal_value (n * 10 + (c - b'0')) s

abbrev pub IsDigit : ℕ → Type 0
IsDigit c = (b'0' ≤ c) × (c ≤ b'9')

pub le-decimal_value : (s : Bytes) (n : ℕ) → n ≤ decimal_value n s
le-decimal_value [] n = omega arith
le-decimal_value (c ∷ s) n = omega (arith, le-decimal_value s (n * 10 + (c - b'0')))

digit_value-IsDigit : (c : ℕ) → IsDigit c → digit_value c ≡ c - b'0'
digit_value-IsDigit c h = ground arith

-- Digits whose value is within the limit are read exactly, with underscores allowed or not.
pub scan_uint-digits :
    (under : Bool) (limit n : ℕ) (s : Bytes)
    → All IsDigit s
    → decimal_value n s ≤ limit
    → scan_uint 10 under limit n s ≡ parsed (decimal_value n s) none
unfolding scan_uint
scan_uint-digits under limit n [] h b = refl
scan_uint-digits under limit n (c ∷ s) (hc, hs) b =
    let m = n * 10 + (c - b'0') in
    ground
      (arith, digit_value-IsDigit c hc, scan_uint-digits under limit m s hs b, le-decimal_value s m)

itoa_onto-value :
    (fuel n : ℕ) (out : Bytes)
    → n < fuel
    → decimal_value 0 (itoa_onto fuel n out) ≡ decimal_value n out
unfolding itoa_onto
itoa_onto-value zero n out h = elim h [ ]
itoa_onto-value (suc fuel) n out h =
    ground (arith, itoa_onto-value fuel (n / 10) ((b'0' + n % 10) ∷ out))

itoa_onto-IsDigit :
    (fuel n : ℕ) (out : Bytes) → All IsDigit out → All IsDigit (itoa_onto fuel n out)
unfolding itoa_onto
itoa_onto-IsDigit zero n out h = h
itoa_onto-IsDigit (suc fuel) n out h =
    ground (arith, itoa_onto-IsDigit fuel (n / 10) ((b'0' + n % 10) ∷ out))

pub itoa-IsDigit : (n : ℕ) → All IsDigit (itoa n)
unfolding itoa
itoa-IsDigit n = itoa_onto-IsDigit (suc n) n [] tt

pub itoa-value : (n : ℕ) → decimal_value 0 (itoa n) ≡ n
unfolding itoa
itoa-value n = itoa_onto-value (suc n) n [] (omega arith)

-- `strconv.Itoa` of any int
unfoldable pub itoa_int : ℤ → Bytes
unfolding itoa
itoa_int (pos n) = itoa n
itoa_int (negsuc n) = b'-' ∷ itoa (suc n)

itoa_onto-ne-nil : (fuel n : ℕ) (out : Bytes) → (0 < fuel) ⊎ (out ≢ []) → itoa_onto fuel n out ≢ []
unfolding itoa_onto
itoa_onto-ne-nil zero n out (inl h) = elim h [ ]
itoa_onto-ne-nil zero n out (inr h) = h
itoa_onto-ne-nil (suc fuel) n out h =
    let more = itoa_onto-ne-nil fuel (n / 10) ((b'0' + n % 10) ∷ out) (inr (λ e. cc)) in
    ground (arith, more)

pub itoa-ne-nil : (n : ℕ) → itoa n ≢ []
unfolding itoa
itoa-ne-nil n = itoa_onto-ne-nil (suc n) n [] (inl (omega arith))

-- Digits behind no sign are read exactly, if they fit.
pub parse_int10-digits :
    (s : Bytes)
    → s ≢ []
    → All IsDigit s
    → decimal_value 0 s < min_i64
    → parse_int10 s ≡ parsed (pos (decimal_value 0 s)) none
unfolding parse_int10
parse_int10-digits [] n h b = absurd (n refl)
parse_int10-digits (c ∷ s) n h b =
    ground (arith, scan_uint-digits false max_u64 0 (c ∷ s) h (omega arith))

-- Every int that is not negative is read back from its print.
pub atoi-itoa : (n : ℕ) → n < min_i64 → atoi (itoa n) ≡ parsed (pos n) none
atoi-itoa n b =
    parse_int10-digits (itoa n) (itoa-ne-nil n) (itoa-IsDigit n) (rw itoa-value b)
    ∙ ap (λ k. parsed (pos k) none) (itoa-value n)

itoa_onto-head :
    (fuel n : ℕ) (out : Bytes)
    → n < fuel
    → 0 < n
    → (c : ℕ) × (s : Bytes) × (itoa_onto fuel n out ≡ c ∷ s) × (c ≢ b'0')
unfolding itoa_onto
itoa_onto-head zero n out l p = absurd (omega (arith, l))
itoa_onto-head (suc fuel) n out l p = elim (Bool-cases (ltb n 10)) [
  | inl e ↦ (b'0' + n, out, rw (e, itoa_onto) refl, (λ h. omega (arith, h, p)))
  | inr e ↦
      rw (e, itoa_onto)
        (itoa_onto-head fuel (n / 10) ((b'0' + n % 10) ∷ out) (ground (arith, e, l))
          (ground (arith, e)))
]

based_plain : (c : ℕ) (s : Bytes) → c ≢ b'0' → based (c ∷ s) ≡ (10, c ∷ s)
unfolding based
based_plain c [] h = ground (arith, h)
based_plain c (p ∷ []) h = ground (arith, h)
based_plain c (p ∷ d ∷ s) h = ground (arith, h)

has_byte-digits : (s : Bytes) → All IsDigit s → has_byte b'_' s ≡ false
unfolding has_byte
has_byte-digits [] h = refl
has_byte-digits (c ∷ s) h = ground (arith, has_byte-digits s h.1, h.0)

parse_u16-plain :
    (c : ℕ) (s : Bytes)
    → c ≢ b'0'
    → All IsDigit (c ∷ s)
    → decimal_value 0 (c ∷ s) < u16_mod
    → parse_u16 (c ∷ s) ≡ parsed (decimal_value 0 (c ∷ s)) none
unfolding parse_u16
parse_u16-plain c s first digits small = ground (
  arith,
  based_plain c s first,
  scan_uint-digits true (u16_mod - 1) 0 (c ∷ s) digits (omega (arith, small)),
  has_byte-digits (c ∷ s) digits,
)

itoa-head : (n : ℕ) → (c : ℕ) × (s : Bytes) × (itoa (suc n) ≡ c ∷ s) × (c ≢ b'0')
unfolding itoa
itoa-head n = itoa_onto-head (suc (suc n)) (suc n) [] (omega arith) (omega arith)

parse_u16-zero : parse_u16 (itoa 0) ≡ parsed 0 none
unfolding parse_u16 itoa
parse_u16-zero = refl

-- Every port is read back from its print.
pub parse_u16-itoa : (n : ℕ) → n < u16_mod → parse_u16 (itoa n) ≡ parsed n none
parse_u16-itoa zero small = parse_u16-zero
parse_u16-itoa (suc n) small =
    let (c, s, e, first) = itoa-head n in
    let digits : All IsDigit (c ∷ s) = subst (All IsDigit) e (itoa-IsDigit (suc n)) in
    let value : decimal_value 0 (c ∷ s) ≡ suc n =
      ap (decimal_value 0) (sym e) ∙ itoa-value (suc n) in
    ap parse_u16 e
    ∙ parse_u16-plain c s first digits (omega (arith, value, small))
    ∙ ap (λ k. parsed k none) value
