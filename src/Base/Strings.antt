-- ===== src/Base/Strings.antt =====
-- What the Go code calls of `strings` and `bytes`, on byte strings.
use Prim.Native.Nat.{ℕ, zero, suc, ◌+◌, ◌-◌, ◌<◌}
use mathlib.Core.Path.{◌≡◌, refl, ap, ◌∙◌, subst}
use mathlib.Core.Logic.{◌≢◌, ◌⊎◌, inl, inr}
use mathlib.Core.Bool.{Bool, true, false, ◌&&◌, ◌||◌}
use mathlib.Core.Option.{Option, none, some}
use mathlib.Core.List.{List, [], ◌∷◌, ◌++◌, append-nil, append_assoc, map, reverse}
use native.Mathlib.Omega.{arith}
use anyproxy.Base.Compare.{◌==◌, leb, if◌then◌else◌, Bool-cases}
use anyproxy.Base.Lists.{length, take, All}
use anyproxy.Base.Text.{Bytes}

-- `bytes.IndexByte(s, b)`; `none` is -1
unfoldable pub index_byte : ℕ → Bytes → Option ℕ
index_byte b [] = none
index_byte b (c ∷ s) =
    let later = index_byte b s in
    if c == b then some 0 else elim later [ none ↦ none | some i ↦ some (suc i) ]

unfoldable pub has_prefix : Bytes → Bytes → Bool
has_prefix [] s = true
has_prefix (p ∷ ps) [] = false
has_prefix (p ∷ ps) (c ∷ s) = c == p && has_prefix ps s

-- `strings.HasSuffix(s, suffix)`, the suffix first
unfoldable pub has_suffix : Bytes → Bytes → Bool
unfolding has_prefix
has_suffix p s = has_prefix (reverse p) (reverse s)

-- `strings.Contains(s, sub)`, the part first
unfoldable pub contains : Bytes → Bytes → Bool
unfolding has_prefix
contains sub [] = has_prefix sub []
contains sub (c ∷ s) = has_prefix sub (c ∷ s) || contains sub s

-- `strings.Split(s, sep)` for a separator that is not empty: `skip` bytes of it are still to pass.
unfoldable pub split_from : Bytes → ℕ → Bytes → Bytes → List Bytes
unfolding has_prefix
split_from sep skip cur [] = cur ∷ []
split_from sep (suc skip) cur (c ∷ s) = split_from sep skip cur s
split_from sep zero cur (c ∷ s) = elim (has_prefix sep (c ∷ s)) [
  | true ↦ cur ∷ split_from sep (length sep - 1) [] s
  | false ↦ split_from sep zero (cur ++ c ∷ []) s
]

unfoldable pub split : Bytes → Bytes → List Bytes
unfolding split_from
split sep s = split_from sep 0 [] s

-- `strings.Join(parts, sep)`
unfoldable pub join : Bytes → List Bytes → Bytes
join sep [] = []
join sep (p ∷ []) = p
join sep (p ∷ q ∷ ps) = p ++ (sep ++ join sep (q ∷ ps))

-- the white space of `strings.TrimSpace` in ASCII
abbrev pub is_space : ℕ → Bool
is_space c = c == 32 || (leb 9 c && leb c 13)

unfoldable pub trim_left : (ℕ → Bool) → Bytes → Bytes
trim_left p [] = []
trim_left p (c ∷ s) = if p c then trim_left p s else c ∷ s

unfoldable pub trim_right : (ℕ → Bool) → Bytes → Bytes
trim_right p [] = []
trim_right p (c ∷ s) =
    let rest = trim_right p s in
    elim rest [ [] ↦ (if p c then [] else c ∷ []) | d ∷ ds ↦ c ∷ d ∷ ds ]

abbrev pub trim_by : (ℕ → Bool) → Bytes → Bytes
trim_by p s = trim_right p (trim_left p s)

abbrev pub trim_space : Bytes → Bytes
trim_space = trim_by is_space

abbrev pub upper_byte : ℕ → ℕ
upper_byte c = if leb b'a' c && leb c b'z' then c - 32 else c

abbrev pub lower_byte : ℕ → ℕ
lower_byte c = if leb b'A' c && leb c b'Z' then c + 32 else c

-- `strings.ToUpper`, as far as its result is ASCII: two other characters have a letter of ASCII as their
-- upper case, `ſ` (197, 191) and `ı` (196, 177), and the rest stay outside ASCII.
abbrev pub to_upper : Bytes → Bytes
to_upper [] = []
to_upper (c ∷ []) = upper_byte c ∷ []
to_upper (c ∷ d ∷ s) =
    let one = upper_byte c ∷ to_upper (d ∷ s) in
    let two = to_upper s in
    if c == 197 && d == 191 then b'S' ∷ two else if c == 196 && d == 177 then b'I' ∷ two else one

-- letters of ASCII only
abbrev pub to_lower : Bytes → Bytes
to_lower = map lower_byte

-- `strings.ReplaceAll` of one byte by one byte
abbrev pub replace_byte : ℕ → ℕ → Bytes → Bytes
replace_byte a b = map λ c. if c == a then b else c

abbrev pub Lacks : ℕ → Bytes → Type 0
Lacks b = All (λ c. c ≢ b)

pub index_byte-Lacks : (b : ℕ) (s : Bytes) → Lacks b s → index_byte b s ≡ none
unfolding index_byte
index_byte-Lacks b [] h = refl
index_byte-Lacks b (c ∷ s) h = ground (arith, index_byte-Lacks b s h.1)

pub index_byte-none : (b : ℕ) (s : Bytes) → index_byte b s ≡ none → Lacks b s
unfolding index_byte
index_byte-none b [] h = tt
index_byte-none b (c ∷ s) h = elim (Bool-cases (c == b)) [
  | inl e ↦ absurd (ground (arith, rw e at h))
  | inr e ↦
      ((λ x. ground (arith, e, x)), index_byte-none b s (none_of (index_byte b s) (rw e at h)))
]
  where
    none_of :
        (o : Option ℕ)
        → (elim o as (λ _. Option ℕ) [ none ↦ none | some k ↦ some (suc k) ]) ≡ none
        → o ≡ none
    none_of none e = refl
    none_of (some k) e = absurd (ground (arith, e))

pub index_byte-append :
    (b : ℕ) (p s : Bytes) → Lacks b p → index_byte b (p ++ b ∷ s) ≡ some (length p)
unfolding index_byte
index_byte-append b [] s h = ground arith
index_byte-append b (c ∷ p) s h = ground (arith, index_byte-append b p s h.1)

pub index_byte-lt : (b : ℕ) (s : Bytes) (i : ℕ) → index_byte b s ≡ some i → i < length s
unfolding index_byte
index_byte-lt b [] i h = cc
index_byte-lt b (c ∷ s) i h = elim (Bool-cases (c == b)) [
  | inl e ↦ ground arith
  | inr e ↦ later (index_byte-lt b s) (index_byte b s) refl (rw e at h)
]
  where
    later :
        ((j : ℕ) → index_byte b s ≡ some j → j < length s)
        → (o : Option ℕ) → index_byte b s ≡ o
        → (elim o [ none ↦ none | some k ↦ some (suc k) ]) ≡ some i
        → i < length (c ∷ s)
    later ih none e k = cc
    later ih (some j) e k = ground (arith, ih j e)

suc_inj : {j i : ℕ} → some (suc j) ≡ some i → suc j ≡ i
suc_inj h = ground (arith, h)

-- What stands before and behind the first `b`.
pub index_byte-split :
    (b : ℕ) (s : Bytes) (i : ℕ)
    → index_byte b s ≡ some i
    → (after : Bytes) × (s ≡ take i s ++ b ∷ after) × Lacks b (take i s)
unfolding index_byte
index_byte-split b [] i h = absurd (ground (arith, h))
index_byte-split b (c ∷ s) i h = elim (Bool-cases (c == b)) [
  | inl e ↦ first i e (rw e at h)
  | inr e ↦ later e (index_byte-split b s) (index_byte b s) refl (rw e at h)
]
  where
    first :
        (i : ℕ)
        → c == b ≡ true
        → some 0 ≡ some i
        → (after : Bytes) × (c ∷ s ≡ take i (c ∷ s) ++ b ∷ after) × Lacks b (take i (c ∷ s))
    first zero e h = (s, ground (arith, e), tt)
    first (suc i) e h = absurd (ground (arith, h))

    later :
        c == b ≡ false
        → ((j : ℕ)
            → index_byte b s ≡ some j
            → (after : Bytes) × (s ≡ take j s ++ b ∷ after) × Lacks b (take j s))
        → (o : Option ℕ) → index_byte b s ≡ o
        → (elim o [ none ↦ none | some k ↦ some (suc k) ]) ≡ some i
        → (after : Bytes) × (c ∷ s ≡ take i (c ∷ s) ++ b ∷ after) × Lacks b (take i (c ∷ s))
    later n ih none e k = absurd (ground (arith, k))
    later n ih (some j) e k =
        let (after, eq, lacks) = ih j e in
        subst
          (λ (m : ℕ).
            (after : Bytes) × (c ∷ s ≡ take m (c ∷ s) ++ b ∷ after) × Lacks b (take m (c ∷ s)))
          (suc_inj k) (after, ap (◌∷◌ c) eq, ((λ x. ground (arith, x, n)), lacks))

-- A separator of one byte.
pub split_from-Lacks :
    (b : ℕ) (cur s : Bytes) → Lacks b s → split_from (b ∷ []) 0 cur s ≡ (cur ++ s) ∷ []
unfolding split_from
split_from-Lacks b cur [] h = rw append-nil
split_from-Lacks b cur (c ∷ s) h =
    ground (arith, split_from-Lacks b (cur ++ c ∷ []) s h.1, append_assoc cur (c ∷ []) s)

pub split_from-append :
    (b : ℕ) (cur p s : Bytes)
    → Lacks b p
    → split_from (b ∷ []) 0 cur (p ++ b ∷ s) ≡ (cur ++ p) ∷ split_from (b ∷ []) 0 [] s
unfolding split_from
split_from-append b cur [] s h = ground (arith, append-nil cur)
split_from-append b cur (c ∷ p) s h =
    ground (arith, split_from-append b (cur ++ c ∷ []) p s h.1, append_assoc cur (c ∷ []) p)

pub split-Lacks : (b : ℕ) (s : Bytes) → Lacks b s → split (b ∷ []) s ≡ s ∷ []
unfolding split
split-Lacks b s h = split_from-Lacks b [] s h

-- The text before the first `b`, and what follows it: nothing, or `b` and more.
pub record IsHeadOf (b : ℕ) (s head : Bytes) : Type 0 where
  pub rest : Bytes
  pub split : s ≡ head ++ rest
  pub lacks : Lacks b head
  pub ends : (rest ≡ []) ⊎ ((after : Bytes) × (rest ≡ b ∷ after))

split_from-IsHeadOf :
    (b : ℕ) (cur s : Bytes)
    → (head : Bytes) × (tail : List Bytes) × (split_from (b ∷ []) 0 cur s ≡ (cur ++ head) ∷ tail)
      × IsHeadOf b s head
unfolding split_from has_prefix
split_from-IsHeadOf b cur [] =
    ([], [], rw append-nil refl, record { rest = []; split = refl; lacks = tt; ends = inl refl })
split_from-IsHeadOf b cur (c ∷ s) = elim (Bool-cases (c == b)) [
  | inl e ↦ (
    [],
    split_from (b ∷ []) 0 [] s,
    ground (arith, e, append-nil cur),
    record { rest = c ∷ s; split = refl; lacks = tt; ends = inr (s, ground (arith, e)) },
  )
  | inr e ↦
      let (head, tail, made, h) = split_from-IsHeadOf b (cur ++ c ∷ []) s in
      (
        c ∷ head,
        tail,
        ground (arith, e, made, append_assoc cur (c ∷ []) head),
        record {
          rest = h.rest;
          split = ap (◌∷◌ c) h.split;
          lacks = ((λ x. ground (arith, e, x)), h.lacks);
          ends = h.ends;
        },
      )
]

pub split-IsHeadOf :
    (b : ℕ) (s : Bytes)
    → (head : Bytes) × (tail : List Bytes) × (split (b ∷ []) s ≡ head ∷ tail) × IsHeadOf b s head
unfolding split
split-IsHeadOf b s = split_from-IsHeadOf b [] s

-- A text with one separator has two parts.
pub split-pair :
    (b : ℕ) (p s : Bytes) → Lacks b p → Lacks b s → split (b ∷ []) (p ++ b ∷ s) ≡ p ∷ s ∷ []
unfolding split
split-pair b p s hp hs = split_from-append b [] p s hp ∙ ap (◌∷◌ p) (split_from-Lacks b [] s hs)
