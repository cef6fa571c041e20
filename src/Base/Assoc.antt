-- ===== src/Base/Assoc.antt =====
-- Go maps as association lists.
use anyproxy.Base.Compare.{if◌then◌else◌, Bool-cases}
use anyproxy.Base.Lists.{length}
use anyproxy.Base.Text.{Eq}
use Prim.Native.Nat.{◌+◌, ◌≤◌}
use mathlib.Core.Path.{◌≡◌, refl, sym}
use mathlib.Core.Logic.{◌≢◌, inl, inr}
use mathlib.Core.Option.{Option, none, some}
use mathlib.Core.List.{List, [], ◌∷◌}
use native.Mathlib.Omega.{arith}

abbrev pub Map : Type 0 → Type 0 → Type 0
Map K V = List (K × V)

module _ {K V : Type 0} ⦃e : Eq K⦄ where
  -- `v, ok := m[k]`
  unfoldable pub lookup : K → Map K V → Option V
  lookup k [] = none
  lookup k ((j, v) ∷ m) = if e.beq j k then some v else lookup k m

  -- `m[k] = v`
  unfoldable pub insert : K → V → Map K V → Map K V
  insert k v [] = (k, v) ∷ []
  insert k v ((j, w) ∷ m) = if e.beq j k then (k, v) ∷ m else (j, w) ∷ insert k v m

  -- `delete(m, k)`; every entry of the key goes
  unfoldable pub erase : K → Map K V → Map K V
  erase k [] = []
  erase k ((j, w) ∷ m) = if e.beq j k then erase k m else (j, w) ∷ erase k m

  pub lookup-insert :
      (k j : K) (v : V) (m : Map K V)
      → lookup j (insert k v m) ≡ (if e.beq k j then some v else lookup j m)
  unfolding lookup insert
  lookup-insert k j v [] = refl
  lookup-insert k j v ((i, w) ∷ m) =
      ground (arith, e.beq_iff k j, e.beq_iff i k, e.beq_iff i j, lookup-insert k j v m)

  pub lookup-erase :
      (k j : K) (m : Map K V) → lookup j (erase k m) ≡ (if e.beq k j then none else lookup j m)
  unfolding lookup erase
  lookup-erase k j [] = ground arith
  lookup-erase k j ((i, w) ∷ m) =
      ground (arith, e.beq_iff k j, e.beq_iff i k, e.beq_iff i j, lookup-erase k j m)

  pub length-erase-le : (k : K) (m : Map K V) → length (erase k m) ≤ length m
  unfolding erase
  length-erase-le k [] = omega arith
  length-erase-le k ((i, w) ∷ m) = ground (arith, length-erase-le k m)

  pub length-insert :
      (k : K) (v : V) (m : Map K V)
      → length (insert k v m) ≡ (elim (lookup k m) [ none ↦ length m + 1 | some w ↦ length m ])
  unfolding lookup insert
  length-insert k v [] = omega arith
  length-insert k v ((i, w) ∷ m) = ground (arith, length-insert k v m)

  -- No entry has the key; each key has one entry.
  abbrev pub Fresh : K → Map K V → Type 0
  Fresh k [] = Unit {0}
  Fresh k ((j, v) ∷ m) = (j ≢ k) × Fresh k m

  abbrev pub Distinct : Map K V → Type 0
  Distinct [] = Unit {0}
  Distinct ((j, v) ∷ m) = Fresh j m × Distinct m

  pub Fresh-erase : (k j : K) (m : Map K V) → Fresh j m → Fresh j (erase k m)
  unfolding erase
  Fresh-erase k j [] h = tt
  Fresh-erase k j ((i, v) ∷ m) (n, h) = ground (arith, Fresh-erase k j m h)

  pub Distinct-erase : (k : K) (m : Map K V) → Distinct m → Distinct (erase k m)
  unfolding erase
  Distinct-erase k [] h = tt
  Distinct-erase k ((i, v) ∷ m) (f, h) = ground (arith, Distinct-erase k m h, Fresh-erase k i m f)

  pub Fresh-insert : (k j : K) (v : V) (m : Map K V) → k ≢ j → Fresh j m → Fresh j (insert k v m)
  unfolding insert
  Fresh-insert k j v [] n h = (n, tt)
  Fresh-insert k j v ((i, w) ∷ m) n (a, h) = ground (arith, Fresh-insert k j v m n h)

  pub Distinct-insert : (k : K) (v : V) (m : Map K V) → Distinct m → Distinct (insert k v m)
  unfolding insert
  Distinct-insert k v [] h = (tt, tt)
  Distinct-insert k v ((j, w) ∷ m) (f, h) = elim (Bool-cases (e.beq j k)) [
    | inl p ↦ ground (arith, e.beq_iff j k)
    | inr p ↦
        let n : k ≢ j = λ q. cc ((e.beq_iff j k).1 (sym q)) in
        ground (arith, Distinct-insert k v m h, Fresh-insert k j v m n f)
  ]

  pub lookup-Fresh : (k : K) (m : Map K V) → Fresh k m → lookup k m ≡ none
  unfolding lookup
  lookup-Fresh k [] h = refl
  lookup-Fresh k ((j, v) ∷ m) (n, h) = ground (arith, e.beq_iff j k, lookup-Fresh k m h)

  pub Fresh-lookup : (k : K) (m : Map K V) → lookup k m ≡ none → Fresh k m
  unfolding lookup
  Fresh-lookup k [] h = tt
  Fresh-lookup k ((j, v) ∷ m) h = ground (arith, e.beq_iff j k, Fresh-lookup k m)
