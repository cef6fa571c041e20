-- ===== src/Stats/Sharing.antt =====
-- proto/stats/stats.go: who shares a counter, and which counters a sweep forgets.
use anyproxy.Base.{
  ℕ, zero, suc, ◌+◌, ◌<◌, Bool, false, ◌≡◌, refl, ap, ◌∙◌, Bytes, List, [], ◌∷◌, ◌++◌, Option, none,
  some, ltb, if◌then◌else◌, set, length, length-set, length-append, get_or-append_right, Map,
  lookup, insert, erase, lookup-insert, lookup-erase, Fresh, Distinct, Distinct-erase,
  Distinct-insert, bytes_eq, bytes_eq_iff, bytes_eq_self, bytes_key, arith, Option-cases,
  Bool-cases, inl, inr, ◌&&◌, ◌||◌,
}
use anyproxy.Stats.{
  new_manager, Counter, Manager, no_counter, counter_at, register_counter, sweep,
  unregister_counter,
}

-- Every entry points to a counter of its own name.
abbrev pub Points : List Counter → Map Bytes ℕ → Type 0
Points heap [] = Unit {0}
Points heap ((k, i) ∷ m) = (i < length heap) × ((counter_at heap i).name ≡ k) × Points heap m

pub record Inv (m : Manager) : Type 0 where
  pub points : Points m.heap m.counters
  pub distinct : Distinct m.counters

pub new_manager-Inv : Inv new_manager
new_manager-Inv = record { points = tt; distinct = tt }

is_stale : List Counter → ℕ → ℕ → Bool
is_stale heap now i = ltb ((counter_at heap i).active + 300) now

-- Some entry of the name is stale.
stale_in : List Counter → ℕ → Bytes → Map Bytes ℕ → Bool
stale_in heap now name [] = false
stale_in heap now name ((k, i) ∷ m) =
    (bytes_eq k name && is_stale heap now i) || stale_in heap now name m

lookup-sweep :
    (heap : List Counter) (now : ℕ) (name : Bytes) (entries counters : Map Bytes ℕ)
    → Points heap entries
    → lookup name (sweep heap now entries counters)
      ≡ (if stale_in heap now name entries then none else lookup name counters)
unfolding sweep stale_in is_stale
lookup-sweep heap now name [] counters h = refl
lookup-sweep heap now name ((k, i) ∷ entries) counters (l, e, h) = ground (
  arith,
  lookup-sweep heap now name entries counters h,
  lookup-sweep heap now name entries (erase (counter_at heap i).name counters) h,
  lookup-erase k name counters,
)

stale_in-Fresh :
    (heap : List Counter) (now : ℕ) (name : Bytes) (m : Map Bytes ℕ)
    → Fresh name m
    → stale_in heap now name m ≡ false
unfolding stale_in
stale_in-Fresh heap now name [] f = refl
stale_in-Fresh heap now name ((k, i) ∷ m) (n, f) =
    ground (arith, bytes_eq_iff k name, stale_in-Fresh heap now name m f)

-- What a sweep leaves of the entry that a name has.
abbrev pub swept : List Counter → ℕ → Option ℕ → Option ℕ
swept heap now none = none
swept heap now (some i) = if ltb ((counter_at heap i).active + 300) now then none else some i

stale_in-lookup :
    (heap : List Counter) (now : ℕ) (name : Bytes) (m : Map Bytes ℕ)
    → Distinct m
    → (if stale_in heap now name m then none else lookup name m) ≡ swept heap now (lookup name m)
unfolding stale_in is_stale lookup
stale_in-lookup heap now name [] d = refl
stale_in-lookup heap now name ((k, i) ∷ m) (f, d) = elim (Bool-cases (bytes_eq k name)) [
  | inl p ↦ let same = (bytes_eq_iff k name).0 p in ground (arith, stale_in-Fresh heap now k m f)
  | inr p ↦ ground (arith, stale_in-lookup heap now name m d)
]

-- In a well-formed manager, a sweep forgets exactly the counters whose last activity is more than 300 seconds ago, and
-- leaves the entries of all other names as they were.
pub unregister_counter-lookup :
    (m : Manager) (now : ℕ) (name : Bytes)
    → Inv m
    → lookup name (unregister_counter m now).counters ≡ swept m.heap now (lookup name m.counters)
unfolding unregister_counter
unregister_counter-lookup m now name v =
    lookup-sweep m.heap now name m.counters m.counters v.points
    ∙ stale_in-lookup m.heap now name m.counters v.distinct

get_or-set_self :
    (heap : List Counter) (i : ℕ) (c : Counter) → i < length heap → counter_at (set heap i c) i ≡ c
get_or-set_self [] i c h = elim h [ ]
get_or-set_self (x ∷ xs) zero c h = refl
get_or-set_self (x ∷ xs) (suc i) c h = get_or-set_self xs i c (omega arith)

-- A write that keeps the name keeps every name.
set_name :
    (heap : List Counter) (i j : ℕ) (c : Counter)
    → c.name ≡ (counter_at heap i).name
    → (counter_at (set heap i c) j).name ≡ (counter_at heap j).name
set_name [] i j c e = refl
set_name (x ∷ xs) zero zero c e = e
set_name (x ∷ xs) zero (suc j) c e = refl
set_name (x ∷ xs) (suc i) zero c e = refl
set_name (x ∷ xs) (suc i) (suc j) c e = set_name xs i j c e

Points-set :
    (heap : List Counter) (i : ℕ) (c : Counter) (m : Map Bytes ℕ)
    → c.name ≡ (counter_at heap i).name
    → Points heap m
    → Points (set heap i c) m
Points-set heap i c [] e h = tt
Points-set heap i c ((k, j) ∷ m) e (l, n, h) =
    (omega (arith, length-set heap i c), set_name heap i j c e ∙ n, Points-set heap i c m e h)

get_or-append_left :
    (xs ys : List Counter) (i : ℕ) → i < length xs → counter_at (xs ++ ys) i ≡ counter_at xs i
get_or-append_left [] ys i h = elim h [ ]
get_or-append_left (x ∷ xs) ys zero h = refl
get_or-append_left (x ∷ xs) ys (suc i) h = get_or-append_left xs ys i (omega arith)

Points-append :
    (heap more : List Counter) (m : Map Bytes ℕ) → Points heap m → Points (heap ++ more) m
Points-append heap more [] h = tt
Points-append heap more ((k, j) ∷ m) (l, n, h) = (
  omega (arith, length-append heap more),
  ap (λ c. c.name) (get_or-append_left heap more j l) ∙ n,
  Points-append heap more m h,
)

Points-insert :
    (heap : List Counter) (k : Bytes) (i : ℕ) (m : Map Bytes ℕ)
    → i < length heap
    → (counter_at heap i).name ≡ k
    → Points heap m
    → Points heap (insert k i m)
unfolding insert
Points-insert heap k i [] l e h = (l, e, tt)
Points-insert heap k i ((j, x) ∷ m) l e (lx, ex, h) = ground (arith, Points-insert heap k i m l e h)

Points-erase :
    (heap : List Counter) (k : Bytes) (m : Map Bytes ℕ) → Points heap m → Points heap (erase k m)
unfolding erase
Points-erase heap k [] h = tt
Points-erase heap k ((j, x) ∷ m) (l, e, h) = ground (arith, Points-erase heap k m h)

sweep-Inv :
    (heap : List Counter) (now : ℕ) (entries counters : Map Bytes ℕ)
    → Points heap counters
    → Distinct counters
    → Points heap (sweep heap now entries counters) × Distinct (sweep heap now entries counters)
unfolding sweep
sweep-Inv heap now [] counters p d = (p, d)
sweep-Inv heap now ((k, i) ∷ entries) counters p d =
    let name = (counter_at heap i).name in
    ground (
      arith,
      sweep-Inv heap now entries counters p d,
      sweep-Inv heap now entries (erase name counters) (Points-erase heap name counters p)
          (Distinct-erase name counters d),
    )

pub unregister_counter-Inv : (m : Manager) (now : ℕ) → Inv m → Inv (unregister_counter m now)
unfolding unregister_counter
unregister_counter-Inv m now v =
    let (p, d) = sweep-Inv m.heap now m.counters m.counters v.points v.distinct in
    record { points = p; distinct = d }

pub register_counter-Inv :
    (m : Manager) (name : Bytes) (now : ℕ) → Inv m → Inv (register_counter m name now).0
unfolding register_counter
register_counter-Inv m name now v = elim (Option-cases (lookup name m.counters)) [
  | inr (i, e) ↦
      rw (e, register_counter)
        (record { points = Points-set m.heap i _ m.counters refl v.points; distinct = v.distinct })
  | inl e ↦
      rw (e, register_counter)
        (record {
          points =
              Points-insert _ name (length m.heap) m.counters
                (omega (arith, length-append m.heap fresh))
                (ap (λ c. c.name)
                  (get_or-append_right m.heap fresh 0 (length m.heap) no_counter (omega arith)))
                (Points-append m.heap fresh m.counters v.points);
          distinct = Distinct-insert name (length m.heap) m.counters v.distinct;
        })
]
  where
    fresh : List Counter
    fresh = record no_counter { name = name } ∷ []

new_counter_swept :
    (m : Manager) (name : Bytes) (now later : ℕ)
    → lookup name m.counters ≡ none
    → 300 < later
    → swept
        (register_counter m name now).0.heap
        later
        (lookup name (register_counter m name now).0.counters)
      ≡ none
unfolding register_counter
new_counter_swept m name now later e l = ground (
  arith,
  lookup-insert name name (length m.heap) m.counters,
  bytes_eq_self name,
  get_or-append_right m.heap (record no_counter { name = name } ∷ []) 0 (length m.heap) no_counter
      (omega arith),
)

-- In a well-formed manager, a name that had no counter gets one that a sweep forgets at once, however
-- soon it comes, if it comes later than 300 seconds after the epoch.
pub register_counter-unregister_counter :
    (m : Manager) (name : Bytes) (now later : ℕ)
    → Inv m
    → lookup name m.counters ≡ none
    → 300 < later
    → lookup name (unregister_counter (register_counter m name now).0 later).counters ≡ none
register_counter-unregister_counter m name now later v e l =
    unregister_counter-lookup (register_counter m name now).0 later name
      (register_counter-Inv m name now v)
    ∙ new_counter_swept m name now later e l
