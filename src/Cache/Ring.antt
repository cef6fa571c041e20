-- ===== src/Cache/Ring.antt =====
-- utils/cache/cache.go: every cached host holds a slot of the ring, so the map stays bounded.
use anyproxy.Base.{
  ℕ, zero, suc, ◌+◌, ◌<◌, ◌≤◌, ◌≡◌, ◌≢◌, refl, sym, ◌∙◌, ◌⊎◌, inl, inr, Bytes, List, [], ◌∷◌, some,
  if◌then◌else◌, get_or, set, length, length-set, length-replicate, Map, lookup, insert, erase,
  bytes_eq, bytes_eq_iff, bytes_key, arith, Option-cases, Bool-cases,
}
use anyproxy.Cache.{
  DialState, CacheEntry, LookupCache, slots, new_lookup_cache, lookup_host, store_host,
}

-- `k` stands in the list.
abbrev pub In : Bytes → List Bytes → Type 0
In k [] = ⊥
In k (j ∷ js) = (j ≡ k) ⊎ In k js

-- The keys of the map are distinct, and each stands in the list.
abbrev pub Fresh : Bytes → Map Bytes CacheEntry → Type 0
Fresh k [] = Unit {0}
Fresh k ((j, v) ∷ m) = (j ≢ k) × Fresh k m

abbrev pub Covered : Map Bytes CacheEntry → List Bytes → Type 0
Covered [] ks = Unit {0}
Covered ((j, v) ∷ m) ks = In j ks × Fresh j m × Covered m ks

pub record Inv (c : LookupCache) : Type 0 where
  pub ring : length c.keys ≡ slots
  pub in_ring : c.next < slots
  pub covered : Covered c.ips c.keys

Fresh-erase : (k j : Bytes) (m : Map Bytes CacheEntry) → Fresh j m → Fresh j (erase k m)
unfolding erase
Fresh-erase k j [] h = tt
Fresh-erase k j ((i, v) ∷ m) (n, h) = ground (arith, Fresh-erase k j m h)

erase-Fresh : (k : Bytes) (m : Map Bytes CacheEntry) → Fresh k (erase k m)
unfolding erase
erase-Fresh k [] = tt
erase-Fresh k ((i, v) ∷ m) = ground (arith, erase-Fresh k m, bytes_eq_iff i k)

Covered-erase :
    (k : Bytes) (m : Map Bytes CacheEntry) (ks : List Bytes) → Covered m ks → Covered (erase k m) ks
unfolding erase
Covered-erase k [] ks h = tt
Covered-erase k ((i, v) ∷ m) ks (a, b, h) =
    ground (arith, Covered-erase k m ks h, Fresh-erase k i m b)

Fresh-insert :
    (k j : Bytes) (v : CacheEntry) (m : Map Bytes CacheEntry)
    → k ≢ j
    → Fresh j m
    → Fresh j (insert k v m)
unfolding insert
Fresh-insert k j v [] n h = (n, tt)
Fresh-insert k j v ((i, w) ∷ m) n (a, h) = ground (arith, Fresh-insert k j v m n h)

Covered-insert :
    (k : Bytes) (v : CacheEntry) (m : Map Bytes CacheEntry) (ks : List Bytes)
    → In k ks
    → Covered m ks
    → Covered (insert k v m) ks
unfolding insert
Covered-insert k v [] ks i h = (i, tt, tt)
Covered-insert k v ((j, w) ∷ m) ks i (a, b, h) = elim (Bool-cases (bytes_eq j k)) [
  | inl e ↦ ground (arith, bytes_eq_iff j k)
  | inr e ↦
      let n : k ≢ j = λ p. cc ((bytes_eq_iff j k).1 (sym p)) in
      ground (arith, Covered-insert k v m ks i h, Fresh-insert k j v m n b)
]

In-set_self : (ks : List Bytes) (i : ℕ) (k : Bytes) → i < length ks → In k (set ks i k)
In-set_self [] i k h = elim h [ ]
In-set_self (j ∷ ks) zero k h = inl refl
In-set_self (j ∷ ks) (suc i) k h = inr (In-set_self ks i k (omega arith))

In-set_other :
    (ks : List Bytes) (i : ℕ) (j k : Bytes) → get_or ks i [] ≢ j → In j ks → In j (set ks i k)
In-set_other [] i j k n h = elim h [ ]
In-set_other (x ∷ ks) zero j k n (inl e) = absurd (n e)
In-set_other (x ∷ ks) zero j k n (inr h) = inr h
In-set_other (x ∷ ks) (suc i) j k n (inl e) = inl e
In-set_other (x ∷ ks) (suc i) j k n (inr h) = inr (In-set_other ks i j k n h)

Covered-set :
    (m : Map Bytes CacheEntry) (ks : List Bytes) (i : ℕ) (k : Bytes)
    → Fresh (get_or ks i []) m
    → Covered m ks
    → Covered m (set ks i k)
Covered-set [] ks i k f h = tt
Covered-set ((j, v) ∷ m) ks i k (n, f) (a, b, h) =
    (In-set_other ks i j k (λ e. n (sym e)) a, b, Covered-set m ks i k f h)

new_lookup_cache-Inv : Inv new_lookup_cache
unfolding new_lookup_cache
new_lookup_cache-Inv = record {
  ring = length-replicate {A = Bytes} slots [];
  in_ring = omega arith;
  covered = tt;
}

pub lookup_host-Inv :
    (c : LookupCache) (host : Bytes) (now : ℕ) → Inv c → Inv (lookup_host c host now).0
unfolding lookup_host
lookup_host-Inv c host now v = ground (arith, Covered-erase host c.ips c.keys v.covered)

lookup-In :
    (k : Bytes) (m : Map Bytes CacheEntry) (ks : List Bytes) (v : CacheEntry)
    → Covered m ks
    → lookup k m ≡ some v
    → In k ks
unfolding lookup
lookup-In k [] ks v h e = cc
lookup-In k ((j, w) ∷ m) ks v (a, b, h) e = elim (Bool-cases (bytes_eq j k)) [
  | inl p ↦ rw ((bytes_eq_iff j k).0 p) at a
  | inr p ↦ lookup-In k m ks v h (rw p at e)
]

pub store_host-Inv :
    (c : LookupCache) (host ipv4 : Bytes) (state : DialState) (d now : ℕ)
    → Inv c
    → Inv (store_host c host ipv4 state d now)
unfolding store_host
store_host-Inv c host ipv4 state d now v = elim (Option-cases (lookup host c.ips)) [
  | inl e ↦
      rw (e, store_host)
        (record {
          ring = length-set c.keys c.next host ∙ v.ring;
          in_ring = omega arith;
          covered = stored;
        })
  | inr (hit, e) ↦
      rw (e, store_host)
        (record {
          ring = v.ring;
          in_ring = v.in_ring;
          covered =
              Covered-insert host entry c.ips c.keys (lookup-In host c.ips c.keys hit v.covered e)
                v.covered;
        })
]
  where
    entry : CacheEntry
    entry = record { ipv4 = ipv4; state = state; expires = now + d }

    old : Bytes
    old = get_or c.keys c.next []

    kept : Covered (erase old c.ips) (set c.keys c.next host)
    kept =
        Covered-set (erase old c.ips) c.keys c.next host (erase-Fresh old c.ips)
          (Covered-erase old c.ips c.keys v.covered)

    stored : Covered (insert host entry (erase old c.ips)) (set c.keys c.next host)
    stored =
        Covered-insert host entry (erase old c.ips) (set c.keys c.next host)
          (In-set_self c.keys c.next host (omega (arith, v.ring, v.in_ring))) kept

-- Distinct keys that all stand in a list are no more than the list is long.
remove_one : Bytes → List Bytes → List Bytes
remove_one k [] = []
remove_one k (j ∷ js) = if bytes_eq j k then js else j ∷ remove_one k js

length-remove_one :
    (k : Bytes) (ks : List Bytes) → In k ks → suc (length (remove_one k ks)) ≡ length ks
unfolding remove_one
length-remove_one k [] h = elim h [ ]
length-remove_one k (j ∷ ks) (inl e) = ground (arith, bytes_eq_iff j k)
length-remove_one k (j ∷ ks) (inr h) = ground (arith, length-remove_one k ks h)

In-remove_one : (k j : Bytes) (ks : List Bytes) → k ≢ j → In j ks → In j (remove_one k ks)
unfolding remove_one
In-remove_one k j [] n h = h
In-remove_one k j (i ∷ ks) n (inl e) = ground (arith, bytes_eq_iff i k)
In-remove_one k j (i ∷ ks) n (inr h) = ground (arith, In-remove_one k j ks n h)

Covered-remove_one :
    (m : Map Bytes CacheEntry) (k : Bytes) (ks : List Bytes)
    → Fresh k m
    → Covered m ks
    → Covered m (remove_one k ks)
Covered-remove_one [] k ks f h = tt
Covered-remove_one ((j, v) ∷ m) k ks (n, f) (a, b, h) =
    (In-remove_one k j ks (λ e. n (sym e)) a, b, Covered-remove_one m k ks f h)

length-Covered : (m : Map Bytes CacheEntry) (ks : List Bytes) → Covered m ks → length m ≤ length ks
length-Covered [] ks h = omega arith
length-Covered ((j, v) ∷ m) ks (a, b, h) = omega (
  arith,
  length-remove_one j ks a,
  length-Covered m (remove_one j ks) (Covered-remove_one m j ks b h),
)

-- The calls that the tunnels make, each with its time.
pub data Call : Type 0 where
  looks_up : Bytes → ℕ → Call
  stores : Bytes → Bytes → DialState → ℕ → ℕ → Call

abbrev pub step : LookupCache → Call → LookupCache
step c (looks_up host now) = (lookup_host c host now).0
step c (stores host ipv4 state d now) = store_host c host ipv4 state d now

abbrev pub run : LookupCache → List Call → LookupCache
run c [] = c
run c (x ∷ xs) = run (step c x) xs

pub step-Inv : (c : LookupCache) (x : Call) → Inv c → Inv (step c x)
step-Inv c (looks_up host now) v = lookup_host-Inv c host now v
step-Inv c (stores host ipv4 state d now) v = store_host-Inv c host ipv4 state d now v

run-Inv : (c : LookupCache) (xs : List Call) → Inv c → Inv (run c xs)
run-Inv c [] v = v
run-Inv c (x ∷ xs) v = run-Inv (step c x) xs (step-Inv c x v)

-- After any calls on a new cache the ring has its 65536 slots, the next slot is one of them, each
-- cached host is cached once and holds a slot, and no more than 65536 hosts are cached.
pub run_bounded :
    (xs : List Call)
    → Inv (run new_lookup_cache xs) × (length (run new_lookup_cache xs).ips ≤ slots)
run_bounded xs =
    let v = run-Inv new_lookup_cache xs new_lookup_cache-Inv in
    (
      v,
      omega (
        arith,
        length-Covered (run new_lookup_cache xs).ips (run new_lookup_cache xs).keys v.covered,
        v.ring,
      ),
    )
