-- ===== src/Cache.antt =====
-- utils/cache/cache.go: the cache of DNS answers and of failed dials, a map with a ring of keys.
-- Times are numbers on one clock; the mutex makes each call one step.
pub mod Ring
pub mod Answers
use anyproxy.Base.{
  ℕ, ◌+◌, ◌%◌, Bool, true, false, Bytes, List, [], ◌∷◌, none, some, ltb, if◌then◌else◌, get_or, set,
  replicate, Map, lookup, insert, erase, bytes_key,
}

pub data DialState : Type 0 where
  state_new state_fail state_none : DialState

-- `cacheEntry`
pub record CacheEntry : Type 0 where
  pub ipv4 : Bytes
  pub state : DialState
  pub expires : ℕ

-- `resolveLookupCache`
pub record LookupCache : Type 0 where
  pub ips : Map Bytes CacheEntry
  pub keys : List Bytes
  pub next : ℕ

abbrev pub slots : ℕ
slots = 65536

-- `newResolveLookupCache`
unfoldable pub new_lookup_cache : LookupCache
new_lookup_cache = record { ips = []; keys = replicate slots []; next = 0 }

-- `Lookup` at time `now`: the cache afterwards, and the answer
unfoldable pub lookup_host : LookupCache → Bytes → ℕ → LookupCache × (Bytes × DialState)
lookup_host c host now = elim (lookup host c.ips) [
  | none ↦ (c, ([], state_none))
  | some hit ↦
      (if ltb now hit.expires
        then (c, (hit.ipv4, hit.state))
        else (record c { ips = erase host c.ips }, ([], state_none)))
]

-- `Store` at time `now`
unfoldable pub store_host : LookupCache → Bytes → Bytes → DialState → ℕ → ℕ → LookupCache
store_host c host ipv4 state duration now =
    let entry : CacheEntry = record { ipv4 = ipv4; state = state; expires = now + duration } in
    elim (lookup host c.ips) [
      | some hit ↦ record c { ips = insert host entry c.ips }
      | none ↦ record {
        ips = insert host entry (erase (get_or c.keys c.next []) c.ips);
        keys = set c.keys c.next host;
        next = (c.next + 1) % slots;
      }
    ]
