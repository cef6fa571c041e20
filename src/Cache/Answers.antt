-- ===== src/Cache/Answers.antt =====
-- utils/cache/cache.go: what `Lookup` answers after a `Store`.
use anyproxy.Base.{
  ℕ, ◌+◌, ◌≡◌, Bytes, [], ltb, if◌then◌else◌, get_or, lookup-insert, bytes_eq_self, arith, erase,
  bytes_key,
}
use anyproxy.Cache.{DialState, state_none, LookupCache, lookup_host, store_host}

-- What was stored is the answer until the time given to it has passed, and no answer from then on.
pub lookup_host-store_host :
    (c : LookupCache) (host ipv4 : Bytes) (state : DialState) (d now later : ℕ)
    → (lookup_host (store_host c host ipv4 state d now) host later).1
      ≡ (if ltb later (now + d) then (ipv4, state) else ([], state_none))
unfolding lookup_host store_host
lookup_host-store_host c host ipv4 state d now later = ground (
  arith,
  lookup-insert host host (record { ipv4 = ipv4; state = state; expires = now + d }) c.ips,
  lookup-insert host host (record { ipv4 = ipv4; state = state; expires = now + d })
      (erase (get_or c.keys c.next []) c.ips),
  bytes_eq_self host,
)
