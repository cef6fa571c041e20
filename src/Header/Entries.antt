-- ===== src/Header/Entries.antt =====
-- proto/http/header.go: `Get`, `Set`, `Add` and `Del` as a map from canonical keys.
use anyproxy.Base.{
  Bool, ◌≡◌, Bytes, [], ◌∷◌, ◌++◌, if◌then◌else◌, lookup-insert, lookup-erase, bytes_eq, bytes_key,
  arith,
}
use anyproxy.Header.Canonical.{canonical_mime_header_key}
use anyproxy.Header.{Header, add_value, set_value, get_value, del_value, values_of, first_or_empty}

-- The two keys are one key of the map.
abbrev pub same_key : Bytes → Bytes → Bool
same_key k j = bytes_eq (canonical_mime_header_key k) (canonical_mime_header_key j)

-- `Set` decides what `Get` finds under every spelling of its key and changes no other key; `Del`
-- leaves its key without a value and changes no other; `Add` gives a value to a key that has none,
-- keeps the first value of a key that has some, and changes no other.
pub get_value_after :
    (h : Header) (k j v : Bytes)
    → (get_value (set_value h k v) j ≡ (if same_key k j then v else get_value h j))
      × (get_value (del_value h k) j ≡ (if same_key k j then [] else get_value h j))
      × (get_value (add_value h k v) j ≡ (
          if same_key k j
          then first_or_empty (values_of (canonical_mime_header_key k) h ++ v ∷ [])
          else get_value h j))
unfolding get_value set_value del_value add_value
get_value_after h k j v =
    let c = canonical_mime_header_key k in
    let d = canonical_mime_header_key j in
    (
      ground (arith, lookup-insert c d (v ∷ []) h),
      ground (arith, lookup-erase c d h),
      ground (arith, lookup-insert c d (values_of c h ++ v ∷ []) h),
    )
