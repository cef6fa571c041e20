-- ===== src/Header.antt =====
-- proto/http/header.go: the header map, its canonical keys, and its wire format.
pub mod Canonical
pub mod Entries
pub mod Wire
use Canonical.{canonical_mime_header_key}
use anyproxy.Base.{
  ℕ, ◌+◌, Bool, true, false, ◌||◌, not, Bytes, codes, List, [], ◌∷◌, ◌++◌, Option, none, some,
  if◌then◌else◌, ltb, ◌==◌, Map, lookup, insert, erase, bytes_key, trim_by, replace_byte,
}

-- `Header`
abbrev pub Header : Type 0
Header = Map Bytes (List Bytes)

-- `h[key]`, where a missing key has no values
abbrev pub values_of : Bytes → Header → List Bytes
values_of key h = elim (lookup key h) [ none ↦ [] | some vv ↦ vv ]

-- `Add`
unfoldable pub add_value : Header → Bytes → Bytes → Header
add_value h key value =
    let k = canonical_mime_header_key key in insert k (values_of k h ++ value ∷ []) h

-- `Set`
unfoldable pub set_value : Header → Bytes → Bytes → Header
set_value h key value = insert (canonical_mime_header_key key) (value ∷ []) h

abbrev pub first_or_empty : List Bytes → Bytes
first_or_empty [] = []
first_or_empty (v ∷ vs) = v

-- `Get`; the nil map is the empty one
unfoldable pub get_value : Header → Bytes → Bytes
get_value h key = first_or_empty (values_of (canonical_mime_header_key key) h)

-- `Del`
unfoldable pub del_value : Header → Bytes → Header
del_value h key = erase (canonical_mime_header_key key) h

-- `s < t` on strings
unfoldable pub bytes_lt : Bytes → Bytes → Bool
bytes_lt s [] = false
bytes_lt [] (d ∷ t) = true
bytes_lt (c ∷ s) (d ∷ t) = if c == d then bytes_lt s t else ltb c d

-- `sort.Sort` of the keys, which are distinct
unfoldable pub insert_sorted : Bytes × List Bytes → Header → Header
insert_sorted kv [] = kv ∷ []
insert_sorted kv (x ∷ xs) = if bytes_lt x.0 kv.0 then x ∷ insert_sorted kv xs else kv ∷ x ∷ xs

-- `sortedKeyValues`; `exclude` is a map to bool, where a missing key is false
unfoldable pub sorted_key_values : (Bytes → Bool) → Header → Header
unfolding insert_sorted
sorted_key_values exclude [] = []
sorted_key_values exclude ((k, vv) ∷ h) =
    let rest = sorted_key_values exclude h in
    if not (exclude k) then insert_sorted (k, vv) rest else rest

-- the space of `textproto.TrimString`
abbrev pub trim_string_space : ℕ → Bool
trim_string_space c = c == b' ' || c == b'\t' || c == b'\n' || c == b'\r'

-- A value as it is written: no line breaks inside, no space at its ends.
unfoldable pub clean_value : Bytes → Bytes
clean_value v = trim_by trim_string_space (replace_byte b'\r' b' ' (replace_byte b'\n' b' ' v))

-- A writer is a state with `WriteString`; the flag says that it succeeded.
module _ {S : Type 0} (write_string : S → Bytes → S × Bool) where
  -- the innermost loop: it stops at the first error
  unfoldable pub write_parts : S → List Bytes → S × Bool
  write_parts w [] = (w, true)
  write_parts w (s ∷ ss) =
      let (w', good) = write_string w s in
      let rest = write_parts w' ss in if good then rest else (w', false)

  abbrev pub field_parts : Bytes → Bytes → List Bytes
  field_parts key v = key ∷ codes ": " ∷ clean_value v ∷ codes "\r\n" ∷ []

  unfoldable pub write_values : S → Bytes → List Bytes → S × Bool
  unfolding write_parts
  write_values w key [] = (w, true)
  write_values w key (v ∷ vs) =
      let (w', good) = write_parts w (field_parts key v) in
      let rest = write_values w' key vs in if good then rest else (w', false)

  unfoldable pub write_fields : S → Header → S × Bool
  unfolding write_values
  write_fields w [] = (w, true)
  write_fields w ((key, values) ∷ kvs) =
      let (w', good) = write_values w key values in
      let rest = write_fields w' kvs in if good then rest else (w', false)

  -- `writeSubset` with no trace, as all its callers have it
  unfoldable pub write_subset : S → (Bytes → Bool) → Header → S × Bool
  unfolding write_fields sorted_key_values
  write_subset w exclude h = write_fields w (sorted_key_values exclude h)

  -- `Write`
  unfoldable pub write_header : S → Header → S × Bool
  unfolding write_subset
  write_header w h = write_subset w (λ k. false) h
