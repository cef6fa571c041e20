-- ===== src/TextReader/Values.antt =====
-- proto/text/reader.go and proto/http/header.go: the header that is read has the values of the one
-- that was written, key by key.
use anyproxy.Base.{
  inl, inr, ◌≡◌, ◌≢◌, refl, sym, ap, ◌∙◌, Bool, true, false, Bytes, List, [], ◌∷◌, ◌++◌,
  append_assoc, Option, none, some, if◌then◌else◌, lookup, insert, Fresh, Distinct, bytes_key,
  bytes_eq, bytes_eq_iff, lookup-insert, lookup-Fresh, All, arith, Bool-cases, subst, if-elim,
}
use mathlib.Core.List.{map}
use anyproxy.TcpReader.{Reader}
use anyproxy.Header.{
  Header, values_of, clean_value, sorted_key_values, insert_sorted, bytes_lt, write_header,
}
use anyproxy.Header.Wire.{buffer_write, lines, write_header-lines}
use anyproxy.TextReader.{crlf, read_header}
use anyproxy.TextReader.RoundTrip.{Keys, Holds, received, received_values, read_header-received}

-- A header that can be sent: keys that can be sent, each once, each with a value.
pub record IsSendable (h : Header) : Type 0 where
  pub keys : Keys h
  pub distinct : Distinct h
  pub valued : All (λ kv. kv.1 ≢ []) h

-- The values of a key, behind those it had.
abbrev with_values : Option (List Bytes) → List Bytes → Option (List Bytes)
with_values o vs = elim o [ none ↦ some vs | some ws ↦ some (ws ++ vs) ]

values_at :
    (key : Bytes) (m : Header) (vs : List Bytes) → lookup key m ≡ some vs → values_of key m ≡ vs
values_at key m vs e =
    ap (λ (o : Option (List Bytes)). elim o as (λ _. List Bytes) [ none ↦ [] | some vv ↦ vv ]) e

values_none : (key : Bytes) (m : Header) → lookup key m ≡ none → values_of key m ≡ []
values_none key m e =
    ap (λ (o : Option (List Bytes)). elim o as (λ _. List Bytes) [ none ↦ [] | some vv ↦ vv ]) e

lookup-received_values :
    (vs : List Bytes) (m : Header) (key j : Bytes)
    → vs ≢ []
    → lookup j (received_values m key vs)
      ≡ (if bytes_eq key j then some (values_of key m ++ map clean_value vs) else lookup j m)
unfolding received_values
lookup-received_values [] m key j n = absurd (n refl)
lookup-received_values (v ∷ []) m key j n =
    lookup-insert key j (values_of key m ++ clean_value v ∷ []) m
lookup-received_values (v ∷ w ∷ vs) m key j n =
    let m' = insert key (values_of key m ++ clean_value v ∷ []) m in
    let ih = lookup-received_values (w ∷ vs) m' key j (λ e. ground (arith, e)) in
    let here = lookup-insert key key (values_of key m ++ clean_value v ∷ []) m in
    let there = lookup-insert key j (values_of key m ++ clean_value v ∷ []) m in
    let self = (bytes_eq_iff key key).1 refl in
    let vals : values_of key m' ≡ values_of key m ++ clean_value v ∷ [] =
      values_at key m' _ (here ∙ rw self refl) in
    let rest = map clean_value (w ∷ vs) in
    let joined : values_of key m' ++ rest ≡ values_of key m ++ clean_value v ∷ rest =
      ap (λ t. t ++ rest) vals ∙ append_assoc (values_of key m) (clean_value v ∷ []) rest in
    elim (Bool-cases (bytes_eq key j)) [
      | inl e ↦ rw e (ih ∙ rw e (ap some joined))
      | inr e ↦ rw e (ih ∙ rw e (there ∙ rw e refl))
    ]

-- A header that was read has, for each key of the lines, the cleaned values of its lines.
lookup-received :
    (kvs m : Header) (j : Bytes)
    → Distinct kvs
    → All (λ kv. kv.1 ≢ []) kvs
    → ((k : Bytes) → lookup k kvs ≢ none → lookup k m ≡ none)
    → lookup j (received m kvs)
      ≡ (elim (lookup j kvs) [ none ↦ lookup j m | some vs ↦ some (map clean_value vs) ])
unfolding received lookup
lookup-received [] m j d n new = refl
lookup-received ((key, vs) ∷ kvs) m j (f, d) (nv, n) new =
    let m1 = received_values m key vs in
    let self = (bytes_eq_iff key key).1 refl in
    let bare : values_of key m ≡ [] =
      values_none key m (new key (λ e. ground (arith, rw self at e))) in
    let kept = lookup-received_values vs m key j nv in
    let new1 : (k : Bytes) → lookup k kvs ≢ none → lookup k m1 ≡ none =
      λ k there. still_new k there (bytes_eq key k) refl in
    let ih = lookup-received kvs m1 j d n new1 in
    elim (Bool-cases (bytes_eq key j)) [
      | inl e ↦
          let same : key ≡ j = (bytes_eq_iff key j).0 e in
          let gone : lookup j kvs ≡ none =
            subst (λ k. lookup k kvs ≡ none) same (lookup-Fresh key kvs f) in
          rw e (ih ∙ rw gone (kept ∙ rw (e, bare) refl))
      | inr e ↦
          let old : lookup j m1 ≡ lookup j m = kept ∙ rw e refl in
          rw e (
            ih
            ∙ ap
                (λ o. elim (lookup j kvs) as (λ _. Option (List Bytes)) [
                  | none ↦ o
                  | some ws ↦ some (map clean_value ws)
                ])
                old)
    ]
  where
    still_new :
        (k : Bytes)
        → lookup k kvs ≢ none
        → (same : Bool) → bytes_eq key k ≡ same
        → lookup k (received_values m key vs) ≡ none
    still_new k there true e = absurd (
        there
          (subst (λ x. lookup x kvs ≡ none) ((bytes_eq_iff key k).0 e) (lookup-Fresh key kvs f)))
    still_new k there false e =
        lookup-received_values vs m key k nv ∙ rw e (new k (λ h. there (rw e at h)))

-- Sorting keeps what is looked up, and what holds of every entry.
insert_sorted-Fresh :
    (k : Bytes) (kv : Bytes × List Bytes) (h : Header)
    → kv.0 ≢ k
    → Fresh k h
    → Fresh k (insert_sorted kv h)
unfolding insert_sorted
insert_sorted-Fresh k kv [] n f = (n, tt)
insert_sorted-Fresh k kv (x ∷ h) n (g, f) = ground (arith, insert_sorted-Fresh k kv h n f)

insert_sorted-Distinct :
    (kv : Bytes × List Bytes) (h : Header)
    → Fresh kv.0 h
    → Distinct h
    → Distinct (insert_sorted kv h)
unfolding insert_sorted
insert_sorted-Distinct kv [] f d = (tt, tt)
insert_sorted-Distinct kv (x ∷ h) (n, f) (g, d) =
    let there = insert_sorted-Fresh x.0 kv h (λ e. n (sym e)) g in
    ground (arith, insert_sorted-Distinct kv h f d, there)

lookup-insert_sorted :
    (j : Bytes) (kv : Bytes × List Bytes) (h : Header)
    → Fresh kv.0 h
    → lookup j (insert_sorted kv h) ≡ (if bytes_eq kv.0 j then some kv.1 else lookup j h)
unfolding insert_sorted lookup
lookup-insert_sorted j kv [] f = refl
lookup-insert_sorted j kv (x ∷ h) (n, f) =
    ground (arith, lookup-insert_sorted j kv h f, bytes_eq_iff kv.0 j, bytes_eq_iff x.0 j)

insert_sorted-All :
    (Q : Bytes × List Bytes → Type 0) (kv : Bytes × List Bytes) (h : Header)
    → Q kv
    → All Q h
    → All Q (insert_sorted kv h)
unfolding insert_sorted
insert_sorted-All Q kv [] q qs = (q, tt)
insert_sorted-All Q kv (x ∷ h) q (qx, qs) =
    if-elim (All Q) (bytes_lt x.0 kv.0) (λ _. (qx, insert_sorted-All Q kv h q qs))
      (λ _. (q, (qx, qs)))

abbrev sorted : Header → Header
sorted = sorted_key_values (λ k. false)

sorted-All : (Q : Bytes × List Bytes → Type 0) (h : Header) → All Q h → All Q (sorted h)
unfolding sorted_key_values
sorted-All Q [] q = tt
sorted-All Q ((k, vv) ∷ h) (q, qs) = insert_sorted-All Q (k, vv) (sorted h) q (sorted-All Q h qs)

sorted-Fresh : (k : Bytes) (h : Header) → Fresh k h → Fresh k (sorted h)
unfolding sorted_key_values
sorted-Fresh k [] f = tt
sorted-Fresh k ((j, vv) ∷ h) (n, f) =
    insert_sorted-Fresh k (j, vv) (sorted h) n (sorted-Fresh k h f)

sorted-Distinct : (h : Header) → Distinct h → Distinct (sorted h)
unfolding sorted_key_values
sorted-Distinct [] d = tt
sorted-Distinct ((j, vv) ∷ h) (f, d) =
    insert_sorted-Distinct (j, vv) (sorted h) (sorted-Fresh j h f) (sorted-Distinct h d)

lookup-sorted : (j : Bytes) (h : Header) → Distinct h → lookup j (sorted h) ≡ lookup j h
unfolding sorted_key_values lookup
lookup-sorted j [] d = refl
lookup-sorted j ((k, vv) ∷ h) (f, d) =
    lookup-insert_sorted j (k, vv) (sorted h) (sorted-Fresh k h f) ∙ rw (lookup-sorted j h d) refl

empty_lookup : (k : Bytes) → lookup {V = List Bytes} k [] ≡ none
unfolding lookup
empty_lookup k = refl

-- A header of keys that can be sent, each once and each with a value, is written, and an empty line
-- behind it. A reader with room for two bytes, on a connection that sends without failing, however it
-- cuts the bytes, that is about to hand these lines out, reads a header with the same keys, each with
-- its values cleaned of line breaks and outer space, and leaves what follows the empty line.
pub read_header-write_header :
    (h : Header) (b : Reader) (s : Bytes)
    → IsSendable h
    → Holds b ((write_header buffer_write [] h).0 ++ (crlf ++ s))
    → (c : Reader) × (m : Header) × (read_header b ≡ some (c, m, none))
      × Holds c s
      × ((j : Bytes)
          → lookup j m ≡ (elim (lookup j h) [ none ↦ none | some vs ↦ some (map clean_value vs) ]))
read_header-write_header h b s v o =
    let written : (write_header buffer_write [] h).0 ≡ lines (sorted h) =
      ap (λ r. r.0) (write_header-lines [] h) in
    let (c, e, rest) =
      read_header-received (sorted h) b s (sorted-All _ h v.keys)
        (subst (λ t. Holds b (t ++ (crlf ++ s))) written o) in
    (
      c,
      received [] (sorted h),
      e,
      rest,
      λ j.
          lookup-received (sorted h) [] j (sorted-Distinct h v.distinct) (sorted-All _ h v.valued)
            (λ k _. empty_lookup k)
          ∙ ap
              (λ o. elim o as (λ _. Option (List Bytes)) [
                | none ↦ lookup j []
                | some vs ↦ some (map clean_value vs)
              ])
              (lookup-sorted j h v.distinct)
          ∙ ap
              (λ n. elim (lookup j h) as (λ _. Option (List Bytes)) [
                | none ↦ n
                | some vs ↦ some (map clean_value vs)
              ])
              (empty_lookup j),
    )
