-- ===== src/Nat/Subscriber.antt =====
-- nat/client_hub.go: which client `GetClient` finds for a request.
use anyproxy.Base.{
  ℕ, Bool, true, false, not, ◌&&◌, List, [], ◌∷◌, Option, none, some, if◌then◌else◌, is_empty,
  bytes_eq, bytes_eq_iff, ◌≡◌, ◌⊎◌, inl, inr, refl, sym, ap, subst, ◌∙◌, arith, All, Option-cases,
  Bool-cases,
}
use anyproxy.Conf.{Subscribe}
use anyproxy.Header.{Header, get_value}
use anyproxy.Nat.{at}
use anyproxy.Nat.ClientHub.{Client, subscribes, get_client}

-- One of the subscriptions is met: the header has its value, which is not empty, for its key.
abbrev pub Matches : Header → List Subscribe → Type 0
Matches header [] = ⊥
Matches header (s ∷ ss) =
    ((get_value header s.key ≡ s.val) × (is_empty (get_value header s.key) ≡ false))
    ⊎ Matches header ss

subscribes-Matches :
    (header : Header) (ss : List Subscribe) → subscribes header ss ≡ true → Matches header ss
unfolding subscribes
subscribes-Matches header [] e = absurd (ground (arith, e))
subscribes-Matches header (s ∷ ss) e =
    let val = get_value header s.key in
    elim (Bool-cases (is_empty val)) [
      | inl none_sent ↦ inr (subscribes-Matches header ss (ground (arith, none_sent, e)))
      | inr sent ↦ elim (Bool-cases (bytes_eq val s.val)) [
        | inl same ↦ inl ((bytes_eq_iff val s.val).0 same, sent)
        | inr other ↦ inr (subscribes-Matches header ss (ground (arith, sent, other, e)))
      ]
    ]

Matches-subscribes :
    (header : Header) (ss : List Subscribe) → Matches header ss → subscribes header ss ≡ true
unfolding subscribes
Matches-subscribes header [] h = elim h [ ]
Matches-subscribes header (s ∷ ss) (inl (same, sent)) =
    rw (sent, (bytes_eq_iff (get_value header s.key) s.val).1 same) refl
Matches-subscribes header (s ∷ ss) (inr h) =
    rw (Matches-subscribes header ss h)
      (either (not (is_empty (get_value header s.key)) && bytes_eq (get_value header s.key) s.val))
  where
    either : (b : Bool) → (if b then true else true) ≡ true
    either true = refl
    either false = refl

-- A client that is registered and has such a subscription.
pub record IsSubscriber (header : Header) (cs : List Client) (p : ℕ) : Type 0 where
  pub client : Client
  pub there : at p cs ≡ some client
  pub joined : client.registered ≡ true
  pub matches : Matches header client.info

-- What the search finds: a subscriber, or that none of the places in the order has one.
pub Finds : Header → List ℕ → List Client → Option ℕ → Type 0
Finds header order cs (some p) = IsSubscriber header cs p
Finds header order cs none = All (λ p. IsSubscriber header cs p → ⊥) order

passed_over :
    (header : Header) (p : ℕ) (ps : List ℕ) (cs : List Client) (o : Option ℕ)
    → (IsSubscriber header cs p → ⊥)
    → Finds header ps cs o
    → Finds header (p ∷ ps) cs o
unfolding Finds
passed_over header p ps cs none n h = (n, h)
passed_over header p ps cs (some q) n h = h

same_client :
    (header : Header) (p : ℕ) (cs : List Client) (c : Client)
    → at p cs ≡ some c
    → (h : IsSubscriber header cs p) → (c.registered ≡ true) × Matches header c.info
same_client header p cs c e h =
    let same : h.client ≡ c =
      ap (λ (o : Option Client). elim o as (λ _. Client) [ none ↦ c | some x ↦ x ])
        (sym h.there ∙ e) in
    (
      subst (λ (x : Client). x.registered ≡ true) same h.joined,
      subst (λ (x : Client). Matches header x.info) same h.matches,
    )

-- In whatever order the map is traversed, `GetClient` finds a registered client with a subscription that
-- the header meets by a value that is not empty, or no client of the order is one.
pub get_client-Finds :
    (header : Header) (order : List ℕ) (cs : List Client)
    → Finds header order cs (get_client header order cs)
unfolding get_client Finds
get_client-Finds header [] cs = tt
get_client-Finds header (p ∷ ps) cs =
    let rest = get_client header ps cs in
    let ih = get_client-Finds header ps cs in
    elim (Option-cases (at p cs)) [
      | inl e ↦
          rw (e, get_client) (passed_over header p ps cs rest (λ h. ground (arith, h.there, e)) ih)
      | inr (c, e) ↦ elim (Bool-cases (c.registered && subscribes header c.info)) [
        | inl f ↦
            rw (e, f, get_client)
              (record {
                client = c;
                there = e;
                joined = ground (arith, f);
                matches = subscribes-Matches header c.info (ground (arith, f));
              })
        | inr f ↦
            rw (e, f, get_client)
              (passed_over header p ps cs rest
                (λ h.
                  let (j, m) = same_client header p cs c e h in
                  ground (arith, f, j, Matches-subscribes header c.info m))
                ih)
      ]
    ]
