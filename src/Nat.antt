-- ===== src/Nat.antt =====
-- nat/: the messages between the two ends of a websocket tunnel (nat/message.go), and the members of
-- the two hubs: an object with a buffered channel, which the hub registers and closes. A pointer is
-- the position of its object, and the key set of the hub's map is the flag `registered`.
pub mod Auth
pub mod BridgeHub
pub mod ClientHub
pub mod Pump
pub mod Safety
pub mod Subscriber
use anyproxy.Base.{
  ℕ, zero, suc, Bool, true, false, not, ◌&&◌, Bytes, codes, List, [], ◌∷◌, ◌++◌, Option, none, some,
  if◌then◌else◌, ltb, length,
}

abbrev pub method_create : Bytes
method_create = codes "create"

abbrev pub method_close : Bytes
method_close = codes "close"

pub record Message : Type 0 where
  pub id : ℕ
  pub method : Bytes
  pub body : Bytes

-- An object with its channel `send`, which holds messages of the type `A`.
pub record Member (A B : Type 0) : Type 0 where
  pub info : B
  pub registered : Bool
  pub is_open : Bool
  pub queue : List A

module _ {A B : Type 0} where
  -- `close(x.send)` and `delete(h.xs, x)`; a second close panics
  unfoldable pub close_member : Member A B → Option (Member A B)
  close_member m =
      if m.is_open then some (record m { registered = false; is_open = false }) else none

  -- the case of `unregister`
  unfoldable pub leave : Member A B → Option (Member A B)
  unfolding close_member
  leave m = if m.registered then close_member m else some m

  -- the inner `select` of a broadcast: the message is queued, or the member goes; the flag is the
  -- `break Exit`, and a send on a closed channel panics
  unfoldable pub offer : ℕ → A → Member A B → Option (Member A B × Bool)
  unfolding close_member
  offer capacity x m =
      if not m.is_open
      then none
      else if ltb (length m.queue) capacity
      then some (record m { queue = m.queue ++ x ∷ [] }, true)
      else (elim (close_member m) [ none ↦ none | some gone ↦ some (gone, false) ])

  -- the member at a pointer
  unfoldable pub at : ℕ → List (Member A B) → Option (Member A B)
  at p [] = none
  at zero (m ∷ ms) = some m
  at (suc p) (m ∷ ms) = at p ms

  unfoldable pub put : ℕ → Member A B → List (Member A B) → List (Member A B)
  put p m [] = []
  put zero m (x ∷ ms) = m ∷ ms
  put (suc p) m (x ∷ ms) = x ∷ put p m ms

  -- A change of the member at a pointer, which can panic.
  unfoldable pub change :
      (Member A B → Option (Member A B)) → ℕ → List (Member A B) → Option (List (Member A B))
  unfolding at put
  change f p ms = elim (at p ms) [
    | none ↦ some ms
    | some m ↦ (elim (f m) [ none ↦ none | some m' ↦ some (put p m' ms) ])
  ]

  -- the loop over the map in the order the runtime takes; a member that is not registered is not met
  unfoldable pub visit :
      (ℕ → Member A B → Option (Member A B × Bool))
      → List ℕ
      → List (Member A B)
      → Option (List (Member A B))
  unfolding at put
  visit f [] ms = some ms
  visit f (p ∷ ps) ms = elim (at p ms) [
    | none ↦ visit f ps ms
    | some m ↦
        (if m.registered
          then (elim (f p m) [
            | none ↦ none
            | some r ↦ (if r.1 then some (put p r.0 ms) else visit f ps (put p r.0 ms))
          ])
          else visit f ps ms)
  ]

  -- the other end takes the first message of the channel
  unfoldable pub receive : Member A B → Option (Member A B)
  receive m = elim m.queue [ [] ↦ some m | x ∷ xs ↦ some (record m { queue = xs }) ]
