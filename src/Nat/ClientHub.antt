-- ===== src/Nat/ClientHub.antt =====
-- nat/client_hub.go: the hub of the websocket clients, and the search for a subscriber.
use anyproxy.Base.{
  ℕ, Bool, true, false, not, ◌&&◌, List, [], ◌∷◌, ◌++◌, Option, none, some, if◌then◌else◌, ◌==◌,
  bytes_eq, is_empty,
}
use anyproxy.Conf.{Subscribe}
use anyproxy.Header.{Header, get_value}
use anyproxy.Nat.{Message, Member, leave, offer, at, change, visit, receive}

-- A client: what is kept of it is its subscriptions.
abbrev pub Client : Type 0
Client = Member Message (List Subscribe)

unfoldable pub new_client : List Subscribe → Client
new_client subscribe = record { info = subscribe; registered = true; is_open = true; queue = [] }

-- the body of the loop of a broadcast
unfoldable pub serve_client : ℕ → Message → ℕ → Client → Option (Client × Bool)
unfolding offer
serve_client to message p c = if not (p == to) then some (c, false) else offer 200 message c

pub data ClientEvent : Type 0 where
  register : List Subscribe → ClientEvent
  unregister : ℕ → ClientEvent
  broadcast : ℕ → Message → List ℕ → ClientEvent
  pump : ℕ → ClientEvent

-- a round of `run`
unfoldable pub client_step : ClientEvent → List Client → Option (List Client)
unfolding change leave visit receive serve_client
client_step (register subscribe) cs = some (cs ++ new_client subscribe ∷ [])
client_step (unregister p) cs = change leave p cs
client_step (broadcast to message order) cs = visit (serve_client to message) order cs
client_step (pump p) cs = change receive p cs

-- `run`
unfoldable pub run_clients : List ClientEvent → List Client → Option (List Client)
run_clients [] cs = some cs
run_clients (e ∷ es) cs = elim (client_step e cs) [ none ↦ none | some cs' ↦ run_clients es cs' ]

-- the loop over the subscriptions of a client
unfoldable pub subscribes : Header → List Subscribe → Bool
subscribes header [] = false
subscribes header (s ∷ ss) =
    let val = get_value header s.key in
    let rest = subscribes header ss in
    if not (is_empty val) && bytes_eq val s.val then true else rest

-- `GetClient`, in the order of the map
unfoldable pub get_client : Header → List ℕ → List Client → Option ℕ
unfolding at subscribes
get_client header [] cs = none
get_client header (p ∷ ps) cs =
    let rest = get_client header ps cs in
    elim (at p cs) [
      | none ↦ rest
      | some c ↦ (if c.registered && subscribes header c.info then some p else rest)
    ]
