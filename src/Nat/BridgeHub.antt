-- ===== src/Nat/BridgeHub.antt =====
-- nat/bridge_hub.go: the hub that gives each message to the bridge of its request.
use anyproxy.Base.{
  ℕ, Bool, true, false, not, Bytes, List, [], ◌∷◌, ◌++◌, Option, none, some, if◌then◌else◌, ◌==◌,
  bytes_eq,
}
use anyproxy.Nat.{method_close, Message, Member, close_member, leave, offer, change, visit, receive}

-- A bridge: what is kept of it is the number of its request.
abbrev pub Bridge : Type 0
Bridge = Member Bytes ℕ

-- `Register`
unfoldable pub new_bridge : ℕ → Bridge
new_bridge req_id = record { info = req_id; registered = true; is_open = true; queue = [] }

-- the body of the loop of a broadcast
unfoldable pub serve_bridge : Message → ℕ → Bridge → Option (Bridge × Bool)
unfolding close_member offer
serve_bridge message p b =
    if not (b.info == message.id)
    then some (b, false)
    else if bytes_eq message.method method_close
    then (elim (close_member b) [ none ↦ none | some gone ↦ some (gone, true) ])
    else offer 100 message.body b

-- What the hub receives, with the order of the map for a broadcast; the last is a bridge's own
-- receive.
pub data BridgeEvent : Type 0 where
  register : ℕ → BridgeEvent
  unregister : ℕ → BridgeEvent
  broadcast : Message → List ℕ → BridgeEvent
  pump : ℕ → BridgeEvent

-- a round of `run`
unfoldable pub bridge_step : BridgeEvent → List Bridge → Option (List Bridge)
unfolding change leave visit receive serve_bridge
bridge_step (register req_id) bs = some (bs ++ new_bridge req_id ∷ [])
bridge_step (unregister p) bs = change leave p bs
bridge_step (broadcast message order) bs = visit (serve_bridge message) order bs
bridge_step (pump p) bs = change receive p bs

-- `run`
unfoldable pub run_bridges : List BridgeEvent → List Bridge → Option (List Bridge)
run_bridges [] bs = some bs
run_bridges (e ∷ es) bs = elim (bridge_step e bs) [ none ↦ none | some bs' ↦ run_bridges es bs' ]
