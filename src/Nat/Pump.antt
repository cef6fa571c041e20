-- ===== src/Nat/Pump.antt =====
-- nat/bridge.go, nat/client.go, proto/websocket.go: the messages that a request over a websocket sends
-- to its client, and what the client does with them. A message that cannot be read or decoded is `none`.
pub mod Delivery
use anyproxy.Base.{
  ℕ, zero, suc, ◌+◌, Bool, true, false, Bytes, List, [], ◌∷◌, ◌++◌, Option, none, some, ltb,
  if◌then◌else◌, bytes_eq, length,
}
use anyproxy.TcpReader.{ReadError, Reader, read}
use anyproxy.Tunnel.Copy.{copy_size, is_eof}
use anyproxy.Tunnel.Copy.Work.{work}
use anyproxy.Nat.{Message, method_create, method_close}

-- `Bridge.Open`, `Bridge.Write` and `Bridge.CloseWrite`: what is sent to the hub
abbrev pub open_message : ℕ → Message
open_message id = record { id = id; method = method_create; body = [] }

abbrev pub write_message : ℕ → Bytes → Message
write_message id body = record { id = id; method = []; body = body }

abbrev pub close_message : ℕ → Message
close_message id = record { id = id; method = method_close; body = [] }

-- The end of `CopyBuffer`: its source, the messages sent, `written` and the error.
pub record Copied : Type 0 where
  pub src : Reader
  pub messages : List Message
  pub written : ℕ
  pub error : Option ReadError

-- a round that goes on, with the rest of the loop
abbrev then_copied : ℕ → Bytes → Option Copied → Option Copied
then_copied id got none = none
then_copied id got (some k) = some (
    if ltb 0 (length got)
    then record k { messages = write_message id got ∷ k.messages; written = length got + k.written }
    else k)

-- the end of the loop
abbrev copied_end : ReadError → Reader → Copied
copied_end x b = record {
  src = b;
  messages = [];
  written = 0;
  error = if is_eof x then none else some x;
}

-- the loop of `Bridge.CopyBuffer` to the bridge itself, whose `Write` does not fail; on fuel
unfoldable pub copy_loop : ℕ → ℕ → Reader → Option Copied
copy_loop zero id b = none
copy_loop (suc fuel) id b =
    let (b', got, e) = read b copy_size in
    elim e [
      | some x ↦ then_copied id got (some (copied_end x b'))
      | none ↦ then_copied id got (copy_loop fuel id b')
    ]

-- `Bridge.CopyBuffer`; each round uses up work
unfoldable pub bridge_copy : ℕ → Reader → Option Copied
unfolding copy_loop
bridge_copy id b = copy_loop (suc (work b)) id b

-- `wsTunnel.transfer`: what is sent for a request, behind the bytes in `buffer`
unfoldable pub ws_request : ℕ → Bytes → Reader → Option Copied
unfolding bridge_copy
ws_request id buffer b = elim (bridge_copy id b) [
  | none ↦ none
  | some k ↦ some (record k {
    messages = open_message id ∷ write_message id buffer ∷ (k.messages ++ close_message id ∷ []);
  })
]

-- What the client does for a message: a bridge to a new connection, or the hub of the bridges.
pub data LocalEvent : Type 0 where
  opens : ℕ → LocalEvent
  passes : Message → LocalEvent

-- `localReadPump`, where a dial of the local proxy for an id succeeds or not; a bridge to the nil
-- connection of a failed dial panics
unfoldable pub local_read_pump : (ℕ → Bool) → List (Option Message) → Option (List LocalEvent)
local_read_pump dials [] = some []
local_read_pump dials (none ∷ ms) = some []
local_read_pump dials (some m ∷ ms) =
    let rest = local_read_pump dials ms in
    if bytes_eq m.method method_create
    then (if dials m.id
        then (elim rest [ none ↦ none | some es ↦ some (opens m.id ∷ es) ])
        else none)
    else (elim rest [ none ↦ none | some es ↦ some (passes m ∷ es) ])

-- `serverReadPump`: every message goes to the hub of the bridges, up to the first that fails
unfoldable pub server_read_pump : List (Option Message) → List Message
server_read_pump [] = []
server_read_pump (none ∷ ms) = []
server_read_pump (some m ∷ ms) = m ∷ server_read_pump ms
