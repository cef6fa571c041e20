-- ===== src/Tests/Flow.antt =====
-- The theorems on the two ends of a websocket tunnel, and on connections that are tracked, at concrete
-- inputs.
use anyproxy.Base.{
  ◌++◌, length, ◌≡◌, ◌≢◌, refl, true, false, Bytes, codes, List, [], ◌∷◌, none, some, arith, All,
  not, ltb, ◌&&◌, ◌+◌,
}
use anyproxy.Conf.{Subscribe}
use anyproxy.TcpReader.{Reader, new_reader_with_buf}
use anyproxy.TcpReader.Stream.{Inv, Hands}
use mathlib.Core.List.{map}
use anyproxy.Nat.{Message}
use anyproxy.Nat.Pump.{Copied, ws_request, local_read_pump, opens, passes}
use anyproxy.Nat.Pump.Delivery.{bodies, ws_request-local_read_pump}
use anyproxy.Grace.{
  accepts, sweeps, closes, begins, ends, ConnEvent, Round, state_active, pack, get_state,
  close_idle, begin_serve, new_conn,
}
use anyproxy.Grace.Tracked.{close_idle-begin_serve, get_state-pack}
use anyproxy.Header.{Header}
use anyproxy.Nat.ClientHub.{Client, new_client, get_client}
use anyproxy.Nat.Subscriber.{Finds, get_client-Finds}
use anyproxy.Nat.Auth.{
  Account, Attempt, replied, timed_out, Joined, auth_message, subscribe_message, serve_ws,
  connect_once, connect_server, usable,
}
use anyproxy.Nat.Auth.Admission.{IsAdmitted, serve_ws-IsAdmitted}
use anyproxy.Nat.Auth.Session.{attempt_with, connect_once-serve_ws}
use anyproxy.Nat.Auth.Delay.{IsPatient, connect_server-IsPatient}

-- A hash that keeps its text.
abbrev account : Account
account = record { md5 = λ s. s; user = codes "u"; pass = codes "p"; email = codes "u@x" }

abbrev some_subscribe : List Subscribe
some_subscribe =
    record { key = codes "Host"; val = codes "a" } ∷ record { key = []; val = codes "b" } ∷ []

abbrev kept_subscribe : List Subscribe
kept_subscribe = record { key = codes "Host"; val = codes "a" } ∷ []

kept : usable some_subscribe ≡ kept_subscribe
unfolding usable
kept = refl

some_kept : usable some_subscribe ≢ []
some_kept = rw kept (λ e. ground (arith, e))

connect_once-serve_ws_example :
    let served =
      serve_ws account 1010 true
        (some (auth_message account 1000))
        (some (subscribe_message some_subscribe)) in
    (served.joined
      ≡ some (record { user = codes "u"; email = codes "u@x"; subscribe = usable some_subscribe }))
    × (connect_once 12 (attempt_with served)
        ≡ record { temp_delay = 0; slept = 0; registered = true })
connect_once-serve_ws_example =
    connect_once-serve_ws account account 1000 1010 12 some_subscribe (refl, refl, refl) refl refl
      some_kept

abbrev some_joined : Joined
some_joined = record { user = codes "u"; email = codes "u@x"; subscribe = kept_subscribe }

serve_ws-IsAdmitted_example :
    ((serve_ws account 1010 true (some (auth_message account 1000)) (some some_subscribe)).joined
        ≡ some some_joined
      → IsAdmitted account 1010 true
          (some (auth_message account 1000))
          (some some_subscribe)
          some_joined)
    × (IsAdmitted account 1010 true
          (some (auth_message account 1000))
          (some some_subscribe)
          some_joined
        → (serve_ws account 1010 true
            (some (auth_message account 1000))
            (some some_subscribe)).joined
          ≡ some some_joined)
serve_ws-IsAdmitted_example =
    serve_ws-IsAdmitted account 1010 true (some (auth_message account 1000)) (some some_subscribe)
      some_joined

abbrev refused_attempt : Attempt
refused_attempt = record {
  dialled = true;
  auth_written = true;
  auth_answer = replied (codes "user err");
  subscribe_written = true;
  subscribe_answer = timed_out;
}

connect_server-IsPatient_example :
    All IsPatient (connect_server account 0 (refused_attempt ∷ refused_attempt ∷ []))
connect_server-IsPatient_example =
    connect_server-IsPatient account (refused_attempt ∷ refused_attempt ∷ [])

abbrev some_events : List ConnEvent
some_events = accepts 100 ∷ begins 100 0 ∷ accepts 101 ∷ closes 0 ∷ sweeps 103 ∷ []

abbrev some_rounds : List Round
some_rounds =
    record { now = 110; force = false; meanwhile = ends 111 0 ∷ [] }
    ∷ record { now = 112; force = false; meanwhile = [] }
    ∷ []

close_idle-begin_serve_example :
    (close_idle 200 (begin_serve 100 (new_conn 99)) ≡ begin_serve 100 (new_conn 99))
    × ((close_idle 200 (new_conn 100)).is_open ≡ not (ltb 0 100 && ltb (100 + 5) 200))
close_idle-begin_serve_example = close_idle-begin_serve 200 100 (new_conn 99) (omega arith)

get_state-pack_example : get_state (pack 100 state_active) ≡ (1, 100)
get_state-pack_example = get_state-pack 100 state_active (omega arith)

abbrev buffered_reader : Bytes → Reader
buffered_reader s = new_reader_with_buf [] s

buffered_reader-Inv : (s : Bytes) → Inv (buffered_reader s)
buffered_reader-Inv s = record { in_order = omega arith; in_buffer = omega arith }

abbrev next_request : Reader
next_request = buffered_reader (codes "GET /b")

ws_request-local_read_pump_example :
    (k : Copied) × (taken : Bytes) × (ws_request 7 (codes "GET /a") next_request ≡ some k)
    × Hands next_request taken k.src
    × (k.written ≡ length taken)
    × (true ≡ true
        → (ms : List Message) × (local_read_pump (λ id. true) (map some k.messages)
            ≡ some (opens 7 ∷ map passes ms))
          × (bodies ms ≡ codes "GET /a" ++ taken)
          × All (λ m. m.id ≡ 7) ms)
    × (true ≡ false → local_read_pump (λ id. true) (map some k.messages) ≡ none)
ws_request-local_read_pump_example =
    ws_request-local_read_pump (λ id. true) 7 (codes "GET /a") next_request
      (record { inv = buffered_reader-Inv (codes "GET /b"); room = omega arith })

-- One client that has no subscription, and one that subscribes to the host of the request.
abbrev two_clients : List Client
two_clients = new_client [] ∷ new_client kept_subscribe ∷ []

abbrev host_a : Header
host_a = (codes "Host", codes "a" ∷ []) ∷ []

get_client-Finds_example :
    Finds host_a (0 ∷ 1 ∷ []) two_clients (get_client host_a (0 ∷ 1 ∷ []) two_clients)
get_client-Finds_example = get_client-Finds host_a (0 ∷ 1 ∷ []) two_clients
