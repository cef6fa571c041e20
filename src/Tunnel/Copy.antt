-- ===== src/Tunnel/Copy.antt =====
-- proto/tunnel.go: `copyBuffer` and `transfer`. The two copies of a tunnel share its state; a turn is
-- one round of the loop of one of them, and says how its `Write` ends.
pub mod Account
pub mod Rounds
pub mod Serves
pub mod Work
pub mod Reuse
pub mod Progress
use Prim.Native.Nat.{min}
use anyproxy.Base.{
  ℕ, ◌+◌, ◌-◌, Bool, true, false, ◌&&◌, not, Bytes, List, [], ◌∷◌, ◌++◌, Option, none, some, ltb,
  ◌==◌, if◌then◌else◌, length, take, ℤ, pos, negsuc,
}
use anyproxy.TcpReader.{ReadError, eof, Script, Reader, read}

-- Which copy: `srcname`.
pub data Side : Type 0 where
  request server : Side

pub data CurState : Type 0 where
  state_new state_active state_closed state_idle : CurState

-- What the two copies share: the fields of `tunnel`, the calls of `CloseWrite` on the server's
-- connection and of `Close` on the client's, the calls of `KeepHandler`, and those of `Add`.
pub record Pipe : Type 0 where
  pub cur_state : CurState
  pub client_unread : ℤ
  pub buf : Bytes
  pub server_closed : Bool
  pub client_closed : Bool
  pub reused : List Bytes
  pub inbound : List ℕ
  pub outbound : List ℕ

pub data CopyError : Type 0 where
  read_failed : ReadError → CopyError
  write_failed : ℕ → CopyError
  short_write : CopyError

-- One copy: what it reads, what it has sent, `written`, and the error it returned with.
pub record Copy : Type 0 where
  pub src : Reader
  pub sent : Bytes
  pub written : ℕ
  pub returned : Option (Option CopyError)

-- How a `Write` ends: how much it takes at most, and its error.
pub record Write : Type 0 where
  pub accepts : ℕ
  pub error : Option ℕ

abbrev pub copy_size : ℕ
copy_size = 4096

-- `s.clientUnRead -= nr` where it is not negative
unfoldable pub unread_minus : ℕ → ℕ → ℤ
unread_minus n k = if ltb n k then negsuc (k - n - 1) else pos (n - k)

-- `isKeepAliveHttp` on bytes of a connection: its answer, and what it leaves of the connection, from
-- which a request that is not whole in the bytes is read on.
abbrev pub KeepAlive : Type 0
KeepAlive = Bytes → Script → Bool × Script

-- The check for a reused connection on bytes of the request: whether the copy ends for it.
unfoldable pub check_reuse : KeepAlive → Pipe → Bytes → Script → Pipe × Bool × Script
unfolding unread_minus
check_reuse is_http p got rd = elim p.client_unread [
  | negsuc n ↦ (p, false, rd)
  | pos n ↦
      (if n == 0
        then (let (again, rd') = is_http got rd in
            if again
            then (record p { server_closed = true; cur_state = state_idle; buf = got }, true, rd')
            else (record p { client_unread = negsuc 0 }, false, rd'))
        else (record p { client_unread = unread_minus n (length got) }, false, rd))
]

-- the counter of the side
unfoldable pub add_bytes : Side → ℕ → Pipe → Pipe
add_bytes request n p = record p { inbound = p.inbound ++ n ∷ [] }
add_bytes server n p = record p { outbound = p.outbound ++ n ∷ [] }

-- The `Write` and what is counter_of of it; a copy that goes on has not returned.
unfoldable pub write_out : Side → Write → Bytes → Pipe × Copy → Pipe × Copy
unfolding add_bytes
write_out side w got (p, c) =
    let nw = min w.accepts (length got) in
    let p' = if ltb 0 nw then add_bytes side nw p else p in
    let c' = record c { sent = c.sent ++ take nw got; written = c.written + nw } in
    elim w.error [
      | some e ↦ (p', record c' { returned = some (some (write_failed e)) })
      | none ↦
          (if length got == nw
            then (p', c')
            else (p', record c' { returned = some (some short_write) }))
    ]

-- the server's EOF
unfoldable pub server_eof : Pipe → Pipe
server_eof p = elim p.cur_state [
  | state_idle ↦ record p { reused = p.reused ++ p.buf ∷ [] }
  | state_closed ↦ p
  | state_new ↦ record p { client_closed = true }
  | state_active ↦ record p { client_closed = true }
]

abbrev pub is_eof : ReadError → Bool
is_eof eof = true
is_eof _ = false

-- a read that failed, behind what it gave
unfoldable pub read_end : Side → ReadError → Pipe × Copy → Pipe × Copy
unfolding server_eof
read_end request x (p, c) = (
  record p { server_closed = true; cur_state = state_closed },
  record c { returned = some (if is_eof x then none else some (read_failed x)) },
)
read_end server x (p, c) = (
  if is_eof x then server_eof p else p,
  record c { returned = some (if is_eof x then none else some (read_failed x)) },
)

-- the end of a round, which a copy that returned in it does not reach
unfoldable pub round_end : Side → Option ReadError → Pipe × Copy → Pipe × Copy
unfolding read_end
round_end side er (p, c) = elim c.returned [
  | some e ↦ (p, c)
  | none ↦ elim er [ none ↦ (p, c) | some x ↦ read_end side x (p, c) ]
]

-- the bytes that a round read: the check, and the `Write`
unfoldable pub forward : Side → KeepAlive → Write → Bytes → Pipe × Copy → Pipe × Copy
unfolding check_reuse write_out
forward server is_http w got s = write_out server w got s
forward request is_http w got (p, c) =
    let (p', reuse, rd') = check_reuse is_http p got c.src.rd in
    let c' = record c { src = record c.src { rd = rd' } } in
    if reuse then (p', record c' { returned = some none }) else write_out request w got (p', c')

-- A round of the loop of `copyBuffer`.
unfoldable pub copy_round : Side → KeepAlive → Write → Pipe × Copy → Pipe × Copy
unfolding forward round_end
copy_round side is_http w (p, c) =
    let (src', got, er) = read c.src copy_size in
    let c' = record c { src = src' } in
    round_end side er (if ltb 0 (length got) then forward side is_http w got (p, c') else (p, c'))

-- The two copies of `transfer`.
pub record Transfer : Type 0 where
  pub pipe : Pipe
  pub up : Copy
  pub down : Copy

abbrev pub new_copy : Reader → Copy
new_copy src = record { src = src; sent = []; written = 0; returned = none }

-- the start of `transfer`
abbrev pub start_transfer : ℤ → Reader → Reader → Transfer
start_transfer unread from_client from_server = record {
  pipe = record {
    cur_state = state_active;
    client_unread = unread;
    buf = [];
    server_closed = false;
    client_closed = false;
    reused = [];
    inbound = [];
    outbound = [];
  };
  up = new_copy from_client;
  down = new_copy from_server;
}

-- a round, where the copy has not returned
unfoldable pub live_round : Side → KeepAlive → Write → Pipe × Copy → Pipe × Copy
unfolding copy_round
live_round side is_http w (p, c) = elim c.returned [
  | some e ↦ (p, c)
  | none ↦ copy_round side is_http w (p, c)
]

-- A turn of one of the two.
unfoldable pub turn : KeepAlive → Side × Write → Transfer → Transfer
unfolding live_round
turn is_http (request, w) t =
    let (p, c) = live_round request is_http w (t.pipe, t.up) in record t { pipe = p; up = c }
turn is_http (server, w) t =
    let (p, c) = live_round server is_http w (t.pipe, t.down) in record t { pipe = p; down = c }

-- The turns of `transfer`, in the order in which the scheduler takes them.
unfoldable pub run_turns : KeepAlive → List (Side × Write) → Transfer → Transfer
unfolding turn
run_turns is_http [] t = t
run_turns is_http (s ∷ ss) t = run_turns is_http ss (turn is_http s t)
