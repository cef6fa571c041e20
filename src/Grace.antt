-- ===== src/Grace.antt =====
-- grace/conn.go, grace/server.go: the connections that a server tracks, and its shutdown. The set
-- `activeConn` is a flag of each connection, times are in seconds, and a uint64 wraps at 2 ^ 64.
pub mod Tracked
use anyproxy.Base.{
  ℕ, zero, suc, ◌+◌, ◌-◌, ◌*◌, ◌/◌, ◌%◌, Bool, true, false, not, ◌&&◌, ◌||◌, List, [], ◌∷◌, ◌++◌,
  if◌then◌else◌, ltb, ◌==◌,
}
use anyproxy.Stats.{i64_mod}

-- `ConnState`
pub data ConnState : Type 0 where
  state_new state_active state_idle state_hijacked state_closed : ConnState

abbrev pub code_of : ConnState → ℕ
code_of state_new = 0
code_of state_active = 1
code_of state_idle = 2
code_of state_hijacked = 3
code_of state_closed = 4

-- `curState`: the time and the state in one word
unfoldable pub pack : ℕ → ConnState → ℕ
pack now state = (now * 256) % i64_mod + code_of state

-- `getState`
unfoldable pub get_state : ℕ → ℕ × ℕ
get_state packed = (packed % 256, packed / 256)

-- A connection: its packed state, whether `activeConn` holds it, and whether it is open.
pub record Conn : Type 0 where
  pub packed : ℕ
  pub tracked : Bool
  pub is_open : Bool

-- `trackConn` in `setState`
abbrev pub tracked_by : ConnState → Bool → Bool
tracked_by state_new old = true
tracked_by state_active old = old
tracked_by state_idle old = old
tracked_by state_hijacked old = false
tracked_by state_closed old = false

-- `setState`
unfoldable pub set_state : ℕ → ConnState → Conn → Conn
unfolding pack
set_state now state c = record c { packed = pack now state; tracked = tracked_by state c.tracked }

-- the new connection of a round of `serve`
unfoldable pub new_conn : ℕ → Conn
unfolding set_state
new_conn now = set_state now state_new (record { packed = 0; tracked = false; is_open = true })

-- `conn.serve` where it begins to handle the connection, and where it has handled it
unfoldable pub begin_serve : ℕ → Conn → Conn
unfolding set_state
begin_serve now c = set_state now state_active c

-- `close` of `conn.serve`, which the handler may have called on the socket before
unfoldable pub close_conn : Conn → Conn
close_conn c = record c { is_open = false }

unfoldable pub end_serve : ℕ → Conn → Conn
unfolding set_state close_conn
end_serve now c = set_state now state_closed (close_conn c)

-- the checks of `closeIdleConns`: whether a connection stays
unfoldable pub is_busy : ℕ → Conn → Bool
unfolding get_state
is_busy now c =
    let (st, since) = get_state c.packed in
    let idle = st == 2 || (st == 0 && ltb (since + 5) now) in not idle || since == 0

-- the body of the loop of `closeIdleConns`, on any connection
unfoldable pub close_idle : ℕ → Conn → Conn
unfolding is_busy
close_idle now c =
    if not c.tracked
    then c
    else if is_busy now c
    then c
    else record c { is_open = false; tracked = false }

-- `closeIdleConns`; the body of the loop looks at its own connection only
unfoldable pub close_idle_conns : ℕ → List Conn → List Conn
unfolding close_idle
close_idle_conns now [] = []
close_idle_conns now (c ∷ cs) = close_idle now c ∷ close_idle_conns now cs

-- its result
unfoldable pub quiescent : ℕ → List Conn → Bool
unfolding is_busy
quiescent now [] = true
quiescent now (c ∷ cs) = not (c.tracked && is_busy now c) && quiescent now cs

-- `GetConns`
unfoldable pub get_conns : List Conn → ℕ
get_conns [] = 0
get_conns (c ∷ cs) = let rest = get_conns cs in if c.tracked then suc rest else rest

-- What happens to the connections of a server. A handler may close its connection before `conn.serve`
-- does, and that is closed before its state is set, so there is an event for the closing alone.
pub data ConnEvent : Type 0 where
  accepts sweeps closes : ℕ → ConnEvent
  begins ends : ℕ → ℕ → ConnEvent

-- The change of the connection at a place.
unfoldable pub change_at : (Conn → Conn) → ℕ → List Conn → List Conn
change_at f p [] = []
change_at f zero (c ∷ cs) = f c ∷ cs
change_at f (suc p) (c ∷ cs) = c ∷ change_at f p cs

unfoldable pub conn_step : ConnEvent → List Conn → List Conn
unfolding change_at new_conn begin_serve close_conn end_serve close_idle_conns
conn_step (accepts now) cs = cs ++ new_conn now ∷ []
conn_step (sweeps now) cs = close_idle_conns now cs
conn_step (closes p) cs = change_at close_conn p cs
conn_step (begins now p) cs = change_at (begin_serve now) p cs
conn_step (ends now p) cs = change_at (end_serve now) p cs

unfoldable pub run_conns : List ConnEvent → List Conn → List Conn
unfolding conn_step
run_conns [] cs = cs
run_conns (e ∷ es) cs = run_conns es (conn_step e cs)

-- A round of the loop of `shutdown`: the time, whether the timer has gone off, and what happens to the
-- connections before the next.
pub record Round : Type 0 where
  pub now : ℕ
  pub force : Bool
  pub meanwhile : List ConnEvent

-- the loop of `shutdown`: whether it was forced, and the connections
unfoldable pub shutdown_loop : List Round → List Conn → Bool × List Conn
unfolding close_idle_conns run_conns get_conns
shutdown_loop [] cs = (true, cs)
shutdown_loop (r ∷ rs) cs =
    let left = close_idle_conns r.now cs in
    let rest = shutdown_loop rs (run_conns r.meanwhile left) in
    if get_conns left == 0 then (false, left) else if r.force then (true, left) else rest

-- the back-off of `serve` after a temporary error, in milliseconds
unfoldable pub accept_delay : ℕ → ℕ
accept_delay d = let next = if d == 0 then 5 else d * 2 in if ltb 1000 next then 1000 else next
