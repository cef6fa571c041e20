-- ===== src/Nat/Auth.antt =====
-- nat/conn.go, nat/handler.go: how the two ends of a websocket tunnel agree. Messages are values; the
-- hash of `crypto/md5` is a parameter, and an int64 is its bit pattern.
pub mod Admission
pub mod Session
pub mod Delay
use anyproxy.Base.{
  ℕ, ◌+◌, ◌-◌, ◌*◌, ◌%◌, Bool, true, false, not, ◌&&◌, ◌||◌, Bytes, codes, List, [], ◌∷◌, ◌++◌,
  Option, none, some, if◌then◌else◌, ◌==◌, ltb, is_empty, bytes_eq, itoa, min_i64, split,
  trim_space,
}
use anyproxy.Conf.{Subscribe}
use anyproxy.Stats.{i64_mod}

-- `AuthMessage`
pub record AuthMessage : Type 0 where
  pub user : Bytes
  pub email : Bytes
  pub token : Bytes
  pub xtime : ℕ

-- `conf.RouterConfig.Websocket`, as far as the two ends use it, and the hash in hexadecimal.
pub record Account : Type 0 where
  pub md5 : Bytes → Bytes
  pub user : Bytes
  pub pass : Bytes
  pub email : Bytes

-- `%d` of an int64
abbrev pub show_i64 : ℕ → Bytes
show_i64 x = if ltb x min_i64 then itoa x else codes "-" ++ itoa (i64_mod - x)

-- The token that both ends compute.
unfoldable pub token_of : Account → Bytes → ℕ → Bytes
token_of a user xtime = a.md5 (user ++ (codes "|" ++ (a.pass ++ (codes "|" ++ show_i64 xtime))))

-- `now - xtime > 300` on int64
abbrev pub too_old : ℕ → ℕ → Bool
too_old now xtime = let age = (now + (i64_mod - xtime)) % i64_mod in ltb 300 age && ltb age min_i64

-- The checks of `serveWs` on the message: what is wrong with it.
unfoldable pub check_auth : Account → ℕ → AuthMessage → Option Bytes
unfolding token_of
check_auth a now m =
    if is_empty m.email
    then some (codes "email error")
    else if too_old now m.xtime
    then some (codes "xtime err, please check local time")
    else if not (bytes_eq m.user a.user)
    then some (codes "user err")
    else if not (bytes_eq m.token (token_of a m.user m.xtime))
    then some (codes "token err")
    else none

-- the subscriptions with a key and a value
unfoldable pub usable : List Subscribe → List Subscribe
usable [] = []
usable (s ∷ ss) =
    let rest = usable ss in if not (is_empty s.key) && not (is_empty s.val) then s ∷ rest else rest

-- The client that joins the hub.
pub record Joined : Type 0 where
  pub user : Bytes
  pub email : Bytes
  pub subscribe : List Subscribe

-- What the server answers, and who joins.
pub record Served : Type 0 where
  pub replies : List Bytes
  pub joined : Option Joined

abbrev pub refused : List Bytes → Served
refused replies = record { replies = replies; joined = none }

-- the end of `serveWs`: the subscriptions, `none` if they cannot be read
unfoldable pub take_subscribe : AuthMessage → Option (List Subscribe) → Served
unfolding usable
take_subscribe m none = refused (codes "ok" ∷ [])
take_subscribe m (some subs) = elim (usable subs) [
  | [] ↦ refused (codes "ok" ∷ codes "subscribe empty err" ∷ [])
  | s ∷ ss ↦ record {
    replies = codes "ok" ∷ codes "ok" ∷ [];
    joined = some (record { user = m.user; email = m.email; subscribe = s ∷ ss });
  }
]

-- `serveWs`: whether the upgrade succeeds, and the two messages, `none` where reading one fails
unfoldable pub serve_ws : Account → ℕ → Bool → Option AuthMessage → Option (List Subscribe) → Served
unfolding check_auth take_subscribe
serve_ws a now false auth subs = refused []
serve_ws a now true none subs = refused []
serve_ws a now true (some m) subs = elim (check_auth a now m) [
  | some wrong ↦ refused (wrong ∷ [])
  | none ↦ take_subscribe m subs
]

-- What comes back within three seconds: a message, empty where reading fails, or nothing.
pub data Answer : Type 0 where
  replied : Bytes → Answer
  timed_out : Answer

pub data AskError : Type 0 where
  write_failed timeout : AskError
  fail : Bytes → AskError

-- `ask`, with the error of `WriteJSON`
unfoldable pub ask : Bool → Answer → Option AskError
ask written answer = if not written then some write_failed else (elim answer [
  | timed_out ↦ some timeout
  | replied message ↦ (if bytes_eq message (codes "ok") then none else some (fail message))
])

-- the message of `auth`, and that of `subscribe`
unfoldable pub auth_message : Account → ℕ → AuthMessage
unfolding token_of
auth_message a now = record {
  user = a.user;
  email = a.email;
  token = token_of a a.user now;
  xtime = now;
}

unfoldable pub subscribe_message : List Subscribe → List Subscribe
subscribe_message [] = []
subscribe_message (s ∷ ss) = record { key = s.key; val = s.val } ∷ subscribe_message ss

-- How the connection fares: whether the dial and the two writes succeed, and the two answers.
pub record Attempt : Type 0 where
  pub dialled : Bool
  pub auth_written : Bool
  pub auth_answer : Answer
  pub subscribe_written : Bool
  pub subscribe_answer : Answer

-- The outcome of `connect`, in seconds: the global `tempDelay`, the sleep, whether a client registers.
pub record Connected : Type 0 where
  pub temp_delay : ℕ
  pub slept : ℕ
  pub registered : Bool

-- the sleep after an authentication that failed
unfoldable pub next_delay : ℕ → ℕ
next_delay d = let next = if d == 0 then 3 else d * 2 in if ltb 60 next then 60 else next

-- `connect`, up to the loop that waits for its end
unfoldable pub connect_once : ℕ → Attempt → Connected
unfolding ask next_delay
connect_once d t =
    if not t.dialled
    then record { temp_delay = d; slept = 3; registered = false }
    else (elim (ask t.auth_written t.auth_answer) [
      | some e ↦ record { temp_delay = next_delay d; slept = next_delay d; registered = false }
      | none ↦ (elim (ask t.subscribe_written t.subscribe_answer) [
        | some e ↦ record { temp_delay = 0; slept = 3; registered = false }
        | none ↦ record { temp_delay = 0; slept = 0; registered = true }
      ])
    ])

-- the loop of `ConnectServer` over the attempts up to an interrupt
unfoldable pub connect_loop : ℕ → List Attempt → List Connected
unfolding connect_once
connect_loop d [] = []
connect_loop d (t ∷ ts) = let first = connect_once d t in first ∷ connect_loop first.temp_delay ts

-- `ConnectServer`: nothing is tried without a user and an email
unfoldable pub connect_server : Account → ℕ → List Attempt → List Connected
unfolding connect_loop
connect_server a d ts = if is_empty a.user || is_empty a.email then [] else connect_loop d ts

-- `Eable`
unfoldable pub is_enabled : Bool → ℕ → Bool
is_enabled started clients = started && not (clients == 0)

-- The last address of a list that `net.ParseIP` reads, or the one so far.
unfoldable pub last_ip : (Bytes → Bool) → Bytes → List Bytes → Bytes
last_ip is_ip found [] = found
last_ip is_ip found (x ∷ xs) =
    let ip = trim_space x in last_ip is_ip (if is_ip ip then ip else found) xs

-- the addresses in the values of some headers
unfoldable pub ip_of_heads : (Bytes → Bool) → (Bytes → Bytes) → Bytes → List Bytes → Bytes
unfolding last_ip
ip_of_heads is_ip value_of found [] = found
ip_of_heads is_ip value_of found (h ∷ hs) =
    ip_of_heads is_ip value_of (last_ip is_ip found (split (codes ",") (value_of h))) hs

-- `getIPAdress`, with the host of the remote address
unfoldable pub get_ip_address : (Bytes → Bool) → (Bytes → Bytes) → Bytes → List Bytes → Bytes
unfolding ip_of_heads
get_ip_address is_ip value_of remote head =
    let ip =
      ip_of_heads is_ip value_of [] (if is_empty head then codes "X-Real-IP" ∷ [] else head) in
    if is_empty ip then remote else ip
