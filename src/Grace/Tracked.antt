-- ===== src/Grace/Tracked.antt =====
-- grace/: the server tracks its open connections, and a shutdown waits for them.
use anyproxy.Base.{
  ℕ, ◌+◌, ◌*◌, ◌%◌, ◌/◌, ◌<◌, ◌≡◌, ◌⊎◌, refl, ap, ◌∙◌, Bool, true, false, not, ◌&&◌, ◌||◌, List,
  ltb, ◌==◌, arith, All, if-elim,
}
use anyproxy.Stats.{i64_mod}
use anyproxy.Grace.{
  ConnState, code_of, pack, get_state, Conn, set_state, new_conn, begin_serve, is_busy, close_idle,
}

code_of_bound : (s : ConnState) → code_of s < 256
code_of_bound ConnState.state_new = omega arith
code_of_bound ConnState.state_active = omega arith
code_of_bound ConnState.state_idle = omega arith
code_of_bound ConnState.state_hijacked = omega arith
code_of_bound ConnState.state_closed = omega arith

-- At a time below 2 ^ 55, the packed state gives back the state and the time.
pub get_state-pack :
    (now : ℕ) (s : ConnState) → now < 36028797018963968 → get_state (pack now s) ≡ (code_of s, now)
unfolding get_state pack
get_state-pack now s h =
    let b = code_of_bound s in
    let low : (now * 256 % i64_mod + code_of s) % 256 ≡ code_of s = omega (arith, h, b) in
    let high : (now * 256 % i64_mod + code_of s) / 256 ≡ now = omega (arith, h, b) in cc (low, high)

-- A connection is closed or tracked.
abbrev pub IsTracked : Conn → Type 0
IsTracked c = (c.is_open ≡ false) ⊎ (c.tracked ≡ true)

-- No connection is open.
abbrev pub Closed : List Conn → Type 0
Closed = All (λ c. c.is_open ≡ false)

-- Whether a connection with a state and its time is busy.
abbrev busy_with : ℕ → ℕ × ℕ → Bool
busy_with now s = not (s.0 == 2 || (s.0 == 0 && ltb (s.1 + 5) now)) || s.1 == 0

is_busy-begin_serve :
    (now t : ℕ) (c : Conn) → t < 36028797018963968 → is_busy now (begin_serve t c) ≡ true
unfolding is_busy begin_serve set_state
is_busy-begin_serve now t c h = ap (busy_with now) (get_state-pack t ConnState.state_active h)

is_busy-new_conn :
    (now t : ℕ)
    → t < 36028797018963968
    → is_busy now (new_conn t) ≡ not (ltb 0 t && ltb (t + 5) now)
unfolding is_busy new_conn set_state
is_busy-new_conn now t h =
    ap (busy_with now) (get_state-pack t ConnState.state_new h) ∙ ground arith

closes_idle :
    (now : ℕ) (c : Conn)
    → c.tracked ≡ true
    → c.is_open ≡ true
    → (close_idle now c).is_open ≡ is_busy now c
unfolding close_idle
closes_idle now c t o = ground (arith, t, o)

new_conn_tracked : (t : ℕ) → ((new_conn t).tracked ≡ true) × ((new_conn t).is_open ≡ true)
unfolding new_conn set_state
new_conn_tracked t = (refl, refl)

keeps_busy : (now : ℕ) (c : Conn) → is_busy now c ≡ true → close_idle now c ≡ c
unfolding close_idle
keeps_busy now c e =
    if-elim (λ x. x ≡ c) (not c.tracked) (λ _. refl)
      (λ _. if-elim (λ x. x ≡ c) (is_busy now c) (λ _. refl) (λ n. absurd (ground (arith, e, n))))

-- At times below 2 ^ 55, `closeIdleConns` leaves a connection that is being handled as it is, and closes
-- one that is new exactly if that is more than five seconds old, and not of the time 0.
pub close_idle-begin_serve :
    (now t : ℕ) (c : Conn)
    → t < 36028797018963968
    → (close_idle now (begin_serve t c) ≡ begin_serve t c)
      × ((close_idle now (new_conn t)).is_open ≡ not (ltb 0 t && ltb (t + 5) now))
close_idle-begin_serve now t c h =
    let (tracked, open_yet) = new_conn_tracked t in
    (
      keeps_busy now (begin_serve t c) (is_busy-begin_serve now t c h),
      closes_idle now (new_conn t) tracked open_yet ∙ is_busy-new_conn now t h,
    )
