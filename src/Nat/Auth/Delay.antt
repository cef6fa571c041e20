-- ===== src/Nat/Auth/Delay.antt =====
-- nat/handler.go: how long `connect` waits before the next attempt.
use anyproxy.Base.{
  ℕ, ◌≤◌, true, false, List, [], ◌∷◌, is_empty, ◌||◌, ◌≡◌, ◌⊎◌, refl, arith, All, Option-cases,
  Bool-cases, inl, inr, if-elim,
}
use anyproxy.Nat.Auth.{
  Attempt, Connected, ask, next_delay, connect_once, connect_loop, Account, connect_server,
}

-- The outcome of an attempt that another follows in time: it waits three seconds at least and a minute
-- at most, and the delay that is kept is nothing, or between the two.
pub record IsPatient (c : Connected) : Type 0 where
  pub waits : (c.registered ≡ false → 3 ≤ c.slept) × (c.registered ≡ true → c.slept ≡ 0)
  pub in_time : c.slept ≤ 60
  pub kept : (c.temp_delay ≡ 0) ⊎ ((3 ≤ c.temp_delay) × (c.temp_delay ≤ 60))

-- The delay that `tempDelay` can hold.
abbrev IsDelay : ℕ → Type 0
IsDelay d = (d ≡ 0) ⊎ ((3 ≤ d) × (d ≤ 60))

next_delay-IsDelay : (d : ℕ) → IsDelay d → (3 ≤ next_delay d) × (next_delay d ≤ 60)
unfolding next_delay
next_delay-IsDelay d (inl e) = ground (arith, e)
next_delay-IsDelay d (inr e) = ground (arith, e)

connect_once-IsPatient : (d : ℕ) (t : Attempt) → IsDelay d → IsPatient (connect_once d t)
unfolding connect_once
connect_once-IsPatient d t h = elim (Bool-cases t.dialled) [
  | inr e ↦
      rw (e, connect_once)
        (record {
          waits = ((λ _. omega arith), (λ x. ground (arith, x)));
          in_time = omega arith;
          kept = h;
        })
  | inl e ↦
      let n = next_delay-IsDelay d h in
      elim (Option-cases (ask t.auth_written t.auth_answer)) [
        | inr (x, f) ↦
            rw (e, f, connect_once)
              (record {
                waits = ((λ _. n.0), (λ x. ground (arith, x)));
                in_time = n.1;
                kept = inr n;
              })
        | inl f ↦ elim (Option-cases (ask t.subscribe_written t.subscribe_answer)) [
          | inr (x, g) ↦
              rw (e, f, g, connect_once)
                (record {
                  waits = ((λ _. omega arith), (λ x. ground (arith, x)));
                  in_time = omega arith;
                  kept = inl refl;
                })
          | inl g ↦
              rw (e, f, g, connect_once)
                (record {
                  waits = ((λ x. ground (arith, x)), (λ _. refl));
                  in_time = omega arith;
                  kept = inl refl;
                })
        ]
      ]
]

connect_loop-IsPatient : (d : ℕ) (ts : List Attempt) → IsDelay d → All IsPatient (connect_loop d ts)
unfolding connect_loop
connect_loop-IsPatient d [] h = tt
connect_loop-IsPatient d (t ∷ ts) h =
    let first = connect_once-IsPatient d t h in
    (first, connect_loop-IsPatient (connect_once d t).temp_delay ts first.kept)

-- However the attempts of `ConnectServer` end, each that does not register waits three seconds at least
-- and a minute at most before the next, one that registers does not wait, and the delay that is kept
-- for refused authentications is nothing or in these bounds.
pub connect_server-IsPatient :
    (a : Account) (ts : List Attempt) → All IsPatient (connect_server a 0 ts)
unfolding connect_server
connect_server-IsPatient a ts =
    if-elim (All IsPatient) (is_empty a.user || is_empty a.email) {x = []} (λ _. tt)
      (λ _. connect_loop-IsPatient 0 ts (inl refl))
