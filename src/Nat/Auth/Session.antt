-- ===== src/Nat/Auth/Session.antt =====
-- nat/handler.go against nat/conn.go: a client of the same account is let in.
use anyproxy.Base.{
  ℕ, true, false, Bytes, codes, List, [], ◌∷◌, none, some, is_empty, bytes_eq, ◌≡◌, ◌≢◌, refl, ap,
  ◌∙◌,
}
use anyproxy.Conf.{Subscribe}
use anyproxy.Nat.Auth.{
  Account, Answer, replied, Attempt, Served, ask, auth_message, subscribe_message, connect_once,
  serve_ws, too_old, usable, token_of,
}
use anyproxy.Nat.Auth.Admission.{IsAuthentic, serve_ws-served}

subscribe_message_lem : (ss : List Subscribe) → subscribe_message ss ≡ ss
unfolding subscribe_message
subscribe_message_lem [] = refl
subscribe_message_lem (s ∷ ss) = ap (◌∷◌ s) (subscribe_message_lem ss)

-- What the client gets for its messages: the answers in their order, and an empty one for a connection
-- that the server left.
abbrev pub answered : List Bytes → Answer × Answer
answered [] = (replied [], replied [])
answered (x ∷ []) = (replied x, replied [])
answered (x ∷ y ∷ xs) = (replied x, replied y)

-- The attempt of a client whose messages arrive and whose answers come in time.
abbrev pub attempt_with : Served → Attempt
attempt_with r = record {
  dialled = true;
  auth_written = true;
  auth_answer = (answered r.replies).0;
  subscribe_written = true;
  subscribe_answer = (answered r.replies).1;
}

connects :
    (d : ℕ) (t : Attempt)
    → t.dialled ≡ true
    → ask t.auth_written t.auth_answer ≡ none
    → ask t.subscribe_written t.subscribe_answer ≡ none
    → connect_once d t ≡ record { temp_delay = 0; slept = 0; registered = true }
unfolding connect_once
connects d t h a s = rw (h, a, s) refl

ask_ok : ask true (replied (codes "ok")) ≡ none
unfolding ask bytes_eq
ask_ok = refl

answered_ok :
    (d : ℕ) (r : Served)
    → r.replies ≡ codes "ok" ∷ codes "ok" ∷ []
    → connect_once d (attempt_with r) ≡ record { temp_delay = 0; slept = 0; registered = true }
answered_ok d r e =
    connects d (attempt_with r) refl (ap (λ x. ask true (answered x).0) e ∙ ask_ok)
      (ap (λ x. ask true (answered x).1) e ∙ ask_ok)

-- A client with the server's user and password and with an email, whose clock is at most 300 seconds
-- behind the server's and which has a subscription with a key and a value, joins the hub of the server
-- with its subscriptions when its messages arrive, and registers with its own hub when it gets the
-- answers, without a delay for the next attempt.
pub connect_once-serve_ws :
    (c s : Account) (here there d : ℕ) (subs : List Subscribe)
    → (c.md5 ≡ s.md5) × (c.user ≡ s.user) × (c.pass ≡ s.pass)
    → is_empty c.email ≡ false
    → too_old there here ≡ false
    → usable subs ≢ []
    → let served =
        serve_ws s there true (some (auth_message c here)) (some (subscribe_message subs)) in
      (served.joined ≡ some (record { user = s.user; email = c.email; subscribe = usable subs }))
      × (connect_once d (attempt_with served)
          ≡ record { temp_delay = 0; slept = 0; registered = true })
unfolding auth_message token_of
connect_once-serve_ws c s here there d subs (h, u, p) email clock some_sub =
    let m = auth_message c here in
    let authentic : IsAuthentic s there m = record {
      has_email = email;
      fresh = clock;
      same_user = u;
      same_token = rw (h, u, p) refl;
    } in
    let same =
      ap (λ x. serve_ws s there true (some m) (some x)) (subscribe_message_lem subs)
      ∙ serve_ws-served s there m subs authentic some_sub in
    (
      ap (λ r. r.joined) same ∙ rw u refl,
      answered_ok d (serve_ws s there true (some m) (some (subscribe_message subs)))
          (ap (λ r. r.replies) same),
    )
