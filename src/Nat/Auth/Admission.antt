-- ===== src/Nat/Auth/Admission.antt =====
-- nat/conn.go: who may join the hub of the clients.
use anyproxy.Base.{
  ℕ, ◌+◌, ◌-◌, ◌%◌, ◌≤◌, ◌++◌, ◌⊎◌, ◌&&◌, not, Bytes, Bool, true, false, codes, List, [], ◌∷◌,
  Option, none, some, is_empty, bytes_eq_iff, ◌≡◌, ◌≢◌, refl, sym, ap, arith, All, Option-cases,
  Bool-cases, inl, inr, ◌∙◌,
}
use anyproxy.Conf.{Subscribe}
use anyproxy.Nat.Auth.{
  AuthMessage, Account, show_i64, token_of, too_old, check_auth, usable, Joined, Served, refused,
  take_subscribe, serve_ws,
}

-- What the checks of the server let through.
pub record IsAuthentic (a : Account) (now : ℕ) (m : AuthMessage) : Type 0 where
  pub has_email : is_empty m.email ≡ false
  pub fresh : too_old now m.xtime ≡ false
  pub same_user : m.user ≡ a.user
  pub same_token : m.token ≡ token_of a m.user m.xtime

pub check_auth-IsAuthentic :
    (a : Account) (now : ℕ) (m : AuthMessage) → check_auth a now m ≡ none → IsAuthentic a now m
unfolding check_auth
check_auth-IsAuthentic a now m e = record {
  has_email = ground (arith, e);
  fresh = ground (arith, e);
  same_user = ground (arith, e, bytes_eq_iff m.user a.user);
  same_token = ground (arith, e, bytes_eq_iff m.token (token_of a m.user m.xtime));
}

pub IsAuthentic-check_auth :
    (a : Account) (now : ℕ) (m : AuthMessage) → IsAuthentic a now m → check_auth a now m ≡ none
unfolding check_auth
IsAuthentic-check_auth a now m h =
    rw
      (
        h.has_email,
        h.fresh,
        (bytes_eq_iff m.user a.user).1 h.same_user,
        (bytes_eq_iff m.token (token_of a m.user m.xtime)).1 h.same_token,
      )
      refl

-- A time of the client that, on int64, is no more than 300 seconds before that of the server.
abbrev pub IsFresh : ℕ → ℕ → Type 0
IsFresh now xtime =
    ((now + (18446744073709551616 - xtime)) % 18446744073709551616 ≤ 300)
    ⊎ (9223372036854775808 ≤ (now + (18446744073709551616 - xtime)) % 18446744073709551616)

-- What the server accepts: an email, a time that is fresh, its own user, and the hash of that user, the
-- server's password and the time.
pub record IsGenuine (a : Account) (now : ℕ) (m : AuthMessage) : Type 0 where
  pub has_email : m.email ≢ []
  pub fresh : IsFresh now m.xtime
  pub same_user : m.user ≡ a.user
  pub same_token :
      m.token ≡ a.md5 (a.user ++ (codes "|" ++ (a.pass ++ (codes "|" ++ show_i64 m.xtime))))

not_empty : (s : Bytes) → (is_empty s ≡ false → s ≢ []) × (s ≢ [] → is_empty s ≡ false)
not_empty [] = ((λ e. absurd (ground (arith, e))), (λ n. absurd (n refl)))
not_empty (c ∷ s) = ((λ e n. ground (arith, n)), (λ n. refl))

IsAuthentic-IsGenuine :
    (a : Account) (now : ℕ) (m : AuthMessage) → IsAuthentic a now m → IsGenuine a now m
unfolding token_of
IsAuthentic-IsGenuine a now m h = record {
  has_email = (not_empty m.email).0 h.has_email;
  fresh = ground (arith, h.fresh);
  same_user = h.same_user;
  same_token =
      h.same_token
      ∙ ap (λ u. a.md5 (u ++ (codes "|" ++ (a.pass ++ (codes "|" ++ show_i64 m.xtime)))))
          h.same_user;
}

IsGenuine-IsAuthentic :
    (a : Account) (now : ℕ) (m : AuthMessage) → IsGenuine a now m → IsAuthentic a now m
unfolding token_of
IsGenuine-IsAuthentic a now m h = record {
  has_email = (not_empty m.email).1 h.has_email;
  fresh = ground (arith, h.fresh);
  same_user = h.same_user;
  same_token =
      h.same_token
      ∙ ap (λ u. a.md5 (u ++ (codes "|" ++ (a.pass ++ (codes "|" ++ show_i64 m.xtime)))))
          (sym h.same_user);
}

-- A subscription with a key and a value.
abbrev pub IsUsable : Subscribe → Type 0
IsUsable s = (is_empty s.key ≡ false) × (is_empty s.val ≡ false)

-- The second list has just the usable subscriptions of the first, in their order.
abbrev pub Keeps : List Subscribe → List Subscribe → Type 0
Keeps [] js = js ≡ []
Keeps (s ∷ ss) js =
    (IsUsable s × (rest : List Subscribe) × (js ≡ s ∷ rest) × Keeps ss rest)
    ⊎ ((IsUsable s → ⊥) × Keeps ss js)

usable-Keeps : (subs : List Subscribe) → Keeps subs (usable subs)
unfolding usable
usable-Keeps [] = refl
usable-Keeps (s ∷ ss) = elim (Bool-cases (not (is_empty s.key) && not (is_empty s.val))) [
  | inl e ↦ rw e (inl ((ground (arith, e), ground (arith, e)), usable ss, refl, usable-Keeps ss))
  | inr e ↦ rw e (inr ((λ k. ground (arith, e, k.0, k.1)), usable-Keeps ss))
]

Keeps-usable : (subs js : List Subscribe) → Keeps subs js → js ≡ usable subs
unfolding usable
Keeps-usable [] js h = h
Keeps-usable (s ∷ ss) js (inl (u, rest, e, h)) =
    e ∙ ap (◌∷◌ s) (Keeps-usable ss rest h) ∙ sym (rw (u.0, u.1) refl)
Keeps-usable (s ∷ ss) js (inr (n, h)) =
    elim (Bool-cases (not (is_empty s.key) && not (is_empty s.val))) [
      | inl e ↦ absurd (n (ground (arith, e), ground (arith, e)))
      | inr e ↦ rw e (Keeps-usable ss js h)
    ]

usable-IsUsable : (subs : List Subscribe) → All IsUsable (usable subs)
unfolding usable
usable-IsUsable [] = tt
usable-IsUsable (s ∷ ss) = ground (arith, usable-IsUsable ss)

-- The client that the server lets in: both messages arrive, the first is genuine, and of the
-- subscriptions of the second those with a key and a value are kept, of which there is one.
pub record IsAdmitted (a : Account) (now : ℕ) (up : Bool) (auth : Option AuthMessage)
    (subs : Option (List Subscribe)) (j : Joined) : Type 0 where
  pub upgraded : up ≡ true
  pub message : AuthMessage
  pub arrived : auth ≡ some message
  pub wishes : List Subscribe
  pub wished : subs ≡ some wishes
  pub authentic : IsGenuine a now message
  pub kept : Keeps wishes j.subscribe
  pub some_kept : j.subscribe ≢ []
  pub all_usable : All IsUsable j.subscribe
  pub names : (j.user ≡ a.user) × (j.email ≡ message.email)

none_joins : (j : Joined) (Q : Type 0) → none ≡ some j → Q
none_joins j Q e = absurd (ground (arith, e))

take_subscribe-joined :
    (m : AuthMessage) (subs : Option (List Subscribe)) (j : Joined)
    → (take_subscribe m subs).joined ≡ some j
    → (wishes : List Subscribe) × (subs ≡ some wishes)
      × (j ≡ record { user = m.user; email = m.email; subscribe = usable wishes })
      × (usable wishes ≢ [])
unfolding take_subscribe
take_subscribe-joined m none j e = none_joins j _ e
take_subscribe-joined m (some wishes) j e =
    let k = kept (usable wishes) e in (wishes, refl, k.0, k.1)
  where
    kept :
        (us : List Subscribe)
        → (elim us as (λ _. Served) [
          | [] ↦ refused (codes "ok" ∷ codes "subscribe empty err" ∷ [])
          | s ∷ ss ↦ record {
            replies = codes "ok" ∷ codes "ok" ∷ [];
            joined = some (record { user = m.user; email = m.email; subscribe = s ∷ ss });
          }
        ]).joined
          ≡ some j
        → (j ≡ record { user = m.user; email = m.email; subscribe = us }) × (us ≢ [])
    kept [] e = none_joins j _ e
    kept (s ∷ ss) e = (ground (arith, e), (λ n. ground (arith, n)))

serve_ws_only :
    (a : Account) (now : ℕ) (up : Bool) (auth : Option AuthMessage) (subs : Option (List Subscribe))
    (j : Joined)
    → (serve_ws a now up auth subs).joined ≡ some j
    → IsAdmitted a now up auth subs j
unfolding serve_ws
serve_ws_only a now false auth subs j e = none_joins j _ e
serve_ws_only a now true none subs j e = none_joins j _ e
serve_ws_only a now true (some m) subs j e = elim (Option-cases (check_auth a now m)) [
  | inr (w, h) ↦ none_joins j _ (rw (h, serve_ws) at e)
  | inl h ↦
      let authentic = check_auth-IsAuthentic a now m h in
      let (wishes, there, same, n) = take_subscribe-joined m subs j (rw (h, serve_ws) at e) in
      record {
        upgraded = refl;
        message = m;
        arrived = refl;
        wishes = wishes;
        wished = there;
        authentic = IsAuthentic-IsGenuine a now m authentic;
        kept = rw same (usable-Keeps wishes);
        some_kept = rw same n;
        all_usable = rw same (usable-IsUsable wishes);
        names = (ap (λ x. x.user) same ∙ authentic.same_user, ap (λ x. x.email) same);
      }
]

-- The answers and the client, where a subscription is kept.
pub take_subscribe-kept :
    (m : AuthMessage) (wishes : List Subscribe)
    → usable wishes ≢ []
    → take_subscribe m (some wishes) ≡ record {
      replies = codes "ok" ∷ codes "ok" ∷ [];
      joined = some (record { user = m.user; email = m.email; subscribe = usable wishes });
    }
unfolding take_subscribe
take_subscribe-kept m wishes n = kept (usable wishes) n
  where
    kept :
        (us : List Subscribe)
        → us ≢ []
        → (elim us as (λ _. Served) [
          | [] ↦ refused (codes "ok" ∷ codes "subscribe empty err" ∷ [])
          | s ∷ ss ↦ record {
            replies = codes "ok" ∷ codes "ok" ∷ [];
            joined = some (record { user = m.user; email = m.email; subscribe = s ∷ ss });
          }
        ])
          ≡ record {
            replies = codes "ok" ∷ codes "ok" ∷ [];
            joined = some (record { user = m.user; email = m.email; subscribe = us });
          }
    kept [] n = absurd (n refl)
    kept (s ∷ ss) n = refl

-- An authentic message, and a subscription that can be kept, are served.
pub serve_ws-served :
    (a : Account) (now : ℕ) (m : AuthMessage) (wishes : List Subscribe)
    → IsAuthentic a now m
    → usable wishes ≢ []
    → serve_ws a now true (some m) (some wishes) ≡ record {
      replies = codes "ok" ∷ codes "ok" ∷ [];
      joined = some (record { user = m.user; email = m.email; subscribe = usable wishes });
    }
unfolding serve_ws
serve_ws-served a now m wishes h n =
    rw (IsAuthentic-check_auth a now m h, serve_ws) (take_subscribe-kept m wishes n)

serve_ws_all :
    (a : Account) (now : ℕ) (up : Bool) (auth : Option AuthMessage) (subs : Option (List Subscribe))
    (j : Joined)
    → IsAdmitted a now up auth subs j
    → (serve_ws a now up auth subs).joined ≡ some j
serve_ws_all a now up auth subs j h =
    let kept = Keeps-usable h.wishes j.subscribe h.kept in
    let authentic = IsGenuine-IsAuthentic a now h.message h.authentic in
    rw (h.upgraded, h.arrived, h.wished)
      (ap (λ r. r.joined)
          (serve_ws-served a now h.message h.wishes authentic (λ e. h.some_kept (kept ∙ e)))
        ∙ ap some (cc (kept, h.names.0, h.names.1, h.authentic.same_user)))

-- `serveWs` lets a client join exactly where the upgrade succeeds, the first message arrives with an
-- email, a time no more than 300 seconds old on int64, the server's user and the hash of that user, the
-- server's password and the time, and the second arrives with at least one subscription that has a key and a value; what
-- joins has the server's user, the email of the message and just those subscriptions.
pub serve_ws-IsAdmitted :
    (a : Account) (now : ℕ) (up : Bool) (auth : Option AuthMessage) (subs : Option (List Subscribe))
    (j : Joined)
    → ((serve_ws a now up auth subs).joined ≡ some j → IsAdmitted a now up auth subs j)
      × (IsAdmitted a now up auth subs j → (serve_ws a now up auth subs).joined ≡ some j)
serve_ws-IsAdmitted a now up auth subs j =
    (serve_ws_only a now up auth subs j, serve_ws_all a now up auth subs j)
