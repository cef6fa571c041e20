-- ===== src/Request/Pick.antt =====
-- proto/request.go: what picking the stream of a request takes from the connection.
use anyproxy.Base.{
  ℕ, ◌≤◌, ◌≡◌, ◌⊎◌, inl, inr, refl, sym, ap, ◌∙◌, subst, Bool, true, false, ◌&&◌, not, Bytes, [],
  ◌∷◌, ◌++◌, Option, none, some, ltb, length, is_empty, Result, ok, err, arith, Bool-cases, ap₂,
}
use anyproxy.Conf.{Router}
use anyproxy.TcpReader.{ReadError, Reader}
use anyproxy.TcpReader.Stream.{stream, Inv, Hands, Hands-trans}
use anyproxy.TcpReader.Peeks.{Looks, peek-Looks}
use anyproxy.TcpReader.Peers.{Plain, Plain-IsSteady}
use anyproxy.Socks.{valid_head}
use anyproxy.Request.{Stream, tcp_copy, socks5, tcp, http, try_streams, pick_stream}
use anyproxy.Request.Heads.{
  Names, IsHead, IsSocksHead, valid_http_head-IsHead, valid_head-IsSocksHead,
}

-- What picking takes of a stream `s`, and why the stream of the request is what it is.
abbrev pub Reason : Bytes → Bytes → Result ReadError Stream → Type 0
Reason s taken (err e) = taken ≡ []
Reason s taken (ok tcp_copy) = taken ≡ []
Reason s taken (ok (http m uri proto)) = Names m s
Reason s taken (ok socks5) =
    ((second : ℕ) × (rest : Bytes) × (s ≡ 5 ∷ second ∷ rest)) ⊎ ((m : Bytes) × Names m s)
Reason s taken (ok tcp) = (taken ≡ []) ⊎ ((m : Bytes) × Names m s)

pub record IsPicked (b : Reader) (r : Reader × Result ReadError Stream) : Type 0 where
  pub taken : Bytes
  pub hands : Hands b taken r.0
  pub reason : Reason (stream b) taken r.1

try_streams-IsPicked :
    (b : Reader)
    → 2 ≤ length b.buf
    → Inv b
    → Plain b.rd b.error
    → (r : Reader × Stream) × (try_streams b ≡ some r) × IsPicked b (r.0, ok r.1)
unfolding try_streams
try_streams-IsPicked b two v p =
    let (r, e, h) = valid_http_head-IsHead b two v p in rw (e, try_streams) (headed r h r.1 refl)
  where
    after_socks :
        (c : Reader) (t : Bytes) (h : Hands b t c) (q : Reader × Bool)
        → IsSocksHead c q
        → (t ≡ []) ⊎ ((m : Bytes) × Names m (stream b))
        → (yes : Bool) → q.1 ≡ yes
        → (o : Reader × Stream) × ((elim yes as (λ _. Option (Reader × Stream)) [
          | true ↦ some (q.0, socks5)
          | false ↦ some (q.0, tcp)
        ])
            ≡ some o)
          × IsPicked b (o.0, ok o.1)
    after_socks c t h q k why true f = (
      (q.0, socks5),
      refl,
      record {
        taken = t ++ k.taken;
        hands = Hands-trans h k.hands;
        reason = elim why [
          | inl bare ↦
              (let (second, rest, eq) = k.begins f in
                inl (second, rest, h.handed ∙ ap (λ x. x ++ stream c) bare ∙ eq))
          | inr named ↦ inr named
        ];
      },
    )
    after_socks c t h q k why false f = (
      (q.0, tcp),
      refl,
      record {
        taken = t ++ k.taken;
        hands = Hands-trans h k.hands;
        reason = elim why [
          | inl bare ↦ inl (ap₂ (λ x y. x ++ y) bare (k.refused f))
          | inr named ↦ inr named
        ];
      },
    )

    headed :
        (r : Reader × Option (Bytes × Bytes × Bytes))
        → IsHead b r
        → (o : Option (Bytes × Bytes × Bytes)) → r.1 ≡ o
        → (x : Reader × Stream) × ((elim o as (λ _. Option (Reader × Stream)) [
          | some (method, uri, proto) ↦ some (r.0, http method uri proto)
          | none ↦ elim (valid_head r.0) [
            | none ↦ none
            | some (b2, true) ↦ some (b2, socks5)
            | some (b2, false) ↦ some (b2, tcp)
          ]
        ])
            ≡ some x)
          × IsPicked b (x.0, ok x.1)
    headed r h (some (m, uri, proto)) e = (
      (r.0, http m uri proto),
      refl,
      record {
        taken = h.taken;
        hands = h.hands;
        reason = elim h.shape [
          | inl bare ↦ absurd (ground (arith, e, bare.1))
          | inr (n, named, same) ↦
              subst (λ k. Names k (stream b)) (sym (same (m, uri, proto) e)) named
        ];
      },
    )
    headed r h none e =
        let (q, f, k) = valid_head-IsSocksHead r.0 h.hands.inv h.keeps in
        rw f (
          after_socks r.0 h.taken h.hands q k
            (elim h.shape [ inl bare ↦ inl bare.0 | inr (n, named, same) ↦ inr (n, named) ]) q.1
            refl)

-- On a reader whose buffer has two bytes or more, whose indices are in order and in the buffer, and
-- whose connection does not fail with the reader's own `ErrBufferFull`, picking the stream of a request
-- ends. It is HTTP only where the first eight bytes name a method; unless they do, SOCKS5 is picked
-- only for a first byte 5, and a request that is copied, plain or failed has lost no byte.
pub pick_stream-IsPicked :
    (conf : Router) (b : Reader)
    → 2 ≤ length b.buf
    → Inv b
    → Plain b.rd b.error
    → (r : Reader × Result ReadError Stream) × (pick_stream conf b ≡ some r) × IsPicked b r
unfolding pick_stream
pick_stream-IsPicked conf b two v p =
    elim (Bool-cases
      (conf.tcp_copy.enable && not (is_empty conf.tcp_copy.ip) && ltb 0 conf.tcp_copy.port)) [
        | inl e ↦
            rw (e, pick_stream)
              (
                (b, ok tcp_copy),
                refl,
                record {
                  taken = [];
                  hands = record { handed = refl; inv = v; same_size = refl };
                  reason = refl;
                },
              )
        | inr e ↦
            let (r, f, l) = peek-Looks Plain Plain-IsSteady 1 b v p in
            rw (e, f, pick_stream) (looked r l r.2)
      ]
  where
    looked :
        (r : Reader × Bytes × Option ReadError)
        → Looks Plain Plain-IsSteady 1 b r
        → (e : Option ReadError)
        → (o : Reader × Result ReadError Stream) × ((elim e
              as (λ _. Option (Reader × Result ReadError Stream)) [
                | some x ↦ some (r.0, err x)
                | none ↦ elim (try_streams r.0) [
                  | none ↦ none
                  | some (b2, stream) ↦ some (b2, ok stream)
                ]
              ])
            ≡ some o)
          × IsPicked b o
    looked r l (some x) =
        ((r.0, err x), refl, record { taken = []; hands = l.hands; reason = refl })
    looked r l none =
        let (o, g, k) =
          try_streams-IsPicked r.0 (omega (arith, two, l.hands.same_size)) l.hands.inv l.keeps in
        rw g (
          (o.0, ok o.1),
          refl,
          record {
            taken = k.taken;
            hands = Hands-trans l.hands k.hands;
            reason = subst (λ s. Reason s k.taken (ok o.1)) (sym l.hands.handed) k.reason;
          },
        )
