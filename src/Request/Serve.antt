-- ===== src/Request/Serve.antt =====
-- proto/server.go: the server answers nothing but a CONNECT.
use anyproxy.Base.{
  ◌≤◌, ◌≡◌, inl, inr, refl, sym, ap, ◌∙◌, subst, Bool, true, false, Bytes, codes, bytes_eq,
  bytes_eq_iff, Option, none, some, length, Result, ok, err, arith, Bool-cases, if◌then◌else◌,
}
use anyproxy.Conf.{Router}
use anyproxy.Header.{Header}
use anyproxy.TcpReader.{ReadError, Reader}
use anyproxy.TcpReader.Stream.{stream, Inv}
use anyproxy.TcpReader.Peers.{Plain}
use anyproxy.TextReader.{TextError, read_header}
use anyproxy.Http.{read_body, get_name_ip_port}
use anyproxy.Http.Request.{RequestError, HttpRequest, read_request}
use anyproxy.Tunnel.Handshake.{get_token}
use anyproxy.Socks.{SocksTarget, SocksError, parse_header}
use anyproxy.Request.{
  Stream, tcp_copy, socks5, tcp, http, pick_stream, ServeEnv, Requested, copied, plain, to_socks,
  to_http, ServeError, bad_request, bad_socks, no_bytes, early_error, read_rest, read_http,
  read_stream, read_any, only_connect, filtered, server_handler,
}
use anyproxy.Request.Heads.{Names}
use anyproxy.Request.Pick.{Reason, pick_stream-IsPicked}

-- The method of a request that is HTTP.
abbrev pub method_of : Requested → Option Bytes
method_of (to_http m r body unread target) = some m
method_of copied = none
method_of plain = none
method_of (to_socks t) = none

-- A request that was read, if one was, has the method, if it is HTTP.
abbrev HasMethod : Option Bytes → Option (Reader × Result ServeError Requested) → Type 0
HasMethod m none = Unit {0}
HasMethod m (some (b, err e)) = Unit {0}
HasMethod m (some (b, ok r)) = method_of r ≡ m

read_rest-HasMethod :
    (env : ServeEnv) (conf : Router) (from_server : Bool) (m uri proto : Bytes) (b : Reader)
    → HasMethod (some m) (read_rest env conf from_server m uri proto b)
unfolding read_rest
read_rest-HasMethod env conf from_server m uri proto b = headed (read_header b)
  where
    requested :
        (b1 : Reader) (r : Result RequestError HttpRequest)
        → HasMethod (some m) (elim r as (λ _. Option (Reader × Result ServeError Requested)) [
          | err x ↦ some (b1, err (bad_request x))
          | ok r ↦
              (let (b2, body, unread) = read_body m proto r.header b1 in
                some (
                  b2,
                  ok (
                      to_http m r body unread
                        (get_name_ip_port r.host (env.request.url.port_of r.url) r.url.scheme)),
                ))
        ])
    requested b1 (err x) = tt
    requested b1 (ok r) = refl

    headed :
        (o : Option (Reader × Header × Option TextError))
        → HasMethod (some m) (elim o as (λ _. Option (Reader × Result ServeError Requested)) [
          | none ↦ none
          | some (b1, h, e) ↦
              (let header = elim e as (λ _. Option Header) [ none ↦ some h | some x ↦ none ] in
                elim (read_request env.request conf.first_line
                  (get_token conf)
                  m
                  from_server
                  uri
                  proto
                  header) [
                    | err x ↦ some (b1, err (bad_request x))
                    | ok r ↦
                        let (b2, body, unread) = read_body m proto r.header b1 in
                        some (
                          b2,
                          ok (
                              to_http m r body unread (
                                get_name_ip_port r.host
                                  (env.request.url.port_of r.url)
                                  r.url.scheme)),
                        )
                  ])
        ])
    headed none = tt
    headed (some (b1, h, none)) =
        requested b1 (
          read_request env.request conf.first_line (get_token conf) m from_server uri proto
            (some h))
    headed (some (b1, h, some x)) =
        requested b1
          (read_request env.request conf.first_line (get_token conf) m from_server uri proto none)

-- The method that a stream's request has.
abbrev stream_method : Stream → Option Bytes
stream_method (http m uri proto) = some m
stream_method tcp_copy = none
stream_method socks5 = none
stream_method tcp = none

read_stream-HasMethod :
    (env : ServeEnv) (conf : Router) (from_server : Bool) (s : Stream) (b : Reader)
    → HasMethod (stream_method s) (read_stream env conf from_server s b)
unfolding read_stream read_http
read_stream-HasMethod env conf from_server tcp_copy b = refl
read_stream-HasMethod env conf from_server tcp b = refl
read_stream-HasMethod env conf from_server socks5 b =
    answered (parse_header env.ip_string env.writes b).2
  where
    answered :
        (t : Result SocksError SocksTarget)
        → HasMethod none (
            some (
              (parse_header env.ip_string env.writes b).0,
              elim t as (λ _. Result ServeError Requested) [
                | ok t ↦ ok (to_socks t)
                | err e ↦ err (bad_socks e)
              ],
            ))
    answered (ok t) = refl
    answered (err e) = tt
read_stream-HasMethod env conf from_server (http m uri proto) b =
    early (early_error env.request (get_token conf) m from_server uri)
  where
    early :
        (o : Option RequestError)
        → HasMethod (some m) (elim o as (λ _. Option (Reader × Result ServeError Requested)) [
          | some e ↦ some (b, err (bad_request e))
          | none ↦ read_rest env conf from_server m uri proto b
        ])
    early (some e) = tt
    early none = read_rest-HasMethod env conf from_server m uri proto b

ok_same : {r q : Requested} → ◌≡◌ {A = Result ServeError Requested} (ok r) (ok q) → q ≡ r
ok_same {r} {q} e =
    ap (λ (o : Result ServeError Requested). elim o as (λ _. Requested) [ ok x ↦ x | err x ↦ r ])
      (sym e)

-- What the filter of the server lets through.
only_connect-method :
    (r q : Requested) → only_connect r ≡ ok q → (method_of r ≡ some (codes "CONNECT")) × (q ≡ r)
unfolding only_connect
only_connect-method (to_http m r body unread target) q e =
    elim (Bool-cases (bytes_eq m (codes "CONNECT"))) [
      | inl f ↦
          (ap some ((bytes_eq_iff m (codes "CONNECT")).0 f), ok_same (rw (f, only_connect) at e))
      | inr f ↦ absurd (ground (arith, rw (f, only_connect) at e))
    ]
only_connect-method copied q e = absurd (ground (arith, e))
only_connect-method plain q e = absurd (ground (arith, e))
only_connect-method (to_socks t) q e = absurd (ground (arith, e))

filtered_only :
    (o : Option (Reader × Result ServeError Requested)) (c : Reader) (q : Requested)
    → filtered only_connect o ≡ some (c, ok q)
    → (o ≡ some (c, ok q)) × (method_of q ≡ some (codes "CONNECT"))
unfolding filtered
filtered_only none c q e = absurd (ground (arith, e))
filtered_only (some (b, err x)) c q e = absurd (ground (arith, e))
filtered_only (some (b, ok r)) c q e =
    let (named, same) = only_connect-method r q (ground (arith, e)) in
    (
      ap (λ x. some (x.0, ok x.1)) {x = (b, r)} {y = (c, q)}
          (path_pair (ground (arith, e)) (sym same)),
      rw same named,
    )
  where
    path_pair :
        {b c : Reader} {r q : Requested}
        → b ≡ c
        → r ≡ q
        → ◌≡◌ {A = Reader × Requested} (b, r) (c, q)
    path_pair {b} {c} {r} {q} f g = cc (f, g)

-- The stream that was picked, for a request that was read.
read_any_picked :
    (env : ServeEnv) (conf : Router) (from_server : Bool)
    (o : Option (Reader × Result ReadError Stream)) (c : Reader) (q : Requested) (m : Bytes)
    → (elim o as (λ _. Option (Reader × Result ServeError Requested)) [
      | none ↦ none
      | some (b, err e) ↦ some (b, err (no_bytes e))
      | some (b, ok s) ↦ read_stream env conf from_server s b
    ])
      ≡ some (c, ok q)
    → method_of q ≡ some m
    → (d : Reader) × (uri : Bytes) × (proto : Bytes) × (o ≡ some (d, ok (http m uri proto)))
read_any_picked env conf from_server none c q m e n = absurd (ground (arith, e))
read_any_picked env conf from_server (some (b, err x)) c q m e n = absurd (ground (arith, e))
read_any_picked env conf from_server (some (b, ok s)) c q m e n = of_stream s (
    sym (subst (HasMethod (stream_method s)) e (read_stream-HasMethod env conf from_server s b))
    ∙ n)
  where
    of_stream :
        (s : Stream)
        → stream_method s ≡ some m
        → (d : Reader) × (uri : Bytes) × (proto : Bytes) × (◌≡◌
            {A = Option (Reader × Result ReadError Stream)}
            (some (b, ok s))
            (some (d, ok (http m uri proto))))
    of_stream (http k uri proto) f =
        (b, uri, proto, ap (λ x. some (b, ok (http x uri proto))) (ground (arith, f)))
    of_stream tcp_copy f = absurd (ground (arith, f))
    of_stream socks5 f = absurd (ground (arith, f))
    of_stream tcp f = absurd (ground (arith, f))

-- What a server answers, on a reader whose buffer has two bytes or more, whose indices are in order and
-- in the buffer, and whose connection does not fail with the reader's own `ErrBufferFull`, is an HTTP
-- request of the method CONNECT, and the first eight bytes of the connection name that method.
pub server_handler-Names :
    (env : ServeEnv) (conf : Router) (b c : Reader) (q : Requested)
    → 2 ≤ length b.buf
    → Inv b
    → Plain b.rd b.error
    → server_handler env conf b ≡ some (c, ok q)
    → (method_of q ≡ some (codes "CONNECT")) × Names (codes "CONNECT") (stream b)
unfolding server_handler read_any
server_handler-Names env conf b c q two v p e =
    let (read, named) =
      filtered_only (read_any env conf true b) c q (with_remote env.has_remote e) in
    let (d, uri, proto, picked) =
      read_any_picked env conf true (pick_stream conf b) c q (codes "CONNECT") read named in
    let (r, f, k) = pick_stream-IsPicked conf b two v p in
    let same : r ≡ (d, ok (http (codes "CONNECT") uri proto)) = some_same (sym f ∙ picked) in
    (named, subst (λ x. Reason (stream b) k.taken x.1) same k.reason)
  where
    with_remote :
        (r : Bool)
        → (if r
            then filtered only_connect (read_any env conf true b)
            else some (b, err ServeError.no_remote))
          ≡ some (c, ok q)
        → filtered only_connect (read_any env conf true b) ≡ some (c, ok q)
    with_remote true e = e
    with_remote false e = absurd (ground (arith, e))

    some_same : {r q : Reader × Result ReadError Stream} → some r ≡ some q → r ≡ q
    some_same {r} {q} e =
        ap
          (λ (o : Option (Reader × Result ReadError Stream)).
            elim o as (λ _. Reader × Result ReadError Stream) [ none ↦ r | some x ↦ x ])
          e
