-- ===== src/Response/Forwarded.antt =====
-- proto/http.go: the request that is sent on, as the next reader of HTTP reads it.
use anyproxy.Base.{
  ◌≡◌, sym, ap, ◌∙◌, subst, true, Bytes, [], ◌∷◌, ◌++◌, append_assoc, none, some, Lacks, All-append,
  arith, lookup, bytes_key,
}
use mathlib.Core.List.{map}
use anyproxy.TcpReader.{Reader}
use anyproxy.Header.{Header, clean_value, write_header}
use anyproxy.Header.Wire.{buffer_write, write_header-lines}
use anyproxy.TextReader.{crlf, read_line_slice, read_header}
use anyproxy.TextReader.Break.{read_line_slice-crlf}
use anyproxy.TcpReader.Peers.{Calm, Calm-IsSteady}
use anyproxy.TextReader.RoundTrip.{Holds, line-Holds}
use anyproxy.TextReader.Values.{IsSendable, read_header-write_header}
use anyproxy.Response.{request_bytes}

request_bytes-lines :
    (first : Bytes) (h : Header) (body : Bytes)
    → request_bytes first h body
      ≡ (first ++ b'\r' ∷ []) ++ b'\n' ∷ ((write_header buffer_write [] h).0 ++ (crlf ++ body))
unfolding request_bytes
request_bytes-lines first h body =
    ap (λ r. r.0 ++ (crlf ++ body)) (write_header-lines (first ++ crlf) h)
    ∙ (simp append_assoc)
    ∙ ap (λ r. (first ++ b'\r' ∷ []) ++ b'\n' ∷ (r.0 ++ (crlf ++ body)))
        (sym (write_header-lines [] h))

-- A request is sent on, with a first line without a line break and a header of keys that can be sent,
-- each once and with a value, to a reader with room for two bytes, on a connection that sends without
-- failing and however it cuts the bytes. This reader reads the first line without its break, as the HTTP
-- stream reads it, then a header with the same
-- keys, each with its values cleaned of line breaks and outer space, and is left with the bytes of the body
-- still to hand out.
pub request_bytes-read_header :
    (first : Bytes) (h : Header) (body : Bytes) (b : Reader)
    → Lacks b'\n' first
    → IsSendable h
    → Holds b (request_bytes first h body)
    → (c : Reader) × (d : Reader) × (m : Header) × (read_line_slice true b ≡ some (c, first, none))
      × (read_header c ≡ some (d, m, none))
      × Holds d body
      × ((j : Bytes)
          → lookup j m ≡ (elim (lookup j h) [ none ↦ none | some vs ↦ some (map clean_value vs) ]))
request_bytes-read_header first h body b l v o =
    let rest = (write_header buffer_write [] h).0 ++ (crlf ++ body) in
    let lacks : Lacks b'\n' (first ++ b'\r' ∷ []) =
      All-append _ first (b'\r' ∷ []) l ((λ e. omega (arith, e)), tt) in
    let (c, e, k) =
      line-Holds b (first ++ b'\r' ∷ []) rest lacks
        (subst (Holds b) (request_bytes-lines first h body) o) in
    let (d, m, f, q, same) = read_header-write_header h c body v k in
    (
      c,
      d,
      m,
      read_line_slice-crlf Calm Calm-IsSteady first b c o.two o.inv o.calm
          (e ∙ ap (λ t. some (c, t, none)) (append_assoc first (b'\r' ∷ []) (b'\n' ∷ []))),
      f,
      q,
      same,
    )
