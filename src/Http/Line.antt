-- ===== src/Http/Line.antt =====
-- proto/http.go: the parts of a request line, and the target of a request.
use anyproxy.Base.{
  suc, Bytes, codes, List, [], ◌∷◌, ◌++◌, some, split, Lacks, split-IsHeadOf, IsHeadOf, sym, ap,
  ◌∙◌, subst, index_byte-append, length, take, drop, ◌≡◌, refl, ◌<◌, arith, take-append_left,
  drop-append_cons,
}
use anyproxy.Http.{parse_request_line, default_port, name_and_port, get_name_ip_port}

-- A line of a method and a URI without spaces, and a protocol, is taken apart into the URI and the
-- protocol.
pub parse_request_line-parts :
    (method uri proto : Bytes)
    → Lacks b' ' method
    → Lacks b' ' uri
    → parse_request_line (method ++ b' ' ∷ (uri ++ b' ' ∷ proto)) ≡ some (uri, proto)
unfolding parse_request_line
parse_request_line-parts method uri proto hm hu =
    let rest = uri ++ b' ' ∷ proto in
    let line = method ++ b' ' ∷ rest in
    let after : drop (suc (length method)) line ≡ rest = drop-append_cons method rest b' ' _ refl in
    let first : take (length uri) rest ≡ uri = take-append_left uri (b' ' ∷ proto) in
    let last : drop (suc (length uri)) rest ≡ proto = drop-append_cons uri proto b' ' _ refl in
    ground (
      arith,
      index_byte-append b' ' method rest hm,
      after,
      index_byte-append b' ' uri proto hu,
      first,
      last,
    )

default_port-pos : (url_port scheme : Bytes) → 0 < default_port url_port scheme
unfolding default_port
default_port-pos url_port scheme = ground arith

name_and_port-pos :
    (parts : List Bytes) (url_port scheme : Bytes) → 0 < (name_and_port parts url_port scheme).1
unfolding name_and_port
name_and_port-pos [] url_port scheme = default_port-pos url_port scheme
name_and_port-pos (name ∷ []) url_port scheme = default_port-pos url_port scheme
name_and_port-pos (name ∷ port ∷ []) url_port scheme =
    ground (arith, default_port-pos url_port scheme)
name_and_port-pos (name ∷ port ∷ x ∷ xs) url_port scheme = default_port-pos url_port scheme

name_and_port-name :
    (name : Bytes) (parts : List Bytes) (url_port scheme : Bytes)
    → (name_and_port (name ∷ parts) url_port scheme).0 ≡ name
unfolding name_and_port
name_and_port-name name [] url_port scheme = refl
name_and_port-name name (port ∷ []) url_port scheme = refl
name_and_port-name name (port ∷ x ∷ xs) url_port scheme = refl

-- The target of a request is named by what its host has before the first colon, if it has one, and always
-- has a port that is not 0.
pub get_name_ip_port-target :
    (host url_port scheme : Bytes)
    → IsHeadOf b':' host (get_name_ip_port host url_port scheme).0
      × (0 < (get_name_ip_port host url_port scheme).1)
unfolding get_name_ip_port
get_name_ip_port-target host url_port scheme =
    let (head, tail, e, h) = split-IsHeadOf b':' host in
    (
      subst (IsHeadOf b':' host)
          (sym (
            ap (λ l. (name_and_port l url_port scheme).0) e
            ∙ name_and_port-name head tail url_port scheme))
          h,
      name_and_port-pos (split (codes ":") host) url_port scheme,
    )
