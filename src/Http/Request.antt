-- ===== src/Http/Request.antt =====
-- proto/http.go: `readRequest`. The decoder of base64, `net/url` and the lines of the header, which
-- proto/text reads, are parameters.
use anyproxy.Base.{
  Bool, not, ◌&&◌, Bytes, codes, [], ◌∷◌, ◌++◌, Option, none, some, if◌then◌else◌, is_empty,
  bytes_eq, has_prefix, contains, to_lower, drop, Result, ok, err,
}
use anyproxy.Conf.{FirstLine}
use anyproxy.Header.{Header, get_value}
use anyproxy.Crypto.{done, failed, panics, BlockCipher, decrypt_aes}
use anyproxy.Http.{Url, UrlPackage, first_line_host}

pub data RequestError : Type 0 where
  bad_base64 bad_cipher aes_panics bad_uri bad_header : RequestError

-- What the code calls of other packages.
pub record RequestEnv : Type 0 where
  pub url : UrlPackage
  pub base64_decode : Bytes → Option Bytes
  pub cipher : BlockCipher

-- A request after `readRequest`: its URL, `Host`, first line and header.
pub record HttpRequest : Type 0 where
  pub url : Url
  pub host : Bytes
  pub request_uri : Bytes
  pub first_line : Bytes
  pub header : Header

-- the target of a `CONNECT` from a client of this program, which is encrypted
unfoldable pub decode_target : RequestEnv → Bytes → Bytes → Bool → Bytes → Result RequestError Bytes
decode_target env token method from_server uri =
    if bytes_eq method (codes "CONNECT") && from_server
    then (elim (env.base64_decode uri) [
      | none ↦ err bad_base64
      | some [] ↦ ok uri
      | some (c ∷ x) ↦ (elim (decrypt_aes env.cipher (c ∷ x) token) [
        | done target ↦ ok target
        | failed ↦ err bad_cipher
        | panics ↦ err aes_panics
      ])
    ])
    else ok uri

-- the host of the request: that of the URL, or of the header where they differ
unfoldable pub request_host : UrlPackage → Url → Header → Bytes × Url
request_host pkg url h =
    let named = get_value h (codes "Host") in
    if is_empty url.host
    then (named, record url { host = named; scheme = codes "http" })
    else if not (is_empty named) && not (bytes_eq named url.host)
    then (let host =
          if contains (codes ":") url.host && not (contains (codes ":") named)
          then named ++ (codes ":" ++ pkg.port_of url)
          else named in
        (host, record url { host = host }))
    else (url.host, url)

-- the URI and the first line that are sent on
unfoldable pub request_line :
    UrlPackage → FirstLine → Bytes → Bytes → Bool → Url → Url × Bytes × Bytes
request_line pkg conf method proto added url =
    let line = λ (uri : Bytes). method ++ (codes " " ++ (uri ++ (codes " " ++ proto))) in
    if added
    then (url, pkg.to_string url, line (drop 7 (pkg.to_string url)))
    else (let url' =
          if bytes_eq (to_lower url.scheme) (codes "http")
            && bytes_eq (first_line_host conf url.host) (codes "off")
          then record url { scheme = []; host = [] }
          else url in
        (url', pkg.to_string url', line (pkg.to_string url')))

-- `readRequest`, up to the body
unfoldable pub read_request :
    RequestEnv
    → FirstLine
    → Bytes
    → Bytes
    → Bool
    → Bytes
    → Bytes
    → Option Header
    → Result RequestError HttpRequest
unfolding decode_target request_host request_line
read_request env conf token method from_server uri proto header =
    elim (decode_target env token method from_server uri) [
      | err e ↦ err e
      | ok rawurl ↦
          (let added = bytes_eq method (codes "CONNECT") && not (has_prefix (codes "/") rawurl) in
            elim (env.url.parse_request_uri (if added then codes "http://" ++ rawurl else rawurl)) [
              | none ↦ err bad_uri
              | some url ↦ (elim header [
                | none ↦ err bad_header
                | some h ↦
                    (let (host, url1) = request_host env.url url h in
                      let (url2, request_uri, first) =
                        request_line env.url conf method proto added url1 in
                      ok (record {
                        url = url2;
                        host = host;
                        request_uri = request_uri;
                        first_line = first;
                        header = h;
                      }))
              ])
            ])
    ]
