-- ===== src/Http/Target.antt =====
-- proto/tunnel.go and proto/http.go: what one side asks a `tunnel` proxy for is what the other reads.
use anyproxy.Base.{
  true, Bytes, codes, [], ◌∷◌, ◌++◌, some, ok, ◌≡◌, refl, length, bytes_eq_self, sym, subst,
}
use anyproxy.Conf.{Router}
use anyproxy.Crypto.{IsCipher, block_size, done, decrypt_aes}
use anyproxy.Crypto.RoundTrip.{decrypt_aes-nil}
use anyproxy.Tunnel.{Env, connect, World}
use anyproxy.Tunnel.Handshake.{get_token, http_connect}
use anyproxy.Tunnel.Handshake.Secret.{PrintsPlain, http_connect-decrypt_aes}
use anyproxy.Http.Request.{RequestEnv, decode_target}

decode_target-done :
    (env : RequestEnv) (token x uri target : Bytes)
    → IsCipher env.cipher
    → env.base64_decode uri ≡ some x
    → decrypt_aes env.cipher x token ≡ done target
    → decode_target env token (codes "CONNECT") true uri ≡ ok target
unfolding decode_target
decode_target-done env token [] uri target c e d =
    absurd (decrypt_aes-nil env.cipher c token target d)
decode_target-done env token (b ∷ x) uri target c e d =
    rw (bytes_eq_self (codes "CONNECT"), e, d) refl

-- Two programs have one cipher and one token of one block, which the cipher takes, and the decoder of
-- base64 of the server undoes the encoder of the client, whose texts have no percent sign, so that `Fprintf`
-- writes them as they are. A client that dials a `tunnel` proxy for a
-- target then sends a `CONNECT` of a URI from which the server reads that target.
pub http_connect-decode_target :
    (env : Env) (peer : RequestEnv) (conf : Router) (w : World) (network addr target : Bytes)
    → IsCipher env.cipher
    → PrintsPlain env
    → peer.cipher ≡ env.cipher
    → env.cipher.valid_key (get_token conf) ≡ true
    → length (get_token conf) ≡ block_size
    → ((x : Bytes) → peer.base64_decode (env.base64 x) ≡ some x)
    → (uri : Bytes) × ((http_connect env conf w network addr target true).0.dials
        ≡ connect network addr (codes "CONNECT " ++ (uri ++ codes " HTTP/1.1\r\n\r\n")) ∷ w.dials)
      × (decode_target peer (get_token conf) (codes "CONNECT") true uri ≡ ok target)
http_connect-decode_target env peer conf w network addr target c plain same v l inverse =
    let (x, sent, back) = http_connect-decrypt_aes env conf w network addr target c plain v l in
    (
      env.base64 x,
      sent,
      decode_target-done peer (get_token conf) x (env.base64 x) target (subst IsCipher (sym same) c)
          (inverse x) (rw same back),
    )
