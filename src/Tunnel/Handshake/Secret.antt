-- ===== src/Tunnel/Handshake/Secret.antt =====
-- proto/tunnel.go: what `httpConnect` tells a proxy of the scheme `tunnel`.
use anyproxy.Base.{
  Lacks, All-append, index_byte, index_byte-none, ◌∙◌, true, Bytes, codes, ◌∷◌, ◌++◌, ◌≡◌, refl, ap,
  length, arith,
}
use anyproxy.Conf.{Router}
use anyproxy.Crypto.{
  Outcome, done, failed, panics, encrypt_aes, decrypt_aes, IsCipher, block_size, ◌>>=◌,
}
use anyproxy.Crypto.RoundTrip.{decrypt_aes-encrypt_aes}
use anyproxy.Tunnel.{Env, connect, World}
use anyproxy.Tunnel.Handshake.{get_token, attempt, connect_request, sent_text, http_connect}

bound_done :
    (r : Outcome Bytes) (f : Bytes → Outcome Bytes) (y : Bytes)
    → (r >>= f) ≡ done y
    → (x : Bytes) × (r ≡ done x) × (f x ≡ done y)
bound_done (done x) f y h = (x, refl, h)
bound_done failed f y h = absurd (ground arith)
bound_done panics f y h = absurd (ground arith)

-- What `fmt` and `base64` document: a format without a percent sign is written as it is, and a text in
-- base64 has none.
pub record PrintsPlain (env : Env) : Type 0 where
  pub plain : (s : Bytes) → Lacks b'%' s → env.print_format s ≡ s
  pub encoded : (x : Bytes) → Lacks b'%' (env.base64 x)

line-Lacks :
    (t : Bytes) → Lacks b'%' t → Lacks b'%' (codes "CONNECT " ++ (t ++ codes " HTTP/1.1\r\n\r\n"))
unfolding index_byte
line-Lacks t l =
    All-append _ (codes "CONNECT ") (t ++ codes " HTTP/1.1\r\n\r\n")
      (index_byte-none b'%' (codes "CONNECT ") refl)
      (All-append _ t (codes " HTTP/1.1\r\n\r\n") l
        (index_byte-none b'%' (codes " HTTP/1.1\r\n\r\n") refl))

-- With a token of one block that the cipher takes, the line sent to a `tunnel` proxy is a `CONNECT`
-- of the base64 text of a ciphertext, and the token decrypts that ciphertext to the target.
pub http_connect-decrypt_aes :
    (env : Env) (conf : Router) (w : World) (network addr target : Bytes)
    → IsCipher env.cipher
    → PrintsPlain env
    → env.cipher.valid_key (get_token conf) ≡ true
    → length (get_token conf) ≡ block_size
    → (x : Bytes) × ((http_connect env conf w network addr target true).0.dials
        ≡ connect network addr (codes "CONNECT " ++ (env.base64 x ++ codes " HTTP/1.1\r\n\r\n"))
          ∷ w.dials)
      × (decrypt_aes env.cipher x (get_token conf) ≡ done target)
unfolding http_connect attempt connect_request
http_connect-decrypt_aes env conf w network addr target c plain v l =
    let request_line = λ (r : Outcome Bytes). elim r as (λ _. Outcome Bytes) [
      | done x ↦
          done (env.print_format (codes "CONNECT " ++ (env.base64 x ++ codes " HTTP/1.1\r\n\r\n")))
      | failed ↦ failed
      | panics ↦ panics
    ] in
    let (x, e, back) =
      bound_done (encrypt_aes env.cipher target (get_token conf)) _ target
        (decrypt_aes-encrypt_aes env.cipher c target (get_token conf) v l) in
    (
      x,
      ap (λ r. connect network addr (sent_text (request_line r)) ∷ w.dials) e
          ∙ ap (λ s. connect network addr s ∷ w.dials)
              (plain.plain _ (line-Lacks (env.base64 x) (plain.encoded x))),
      back,
    )
