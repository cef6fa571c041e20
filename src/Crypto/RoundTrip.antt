-- ===== src/Crypto/RoundTrip.antt =====
-- crypto/aes.go: what is encrypted is decrypted to itself, and what makes each side fail.
use anyproxy.Base.{
  ℕ, suc, ◌+◌, ◌-◌, ◌%◌, true, ◌≡◌, refl, sym, ap, ap₂, ◌∙◌, ◌≤◌, ◌<◌, Bytes, [], ◌∷◌, ◌++◌, length,
  take, replicate, get_or, arith, length-append, length-replicate, get_or-append_right,
  get_or-replicate, take-append_eq,
}
use anyproxy.Crypto.{
  done, ◌>>=◌, block_size, padding, unpadding, BlockCipher, IsCipher, encrypt_aes, decrypt_aes,
}

length-padding :
    (src : Bytes)
    → length (padding src block_size) ≡ length src + (block_size - length src % block_size)
unfolding padding
length-padding src =
    length-append src _
    ∙ ap (◌+◌ (length src)) (length-replicate (block_size - length src % block_size) _)

-- Padding fills up to whole blocks, and adds at least one byte and at most one block.
pub padding_blocks :
    (src : Bytes)
    → (length (padding src block_size) % block_size ≡ 0)
      × (length src < length (padding src block_size))
      × (length (padding src block_size) ≤ length src + block_size)
padding_blocks src = omega (arith, length-padding src)

unpadding_ok :
    (s src : Bytes) (k : ℕ) → s ≡ src ++ replicate (suc k) (suc k) → unpadding s ≡ done src
unfolding unpadding
unpadding_ok [] src k e =
    absurd (omega (arith, ap length e, length-append src (replicate (suc k) (suc k))))
unpadding_ok (c ∷ s) src k e =
    let pad = replicate (suc k) (suc k) in
    let long = length-append src pad in
    let count = length-replicate (suc k) (suc k) in
    let n = length (c ∷ s) in
    let size : n ≡ length src + suc k = omega (arith, ap length e, long, count) in
    let last : get_or (c ∷ s) (n - 1) 0 ≡ suc k =
      ap (λ t. get_or t (n - 1) 0) e
      ∙ get_or-append_right src pad k (n - 1) 0 (omega arith)
      ∙ get_or-replicate (suc k) k (suc k) 0 (omega arith) in
    let kept : take (n - suc k) (c ∷ s) ≡ src =
      ap (take (n - suc k)) e ∙ take-append_eq src pad (n - suc k) (omega arith) in
    ground arith

unpadding-padding : (src : Bytes) → unpadding (padding src block_size) ≡ done src
unfolding padding
unpadding-padding src =
    let k = block_size - length src % block_size - 1 in
    let e : block_size - length src % block_size ≡ suc k = omega arith in
    let m : (block_size - length src % block_size) % 256 ≡ suc k = omega arith in
    unpadding_ok _ src k (ap₂ (λ i j. src ++ replicate i j) e m)

module _ (b : BlockCipher) where
  -- With a key that the cipher takes and that is one block long, the other side reads back every
  -- text that was encrypted.
  pub decrypt_aes-encrypt_aes :
      IsCipher b
      → (src key : Bytes) → b.valid_key key ≡ true
      → length key ≡ block_size
      → (encrypt_aes b src key >>= λ x. decrypt_aes b x key) ≡ done src
  unfolding encrypt_aes decrypt_aes
  decrypt_aes-encrypt_aes c src key v l =
      let p = padding src block_size in
      let whole = (padding_blocks src).0 in
      ground (arith, c.decrypts key key p, c.same_length key key p, unpadding-padding src)

empty_of_length : (s : Bytes) → length s ≡ 0 → s ≡ []
empty_of_length [] e = refl
empty_of_length (c ∷ s) e = absurd (omega (arith, e))

-- No key decrypts an empty text: its last byte is missing.
pub decrypt_aes-nil :
    (b : BlockCipher) → IsCipher b → (key src : Bytes) → decrypt_aes b [] key ≡ done src → ⊥
unfolding decrypt_aes unpadding
decrypt_aes-nil b c key src h =
    let sealed = empty_of_length (b.encrypt_blocks key key []) (c.same_length key key []) in
    let opened : b.decrypt_blocks key key [] ≡ [] =
      ap (b.decrypt_blocks key key) (sym sealed) ∙ c.decrypts key key [] refl in
    ground (arith, opened, h)
