-- ===== src/Crypto.antt =====
-- crypto/aes.go: PKCS7 padding, and CBC with the key as its initial vector. The block cipher is a
-- parameter. A Go panic is an outcome of its own.
pub mod RoundTrip
use anyproxy.Base.{
  ℕ, zero, suc, ◌+◌, ◌-◌, ◌%◌, Bool, true, false, ◌≡◌, ◌≤◌, Bytes, List, [], ◌∷◌, ◌++◌, ◌==◌, ltb,
  if◌then◌else◌, length, take, replicate, get_or,
}

pub data Outcome (A : Type 0) : Type 0 where
  done : A → Outcome A
  failed : Outcome A
  panics : Outcome A

infixl 5 ◌>>=◌
abbrev pub ◌>>=◌ : {A B : Type 0} → Outcome A → (A → Outcome B) → Outcome B
done a >>= f = f a
failed >>= f = failed
panics >>= f = panics

abbrev pub block_size : ℕ
block_size = 16

-- `padding`
unfoldable pub padding : Bytes → ℕ → Bytes
padding src size =
    let pad_num = size - length src % size in src ++ replicate pad_num (pad_num % 256)

-- `unpadding`: an empty slice has no last byte, and a slice bound below zero panics.
unfoldable pub unpadding : Bytes → Outcome Bytes
unpadding [] = panics
unpadding (c ∷ s) =
    let n = length (c ∷ s) in
    let un_pad_num = get_or (c ∷ s) (n - 1) 0 in
    if ltb n un_pad_num then panics else done (take (n - un_pad_num) (c ∷ s))

-- `crypto/aes` and `crypto/cipher`: the keys that `NewCipher` takes, and `CryptBlocks` in both
-- directions, from key, initial vector and whole blocks.
pub record BlockCipher : Type 0 where
  pub valid_key : Bytes → Bool
  pub encrypt_blocks : Bytes → Bytes → Bytes → Bytes
  pub decrypt_blocks : Bytes → Bytes → Bytes → Bytes

-- What their documentation promises.
pub record IsCipher (b : BlockCipher) : Type 0 where
  pub same_length : (key iv s : Bytes) → length (b.encrypt_blocks key iv s) ≡ length s
  pub decrypts :
      (key iv s : Bytes)
      → length s % block_size ≡ 0
      → b.decrypt_blocks key iv (b.encrypt_blocks key iv s) ≡ s

module _ (b : BlockCipher) where
  -- `NewCBCEncrypter` and `NewCBCDecrypter` panic unless the vector is one block.
  new_cbc : Bytes → Outcome (Unit {0})
  new_cbc iv = if length iv == block_size then done tt else panics

  -- `CryptBlocks` panics unless the text is whole blocks.
  whole_blocks : Bytes → Outcome (Unit {0})
  whole_blocks s = if length s % block_size == 0 then done tt else panics

  new_cipher : Bytes → Outcome (Unit {0})
  new_cipher key = if b.valid_key key then done tt else failed

  -- `EncryptAES`
  unfoldable pub encrypt_aes : Bytes → Bytes → Outcome Bytes
  unfolding new_cbc whole_blocks new_cipher
  encrypt_aes src key = do
    _ ← new_cipher key
    let padded = padding src block_size
    _ ← new_cbc key
    _ ← whole_blocks padded
    done (b.encrypt_blocks key key padded)

  -- `DecryptAES`
  unfoldable pub decrypt_aes : Bytes → Bytes → Outcome Bytes
  unfolding new_cbc whole_blocks new_cipher
  decrypt_aes src key = do
    _ ← new_cipher key
    _ ← new_cbc key
    _ ← whole_blocks src
    unpadding (b.decrypt_blocks key key src)
