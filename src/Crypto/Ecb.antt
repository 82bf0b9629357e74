-- ===== src/Crypto/Ecb.antt =====
-- `DecryptAES128ECB`, `EncryptAES128ECB` and `deriveKeyFromSecret` of internal/crypto/aes.go. Texts are their
-- bytes. SHA-1 and the AES permutation of a block are parameters.
pub mod Laws
use poselink_api_middleware.Common.{
  ℕ, zero, suc, ◌+◌, ◌-◌, ◌/◌, ◌%◌, ◌<◌, ◌≤◌, ◌≡◌, String, Bool, true, false, ◌||◌, List, [], ◌∷◌,
  ◌++◌, Result, ok, err, ◌==◌, if◌then◌else◌,
}
use poselink_api_middleware.Common.Lists.{length, take, drop}
use poselink_api_middleware.Crypto.Bytes.{AreBytes}
use poselink_api_middleware.Crypto.Hex.{HexError, hex_encode, hex_decode}
use poselink_api_middleware.Crypto.Base64.{Base64Error, base64_encode, base64_decode}
use poselink_api_middleware.Crypto.Padding.{block_size, pkcs5_pad, pkcs5_unpad}

-- `sha1.Sum`, and the two directions of `cipher.Block` under a key.
pub record Primitives : Type 0 where
  pub sha1 : List ℕ → List ℕ
  pub encrypt_block : List ℕ → List ℕ → List ℕ
  pub decrypt_block : List ℕ → List ℕ → List ℕ

-- SHA-1 gives 20 bytes. Under a key of 16 bytes a block of 16 bytes is encrypted to one, and decrypting gives
-- it back.
pub record IsLawful (P : Primitives) : Type 0 where
  pub length-sha1 : (s : List ℕ) → length (P.sha1 s) ≡ 20
  pub sha1-AreBytes : (s : List ℕ) → AreBytes (P.sha1 s)
  pub length-encrypt_block :
      (k b : List ℕ)
      → length k ≡ 16
      → length b ≡ block_size
      → length (P.encrypt_block k b) ≡ block_size
  pub encrypt_block-AreBytes :
      (k b : List ℕ)
      → length k ≡ 16
      → length b ≡ block_size
      → AreBytes b
      → AreBytes (P.encrypt_block k b)
  pub decrypt_block-encrypt_block :
      (k b : List ℕ)
      → length k ≡ 16
      → length b ≡ block_size
      → AreBytes b
      → P.decrypt_block k (P.encrypt_block k b) ≡ b

-- Each constructor is one of the texts that wrap an error, with the error.
pub data CryptoError : Type 0 where
  failed_to_derive_key : HexError → CryptoError
  failed_to_decode_base64 : Base64Error → CryptoError
  failed_to_create_cipher : ℕ → CryptoError
  not_a_multiple_of_block_size : CryptoError
  failed_to_unpad : String → CryptoError

-- The loop over the blocks, each by itself; the argument is the number of rounds left.
unfoldable pub each_block : (List ℕ → List ℕ) → ℕ → List ℕ → List ℕ
each_block f zero bytes = []
each_block f (suc left) bytes =
    f (take block_size bytes) ++ each_block f left (drop block_size bytes)

module _ (P : Primitives) where
  -- `hashHex[:32]` of the 40 digits of a SHA-1 sum.
  unfoldable pub derive_key_from_secret : List ℕ → Result HexError (List ℕ)
  derive_key_from_secret secret = hex_decode (take 32 (hex_encode (P.sha1 secret)))

  -- The check of `aes.NewCipher`: false is a `KeySizeError`.
  abbrev pub is_key : List ℕ → Bool
  is_key key = length key == 16 || (length key == 24 || length key == 32)

  abbrev unpadded : Result String (List ℕ) → Result CryptoError (List ℕ)
  unpadded (err e) = err (failed_to_unpad e)
  unpadded (ok plaintext) = ok plaintext

  decrypt_bytes : List ℕ → List ℕ → Result CryptoError (List ℕ)
  decrypt_bytes key ciphertext =
      if is_key key
      then if length ciphertext % block_size == 0
        then unpadded (
            pkcs5_unpad
              (each_block (P.decrypt_block key) (length ciphertext / block_size) ciphertext))
        else err not_a_multiple_of_block_size
      else err (failed_to_create_cipher (length key))

  unfoldable pub decrypt_aes128_ecb : List ℕ → List ℕ → Result CryptoError (List ℕ)
  unfolding decrypt_bytes
  decrypt_aes128_ecb encrypted_data secret = elim (derive_key_from_secret secret) [
    | err e ↦ err (failed_to_derive_key e)
    | ok key ↦ elim (base64_decode encrypted_data) [
      | err e ↦ err (failed_to_decode_base64 e)
      | ok ciphertext ↦ decrypt_bytes key ciphertext
    ]
  ]

  encrypt_bytes : List ℕ → List ℕ → Result CryptoError (List ℕ)
  encrypt_bytes key plaintext =
      let padded = pkcs5_pad plaintext block_size in
      if is_key key
      then ok (base64_encode (each_block (P.encrypt_block key) (length padded / block_size) padded))
      else err (failed_to_create_cipher (length key))

  unfoldable pub encrypt_aes128_ecb : List ℕ → List ℕ → Result CryptoError (List ℕ)
  unfolding encrypt_bytes
  encrypt_aes128_ecb plaintext secret = elim (derive_key_from_secret secret) [
    | err e ↦ err (failed_to_derive_key e)
    | ok key ↦ encrypt_bytes key plaintext
  ]
