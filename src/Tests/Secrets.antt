-- ===== src/Tests/Secrets.antt =====
-- Encryption on concrete inputs.
use poselink_api_middleware.Common.{ℕ, ◌≡◌, refl, List, [], ◌∷◌, ok, arith}
use poselink_api_middleware.Crypto.Padding.{pkcs5_unpad}
use poselink_api_middleware.Crypto.Padding.Laws.{pkcs5_unpad-zero}
use poselink_api_middleware.Crypto.Ecb.{
  Primitives, IsLawful, derive_key_from_secret, decrypt_aes128_ecb, encrypt_aes128_ecb,
}
use poselink_api_middleware.Crypto.Ecb.Laws.{decrypt-encrypt, derive_key_from_secret_lem}

abbrev sum : List ℕ
sum = 1 ∷ 2 ∷ 3 ∷ 4 ∷ 5 ∷ 6 ∷ 7 ∷ 8 ∷ 9 ∷ 10 ∷ 11 ∷ 12 ∷ 13 ∷ 14 ∷ 15 ∷ 16 ∷ 17 ∷ 18 ∷ 19 ∷ 20 ∷ []

-- One sum for every text, and a cipher that changes nothing.
abbrev pub open_cipher : Primitives
open_cipher = record { sha1 = λ s. sum; encrypt_block = λ k b. b; decrypt_block = λ k b. b }

pub open_cipher-IsLawful : IsLawful open_cipher
open_cipher-IsLawful = record {
  length-sha1 = λ s. refl;
  sha1-AreBytes = λ s. omega arith;
  length-encrypt_block = λ k b sized whole. whole;
  encrypt_block-AreBytes = λ k b sized whole h. h;
  decrypt_block-encrypt_block = λ k b sized whole h. refl;
}

abbrev pub short : List ℕ
short = 80 ∷ 65 ∷ 73 ∷ 68 ∷ []

pkcs5_unpad-zero_example : pkcs5_unpad (80 ∷ 65 ∷ 0 ∷ []) ≡ ok (80 ∷ 65 ∷ 0 ∷ [])
pkcs5_unpad-zero_example = pkcs5_unpad-zero (80 ∷ 65 ∷ [])

derive_key_from_secret_lem_example :
    derive_key_from_secret open_cipher short
    ≡ ok (1 ∷ 2 ∷ 3 ∷ 4 ∷ 5 ∷ 6 ∷ 7 ∷ 8 ∷ 9 ∷ 10 ∷ 11 ∷ 12 ∷ 13 ∷ 14 ∷ 15 ∷ 16 ∷ [])
derive_key_from_secret_lem_example =
    derive_key_from_secret_lem open_cipher open_cipher-IsLawful short

decrypt-encrypt_example :
    (encrypted : List ℕ) × (encrypt_aes128_ecb open_cipher short (1 ∷ []) ≡ ok encrypted)
    × (decrypt_aes128_ecb open_cipher encrypted (1 ∷ []) ≡ ok short)
decrypt-encrypt_example =
    decrypt-encrypt open_cipher open_cipher-IsLawful short (1 ∷ []) (omega arith)
