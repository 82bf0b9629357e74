-- ===== src/Crypto/Ecb/Laws.antt =====
-- Keys are the first 16 bytes of a SHA-1 sum, and decryption undoes encryption.
use poselink_api_middleware.Common.{
  ℕ, zero, suc, ◌+◌, ◌-◌, ◌*◌, ◌/◌, ◌%◌, ◌≡◌, refl, ap, sym, ◌∙◌, List, [], ◌∷◌, ◌++◌, ok, arith,
}
use poselink_api_middleware.Common.Lists.{
  length, take, drop, length-append, length-take, All-append, All-take,
}
use poselink_api_middleware.Crypto.Bytes.{IsByte, AreBytes}
use poselink_api_middleware.Crypto.Hex.{hex_char, hex_encode, hex_decode, hex_decode-hex_encode}
use poselink_api_middleware.Crypto.Base64.{base64_encode}
use poselink_api_middleware.Crypto.Base64.Laws.{base64_decode-base64_encode}
use poselink_api_middleware.Crypto.Padding.{block_size, pkcs5_pad}
use poselink_api_middleware.Crypto.Padding.Laws.{
  pkcs5_unpad-pkcs5_pad, length-pkcs5_pad, pkcs5_pad-AreBytes,
}
use poselink_api_middleware.Crypto.Ecb.{
  Primitives, IsLawful, each_block, derive_key_from_secret, decrypt_bytes, decrypt_aes128_ecb,
  encrypt_bytes, encrypt_aes128_ecb,
}

-- Two digits stand for each byte.
take-hex_encode :
    (n m : ℕ) (bs : List ℕ) → m ≡ n + n → take m (hex_encode bs) ≡ hex_encode (take n bs)
unfolding hex_encode
take-hex_encode zero zero bs e = refl
take-hex_encode zero (suc m) bs e = absurd (omega arith)
take-hex_encode (suc n) zero bs e = absurd (omega arith)
take-hex_encode (suc n) (suc zero) bs e = absurd (omega arith)
take-hex_encode (suc n) (suc (suc m)) [] e = refl
take-hex_encode (suc n) (suc (suc m)) (b ∷ bs) e =
    ap (λ ys. hex_char (b / 16) ∷ (hex_char (b % 16) ∷ ys)) (take-hex_encode n m bs (omega arith))

take-append : (xs ys : List ℕ) (n : ℕ) → n ≡ length xs → take n (xs ++ ys) ≡ xs
take-append [] ys zero e = refl
take-append [] ys (suc n) e = absurd (omega arith)
take-append (x ∷ xs) ys zero e = absurd (omega arith)
take-append (x ∷ xs) ys (suc n) e = ap (λ zs. x ∷ zs) (take-append xs ys n (omega arith))

drop-append : (xs ys : List ℕ) (n : ℕ) → n ≡ length xs → drop n (xs ++ ys) ≡ ys
drop-append [] ys zero e = refl
drop-append [] ys (suc n) e = absurd (omega arith)
drop-append (x ∷ xs) ys zero e = absurd (omega arith)
drop-append (x ∷ xs) ys (suc n) e = drop-append xs ys n (omega arith)

take-append-drop : (n : ℕ) (xs : List ℕ) → take n xs ++ drop n xs ≡ xs
take-append-drop zero xs = refl
take-append-drop (suc n) [] = refl
take-append-drop (suc n) (x ∷ xs) = ap (λ zs. x ∷ zs) (take-append-drop n xs)

length-drop : (n : ℕ) (xs : List ℕ) → length (drop n xs) ≡ length xs - n
length-drop zero xs = omega arith
length-drop (suc n) [] = omega arith
length-drop (suc n) (x ∷ xs) = omega (arith, length-drop n xs)

All-drop : (n : ℕ) (xs : List ℕ) → AreBytes xs → AreBytes (drop n xs)
All-drop zero xs h = h
All-drop (suc n) [] h = tt
All-drop (suc n) (x ∷ xs) (p, h) = All-drop n xs h

module _ (P : Primitives) (L : IsLawful P) where
  -- With a lawful SHA-1, the key is the first 16 bytes of the sum of the secret; deriving it never fails.
  pub derive_key_from_secret_lem :
      (secret : List ℕ) → derive_key_from_secret P secret ≡ ok (take 16 (P.sha1 secret))
  unfolding derive_key_from_secret
  derive_key_from_secret_lem secret =
      ap hex_decode (take-hex_encode 16 32 (P.sha1 secret) (omega arith))
      ∙ hex_decode-hex_encode (take 16 (P.sha1 secret))
          (All-take IsByte 16 (P.sha1 secret) (L.sha1-AreBytes secret))

  encrypt-keyed :
      (plaintext secret : List ℕ)
      → encrypt_aes128_ecb P plaintext secret ≡ encrypt_bytes P (take 16 (P.sha1 secret)) plaintext
  unfolding encrypt_aes128_ecb
  encrypt-keyed plaintext secret = ground (arith, derive_key_from_secret_lem secret)

  decrypt-keyed :
      (ciphertext secret : List ℕ)
      → AreBytes ciphertext
      → decrypt_aes128_ecb P (base64_encode ciphertext) secret
        ≡ decrypt_bytes P (take 16 (P.sha1 secret)) ciphertext
  unfolding decrypt_aes128_ecb
  decrypt-keyed ciphertext secret h =
      ground (arith, derive_key_from_secret_lem secret, base64_decode-base64_encode ciphertext h)

  module _ (key : List ℕ) (sized : length key ≡ 16) where
    -- The first block of a text that has one, encrypted.
    length-first :
        (n : ℕ) (bs : List ℕ)
        → length bs ≡ suc n * block_size
        → length (take block_size bs) ≡ block_size
    length-first n bs e = omega (arith, length-take block_size bs)

    length-encrypted_first :
        (n : ℕ) (bs : List ℕ)
        → length bs ≡ suc n * block_size
        → length (P.encrypt_block key (take block_size bs)) ≡ block_size
    length-encrypted_first n bs e = L.length-encrypt_block key _ sized (length-first n bs e)

    length-rest :
        (n : ℕ) (bs : List ℕ)
        → length bs ≡ suc n * block_size
        → length (drop block_size bs) ≡ n * block_size
    length-rest n bs e = omega (arith, length-drop block_size bs)

    length-each_block :
        (n : ℕ) (bs : List ℕ)
        → length bs ≡ n * block_size
        → length (each_block (P.encrypt_block key) n bs) ≡ n * block_size
    unfolding each_block
    length-each_block zero bs e = omega arith
    length-each_block (suc n) bs e = omega (
      arith,
      length-append (P.encrypt_block key (take block_size bs))
          (each_block (P.encrypt_block key) n (drop block_size bs)),
      length-encrypted_first n bs e,
      length-each_block n (drop block_size bs) (length-rest n bs e),
    )

    each_block-AreBytes :
        (n : ℕ) (bs : List ℕ)
        → length bs ≡ n * block_size
        → AreBytes bs
        → AreBytes (each_block (P.encrypt_block key) n bs)
    unfolding each_block
    each_block-AreBytes zero bs e h = tt
    each_block-AreBytes (suc n) bs e h =
        All-append IsByte _ _
          (L.encrypt_block-AreBytes key _ sized (length-first n bs e)
            (All-take IsByte block_size bs h))
          (each_block-AreBytes n (drop block_size bs) (length-rest n bs e)
            (All-drop block_size bs h))

    -- Decrypting the blocks undoes encrypting them.
    decrypt-encrypt_blocks :
        (n : ℕ) (bs : List ℕ)
        → length bs ≡ n * block_size
        → AreBytes bs
        → each_block (P.decrypt_block key) n (each_block (P.encrypt_block key) n bs) ≡ bs
    unfolding each_block
    decrypt-encrypt_blocks zero [] e h = refl
    decrypt-encrypt_blocks zero (b ∷ bs) e h = absurd (omega arith)
    decrypt-encrypt_blocks (suc n) bs e h =
        let first = P.encrypt_block key (take block_size bs) in
        let rest = each_block (P.encrypt_block key) n (drop block_size bs) in
        let full = length-encrypted_first n bs e in
        rw
          (
            take-append first rest block_size (sym full),
            drop-append first rest block_size (sym full),
            L.decrypt_block-encrypt_block key (take block_size bs) sized (length-first n bs e)
                (All-take IsByte block_size bs h),
            decrypt-encrypt_blocks n (drop block_size bs) (length-rest n bs e)
                (All-drop block_size bs h),
          )
          (take-append-drop block_size bs)

    decrypt_bytes-encrypt_bytes :
        (plaintext : List ℕ)
        → AreBytes plaintext
        → (ciphertext : List ℕ) × (encrypt_bytes P key plaintext ≡ ok (base64_encode ciphertext))
          × AreBytes ciphertext
          × (decrypt_bytes P key ciphertext ≡ ok plaintext)
    unfolding encrypt_bytes decrypt_bytes
    decrypt_bytes-encrypt_bytes plaintext h =
        let padded = pkcs5_pad plaintext block_size in
        let n : ℕ = length padded / block_size in
        let whole : length padded ≡ n * block_size =
          omega (arith, (length-pkcs5_pad plaintext).0) in
        let ciphertext = each_block (P.encrypt_block key) n padded in
        let size = length-each_block n padded whole in
        (
          ciphertext,
          ground arith,
          each_block-AreBytes n padded whole (pkcs5_pad-AreBytes plaintext h),
          ground (
            arith,
            size,
            decrypt-encrypt_blocks n padded whole (pkcs5_pad-AreBytes plaintext h),
            pkcs5_unpad-pkcs5_pad plaintext,
          ),
        )

  -- With a lawful cipher, decrypting undoes encrypting under the same secret, for every text of bytes; neither
  -- fails.
  pub decrypt-encrypt :
      (plaintext secret : List ℕ)
      → AreBytes plaintext
      → (encrypted : List ℕ) × (encrypt_aes128_ecb P plaintext secret ≡ ok encrypted)
        × (decrypt_aes128_ecb P encrypted secret ≡ ok plaintext)
  decrypt-encrypt plaintext secret h =
      let key = take 16 (P.sha1 secret) in
      let sized : length key ≡ 16 =
        omega (arith, length-take 16 (P.sha1 secret), L.length-sha1 secret) in
      let (ciphertext, made, bytes, back) = decrypt_bytes-encrypt_bytes key sized plaintext h in
      (
        base64_encode ciphertext,
        encrypt-keyed plaintext secret ∙ made,
        decrypt-keyed ciphertext secret bytes ∙ back,
      )
