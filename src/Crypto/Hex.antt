-- ===== src/Crypto/Hex.antt =====
-- `encoding/hex`, as `deriveKeyFromSecret` of internal/crypto/aes.go uses it, over the bytes of the texts.
use poselink_api_middleware.Common.{
  ℕ, ◌+◌, ◌-◌, ◌*◌, ◌/◌, ◌%◌, ◌<◌, ◌≡◌, refl, Option, none, some, ◌&&◌, List, [], ◌∷◌, Result, ok,
  err, arith, ltb, leb, if◌then◌else◌,
}
use poselink_api_middleware.Crypto.Bytes.{AreBytes}

-- `hex.ErrLength` and `hex.InvalidByteError`.
pub data HexError : Type 0 where
  odd_length : HexError
  invalid_byte : ℕ → HexError

-- '0' to '9' and 'a' to 'f'.
abbrev pub hex_char : ℕ → ℕ
hex_char d = if ltb d 10 then 48 + d else 87 + d

abbrev pub hex_value : ℕ → Option ℕ
hex_value c =
    if leb 48 c && leb c 57
    then some (c - 48)
    else if leb 97 c && leb c 102
    then some (c - 87)
    else if leb 65 c && leb c 70
    then some (c - 55)
    else none

-- `hex.EncodeToString`
unfoldable pub hex_encode : List ℕ → List ℕ
hex_encode [] = []
hex_encode (b ∷ bs) = hex_char (b / 16) ∷ (hex_char (b % 16) ∷ hex_encode bs)

abbrev both : ℕ → ℕ → Option ℕ → Option ℕ → Result HexError (List ℕ) → Result HexError (List ℕ)
both p q none b rest = err (invalid_byte p)
both p q (some a) none rest = err (invalid_byte q)
both p q (some a) (some b) (err e) = err e
both p q (some a) (some b) (ok bs) = ok ((a * 16 + b) ∷ bs)

abbrev alone : ℕ → Option ℕ → Result HexError (List ℕ)
alone p none = err (invalid_byte p)
alone p (some a) = err odd_length

-- `hex.DecodeString`
unfoldable pub hex_decode : List ℕ → Result HexError (List ℕ)
hex_decode [] = ok []
hex_decode (p ∷ []) = alone p (hex_value p)
hex_decode (p ∷ (q ∷ rest)) = both p q (hex_value p) (hex_value q) (hex_decode rest)

hex_value-hex_char : (d : ℕ) → d < 16 → hex_value (hex_char d) ≡ some d
hex_value-hex_char d h = ground arith

-- Decoding undoes encoding.
pub hex_decode-hex_encode : (bs : List ℕ) → AreBytes bs → hex_decode (hex_encode bs) ≡ ok bs
unfolding hex_decode hex_encode
hex_decode-hex_encode [] h = refl
hex_decode-hex_encode (b ∷ bs) (p, h) =
    rw
      (
        hex_value-hex_char (b / 16) (omega arith),
        hex_value-hex_char (b % 16) (omega arith),
        hex_decode-hex_encode bs h,
      )
      (ground arith)
