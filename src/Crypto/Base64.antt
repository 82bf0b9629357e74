-- ===== src/Crypto/Base64.antt =====
-- `base64.StdEncoding`, as internal/crypto/aes.go uses it, over the bytes of the texts.
pub mod Laws
use poselink_api_middleware.Common.{
  ℕ, zero, suc, ◌+◌, ◌-◌, ◌*◌, ◌/◌, ◌%◌, ◌<◌, ◌≡◌, refl, sym, ◌∙◌, Option, none, some, Bool, true,
  false, ◌&&◌, ◌||◌, List, [], ◌∷◌, Result, ok, err, arith, ltb, leb, ◌==◌, if◌then◌else◌,
}
use poselink_api_middleware.Common.Lists.{All}
use poselink_api_middleware.Crypto.Bytes.{AreBytes}

-- `base64.CorruptInputError`; its offset is left out.
pub data Base64Error : Type 0 where
  corrupt_input : Base64Error

-- 'A' to 'Z', 'a' to 'z', '0' to '9', '+', '/'.
unfoldable pub base64_char : ℕ → ℕ
base64_char v =
    if ltb v 26
    then 65 + v
    else if ltb v 52
    then 71 + v
    else if ltb v 62
    then v - 4
    else if v == 62
    then b'+'
    else b'/'

unfoldable pub base64_value : ℕ → Option ℕ
base64_value c =
    if leb 65 c && leb c 90
    then some (c - 65)
    else if leb 97 c && leb c 122
    then some (c - 71)
    else if leb 48 c && leb c 57
    then some (c + 4)
    else if c == b'+'
    then some 62
    else if c == b'/'
    then some 63
    else none

-- `EncodeToString`: three bytes make four characters, and '=' fills the last group.
unfoldable pub base64_encode : List ℕ → List ℕ
base64_encode [] = []
base64_encode (a ∷ []) = base64_char (a / 4) ∷ (base64_char (a % 4 * 16) ∷ (b'=' ∷ (b'=' ∷ [])))
base64_encode (a ∷ (b ∷ [])) =
    base64_char (a / 4)
    ∷ (base64_char (a % 4 * 16 + b / 16) ∷ (base64_char (b % 16 * 4) ∷ (b'=' ∷ [])))
base64_encode (a ∷ (b ∷ (c ∷ rest))) =
    base64_char (a / 4)
    ∷ (base64_char (a % 4 * 16 + b / 16)
        ∷ (base64_char (b % 16 * 4 + c / 64) ∷ (base64_char (c % 64) ∷ base64_encode rest)))

abbrev one : Option ℕ → Option ℕ → Result Base64Error (List ℕ)
one (some v) (some w) = ok ((v * 4 + w / 16) ∷ [])
one _ _ = err corrupt_input

abbrev two : Option ℕ → Option ℕ → Option ℕ → Result Base64Error (List ℕ)
two (some v) (some w) (some x) = ok ((v * 4 + w / 16) ∷ ((w % 16 * 16 + x / 4) ∷ []))
two _ _ _ = err corrupt_input

abbrev three :
    Option ℕ
    → Option ℕ
    → Option ℕ
    → Option ℕ
    → Result Base64Error (List ℕ)
    → Result Base64Error (List ℕ)
three (some v) (some w) (some x) (some y) (ok rest) =
    ok ((v * 4 + w / 16) ∷ ((w % 16 * 16 + x / 4) ∷ ((x % 4 * 64 + y) ∷ rest)))
three _ _ _ _ _ = err corrupt_input

-- The last group, whose fourth character is '='.
abbrev last_group : ℕ → ℕ → ℕ → List ℕ → Result Base64Error (List ℕ)
last_group a b c [] =
    if c == b'='
    then one (base64_value a) (base64_value b)
    else two (base64_value a) (base64_value b) (base64_value c)
last_group a b c (_ ∷ _) = err corrupt_input

groups : List ℕ → Result Base64Error (List ℕ)
groups [] = ok []
groups (a ∷ (b ∷ (c ∷ (d ∷ rest)))) =
    let more = groups rest in
    if d == b'='
    then last_group a b c rest
    else three (base64_value a) (base64_value b) (base64_value c) (base64_value d) more
groups _ = err corrupt_input

-- Line ends are skipped wherever they stand.
unfoldable pub skip_newlines : List ℕ → List ℕ
skip_newlines [] = []
skip_newlines (c ∷ cs) = if c == 10 || c == 13 then skip_newlines cs else c ∷ skip_newlines cs

-- `DecodeString`
unfoldable pub base64_decode : List ℕ → Result Base64Error (List ℕ)
unfolding groups
base64_decode cs = groups (skip_newlines cs)
