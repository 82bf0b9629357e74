-- ===== src/Crypto/Base64/Laws.antt =====
-- Decoding base64 undoes encoding it.
use poselink_api_middleware.Common.{
  ℕ, ◌+◌, ◌*◌, ◌/◌, ◌%◌, ◌<◌, ◌≡◌, refl, ap, ◌∙◌, some, false, List, [], ◌∷◌, ok, arith, ◌==◌,
}
use poselink_api_middleware.Common.Lists.{All}
use poselink_api_middleware.Crypto.Bytes.{AreBytes}
use poselink_api_middleware.Crypto.Base64.{
  base64_char, base64_value, base64_encode, base64_decode, groups, skip_newlines,
}

base64_value-base64_char : (v : ℕ) → v < 64 → base64_value (base64_char v) ≡ some v
unfolding base64_value base64_char
base64_value-base64_char v h = ground arith

-- No line end stands in the text.
abbrev IsInLine : ℕ → Type 0
IsInLine c = ((c == 10) ≡ false) × ((c == 13) ≡ false)

base64_char-IsInLine : (v : ℕ) → v < 64 → IsInLine (base64_char v)
unfolding base64_char
base64_char-IsInLine v h = (ground arith, ground arith)

base64_char-ne-pad : (v : ℕ) → v < 64 → (base64_char v == b'=') ≡ false
unfolding base64_char
base64_char-ne-pad v h = ground arith

skip_newlines-eq_self : (cs : List ℕ) → All IsInLine cs → skip_newlines cs ≡ cs
unfolding skip_newlines
skip_newlines-eq_self [] h = refl
skip_newlines-eq_self (c ∷ cs) ((p, q), h) =
    rw (p, q) (ap (λ xs. c ∷ xs) (skip_newlines-eq_self cs h))

base64_encode-IsInLine : (bs : List ℕ) → AreBytes bs → All IsInLine (base64_encode bs)
unfolding base64_encode
base64_encode-IsInLine [] h = tt
base64_encode-IsInLine (a ∷ []) (p, h) = (
  base64_char-IsInLine (a / 4) (omega arith),
  (base64_char-IsInLine (a % 4 * 16) (omega arith), ((refl, refl), ((refl, refl), tt))),
)
base64_encode-IsInLine (a ∷ (b ∷ [])) (p, (q, h)) = (
  base64_char-IsInLine (a / 4) (omega arith),
  (
    base64_char-IsInLine (a % 4 * 16 + b / 16) (omega arith),
    (base64_char-IsInLine (b % 16 * 4) (omega arith), ((refl, refl), tt)),
  ),
)
base64_encode-IsInLine (a ∷ (b ∷ (c ∷ bs))) (p, (q, (r, h))) = (
  base64_char-IsInLine (a / 4) (omega arith),
  (
    base64_char-IsInLine (a % 4 * 16 + b / 16) (omega arith),
    (
      base64_char-IsInLine (b % 16 * 4 + c / 64) (omega arith),
      (base64_char-IsInLine (c % 64) (omega arith), base64_encode-IsInLine bs h),
    ),
  ),
)

-- The bytes that the digits of a group stand for.
join_first : (a b : ℕ) → b < 256 → a / 4 * 4 + (a % 4 * 16 + b / 16) / 16 ≡ a
join_first a b q = omega arith

join_second :
    (a b c : ℕ)
    → b < 256
    → c < 256
    → (a % 4 * 16 + b / 16) % 16 * 16 + (b % 16 * 4 + c / 64) / 4 ≡ b
join_second a b c q r = omega arith

join_third : (b c : ℕ) → c < 256 → (b % 16 * 4 + c / 64) % 4 * 64 + c % 64 ≡ c
join_third b c r = omega arith

groups-base64_encode : (bs : List ℕ) → AreBytes bs → groups (base64_encode bs) ≡ ok bs
unfolding groups base64_encode
groups-base64_encode [] h = refl
groups-base64_encode (a ∷ []) (p, h) =
    let same : a / 4 * 4 + a % 4 * 16 / 16 ≡ a = omega arith in
    rw (
      base64_value-base64_char (a / 4) (omega arith),
      base64_value-base64_char (a % 4 * 16) (omega arith),
      same,
    )
groups-base64_encode (a ∷ (b ∷ [])) (p, (q, h)) =
    let same : (a % 4 * 16 + b / 16) % 16 * 16 + b % 16 * 4 / 4 ≡ b = omega arith in
    rw (
      base64_char-ne-pad (b % 16 * 4) (omega arith),
      base64_value-base64_char (a / 4) (omega arith),
      base64_value-base64_char (a % 4 * 16 + b / 16) (omega arith),
      base64_value-base64_char (b % 16 * 4) (omega arith),
      join_first a b q,
      same,
    )
groups-base64_encode (a ∷ (b ∷ (c ∷ bs))) (p, (q, (r, h))) = rw (
  base64_char-ne-pad (c % 64) (omega arith),
  base64_value-base64_char (a / 4) (omega arith),
  base64_value-base64_char (a % 4 * 16 + b / 16) (omega arith),
  base64_value-base64_char (b % 16 * 4 + c / 64) (omega arith),
  base64_value-base64_char (c % 64) (omega arith),
  groups-base64_encode bs h,
  join_first a b q,
  join_second a b c q r,
  join_third b c r,
)

-- Decoding undoes encoding.
pub base64_decode-base64_encode :
    (bs : List ℕ) → AreBytes bs → base64_decode (base64_encode bs) ≡ ok bs
unfolding base64_decode
base64_decode-base64_encode bs h =
    ap groups (skip_newlines-eq_self (base64_encode bs) (base64_encode-IsInLine bs h))
    ∙ groups-base64_encode bs h
