-- ===== src/Config/Atoi.antt =====
-- `strconv.Atoi`, as internal/config/config.go uses it.
use Prim.Native.Char.{code}
use Prim.Native.String.{String, [], ◌∷◌}
use poselink_api_middleware.Common.{
  ℕ, zero, suc, ◌+◌, ◌-◌, ◌*◌, ◌^◌, ◌≤◌, ◌<◌, ◌≡◌, ◌&&◌, Result, ok, err, arith, ltb, leb, ◌==◌,
  Bool-cases, inl, inr, if◌then◌else◌,
}
use poselink_api_middleware.Common.Int.{ℤ, pos, negsuc, pos_part, neg_part}

-- `strconv.ErrSyntax` and `strconv.ErrRange`.
pub data NumError : Type 0 where
  syntax_error range_error : NumError

-- The loop of `ParseUint`: a character that is no digit is a syntax error, a number above 64 bits is out of
-- range as soon as it is reached.
parse_uint : ℕ → String → Result NumError ℕ
parse_uint n [] = ok n
parse_uint n (c ∷ s) =
    let next : ℕ = n * 10 + (code c - 48) in
    let more = parse_uint next s in
    if leb 48 (code c) && leb (code c) 57
    then if ltb next (2 ^ 64) then more else err range_error
    else err syntax_error

-- The number behind the sign, which may not be empty.
abbrev magnitude : String → Result NumError ℕ
magnitude [] = err syntax_error
magnitude (c ∷ s) = parse_uint 0 (c ∷ s)

abbrev non_negative : Result NumError ℕ → Result NumError ℤ
non_negative (err e) = err e
non_negative (ok n) = if ltb n (2 ^ 63) then ok (pos n) else err range_error

-- -n, down to -2^63.
abbrev minus : ℕ → ℤ
minus zero = pos 0
minus (suc n) = negsuc n

abbrev negated : Result NumError ℕ → Result NumError ℤ
negated (err e) = err e
negated (ok n) = if leb n (2 ^ 63) then ok (minus n) else err range_error

unfoldable pub atoi : String → Result NumError ℤ
unfolding parse_uint
atoi [] = err syntax_error
atoi (c ∷ s) =
    if code c == b'-'
    then negated (magnitude s)
    else if code c == b'+'
    then non_negative (magnitude s)
    else non_negative (magnitude (c ∷ s))

abbrev Fits : ℤ → Type 0
Fits n = (pos_part n < 2 ^ 63) × (neg_part n ≤ 2 ^ 63)

non_negative-Fits : (r : Result NumError ℕ) (n : ℤ) → non_negative r ≡ ok n → Fits n
non_negative-Fits (err e) n h = absurd (cc)
non_negative-Fits (ok m) n h = ground arith

negated-Fits : (r : Result NumError ℕ) (n : ℤ) → negated r ≡ ok n → Fits n
negated-Fits (err e) n h = absurd (cc)
negated-Fits (ok zero) n h = ground arith
negated-Fits (ok (suc m)) n h = ground arith

-- A parsed number fits in 64 bits.
pub atoi_bounds :
    (s : String) (n : ℤ) → atoi s ≡ ok n → (pos_part n < 2 ^ 63) × (neg_part n ≤ 2 ^ 63)
unfolding atoi
atoi_bounds [] n h = absurd (cc)
atoi_bounds (c ∷ s) n h = elim (Bool-cases (code c == b'-')) [
  | inl e ↦ negated-Fits (magnitude s) n (rw e at h)
  | inr e ↦ elim (Bool-cases (code c == b'+')) [
    | inl e' ↦ non_negative-Fits (magnitude s) n (rw (e, e') at h)
    | inr e' ↦ non_negative-Fits (magnitude (c ∷ s)) n (rw (e, e') at h)
  ]
]
