-- ===== src/Crypto/Padding/Laws.antt =====
-- Unpadding undoes padding.
use mathlib.Core.List.{append-nil}
use poselink_api_middleware.Common.{
  ℕ, zero, suc, ◌+◌, ◌-◌, ◌%◌, ◌≤◌, ◌<◌, ◌≡◌, refl, ap, sym, ◌∙◌, some, true, List, [], ◌∷◌, ◌++◌,
  ok, arith,
}
use poselink_api_middleware.Common.Lists.{
  length, get_elem?, take, replicate, length-append, length-replicate, All-append,
}
use poselink_api_middleware.Crypto.Bytes.{IsByte, AreBytes}
use poselink_api_middleware.Crypto.Padding.{block_size, pkcs5_pad, pkcs5_unpad, verify, check}

get_elem?-append_right :
    {A : Type 0} (xs ys : List A) (i j : ℕ)
    → j ≡ length xs + i
    → get_elem? (xs ++ ys) j ≡ get_elem? ys i
get_elem?-append_right [] ys i j e = ap (get_elem? ys) (omega arith)
get_elem?-append_right (x ∷ xs) ys i zero e = absurd (omega arith)
get_elem?-append_right (x ∷ xs) ys i (suc j) e = get_elem?-append_right xs ys i j (omega arith)

get_elem?-replicate : (n a i : ℕ) → i < n → get_elem? (replicate n a) i ≡ some a
get_elem?-replicate zero a i h = absurd (omega arith)
get_elem?-replicate (suc n) a zero h = refl
get_elem?-replicate (suc n) a (suc i) h = get_elem?-replicate n a i (omega arith)

take-append : {A : Type 0} (xs ys : List A) (n : ℕ) → n ≡ length xs → take n (xs ++ ys) ≡ xs
take-append [] ys zero e = refl
take-append [] ys (suc n) e = absurd (omega arith)
take-append (x ∷ xs) ys zero e = absurd (omega arith)
take-append (x ∷ xs) ys (suc n) e = ap (λ zs. x ∷ zs) (take-append xs ys n (omega arith))

length-padded : (xs : List ℕ) (n a : ℕ) → length (xs ++ replicate n a) ≡ length xs + n
length-padded xs n a = omega (arith, length-append xs (replicate n a), length-replicate n a)

-- The last bytes of a padded list, counted from its end.
get_elem?-padded :
    (xs : List ℕ) (n a i : ℕ)
    → i < n
    → get_elem? (xs ++ replicate n a) (length (xs ++ replicate n a) - 1 - i) ≡ some a
get_elem?-padded xs n a i h =
    get_elem?-append_right xs (replicate n a) (n - 1 - i) _ (omega (arith, length-padded xs n a))
    ∙ get_elem?-replicate n a (n - 1 - i) (omega arith)

-- The padding bytes pass the test, from any index on.
verify-replicate :
    (left i : ℕ) (xs : List ℕ) (n : ℕ)
    → i + left ≤ n
    → n < 256
    → verify left i (xs ++ replicate n n) n ≡ true
unfolding verify
verify-replicate zero i xs n h b = refl
verify-replicate (suc left) i xs n h b =
    rw (get_elem?-padded xs n n i (omega arith))
      (ground (arith, verify-replicate left (i + 1) xs n))

-- Any list is what is left of it once it is padded by up to a block of bytes that hold their number.
unpad-replicate :
    (xs : List ℕ) (n : ℕ) → 0 < n → n ≤ block_size → pkcs5_unpad (xs ++ replicate n n) ≡ ok xs
unfolding pkcs5_unpad
unpad-replicate xs n pos small =
    rw (get_last, pkcs5_unpad, check)
      (ground (
        arith,
        length-padded xs n n,
        verify-replicate n 0 xs n,
        take-append xs (replicate n n) (length (xs ++ replicate n n) - n),
      ))
  where
    get_last : get_elem? (xs ++ replicate n n) (length (xs ++ replicate n n) - 1) ≡ some n
    get_last = ap (get_elem? (xs ++ replicate n n)) (omega arith) ∙ get_elem?-padded xs n n 0 pos

-- Unpadding undoes padding, for every list of bytes.
pub pkcs5_unpad-pkcs5_pad : (bytes : List ℕ) → pkcs5_unpad (pkcs5_pad bytes block_size) ≡ ok bytes
unfolding pkcs5_pad
pkcs5_unpad-pkcs5_pad bytes =
    let n : ℕ = block_size - length bytes % block_size in
    let same : n % 256 ≡ n = omega arith in
    rw same (unpad-replicate bytes n (omega arith) (omega arith))

-- Padding fills the last block: the length becomes a multiple of the block's size, and grows by at least one
-- byte and at most a block.
pub length-pkcs5_pad :
    (bytes : List ℕ)
    → (length (pkcs5_pad bytes block_size) % block_size ≡ 0)
      × (length bytes < length (pkcs5_pad bytes block_size))
      × (length (pkcs5_pad bytes block_size) ≤ length bytes + block_size)
unfolding pkcs5_pad
length-pkcs5_pad bytes =
    let n : ℕ = block_size - length bytes % block_size in
    let L = length-padded bytes n (n % 256) in
    (omega (arith, L), omega (arith, L), omega (arith, L))

take-length : (xs : List ℕ) (n : ℕ) → n ≡ length xs → take n xs ≡ xs
take-length xs n e = ap (take n) (sym (append-nil xs)) ∙ take-append xs [] n e

-- A last byte of 0, which is never padding, passes for one, and nothing is taken off.
pub pkcs5_unpad-zero : (bytes : List ℕ) → pkcs5_unpad (bytes ++ 0 ∷ []) ≡ ok (bytes ++ 0 ∷ [])
unfolding pkcs5_unpad verify
pkcs5_unpad-zero bytes =
    let L = length-append bytes (0 ∷ []) in
    rw
      (
        get_elem?-append_right bytes (0 ∷ []) 0 (length (bytes ++ 0 ∷ []) - 1) (omega (arith, L)),
        pkcs5_unpad,
        check,
      )
      (ground (arith, L, take-length (bytes ++ 0 ∷ []) (length (bytes ++ 0 ∷ []) - 0)))

replicate-AreBytes : (n b : ℕ) → b < 256 → AreBytes (replicate n b)
replicate-AreBytes zero b h = tt
replicate-AreBytes (suc n) b h = (h, replicate-AreBytes n b h)

pub pkcs5_pad-AreBytes : (bytes : List ℕ) → AreBytes bytes → AreBytes (pkcs5_pad bytes block_size)
unfolding pkcs5_pad
pkcs5_pad-AreBytes bytes h =
    All-append IsByte bytes _ h
      (replicate-AreBytes _ ((block_size - length bytes % block_size) % 256) (omega arith))
