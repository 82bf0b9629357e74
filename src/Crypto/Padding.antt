-- ===== src/Crypto/Padding.antt =====
-- `pkcs5Pad` and `pkcs5Unpad` of internal/crypto/aes.go.
pub mod Laws
use poselink_api_middleware.Common.{
  ℕ, zero, suc, ◌+◌, ◌-◌, ◌%◌, String, Option, none, some, Bool, true, false, ◌||◌, List, [], ◌∷◌,
  ◌++◌, Result, ok, err, ltb, ◌==◌, if◌then◌else◌,
}
use poselink_api_middleware.Common.Lists.{length, get_elem?, take, replicate}

-- `aes.BlockSize`
abbrev pub block_size : ℕ
block_size = 16

-- `byte(padding)` is `padding % 256`.
unfoldable pub pkcs5_pad : List ℕ → ℕ → List ℕ
pkcs5_pad bytes block =
    let padding : ℕ = block - length bytes % block in bytes ++ replicate padding (padding % 256)

-- `data[i] != b`, at an index in range; an index out of range would panic and is not reached.
abbrev pub differs : Option ℕ → ℕ → Bool
differs none b = true
differs (some a) b = if a == b then false else true

-- The loop that verifies the padding: the rounds left, and the index `i`. False is a wrong byte.
unfoldable pub verify : ℕ → ℕ → List ℕ → ℕ → Bool
verify zero i bytes padding = true
verify (suc left) i bytes padding =
    let rest = verify left (i + 1) bytes padding in
    if differs (get_elem? bytes (length bytes - 1 - i)) (padding % 256) then false else rest

check : List ℕ → ℕ → Result String (List ℕ)
check bytes padding =
    if ltb (length bytes) padding || ltb block_size padding
    then err "invalid padding"
    else if verify padding 0 bytes padding
    then ok (take (length bytes - padding) bytes)
    else err "invalid padding bytes"

unfoldable pub pkcs5_unpad : List ℕ → Result String (List ℕ)
unfolding check
pkcs5_unpad bytes =
    if length bytes == 0 then err "data is empty" else elim (get_elem? bytes (length bytes - 1)) [
      | none ↦ err "data is empty"
      | some padding ↦ check bytes padding
    ]
