-- ===== src/Crypto/Bytes.antt =====
-- Bytes and their lists.
use poselink_api_middleware.Common.{ℕ, ◌<◌, List}
use poselink_api_middleware.Common.Lists.{All}

abbrev pub IsByte : ℕ → Type 0
IsByte b = b < 256

abbrev pub AreBytes : List ℕ → Type 0
AreBytes bs = All IsByte bs
