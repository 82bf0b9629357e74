-- ===== src/Store/Stamp.antt =====
-- The timestamps that `Store` sets on a transaction, the same lines in both stores.
use poselink_api_middleware.Common.{ℕ, ◌==◌, if◌then◌else◌}
use poselink_api_middleware.Models.{Transaction}

-- `created_at` is set if it is the zero time, then `updated_at` if it is.
unfoldable pub stamp : ℕ → Transaction → Transaction
stamp now tx =
    let created : ℕ = if tx.created_at == 0 then now else tx.created_at in
    record tx {
      created_at = created;
      updated_at = if tx.updated_at == 0 then created else tx.updated_at;
    }
