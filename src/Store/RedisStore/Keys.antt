-- ===== src/Store/RedisStore/Keys.antt =====
-- The names of the keys in Redis: `transactionKey` of internal/store/redis_transaction_store.go.
use text.Mathlib.TextLemmas.{append_cancel_left}
use poselink_api_middleware.Common.{◌<>◌, ◌≡◌, ◌≢◌, String, false, str_eq}
use poselink_api_middleware.Common.Texts.{eq-false_of_ne}

-- "transaction:%s"
unfoldable pub transaction_key : String → String
transaction_key trx_id = "transaction:" <> trx_id

pub transaction_key_injective : (i j : String) → transaction_key i ≡ transaction_key j → i ≡ j
unfolding transaction_key
transaction_key_injective i j e = append_cancel_left "transaction:" i j e

pub transaction_key_ne :
    (i j : String) → i ≢ j → str_eq (transaction_key i) (transaction_key j) ≡ false
transaction_key_ne i j h = eq-false_of_ne _ _ (λ e. h (transaction_key_injective i j e))
