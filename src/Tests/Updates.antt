-- ===== src/Tests/Updates.antt =====
-- Updates among clients that write all the time, or once.
use poselink_api_middleware.Common.{ℕ, ◌+◌, ◌≡◌, ◌≢◌, refl, sym, ◌∙◌, String, some, ok, err, arith}
use poselink_api_middleware.Common.Texts.{ne_of_eq-false}
use poselink_api_middleware.Models.{Transaction}
use poselink_api_middleware.Redis.Memory.{
  Server, memory, memory-IsLawful, memory-IsResponsive, down-memory, version-memory, quiet,
  quiet-IsFair, busy-IsFair,
}
use poselink_api_middleware.Store.Stamp.{stamp}
use poselink_api_middleware.Store.RedisStore.{
  RedisTransactionStore, new_redis_transaction_store, store, load, update,
}
use poselink_api_middleware.Store.RedisStore.Keys.{transaction_key}
use poselink_api_middleware.Store.RedisStore.Conflicts.{not_yet, once_more}
use poselink_api_middleware.Store.RedisStore.Succeeding.{update-Conflicts, update-Undisturbed}
use poselink_api_middleware.Tests.Codec.{text_codec}
use poselink_api_middleware.Tests.Samples.{sale, server, quiet_store, busy_store}

runs : Unit {0}
unfolding store load update memory text_codec transaction_key stamp
runs = tt

abbrev fail_sale : Transaction → Transaction
fail_sale tx = record tx { status = "FAILED" }

held : Server
unfolding runs
held = (store quiet_store server "T1" (some sale)).0

named : ◌≢◌ {A = String} "T1" ""
named = ne_of_eq-false "T1" "" refl

-- Another client writes before every EXEC.
abbrev restless : ℕ → Server → Server
restless i s = record s { writes = s.writes + 1 }

abbrev restless_store : RedisTransactionStore Server
restless_store = new_redis_transaction_store memory text_codec (λ s. s.time) quiet restless

update-Conflicts_example :
    update restless_store held "T1" (some fail_sale)
    ≡ (record held { writes = held.writes + 3 }, err "failed to update transaction after 3 retries")
unfolding runs held
update-Conflicts_example =
    update-Conflicts restless_store "T1" fail_sale held (record held { writes = held.writes + 3 })
      named (once_more (once_more (once_more not_yet refl) refl) refl)

-- The first attempt meets a conflict, the second does not.
update-Undisturbed_example : (update busy_store held "T1" (some fail_sale)).1 ≡ ok tt
unfolding runs held
update-Undisturbed_example =
    update-Undisturbed busy_store memory-IsLawful memory-IsResponsive quiet-IsFair busy-IsFair "T1"
      fail_sale held 1 _ named (omega arith) (once_more not_yet refl)
      (record {
        tx = _;
        text = _;
        up = down-memory _;
        up_watched = down-memory _;
        up_exec = down-memory _;
        untouched = version-memory _ _ ∙ sym (version-memory _ _);
        held = refl;
        encodes = refl;
      })
