-- ===== src/Handlers/Admin/Ttl/Laws.antt =====
-- What extending a lifetime sends to Redis.
use poselink_api_middleware.Common.{
  ℕ, suc, ◌≤◌, ◌-◌, ◌*◌, ◌^◌, ◌≡◌, ◌≢◌, String, none, some, [], ◌∷◌, ok, arith,
}
use poselink_api_middleware.Common.Int.{ℤ, pos, negsuc}
use poselink_api_middleware.Common.Texts.{eq-false_of_ne}
use poselink_api_middleware.Common.Durations.{
  second, in_seconds, in_seconds_fits, in_seconds_wraps, whole_seconds,
}
use poselink_api_middleware.Redis.{Redis}
use poselink_api_middleware.Store.RedisStore.Keys.{transaction_key}
use poselink_api_middleware.Http.{ResponseWriter, text, number, object, write_json_response}
use poselink_api_middleware.Handlers.Admin.Ttl.{
  path_trx_id, extend_transaction_ttl, extend, expired, confirm,
}

-- The answer 200 with the lifetime that Redis reports.
abbrev pub extended : String → ℕ → ℤ → ResponseWriter → ResponseWriter
extended trx_id duration new_ttl out =
    write_json_response 200
      (object (
        ("message", text "TTL extended successfully")
        ∷ (("trx_id", text trx_id)
            ∷ (("new_ttl_seconds", number (whole_seconds new_ttl))
                ∷ (("extended_by", number (pos duration)) ∷ [])))))
      out

-- The transaction is there, Redis takes the lifetime `ns` for it and reports `new_ttl` afterwards.
pub record Takes {W : Type 0} (client : Redis W) (w : W) (trx_id : String) (ns new_ttl : ℤ)
    : Type 0 where
  pub count : ℕ
  pub found : client.exists w (transaction_key trx_id) ≡ ok (suc count)
  pub taken : (client.expire w (transaction_key trx_id) ns).1 ≡ none
  pub reported :
      client.ttl (client.expire w (transaction_key trx_id) ns).0 (transaction_key trx_id)
      ≡ ok new_ttl

module _ {W : Type 0} (client : Redis W) (w : W) (out : ResponseWriter) (path trx_id : String)
    (d : ℕ) where
  sent :
      (ns new_ttl : ℤ)
      → path_trx_id path ≡ some trx_id
      → trx_id ≢ ""
      → 1 ≤ d
      → in_seconds (pos d) ≡ ns
      → Takes client w trx_id ns new_ttl
      → extend_transaction_ttl client w out path (ok (pos d))
        ≡ ((client.expire w (transaction_key trx_id) ns).0, extended trx_id d new_ttl out)
  unfolding extend_transaction_ttl extend expired confirm
  sent ns new_ttl here nonempty positive same t =
      let found = t.found in
      let taken = t.taken in
      let reported = t.reported in let e = eq-false_of_ne _ _ nonempty in ground arith

  -- Where the transaction of the path exists and Redis takes its lifetime, a positive number of seconds up to
  -- 9223372036 is the lifetime that Redis takes, and the answer is 200 with what Redis reports.
  pub extend_transaction_ttl-Takes :
      (new_ttl : ℤ)
      → path_trx_id path ≡ some trx_id
      → trx_id ≢ ""
      → 1 ≤ d
      → d ≤ 9_223_372_036
      → Takes client w trx_id (pos (d * second)) new_ttl
      → extend_transaction_ttl client w out path (ok (pos d)) ≡ (
        (client.expire w (transaction_key trx_id) (pos (d * second))).0,
        extended trx_id d new_ttl out,
      )
  extend_transaction_ttl-Takes new_ttl here nonempty positive fits t =
      sent _ new_ttl here nonempty positive (in_seconds_fits d fits) t

  -- Where the transaction of the path exists and Redis takes its lifetime, from 9223372037 to 18446744073
  -- seconds the lifetime that Redis takes is negative, and the answer is still 200.
  pub extend_transaction_ttl-wraps :
      (new_ttl : ℤ)
      → path_trx_id path ≡ some trx_id
      → trx_id ≢ ""
      → 9_223_372_037 ≤ d
      → d ≤ 18_446_744_073
      → Takes client w trx_id (negsuc (2 ^ 64 - 1 - d * second)) new_ttl
      → extend_transaction_ttl client w out path (ok (pos d)) ≡ (
        (client.expire w (transaction_key trx_id) (negsuc (2 ^ 64 - 1 - d * second))).0,
        extended trx_id d new_ttl out,
      )
  extend_transaction_ttl-wraps new_ttl here nonempty low high t =
      sent _ new_ttl here nonempty (omega arith) (in_seconds_wraps d low high) t
