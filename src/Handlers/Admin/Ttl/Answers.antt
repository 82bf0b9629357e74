-- ===== src/Handlers/Admin/Ttl/Answers.antt =====
-- The handlers of the lifetimes answer.
use poselink_api_middleware.Common.{
  String, Option, none, some, Result, ok, err, str_eq, ◌==◌, inl, inr, Bool-cases, Option-cases,
  Result-cases,
}
use poselink_api_middleware.Common.Int.{ℤ, pos, leb_ℤ}
use poselink_api_middleware.Redis.{Redis, RedisError}
use poselink_api_middleware.Store.RedisStore.Keys.{transaction_key}
use poselink_api_middleware.Http.{ResponseWriter}
use poselink_api_middleware.Http.Answers.{
  IsJson, write_error_response-IsJson, write_json_response-IsJson,
}
use poselink_api_middleware.Handlers.Admin.Ttl.{
  path_trx_id, is_missing, get_transaction_ttl, extend_transaction_ttl, show_ttl, confirm, expired,
  extend, requested,
}

module _ {W : Type 0} (client : Redis W) where
  show_ttl-IsJson :
      (trx_id : String) (reply : Result RedisError ℤ) (out : ResponseWriter)
      → IsJson out (show_ttl client trx_id reply out)
  unfolding show_ttl
  show_ttl-IsJson trx_id (err e) out = write_error_response-IsJson _ _ out
  show_ttl-IsJson trx_id (ok ttl) out = elim (Bool-cases (is_missing ttl)) [
    | inl e ↦ rw e (write_error_response-IsJson _ _ out)
    | inr e ↦ rw e (write_json_response-IsJson _ _ out)
  ]

  pub get_transaction_ttl-IsJson :
      (w : W) (out : ResponseWriter) (path : String)
      → IsJson out (get_transaction_ttl client w out path)
  unfolding get_transaction_ttl
  get_transaction_ttl-IsJson w out path = elim (Option-cases (path_trx_id path)) [
    | inl e ↦ rw (e, get_transaction_ttl) (write_error_response-IsJson _ _ out)
    | inr (trx_id, e) ↦ elim (Bool-cases (str_eq trx_id "")) [
      | inl e' ↦ rw (e, e', get_transaction_ttl) (write_error_response-IsJson _ _ out)
      | inr e' ↦
          rw (e, e', get_transaction_ttl)
            (show_ttl-IsJson trx_id (client.ttl w (transaction_key trx_id)) out)
    ]
  ]

  confirm-IsJson :
      (trx_id : String) (duration : ℤ) (w : W) (reply : Result RedisError ℤ) (out : ResponseWriter)
      → IsJson out (confirm client trx_id duration w reply out).1
  unfolding confirm
  confirm-IsJson trx_id duration w (err e) out = write_error_response-IsJson _ _ out
  confirm-IsJson trx_id duration w (ok new_ttl) out = write_json_response-IsJson _ _ out

  expired-IsJson :
      (trx_id : String) (duration : ℤ) (r : W × Option RedisError) (out : ResponseWriter)
      → IsJson out (expired client trx_id duration r out).1
  unfolding expired
  expired-IsJson trx_id duration (w, some e) out = write_error_response-IsJson _ _ out
  expired-IsJson trx_id duration (w, none) out = confirm-IsJson trx_id duration w _ out

  extend-IsJson :
      (trx_id : String) (duration : ℤ) (w : W) (out : ResponseWriter)
      → IsJson out (extend client trx_id duration w out).1
  unfolding extend
  extend-IsJson trx_id duration w out =
      elim (Result-cases (client.exists w (transaction_key trx_id))) [
        | inr (m, e) ↦ rw (e, extend) (write_error_response-IsJson _ _ out)
        | inl (exists, e) ↦ elim (Bool-cases (exists == 0)) [
          | inl e' ↦ rw (e, e', extend) (write_error_response-IsJson _ _ out)
          | inr e' ↦ rw (e, e', extend) (expired-IsJson trx_id duration _ out)
        ]
      ]

  requested-IsJson :
      (trx_id : String) (w : W) (out : ResponseWriter) (body : Result String ℤ)
      → IsJson out (requested client trx_id w out body).1
  unfolding requested
  requested-IsJson trx_id w out (err m) = write_error_response-IsJson _ _ out
  requested-IsJson trx_id w out (ok duration) = elim (Bool-cases (leb_ℤ duration (pos 0))) [
    | inl e ↦ rw e (write_error_response-IsJson _ _ out)
    | inr e ↦ rw e (extend-IsJson trx_id duration w out)
  ]

  pub extend_transaction_ttl-IsJson :
      (w : W) (out : ResponseWriter) (path : String) (body : Result String ℤ)
      → IsJson out (extend_transaction_ttl client w out path body).1
  unfolding extend_transaction_ttl
  extend_transaction_ttl-IsJson w out path body = elim (Option-cases (path_trx_id path)) [
    | inl e ↦ rw (e, extend_transaction_ttl) (write_error_response-IsJson _ _ out)
    | inr (trx_id, e) ↦ elim (Bool-cases (str_eq trx_id "")) [
      | inl e' ↦ rw (e, e', extend_transaction_ttl) (write_error_response-IsJson _ _ out)
      | inr e' ↦ rw (e, e', extend_transaction_ttl) (requested-IsJson trx_id w out body)
    ]
  ]
