-- ===== src/Handlers/Admin/Ttl.antt =====
-- `GetTransactionTTL` and `ExtendTransactionTTL` of internal/handlers/admin.go.
pub mod Laws
pub mod Answers
pub mod Paths
use poselink_api_middleware.Common.{
  ℕ, ◌<>◌, String, Option, none, some, Bool, true, false, not, List, [], ◌∷◌, Result, ok, err,
  str_eq, ltb, ◌==◌, if◌then◌else◌,
}
use poselink_api_middleware.Common.Int.{ℤ, pos, negsuc, leb_ℤ}
use poselink_api_middleware.Common.Durations.{in_seconds, whole_seconds}
use poselink_api_middleware.Common.Lists.{length, get_elem?}
use poselink_api_middleware.Common.Decimal.{split}
use poselink_api_middleware.Redis.{Redis, RedisError}
use poselink_api_middleware.Store.RedisStore.Keys.{transaction_key}
use poselink_api_middleware.Http.{
  ResponseWriter, text, number, flag, object, write_error_response, write_json_response,
}

-- `pathParts[5]`, if the path has so many parts.
unfoldable pub path_trx_id : String → Option String
unfolding split
path_trx_id path = get_elem? (split b'/' path) 5

-- `ttl == -2`: the key does not exist.
abbrev pub is_missing : ℤ → Bool
is_missing (pos n) = false
is_missing (negsuc n) = n == 1

abbrev pub is_positive : ℤ → Bool
is_positive n = not (leb_ℤ n (pos 0))

module _ {W : Type 0} (client : Redis W) where
  show_ttl : String → Result RedisError ℤ → ResponseWriter → ResponseWriter
  show_ttl trx_id (err e) out = write_error_response 500 "failed to get TTL" out
  show_ttl trx_id (ok ttl) out =
      if is_missing ttl
      then write_error_response 404 "transaction not found" out
      else write_json_response 200
          (object (
            ("trx_id", text trx_id)
            ∷ (("ttl_seconds", number (whole_seconds ttl))
                ∷ (("has_expiration", flag (is_positive ttl)) ∷ []))))
          out

  unfoldable pub get_transaction_ttl : W → ResponseWriter → String → ResponseWriter
  unfolding show_ttl
  get_transaction_ttl w out path = elim (path_trx_id path) [
    | none ↦ write_error_response 400 "invalid URL path" out
    | some trx_id ↦
        if str_eq trx_id ""
        then write_error_response 400 "trx_id is required" out
        else show_ttl trx_id (client.ttl w (transaction_key trx_id)) out
  ]

  confirm : String → ℤ → W → Result RedisError ℤ → ResponseWriter → W × ResponseWriter
  confirm trx_id duration w (err e) out = (w, write_error_response 500 "failed to get new TTL" out)
  confirm trx_id duration w (ok new_ttl) out = (
    w,
    write_json_response 200
        (object (
          ("message", text "TTL extended successfully")
          ∷ (("trx_id", text trx_id)
              ∷ (("new_ttl_seconds", number (whole_seconds new_ttl))
                  ∷ (("extended_by", number duration) ∷ [])))))
        out,
  )

  expired : String → ℤ → W × Option RedisError → ResponseWriter → W × ResponseWriter
  expired trx_id duration (w, some e) out = (w, write_error_response 500 "failed to extend TTL" out)
  expired trx_id duration (w, none) out =
      confirm trx_id duration w (client.ttl w (transaction_key trx_id)) out

  extend : String → ℤ → W → ResponseWriter → W × ResponseWriter
  extend trx_id duration w out = elim (client.exists w (transaction_key trx_id)) [
    | err e ↦ (w, write_error_response 500 "failed to check transaction existence" out)
    | ok exists ↦
        if exists == 0
        then (w, write_error_response 404 "transaction not found" out)
        else expired trx_id duration
            (client.expire w (transaction_key trx_id) (in_seconds duration)) out
  ]

  requested : String → W → ResponseWriter → Result String ℤ → W × ResponseWriter
  requested trx_id w out (err e) = (w, write_error_response 400 "invalid JSON request body" out)
  requested trx_id w out (ok duration) =
      if leb_ℤ duration (pos 0)
      then (w, write_error_response 400 "duration_seconds must be positive" out)
      else extend trx_id duration w out

  -- The last argument is the result of decoding the request's body: its field `duration_seconds`.
  unfoldable pub extend_transaction_ttl :
      W → ResponseWriter → String → Result String ℤ → W × ResponseWriter
  unfolding requested extend expired confirm
  extend_transaction_ttl w out path body = elim (path_trx_id path) [
    | none ↦ (w, write_error_response 400 "invalid URL path" out)
    | some trx_id ↦
        if str_eq trx_id ""
        then (w, write_error_response 400 "trx_id is required" out)
        else requested trx_id w out body
  ]
