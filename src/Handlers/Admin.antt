-- ===== src/Handlers/Admin.antt =====
-- internal/handlers/admin.go: the administration of mappings and of the lifetime of transactions.
pub mod Migration
pub mod Ttl
pub mod Answers
use poselink_api_middleware.Common.{
  String, Option, none, some, List, [], ◌∷◌, Result, ok, err, Done, str_eq, if◌then◌else◌,
}
use poselink_api_middleware.Redis.{Redis}
use poselink_api_middleware.Mapper.RedisMapper.{set_mapping, delete_mapping}
use poselink_api_middleware.Http.{
  ResponseWriter, text, object, write_error_response, write_json_response,
}

-- The struct, with what others do during a migration.
pub record AdminHandler (W : Type 0) : Type 0 where
  pub mapper : Redis W
  pub redis_client : Redis W
  pub before_get : String → W → W
  pub before_set : String → W → W

pub record MappingRequest : Type 0 where
  pub mid : String
  pub tid : String
  pub serial_number : String

module _ {W : Type 0} (h : AdminHandler W) where
  done_or : String → String → W × Done → ResponseWriter → W × ResponseWriter
  done_or failure message (w, err e) out = (w, write_error_response 500 failure out)
  done_or failure message (w, ok done) out =
      (w, write_json_response 200 (object (("message", text message) ∷ [])) out)

  -- The argument is the result of decoding the request's body.
  unfoldable pub create_or_update_mapping :
      W → ResponseWriter → Result String MappingRequest → W × ResponseWriter
  unfolding done_or
  create_or_update_mapping w out (err e) =
      (w, write_error_response 400 "invalid JSON request body" out)
  create_or_update_mapping w out (ok req) =
      if str_eq req.mid ""
      then (w, write_error_response 400 "mid is required" out)
      else if str_eq req.tid ""
      then (w, write_error_response 400 "tid is required" out)
      else if str_eq req.serial_number ""
      then (w, write_error_response 400 "serial_number is required" out)
      else done_or "failed to store mapping" "mapping created/updated successfully"
          (set_mapping h.mapper w req.mid req.tid req.serial_number) out

  -- The arguments are the query parameters `mid` and `tid`.
  unfoldable pub delete_mapping_request : W → ResponseWriter → String → String → W × ResponseWriter
  unfolding done_or
  delete_mapping_request w out mid tid =
      if str_eq mid ""
      then (w, write_error_response 400 "mid query parameter is required" out)
      else if str_eq tid ""
      then (w, write_error_response 400 "tid query parameter is required" out)
      else done_or "failed to delete mapping" "mapping deleted successfully"
          (delete_mapping h.mapper w mid tid) out
