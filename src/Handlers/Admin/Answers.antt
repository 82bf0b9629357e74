-- ===== src/Handlers/Admin/Answers.antt =====
-- The handlers of the mappings answer.
use poselink_api_middleware.Common.{String, Result, ok, err, Done, str_eq, inl, inr, Bool-cases}
use poselink_api_middleware.Http.{ResponseWriter}
use poselink_api_middleware.Http.Answers.{
  IsJson, write_error_response-IsJson, write_json_response-IsJson,
}
use poselink_api_middleware.Handlers.Admin.{
  AdminHandler, MappingRequest, create_or_update_mapping, delete_mapping_request, done_or,
}

module _ {W : Type 0} (h : AdminHandler W) where
  done_or-IsJson :
      (failure message : String) (r : W × Done) (out : ResponseWriter)
      → IsJson out (done_or h failure message r out).1
  unfolding done_or
  done_or-IsJson failure message (w, err e) out = write_error_response-IsJson _ _ out
  done_or-IsJson failure message (w, ok done) out = write_json_response-IsJson _ _ out

  pub create_or_update_mapping-IsJson :
      (w : W) (out : ResponseWriter) (body : Result String MappingRequest)
      → IsJson out (create_or_update_mapping h w out body).1
  unfolding create_or_update_mapping
  create_or_update_mapping-IsJson w out (err e) = write_error_response-IsJson _ _ out
  create_or_update_mapping-IsJson w out (ok req) = elim (Bool-cases (str_eq req.mid "")) [
    | inl e ↦ rw e (write_error_response-IsJson _ _ out)
    | inr e ↦ elim (Bool-cases (str_eq req.tid "")) [
      | inl e' ↦ rw (e, e') (write_error_response-IsJson _ _ out)
      | inr e' ↦ elim (Bool-cases (str_eq req.serial_number "")) [
        | inl e'' ↦ rw (e, e', e'') (write_error_response-IsJson _ _ out)
        | inr e'' ↦ rw (e, e', e'') (done_or-IsJson _ _ _ out)
      ]
    ]
  ]

  pub delete_mapping_request-IsJson :
      (w : W) (out : ResponseWriter) (mid tid : String)
      → IsJson out (delete_mapping_request h w out mid tid).1
  unfolding delete_mapping_request
  delete_mapping_request-IsJson w out mid tid = elim (Bool-cases (str_eq mid "")) [
    | inl e ↦ rw e (write_error_response-IsJson _ _ out)
    | inr e ↦ elim (Bool-cases (str_eq tid "")) [
      | inl e' ↦ rw (e, e') (write_error_response-IsJson _ _ out)
      | inr e' ↦ rw (e, e') (done_or-IsJson _ _ _ out)
    ]
  ]
