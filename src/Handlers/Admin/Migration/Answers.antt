-- ===== src/Handlers/Admin/Migration/Answers.antt =====
-- The migration answers.
use poselink_api_middleware.Common.{String, List, Bool, Result}
use poselink_api_middleware.Handlers.Admin.{AdminHandler}
use poselink_api_middleware.Http.{ResponseWriter}
use poselink_api_middleware.Http.Answers.{IsJson, write_json_response-IsJson}
use poselink_api_middleware.Handlers.Admin.Migration.{migrate_mapping}

pub migrate_mapping-IsJson :
    {W : Type 0} (h : AdminHandler W) (w : W) (out : ResponseWriter) (body : Result String Bool)
    (mappings : List (String × String))
    → IsJson out (migrate_mapping h w out body mappings).1
unfolding migrate_mapping
migrate_mapping-IsJson h w out body mappings = write_json_response-IsJson _ _ out
