-- ===== src/Http.antt =====
-- The `http.ResponseWriter` that the handlers write to, and the helpers that write JSON answers
-- (internal/handlers/errors.go, and the end of transaction.go). A body is kept as the value that is encoded.
pub mod Answers
use poselink_api_middleware.Common.{
  ℕ, String, Option, none, some, Bool, List, [], ◌∷◌, ◌++◌, str_eq, if◌then◌else◌,
}
use poselink_api_middleware.Common.Int.{ℤ}
use poselink_api_middleware.Models.{EdcResponse, StatusResponse, ErrorResponse}

-- A value in a `map[string]interface{}` or `map[string]string`.
pub data Value : Type 0 where
  text : String → Value
  number : ℤ → Value
  flag : Bool → Value
  texts : List String → Value

pub data Body : Type 0 where
  error_body : ErrorResponse → Body
  edc_body : EdcResponse → Body
  status_body : StatusResponse → Body
  object : List (String × Value) → Body

-- `status` is the status line, once it is sent.
pub record ResponseWriter : Type 0 where
  pub headers : List (String × String)
  pub status : Option ℕ
  pub bodies : List Body

abbrev pub new_writer : ResponseWriter
new_writer = record { headers = []; status = none; bodies = [] }

abbrev pub insert : String → String → List (String × String) → List (String × String)
insert k v [] = (k, v) ∷ []
insert k v ((j, u) ∷ m) = if str_eq k j then (k, v) ∷ m else (j, u) ∷ insert k v m

-- `Header().Set`: the headers go out with the status line, and later changes are lost.
unfoldable pub set_header : String → String → ResponseWriter → ResponseWriter
set_header k v out = elim out.status [
  | none ↦ record out { headers = insert k v out.headers }
  | some code ↦ out
]

-- `WriteHeader`: the first call wins.
unfoldable pub write_header : ℕ → ResponseWriter → ResponseWriter
write_header code out = elim out.status [
  | none ↦ record out { status = some code }
  | some sent ↦ out
]

-- `json.NewEncoder(w).Encode(body)`: a body sends the status 200 if none was sent.
unfoldable pub encode : Body → ResponseWriter → ResponseWriter
unfolding write_header
encode body out =
    let sent = write_header 200 out in record sent { bodies = sent.bodies ++ (body ∷ []) }

-- `writeJSONResponse` of transaction.go, and the same three lines in admin.go, hold.go and health.go.
unfoldable pub write_json_response : ℕ → Body → ResponseWriter → ResponseWriter
unfolding set_header write_header encode
write_json_response code body out =
    encode body (write_header code (set_header "Content-Type" "application/json" out))

-- `writeErrorResponse` of transaction.go and `WriteErrorResponse` of errors.go, which are the same.
unfoldable pub write_error_response : ℕ → String → ResponseWriter → ResponseWriter
unfolding write_json_response
write_error_response code message out =
    write_json_response code (error_body (record { error = message })) out
