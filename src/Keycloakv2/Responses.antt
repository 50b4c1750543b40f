-- ===== src/Keycloakv2/Responses.antt =====
-- parseKeycloakError and checkResponseError of pkg/client/keycloakv2/error.go: when an answer of
-- Keycloak is an error, and which.
use keycloak_config_sync_ope.Base.{
  ℕ, ◌≤◌, ◌<◌, ◌<>◌, ◌≡◌, ◌↔◌, ◌⊎◌, true, ◌&&◌, Option, none, some, arith, String, ltb, leb, nat_eq,
  if◌then◌else◌, ◌==◌, Err, Result, ok, err,
}
use keycloak_config_sync_ope.Base.{api}
use keycloak_config_sync_ope.Keycloakv2.{
  is_not_found, is_conflict, is_client_error, is_server_error,
}

-- What `encoding/json` and `net/http` answer: the `errorMessage` of a body that is an
-- `ErrorRepresentation`, the `error` of a body that is an object with one, none where the body is
-- no such thing; the size of a body in bytes; and the text of a status code.
pub record Bodies : Type 0 where
  pub error_message : String → Option String
  pub simple_error : String → Option String
  pub size : String → ℕ
  pub status_text : ℕ → String

-- `json.Unmarshal(body, &simpleErr) == nil && simpleErr.Error != ""`
abbrev pub simple_message : Option String → Option String
simple_message none = none
simple_message (some s) = if s == "" then none else some s

abbrev pub fallback_message : Bodies → ℕ → String → String
fallback_message bodies code body =
    if ltb 0 (bodies.size body) && ltb (bodies.size body) 1024
    then bodies.status_text code <> (": " <> body)
    else bodies.status_text code

-- The three tiers.
choose_message : Bodies → ℕ → String → Option String → Option String → String
choose_message bodies code body (some s) _ = s
choose_message bodies code body none (some s) = s
choose_message bodies code body none none = fallback_message bodies code body

unfoldable pub parse_keycloak_error : Bodies → ℕ → String → Err
unfolding choose_message
parse_keycloak_error bodies code body = api code (
    choose_message bodies code body (bodies.error_message body)
      (simple_message (bodies.simple_error body)))

-- The status code of the response, or none for a nil response.
unfoldable pub check_response_error : Bodies → Option ℕ → String → Result (Unit {0})
unfolding parse_keycloak_error
check_response_error bodies none body = ok tt
check_response_error bodies (some code) body =
    if leb 200 code && ltb code 300 then ok tt else err (parse_keycloak_error bodies code body)

-- The tests of an error agree with the status code of the response.
abbrev pub IsClassified : ℕ → Result (Unit {0}) → Type 0
IsClassified code (ok _) = (200 ≤ code) × (code < 300)
IsClassified code (err e) =
    ((code < 200) ⊎ (300 ≤ code))
    × (is_not_found e ≡ nat_eq code 404)
    × (is_conflict e ≡ nat_eq code 409)
    × ((is_client_error e ≡ true) ↔ ((400 ≤ code) × (code < 500)))
    × ((is_server_error e ≡ true) ↔ (500 ≤ code))

-- Whatever the body, a response is accepted only with a status code from 200 to 299, and otherwise
-- is an error that is taken for a missing resource, a conflict, a fault of the client or one of the
-- server exactly if its code is 404, is 409, is from 400 to 499 or is at least 500.
pub check_response_error-IsClassified :
    (bodies : Bodies) (code : ℕ) (body : String)
    → IsClassified code (check_response_error bodies (some code) body)
unfolding check_response_error is_not_found is_conflict is_client_error is_server_error
check_response_error-IsClassified bodies code body = ground arith
