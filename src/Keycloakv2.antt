-- ===== src/Keycloakv2.antt =====
-- pkg/client/keycloakv2/error.go and http.go: what an error of the Keycloak client stands for,
-- and the ID of a new resource.
pub mod Responses
use Prim.Native.Char.{code}
use keycloak_config_sync_ope.Base.{
  ℕ, Bool, true, false, ◌&&◌, Option, none, some, List, [], ◌∷◌, String, ltb, leb, nat_eq,
  if◌then◌else◌, ◌==◌, Err, wrapf,
}
use keycloak_config_sync_ope.Base.{Sentinel, errors_is, api}
use keycloak_config_sync_ope.Secretref.{split}

-- `errors.As(err, &apiErr)`: the status code of the first ApiError of the chain.
unfoldable pub api_code : Err → Option ℕ
api_code (api code message) = some code
api_code (wrapf f args e) = api_code e
api_code _ = none

abbrev code_is : (ℕ → Bool) → Option ℕ → Bool
code_is test none = false
code_is test (some code) = test code

unfoldable pub is_not_found : Err → Bool
unfolding errors_is api_code
is_not_found e =
    if errors_is Sentinel.not_found e then true else code_is (λ code. nat_eq code 404) (api_code e)

unfoldable pub is_conflict : Err → Bool
unfolding api_code
is_conflict e = code_is (λ code. nat_eq code 409) (api_code e)

unfoldable pub is_client_error : Err → Bool
unfolding api_code
is_client_error e = code_is (λ code. leb 400 code && ltb code 500) (api_code e)

unfoldable pub is_server_error : Err → Bool
unfolding api_code
is_server_error e = code_is (λ code. leb 500 code) (api_code e)

-- What `net/url` answers: the escaped path of a parsed URL, and an unescaped segment.
pub record Urls : Type 0 where
  pub escaped_path : String → Option String
  pub path_unescape : String → Option String

-- `strings.TrimRight(s, "/")`
unfoldable pub trim_slashes : String → String
trim_slashes String.[] = ""
trim_slashes (String.◌∷◌ c s) =
    let rest = trim_slashes s in
    if nat_eq (code c) b'/' && rest == "" then "" else String.◌∷◌ c rest

-- `parts[len(parts)-1]`
unfoldable pub last_part : List String → String
last_part [] = ""
last_part (p ∷ []) = p
last_part (p ∷ q ∷ ps) = last_part (q ∷ ps)

abbrev decoded : String → Option String → String
decoded segment none = segment
decoded segment (some s) = s

segment_id : Urls → String → String
segment_id urls segment = if segment == "" then "" else decoded segment (urls.path_unescape segment)

path_id : Urls → Option String → String
unfolding segment_id last_part trim_slashes split
path_id urls none = ""
path_id urls (some path) = segment_id urls (last_part (split b'/' (trim_slashes path)))

-- `GetResourceIDFromResponse`: the argument is the Location header, none for a nil response.
unfoldable pub resource_id : Urls → Option String → String
unfolding path_id
resource_id urls none = ""
resource_id urls (some location) =
    if location == "" then "" else path_id urls (urls.escaped_path location)
