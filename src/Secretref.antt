-- ===== src/Secretref.antt =====
-- pkg/secretref/secretref.go: references to keys of Kubernetes secrets in configuration values.
-- A reference is `$name:key`; a value that begins with `${` is Keycloak's own and stays.
pub mod References
pub mod Mapping
pub mod Repeat
pub mod Source
use Prim.Native.Char.{Char, code}
use keycloak_config_sync_ope.Base.{
  ℕ, zero, suc, ◌+◌, ◌-◌, ◌≤◌, ◌<◌, ◌<>◌, ◌≡◌, refl, sym, ap, ◌∙◌, ◌≢◌, ◌↔◌, ◌⊎◌, inl, inr, Bool,
  true, false, not, ◌&&◌, ◌||◌, Option, none, some, List, [], ◌∷◌, ◌++◌, map, arith, String, ltb,
  nat_eq, if◌then◌else◌, Bool-cases, Option-cases, ◌==◌, String_discrete, ==_refl, eq_of_==,
  contains, or_empty, length, get_elem?, select, All, Err, errorf, wrapf, sentinel, Result, ok, err,
  is_ok, Act, pure, fail, ◌>>=◌, ◌>>◌, wrap,
}
use keycloak_config_sync_ope.Base.Dict
use keycloak_config_sync_ope.Base.Dict.{Dict}

-- What the Kubernetes client answers to a read of a secret: its data, by namespace and name.
abbrev pub Secrets : Type 0
Secrets = String → String → Result (Dict String)

-- `strings.HasPrefix(val, "$")`
unfoldable pub has_secret_ref : String → Bool
has_secret_ref String.[] = false
has_secret_ref (String.◌∷◌ c s) = nat_eq (code c) b'$'

-- `strings.HasPrefix(refVal, "${")`
unfoldable pub has_keycloak_ref : String → Bool
has_keycloak_ref String.[] = false
has_keycloak_ref (String.◌∷◌ c String.[]) = false
has_keycloak_ref (String.◌∷◌ c (String.◌∷◌ d s)) = nat_eq (code c) b'$' && nat_eq (code d) b'{'

-- `refVal[1:]` of a text that begins with an ASCII character
unfoldable pub tail : String → String
tail String.[] = ""
tail (String.◌∷◌ c s) = s

extend : Char → List String → List String
extend c [] = []
extend c (p ∷ ps) = String.◌∷◌ c p ∷ ps

-- `strings.Split(s, sep)` at a separator of one ASCII character
unfoldable pub split : ℕ → String → List String
unfolding extend
split sep String.[] = "" ∷ []
split sep (String.◌∷◌ c s) =
    let rest = split sep s in if nat_eq (code c) sep then "" ∷ rest else extend c rest

unfoldable pub read_key : Secrets → String → String → String → Result String
read_key secrets ns name key = elim (secrets ns name) [
  | err e ↦ err (wrapf "failed to get secret %s: %w" (name ∷ []) e)
  | ok data' ↦ elim (Dict.lookup key data') [
    | none ↦ err (errorf "secret %s does not contain key %s" (name ∷ key ∷ []))
    | some value ↦ ok value
  ]
]

-- The test of the number of parts, and what follows it.
read_parts : Secrets → String → String → List String → Result String
unfolding read_key
read_parts secrets ns ref (name ∷ key ∷ []) = read_key secrets ns name key
read_parts secrets ns ref _ = err (
    errorf "invalid config secret  reference %s is not in format '$secretName:secretKey'"
      (ref ∷ []))

unfoldable pub get_secret_from_ref : Secrets → String → String → Result String
unfolding read_parts has_secret_ref has_keycloak_ref split tail
get_secret_from_ref secrets ref ns =
    if not (has_secret_ref ref)
    then err (
        errorf "invalid config secret reference %s is not in format '$secretName:secretKey'"
          (ref ∷ []))
    else if has_keycloak_ref ref
    then ok ref
    else read_parts secrets ns ref (split b':' (tail ref))

unfoldable pub generate_secret_ref : String → String → String
generate_secret_ref name field = "$" <> (name <> (":" <> field))

-- The loop of `MapConfigSecretsRefs` over the entries that are left, in the order in which Go
-- visits the map: the error that stops it, if any, and the entries afterwards.
unfoldable pub map_config_secrets_refs :
    Secrets → String → Dict String → Result (Unit {0}) × Dict String
unfolding get_secret_from_ref
map_config_secrets_refs secrets ns [] = (ok tt, [])
map_config_secrets_refs secrets ns ((k, v) ∷ config) =
    let rest = map_config_secrets_refs secrets ns config in
    if not (has_secret_ref v)
    then (rest.0, (k, v) ∷ rest.1)
    else elim (get_secret_from_ref secrets v ns) [
      | err e ↦ (err e, (k, v) ∷ config)
      | ok w ↦ (rest.0, (k, w) ∷ rest.1)
    ]

-- The inner loop of `MapComponentConfigSecretsRefs`.
map_values : Secrets → String → List String → Result (Unit {0}) × List String
unfolding get_secret_from_ref
map_values secrets ns [] = (ok tt, [])
map_values secrets ns (v ∷ values) =
    let rest = map_values secrets ns values in
    if not (has_secret_ref v)
    then (rest.0, v ∷ rest.1)
    else elim (get_secret_from_ref secrets v ns) [
      | err e ↦ (err e, v ∷ values)
      | ok w ↦ (rest.0, w ∷ rest.1)
    ]

unfoldable pub map_component_config_secrets_refs :
    Secrets → String → Dict (List String) → Result (Unit {0}) × Dict (List String)
unfolding map_values
map_component_config_secrets_refs secrets ns [] = (ok tt, [])
map_component_config_secrets_refs secrets ns ((k, values) ∷ config) =
    let rest = map_component_config_secrets_refs secrets ns config in
    let here = map_values secrets ns values in
    elim here.0 [ err e ↦ (err e, (k, here.1) ∷ config) | ok _ ↦ (rest.0, (k, here.1) ∷ rest.1) ]
