-- ===== src/Secretref/Source.antt =====
-- pkg/secretref/sourceref.go and the reference types of api/common/ref.go: a value that is given
-- directly or by a key of a ConfigMap or of a Secret.
use keycloak_config_sync_ope.Base.{
  ◌≡◌, refl, ◌⊎◌, Option, none, some, [], arith, String, or_empty, Err, wrapf, Result, ok, err,
}
use keycloak_config_sync_ope.Base.Dict
use keycloak_config_sync_ope.Base.Dict.{Dict}

-- `ConfigMapKeySelector` and `SecretKeySelector`: the name of the object and the key in it.
pub record KeySelector : Type 0 where
  pub name : String
  pub key : String

pub record SourceRef : Type 0 where
  pub config_map_key_ref : Option KeySelector
  pub secret_key_ref : Option KeySelector

pub record SourceRefOrVal : Type 0 where
  pub source_ref : Option SourceRef
  pub value : String

-- What the Kubernetes client answers to a read of a ConfigMap and of a Secret.
pub record Objects : Type 0 where
  pub get_config_map : String → String → Result (Dict String)
  pub get_secret : String → String → Result (Dict String)

-- `m[key]`, the empty text for a missing key
entry : Dict String → String → String
entry m key = or_empty (Dict.lookup key m)

read_selected :
    String → (String → String → Result (Dict String)) → String → KeySelector → Result String
unfolding entry
read_selected message get ns sel = elim (get ns sel.name) [
  | err e ↦ err (wrapf message [] e)
  | ok data' ↦ ok (entry data' sel.key)
]

read_source : Objects → String → Option KeySelector → Option KeySelector → Result String
unfolding read_selected
read_source objects ns (some sel) secret =
    read_selected "unable to get configmap: %w" objects.get_config_map ns sel
read_source objects ns none (some sel) =
    read_selected "unable to get secret: %w" objects.get_secret ns sel
read_source objects ns none none = ok ""

unfoldable pub get_value_from_source_ref : Objects → Option SourceRef → String → Result String
unfolding read_source
get_value_from_source_ref objects none ns = ok ""
get_value_from_source_ref objects (some r) ns =
    read_source objects ns r.config_map_key_ref r.secret_key_ref

read_source_or : Objects → String → String → Option SourceRef → Result String
unfolding get_value_from_source_ref
read_source_or objects ns value none = ok value
read_source_or objects ns value (some r) = get_value_from_source_ref objects (some r) ns

unfoldable pub get_value_from_source_ref_or_val :
    Objects → Option SourceRefOrVal → String → Result String
unfolding read_source_or
get_value_from_source_ref_or_val objects none ns = ok ""
get_value_from_source_ref_or_val objects (some r) ns =
    read_source_or objects ns r.value r.source_ref

-- Which object a value comes from: a ConfigMap goes before a Secret, and either before the
-- value that is written out.
pub data Origin : Type 0 where
  literal : String → Origin
  config_map secret : KeySelector → Origin

abbrev origin_of_source : SourceRef → Option KeySelector → Option KeySelector → Origin
origin_of_source r (some sel) _ = config_map sel
origin_of_source r none (some sel) = secret sel
origin_of_source r none none = literal ""

abbrev origin_of_parts : String → Option SourceRef → Origin
origin_of_parts value none = literal value
origin_of_parts value (some r) = origin_of_source r r.config_map_key_ref r.secret_key_ref

abbrev pub origin : Option SourceRefOrVal → Origin
origin none = literal ""
origin (some r) = origin_of_parts r.value r.source_ref

-- The value at an origin: a missing key reads as the empty text, a failed read is an error.
abbrev pub AtOrigin : Objects → String → Origin → Result String → Type 0
AtOrigin objects ns (literal v) r = r ≡ ok v
AtOrigin objects ns (config_map sel) r =
    ((m : Dict String) × (objects.get_config_map ns sel.name ≡ ok m)
      × (r ≡ ok (or_empty (Dict.lookup sel.key m))))
    ⊎ ((e : Err) × (objects.get_config_map ns sel.name ≡ err e)
        × (r ≡ err (wrapf "unable to get configmap: %w" [] e)))
AtOrigin objects ns (secret sel) r =
    ((m : Dict String) × (objects.get_secret ns sel.name ≡ ok m)
      × (r ≡ ok (or_empty (Dict.lookup sel.key m))))
    ⊎ ((e : Err) × (objects.get_secret ns sel.name ≡ err e)
        × (r ≡ err (wrapf "unable to get secret: %w" [] e)))

-- On every branch the result is the value at the origin that the reference selects.
pub get_value_from_source_ref_or_val-AtOrigin :
    (objects : Objects) (ref : Option SourceRefOrVal) (ns : String)
    → AtOrigin objects ns (origin ref) (get_value_from_source_ref_or_val objects ref ns)
unfolding get_value_from_source_ref_or_val
get_value_from_source_ref_or_val-AtOrigin objects none ns = refl
get_value_from_source_ref_or_val-AtOrigin objects (some r) ns = ground arith
