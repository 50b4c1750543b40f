-- ===== src/Base/Dict.antt =====
-- Go maps keyed by strings, as association lists: a store replaces the entry of its key.
use Prim.Native.String.{String}
use mathlib.Core.Path.{◌≡◌, refl}
use mathlib.Core.Option.{Option, none, some}
use mathlib.Core.List.{List, [], ◌∷◌}
use native.Mathlib.Omega.{arith}
use keycloak_config_sync_ope.Base.Tests.{if◌then◌else◌}
use keycloak_config_sync_ope.Base.Texts.{◌==◌}

abbrev pub Dict : Type 0 → Type 0
Dict V = List (String × V)

module _ {V : Type 0} where
  -- `value, ok := m[key]`
  unfoldable pub lookup : (key : String) → Dict V → Option V
  lookup key [] = none
  lookup key ((name, value) ∷ entries) =
      let later = lookup key entries in if name == key then some value else later

  -- `m[key] = value`
  unfoldable pub insert : (key : String) → V → Dict V → Dict V
  insert key new [] = (key, new) ∷ []
  insert key new ((name, value) ∷ entries) =
      let later = (name, value) ∷ insert key new entries in
      if name == key then (key, new) ∷ entries else later

  pub lookup-insert :
      (entries : Dict V) (key other : String) (new : V)
      → lookup other (insert key new entries)
        ≡ (if key == other then some new else lookup other entries)
  unfolding lookup insert
  lookup-insert [] key other new = refl
  lookup-insert ((name, value) ∷ entries) key other new =
      let later = lookup-insert entries key other new in ground arith
