-- ===== src/Secretref/Repeat.antt =====
-- A second run over a map of configuration values that was resolved.
use keycloak_config_sync_ope.Base.{
  ◌≡◌, refl, ◌⊎◌, true, false, some, List, [], ◌∷◌, arith, String, ok,
}
use mathlib.Core.Path.{subst}
use keycloak_config_sync_ope.Base.Dict.{Dict, lookup}
use keycloak_config_sync_ope.Secretref.{
  Secrets, has_secret_ref, split, tail, read_key, read_parts, get_secret_from_ref,
  map_config_secrets_refs,
}
use keycloak_config_sync_ope.Secretref.Mapping.{AllResolve, Mapped, map_config_secrets_refs-Mapped}

-- No secret holds a value that looks like a reference.
abbrev pub ArePlain : Secrets → String → Type 0
ArePlain secrets ns =
    (name key value : String) (entries : Dict String)
    → secrets ns name ≡ ok entries
    → lookup key entries ≡ some value
    → has_secret_ref value ≡ false

module _ (secrets : Secrets) (ns : String) where
  -- Nothing is left to resolve.
  abbrev Settled : Dict String → Type 0
  Settled [] = Unit
  Settled ((k, v) ∷ m) =
      ((has_secret_ref v ≡ false)
        ⊎ ((has_secret_ref v ≡ true) × (get_secret_from_ref secrets v ns ≡ ok v)))
      × Settled m

  map_config_secrets_refs_of_Settled :
      (m : Dict String) → Settled m → map_config_secrets_refs secrets ns m ≡ (ok tt, m)
  unfolding map_config_secrets_refs
  map_config_secrets_refs_of_Settled [] h = refl
  map_config_secrets_refs_of_Settled ((k, v) ∷ m) h =
      ground (arith, map_config_secrets_refs_of_Settled m)

  module _ (plain : ArePlain secrets ns) where
    read_key-plain :
        (name key value : String)
        → read_key secrets ns name key ≡ ok value
        → has_secret_ref value ≡ false
    unfolding read_key
    read_key-plain name key value h = grind (arith, plain)

    read_parts-plain :
        (ref value : String) (parts : List String)
        → read_parts secrets ns ref parts ≡ ok value
        → has_secret_ref value ≡ false
    unfolding read_parts
    read_parts-plain ref value [] h = ground arith
    read_parts-plain ref value (_ ∷ []) h = ground arith
    read_parts-plain ref value (name ∷ key ∷ []) h = read_key-plain name key value h
    read_parts-plain ref value (_ ∷ _ ∷ _ ∷ _) h = ground arith

    -- What a reference resolves to is plain, or the reference itself.
    get_secret_from_ref_final :
        (v w : String)
        → get_secret_from_ref secrets v ns ≡ ok w
        → (has_secret_ref w ≡ false) ⊎ (w ≡ v)
    unfolding get_secret_from_ref
    get_secret_from_ref_final v w h = ground (arith, read_parts-plain v w (split b':' (tail v)))

    Settled-AllResolve : (m n : Dict String) → AllResolve secrets ns m n → Settled n
    Settled-AllResolve [] [] h = tt
    Settled-AllResolve ((k, v) ∷ m) ((j, w) ∷ n) h =
        ground (arith, get_secret_from_ref_final v w, Settled-AllResolve m n)
    Settled-AllResolve [] (_ ∷ _) h = elim h [ ]
    Settled-AllResolve (_ ∷ _) [] h = elim h [ ]

    -- If no secret holds a value that looks like a reference, a second run over a map that was
    -- resolved without an error reports no error and changes nothing.
    pub map_config_secrets_refs_twice :
        (config : Dict String)
        → (map_config_secrets_refs secrets ns config).0 ≡ ok tt
        → map_config_secrets_refs secrets ns (map_config_secrets_refs secrets ns config).1
          ≡ (ok tt, (map_config_secrets_refs secrets ns config).1)
    map_config_secrets_refs_twice config h =
        map_config_secrets_refs_of_Settled (map_config_secrets_refs secrets ns config).1 (
          Settled-AllResolve config _ (
            subst (λ r. Mapped secrets ns config r (map_config_secrets_refs secrets ns config).1) h
              (map_config_secrets_refs-Mapped secrets ns config)))
