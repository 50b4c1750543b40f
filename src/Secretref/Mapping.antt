-- ===== src/Secretref/Mapping.antt =====
-- The maps of configuration values, with their references resolved.
use keycloak_config_sync_ope.Base.{
  ◌≡◌, ◌⊎◌, true, false, List, [], ◌∷◌, arith, String, Err, Result, ok, err,
}
use keycloak_config_sync_ope.Base.Dict.{Dict}
use keycloak_config_sync_ope.Secretref.{
  Secrets, has_secret_ref, get_secret_from_ref, map_config_secrets_refs,
  map_component_config_secrets_refs, map_values,
}

module _ (secrets : Secrets) (ns : String) where
  -- `w` is what a value `v` becomes: itself, or what its reference resolves to.
  abbrev pub Resolves : String → String → Type 0
  Resolves v w =
      ((has_secret_ref v ≡ false) × (w ≡ v))
      ⊎ ((has_secret_ref v ≡ true) × (get_secret_from_ref secrets v ns ≡ ok w))

  -- The reference of `v` cannot be resolved.
  abbrev pub Fails : String → Err → Type 0
  Fails v e = (has_secret_ref v ≡ true) × (get_secret_from_ref secrets v ns ≡ err e)

  -- Entry by entry the keys are kept and the values resolved.
  abbrev pub AllResolve : Dict String → Dict String → Type 0
  AllResolve [] [] = Unit
  AllResolve ((k, v) ∷ m) ((j, w) ∷ n) = (j ≡ k) × Resolves v w × AllResolve m n
  AllResolve _ _ = ⊥

  -- The entries up to the first that fails are resolved, and the others are as they were.
  abbrev pub StopsAt : Err → Dict String → Dict String → Type 0
  StopsAt e ((k, v) ∷ m) ((j, w) ∷ n) =
      (j ≡ k) × ((Resolves v w × StopsAt e m n) ⊎ (Fails v e × (w ≡ v) × (n ≡ m)))
  StopsAt e _ _ = ⊥

  abbrev pub Mapped : Dict String → Result (Unit {0}) → Dict String → Type 0
  Mapped m (ok _) n = AllResolve m n
  Mapped m (err e) n = StopsAt e m n

  -- Whatever the order in which the map is visited: on success every entry is resolved and none is
  -- lost, and on an error the entries before the failing one are resolved and the rest untouched.
  pub map_config_secrets_refs-Mapped :
      (config : Dict String)
      → Mapped config
          (map_config_secrets_refs secrets ns config).0
          (map_config_secrets_refs secrets ns config).1
  unfolding map_config_secrets_refs
  map_config_secrets_refs-Mapped [] = tt
  map_config_secrets_refs-Mapped ((k, v) ∷ config) =
      ground (arith, map_config_secrets_refs-Mapped config)

  -- The same of the values of one component key.
  abbrev pub AllValuesResolve : List String → List String → Type 0
  AllValuesResolve [] [] = Unit
  AllValuesResolve (v ∷ m) (w ∷ n) = Resolves v w × AllValuesResolve m n
  AllValuesResolve _ _ = ⊥

  abbrev pub ValuesStopAt : Err → List String → List String → Type 0
  ValuesStopAt e (v ∷ m) (w ∷ n) =
      (Resolves v w × ValuesStopAt e m n) ⊎ (Fails v e × (w ≡ v) × (n ≡ m))
  ValuesStopAt e _ _ = ⊥

  abbrev pub ValuesMapped : List String → Result (Unit {0}) → List String → Type 0
  ValuesMapped m (ok _) n = AllValuesResolve m n
  ValuesMapped m (err e) n = ValuesStopAt e m n

  map_values-ValuesMapped :
      (values : List String)
      → ValuesMapped values (map_values secrets ns values).0 (map_values secrets ns values).1
  unfolding map_values
  map_values-ValuesMapped [] = tt
  map_values-ValuesMapped (v ∷ values) = ground (arith, map_values-ValuesMapped values)

  -- Entry by entry the keys are kept and all the values resolved.
  abbrev pub AllEntriesResolve : Dict (List String) → Dict (List String) → Type 0
  AllEntriesResolve [] [] = Unit
  AllEntriesResolve ((k, v) ∷ m) ((j, w) ∷ n) =
      (j ≡ k) × AllValuesResolve v w × AllEntriesResolve m n
  AllEntriesResolve _ _ = ⊥

  abbrev pub EntriesStopAt : Err → Dict (List String) → Dict (List String) → Type 0
  EntriesStopAt e ((k, v) ∷ m) ((j, w) ∷ n) =
      (j ≡ k) × ((AllValuesResolve v w × EntriesStopAt e m n) ⊎ (ValuesStopAt e v w × (n ≡ m)))
  EntriesStopAt e _ _ = ⊥

  abbrev pub EntriesMapped : Dict (List String) → Result (Unit {0}) → Dict (List String) → Type 0
  EntriesMapped m (ok _) n = AllEntriesResolve m n
  EntriesMapped m (err e) n = EntriesStopAt e m n

  -- Whatever the order in which the map is visited: on success every value of every key is
  -- resolved, and on an error the values before the failing one are resolved and the rest untouched.
  pub map_component_config_secrets_refs-EntriesMapped :
      (config : Dict (List String))
      → EntriesMapped config
          (map_component_config_secrets_refs secrets ns config).0
          (map_component_config_secrets_refs secrets ns config).1
  unfolding map_component_config_secrets_refs
  map_component_config_secrets_refs-EntriesMapped [] = tt
  map_component_config_secrets_refs-EntriesMapped ((k, v) ∷ config) =
      ground
        (arith, map_values-ValuesMapped v, map_component_config_secrets_refs-EntriesMapped config)
