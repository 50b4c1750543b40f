-- ===== src/Directory/Roles/Naming.antt =====
-- The names in the map of the roles, and among the roles that are not claimed.
use keycloak_config_sync_ope.Base.{
  ◌≡◌, refl, inl, inr, not, ◌&&◌, ◌||◌, Option, none, some, List, [], ◌∷◌, arith, String,
  Option-cases, contains,
}
use keycloak_config_sync_ope.Base.Dict
use keycloak_config_sync_ope.Base.Dict.{Dict}
use keycloak_config_sync_ope.Directory.{RoleRep}
use keycloak_config_sync_ope.Directory.Roles.{
  insert_named, insert_all, by_name, is_some, cons_some, keys, unclaimed,
}

-- The names that roles have.
abbrev pub role_names : List RoleRep → List String
role_names [] = []
role_names (r ∷ rs) = cons_some r.name (role_names rs)

pub contains-keys :
    {V : Type 0} (name : String) (m : Dict V)
    → contains name (keys m) ≡ is_some (Dict.lookup name m)
unfolding Dict.lookup
contains-keys name [] = refl
contains-keys name ((key, value) ∷ m) = let rest = contains-keys name m in ground arith

insert_all-names :
    (name : String) (rs : List RoleRep) (m : Dict RoleRep)
    → is_some (Dict.lookup name (insert_all rs m))
      ≡ (is_some (Dict.lookup name m) || contains name (role_names rs))
unfolding insert_all
insert_all-names name [] m = ground arith
insert_all-names name (r ∷ rs) m = elim (Option-cases r.name) [
  | inl none_e ↦ rw (none_e) (insert_all-names name rs m)
  | inr (n, named) ↦
      let rest = insert_all-names name rs (Dict.insert n r m) in
      let stored = Dict.lookup-insert m n name r in rw (named) (grind arith)
]

-- A role is on record under a name exactly if one was listed with that name.
pub by_name-names :
    (name : String) (rs : List RoleRep)
    → is_some (Dict.lookup name (by_name rs)) ≡ contains name (role_names rs)
unfolding by_name Dict.lookup
by_name-names name rs = insert_all-names name rs []

-- Every role is on record under its own name.
abbrev pub IsKeyed : Dict RoleRep → Type 0
IsKeyed m = (key : String) (r : RoleRep) → Dict.lookup key m ≡ some r → r.name ≡ some key

insert_named-IsKeyed :
    (o : Option String) (r : RoleRep) (m : Dict RoleRep)
    → r.name ≡ o
    → IsKeyed m
    → IsKeyed (insert_named o r m)
insert_named-IsKeyed none r m named keyed key other found = keyed key other found
insert_named-IsKeyed (some n) r m named keyed key other found =
    let stored = Dict.lookup-insert m n key r in let kept = keyed key other in grind arith

insert_all-IsKeyed : (rs : List RoleRep) (m : Dict RoleRep) → IsKeyed m → IsKeyed (insert_all rs m)
unfolding insert_all
insert_all-IsKeyed [] m keyed = keyed
insert_all-IsKeyed (r ∷ rs) m keyed =
    insert_all-IsKeyed rs (insert_named r.name r m) (insert_named-IsKeyed r.name r m refl keyed)

pub by_name-IsKeyed : (rs : List RoleRep) → IsKeyed (by_name rs)
unfolding by_name Dict.lookup
by_name-IsKeyed rs = insert_all-IsKeyed rs [] (λ key r found. cc)

-- The names of the roles that are on record and not claimed.
pub unclaimed-names :
    (name : String) (claimed : List String) (m : Dict RoleRep) (ks : List String)
    → IsKeyed m
    → contains name (role_names (unclaimed claimed m ks))
      ≡ (contains name ks && is_some (Dict.lookup name m) && not (contains name claimed))
unfolding unclaimed
unclaimed-names name claimed m [] keyed = refl
unclaimed-names name claimed m (key ∷ ks) keyed =
    let rest = unclaimed-names name claimed m ks keyed in
    elim (Option-cases (Dict.lookup key m)) [
      | inl nil ↦ rw (nil) (grind arith)
      | inr (r, found) ↦ let named = keyed key r found in rw (found) (grind arith)
    ]
