-- ===== src/Directory/Client/Finding.antt =====
-- What a search for a group by its name finds.
use keycloak_config_sync_ope.Base.{
  ◌≡◌, refl, ap, ◌∙◌, inl, inr, true, false, Option, none, some, List, [], ◌∷◌, arith, String,
  Bool-cases, Option-cases, ◌==◌, eq_of_==, contains, sentinel, Result, ok, err, Result-cases,
}
use keycloak_config_sync_ope.Base.{not_found}
use keycloak_config_sync_ope.Keycloakv2.Responses.{Bodies}
use keycloak_config_sync_ope.AuthFlow.CreateOrUpdate.{points_to}
use keycloak_config_sync_ope.AuthFlow.Client.{Reply, receive, listed}
use keycloak_config_sync_ope.Directory.{GroupRep, Call}
use keycloak_config_sync_ope.Directory.Roles.{cons_some}
use keycloak_config_sync_ope.Directory.Client.{
  Transport, find_group_in_list, or_not_found, client_find_group_by_name,
}

-- The names that groups have.
abbrev pub names_of : List GroupRep → List String
names_of [] = []
names_of (g ∷ gs) = cons_some g.name (names_of gs)

-- A search finds a group of that name, or there is none.
abbrev pub IsFound : List GroupRep → String → Option GroupRep → Type 0
IsFound groups name none = contains name (names_of groups) ≡ false
IsFound groups name (some g) = (g.name ≡ some name) × (contains name (names_of groups) ≡ true)

-- A group of another name changes nothing.
other-IsFound :
    (g : GroupRep) (gs : List GroupRep) (name n : String) (o : Option GroupRep)
    → g.name ≡ some n
    → (n == name) ≡ false
    → IsFound gs name o
    → IsFound (g ∷ gs) name o
other-IsFound g gs name n none named other h = rw (named) (ground arith)
other-IsFound g gs name n (some r) named other h =
    (h.0, rw (named) (let found = h.1 in ground arith))

find_group_in_list-IsFound :
    (groups : List GroupRep) (name : String) → IsFound groups name (find_group_in_list groups name)
unfolding find_group_in_list
find_group_in_list-IsFound [] name = refl
find_group_in_list-IsFound (g ∷ gs) name =
    let rest = find_group_in_list-IsFound gs name in
    elim (Option-cases g.name) [
      | inl nil ↦ rw (nil) rest
      | inr (n, named) ↦
          let test : points_to g.name name ≡ (n == name) = rw (named) refl in
          elim (Bool-cases (n == name)) [
            | inl same_name ↦ rw (test) (
                rw (same_name)
                  (named ∙ ap some (eq_of_== n name same_name), rw (named) (ground arith)))
            | inr other ↦ rw (test) (
                rw (other)
                  (other-IsFound g gs name n (find_group_in_list gs name) named other rest))
          ]
    ]

-- What becomes of an answer to a search: a refusal is handed on, a group of that name is found, or
-- the list has none and the error is `ErrNotFound`.
abbrev pub IsSearched : Result (Reply (List GroupRep)) → String → Result (Option GroupRep) → Type 0
IsSearched (err e) name r = r ≡ err e
IsSearched (ok reply) name (ok none) = ⊥
IsSearched (ok reply) name (ok (some g)) =
    (g.name ≡ some name) × (contains name (names_of (listed reply.json)) ≡ true)
IsSearched (ok reply) name (err e) =
    (e ≡ sentinel not_found) × (contains name (names_of (listed reply.json)) ≡ false)

searched :
    (reply : Reply (List GroupRep)) (name : String) (o : Option GroupRep)
    → IsFound (listed reply.json) name o
    → IsSearched (ok reply) name (or_not_found o)
searched reply name none h = (refl, h)
searched reply name (some g) h = h

-- A search for a group by its name that the client receives gives a group of the list with that
-- name, or, only if the list has none of that name, the error `ErrNotFound`; a search that is
-- refused gives that error.
pub client_find_group_by_name-IsSearched :
    (bodies : Bodies) (transport : Transport) (h : List Call) (realm name : String)
    → IsSearched
        (receive bodies (transport.on_search_groups h realm name))
        name
        (client_find_group_by_name bodies transport h realm name)
unfolding client_find_group_by_name
client_find_group_by_name-IsSearched bodies transport h realm name =
    elim (Result-cases (receive bodies (transport.on_search_groups h realm name))) [
      | inl (reply, accepted) ↦ rw (accepted) (
          searched reply name (find_group_in_list (listed reply.json) name)
            (find_group_in_list-IsFound (listed reply.json) name))
      | inr (e, refused) ↦ rw (refused) refl
    ]
