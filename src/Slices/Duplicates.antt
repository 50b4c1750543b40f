-- ===== src/Slices/Duplicates.antt =====
-- `RemoveDuplicates` keeps the first of each value.
use keycloak_config_sync_ope.Base.{
  ◌≡◌, refl, false, not, ◌&&◌, List, [], ◌∷◌, arith, String, contains,
}
use keycloak_config_sync_ope.Slices.{remove_from, remove_duplicates}

-- No value stands twice.
abbrev pub NoDuplicates : List String → Type 0
NoDuplicates [] = Unit
NoDuplicates (x ∷ xs) = (contains x xs ≡ false) × NoDuplicates xs

contains-remove_from :
    (x : String) (seen slice : List String)
    → contains x (remove_from seen slice) ≡ (contains x slice && not (contains x seen))
unfolding remove_from
contains-remove_from x seen [] = refl
contains-remove_from x seen (val ∷ slice) =
    ground (arith, contains-remove_from x (val ∷ seen) slice, contains-remove_from x seen slice)

remove_from-NoDuplicates : (seen slice : List String) → NoDuplicates (remove_from seen slice)
unfolding remove_from
remove_from-NoDuplicates seen [] = tt
remove_from-NoDuplicates seen (val ∷ slice) = ground (
  arith,
  contains-remove_from val (val ∷ seen) slice,
  remove_from-NoDuplicates (val ∷ seen) slice,
  remove_from-NoDuplicates seen slice,
)

-- The result has no duplicates, and holds exactly the values of the argument.
pub remove_duplicates_lem :
    (slice : List String)
    → NoDuplicates (remove_duplicates slice)
      × ((x : String) → contains x (remove_duplicates slice) ≡ contains x slice)
unfolding remove_duplicates
remove_duplicates_lem slice =
    (remove_from-NoDuplicates [] slice, λ x. ground (arith, contains-remove_from x [] slice))
