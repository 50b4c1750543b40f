-- ===== src/Flush/Safety.antt =====
-- What a flush of groups may do, for every answer of Keycloak and of Kubernetes.
use keycloak_config_sync_ope.Base.{
  ◌≡◌, refl, inl, inr, Bool, true, false, ◌||◌, List, [], ◌∷◌, ◌++◌, arith, String, Bool-cases,
  ==_refl, contains, are_listed, are_listed_of, length, All, All-map, Err, Extends, same, more,
  Extends-trans, Extends-after, Result-cases, Act, ◌>>=◌,
}
use keycloak_config_sync_ope.Slices.{elements, remove_duplicates}
use keycloak_config_sync_ope.Slices.Duplicates.{NoDuplicates, remove_duplicates_lem}
use keycloak_config_sync_ope.Slices.Laws.{All-elements}
use keycloak_config_sync_ope.Keycloakv2.{is_not_found}
use keycloak_config_sync_ope.Flush.{
  Api, State, Call, delete_item, update_status, scan_of, delete_items, flush_full, finish,
  flush_groups, flush_identity_providers, is_err_not_found,
}
use keycloak_config_sync_ope.Flush.Strategy.{RealmSpec, has_reconciliation_strategy_full}
use keycloak_config_sync_ope.Flush.Scanning.{scan-All}

-- A call is a deletion of an ID that was on record and is not current, or a status with no ID
-- twice, all current IDs, and no ID but the current ones and those that were on record.
abbrev pub IsAllowed : String → List String → List String → Call → Type 0
IsAllowed realm ids current (delete_item r id) =
    (r ≡ realm) × (contains id ids ≡ true) × (contains id current ≡ false)
IsAllowed realm ids current (update_status new) =
    NoDuplicates new × (are_listed current new ≡ true) × (are_listed new (ids ++ current) ≡ true)

module _ (api : Api) (gone : Err → Bool) (message realm : String) (P : Call → Type 0) where
  delete_items-Extends :
      (ids : List String) (s : State)
      → All (λ id. P (delete_item realm id)) ids
      → Extends P s.calls (delete_items api gone message realm ids s).1.calls
  unfolding delete_items
  delete_items-Extends [] s h = same
  delete_items-Extends (id ∷ ids) s h =
      let c = delete_item realm id in
      let s' : State = record s { calls = c ∷ s.calls } in
      elim (Result-cases (api.on_delete s.calls realm id)) [
        | inl (a, e) ↦ rw (e, delete_items) (Extends-after c h.0 (delete_items-Extends ids s' h.1))
        | inr (x, e) ↦ elim (Bool-cases (gone x)) [
          | inl missing ↦ rw (e, delete_items) (rw missing (more c h.0 same))
          | inr other ↦ rw (e, delete_items) (rw other (more c h.0 same))
        ]
      ]

>>=-Extends :
    {A B : Type 0} (P : Call → Type 0) (m : Act State A) (f : A → Act State B) (s : State)
    → Extends P s.calls (m s).1.calls
    → ((a : A) (t : State) → Extends P t.calls (f a t).1.calls)
    → Extends P s.calls ((m >>= f) s).1.calls
>>=-Extends P m f s h k = elim (Result-cases (m s).0) [
  | inl (a, e) ↦ rw e (Extends-trans h (k a (m s).1))
  | inr (x, e) ↦ rw e h
]

finish-Extends :
    (P : Call → Type 0) (api : Api) (message : String) (new : List String) (proceed : Bool)
    (s : State)
    → P (update_status new)
    → Extends P s.calls (finish api message new proceed s).1.calls
unfolding finish
finish-Extends P api message new true s h = more (update_status new) h same
finish-Extends P api message new false s h = same

contains_self : (ids : List String) → All (λ id. contains id ids ≡ true) ids
contains_self [] = tt
contains_self (x ∷ xs) = (
  rw (==_refl x) refl,
  All-map (λ id. contains id xs ≡ true) (λ id. contains id (x ∷ xs) ≡ true) xs
      (λ id h. ground arith) (contains_self xs),
)

contains-append :
    (x : String) (xs ys : List String) → contains x (xs ++ ys) ≡ (contains x xs || contains x ys)
contains-append x [] ys = refl
contains-append x (y ∷ xs) ys = ground (arith, contains-append x xs ys)

contains_of_All :
    (x : String) (ids xs : List String)
    → All (λ id. contains id ids ≡ true) xs
    → contains x xs ≡ true
    → contains x ids ≡ true
contains_of_All x ids [] h k = cc
contains_of_All x ids (y ∷ xs) h k = ground (arith, contains_of_All x ids xs)

module _ (realm : String) (ids current : List String) where
  deletes-IsAllowed :
      All (λ id. IsAllowed realm ids current (delete_item realm id)) (scan_of current ids).1
  deletes-IsAllowed =
      All-map _ _ _ (λ id h. (refl, h.0, h.1))
        (scan-All (λ id. contains id ids ≡ true) current (length ids) 0
          (record { array = ids; len = length ids }) (contains_self ids)).0

  update-IsAllowed :
      IsAllowed realm ids current
        (update_status (remove_duplicates (elements (scan_of current ids).0 ++ current)))
  update-IsAllowed =
      let left = elements (scan_of current ids).0 in
      let kept =
        All-elements (λ id. contains id ids ≡ true) (scan_of current ids).0.len
          (scan_of current ids).0.array
          (scan-All (λ id. contains id ids ≡ true) current (length ids) 0
            (record { array = ids; len = length ids }) (contains_self ids)).1 in
      let new = remove_duplicates (left ++ current) in
      let (once, members) = remove_duplicates_lem (left ++ current) in
      (
        once,
        are_listed_of current new
            (λ x h. rw (members x, contains-append x left current) (ground arith)),
        are_listed_of new (ids ++ current) (λ x h. ground (
          arith,
          members x,
          contains-append x left current,
          contains-append x ids current,
          contains_of_All x ids left kept,
        )),
      )

flush_full-Extends :
    (api : Api) (gone : Err → Bool) (deleting updating realm : String) (current : List String)
    (s : State)
    → Extends
        (IsAllowed realm s.ids current)
        s.calls
        (flush_full api gone deleting updating realm current s).1.calls
unfolding flush_full
flush_full-Extends api gone deleting updating realm current s =
    let scanned = scan_of current s.ids in
    let start : State = record s { ids = scanned.0.array } in
    let new = remove_duplicates (elements scanned.0 ++ current) in
    >>=-Extends {B = Unit {0}} (IsAllowed realm s.ids current)
      (delete_items api gone deleting realm scanned.1) (finish api updating new) start
      (delete_items-Extends api gone deleting realm (IsAllowed realm s.ids current) scanned.1 start
        (deletes-IsAllowed realm s.ids current))
      (λ proceed t.
        finish-Extends (IsAllowed realm s.ids current) api updating new proceed t
          (update-IsAllowed realm s.ids current))

-- Whatever Keycloak and Kubernetes answer, every call of a flush of groups is a deletion of an ID
-- that was on record and is not current, in the realm of the object, or saves a status that has no
-- ID twice, has all current IDs, and has no ID but the current ones and those that were on record.
pub flush_groups-Extends :
    (api : Api) (spec : RealmSpec) (current : List String) (s : State)
    → Extends
        (IsAllowed spec.realm_name s.ids current)
        s.calls
        (flush_groups api spec current s).1.calls
unfolding flush_groups
flush_groups-Extends api spec current s =
    elim (Bool-cases (has_reconciliation_strategy_full spec)) [
      | inr off ↦ rw off same
      | inl full ↦ rw full (flush_full-Extends api is_not_found _ _ spec.realm_name current s)
    ]

-- The same of a flush of identity providers, by their aliases: whatever is answered, every call is a
-- deletion of an alias that was on record and is not current, in the realm of the object, or saves
-- a status that has no alias twice, has all current ones, and has no other but those on record.
pub flush_identity_providers-Extends :
    (api : Api) (spec : RealmSpec) (current : List String) (s : State)
    → Extends
        (IsAllowed spec.realm_name s.ids current)
        s.calls
        (flush_identity_providers api spec current s).1.calls
unfolding flush_identity_providers
flush_identity_providers-Extends api spec current s =
    elim (Bool-cases (has_reconciliation_strategy_full spec)) [
      | inr off ↦ rw off same
      | inl full ↦ rw full (flush_full-Extends api is_err_not_found _ _ spec.realm_name current s)
    ]
