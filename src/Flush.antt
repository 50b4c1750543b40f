-- ===== src/Flush.antt =====
-- internal/controller/keycloakrealm/chain/group/flush.go and identityprovider/flush.go: what a realm
-- no longer lists is deleted from Keycloak, and the IDs on record in the status are brought up to
-- date. The status and the loop hold slices of one array.
pub mod Roles
pub mod Strategy
pub mod Scanning
pub mod Safety
pub mod Skipping
pub mod Single
use keycloak_config_sync_ope.Base.Int.{pos}
use keycloak_config_sync_ope.Base.{
  ℕ, zero, suc, ◌+◌, ◌-◌, ◌≤◌, ◌<◌, ◌<>◌, ◌≡◌, refl, sym, ap, ◌∙◌, ◌≢◌, ◌↔◌, ◌⊎◌, inl, inr, Bool,
  true, false, not, ◌&&◌, ◌||◌, Option, none, some, List, [], ◌∷◌, ◌++◌, map, arith, String, ltb,
  leb, nat_eq, if◌then◌else◌, Bool-cases, Option-cases, ◌==◌, String_discrete, ==_refl, eq_of_==,
  contains, or_empty, length, get_elem?, select, All, Err, errorf, wrapf, sentinel, Result, ok, err,
  is_ok, Act, pure, fail, ◌>>=◌, ◌>>◌, wrap,
}
use keycloak_config_sync_ope.Base.Dict.{Dict}
use keycloak_config_sync_ope.Base.{gocloak, adapter_not_found}
use keycloak_config_sync_ope.Keycloakv2.{is_not_found}
use keycloak_config_sync_ope.Slices.{Slice, remove_slice_index, remove_duplicates, elements}
use keycloak_config_sync_ope.Flush.Strategy.{RealmSpec, has_reconciliation_strategy_full}

-- What is asked of Keycloak and of Kubernetes, newest first in a history.
pub data Call : Type 0 where
  delete_item : String → String → Call
  update_status : List String → Call

-- What they answer, from the calls so far.
pub record Api : Type 0 where
  pub on_delete : List Call → String → String → Result (Unit {0})
  pub on_update : List Call → List String → Result (Unit {0})

-- The IDs in the status of the realm in memory, and the calls so far.
pub record State : Type 0 where
  pub ids : List String
  pub calls : List Call

-- The loop over the IDs on record, with `rounds` indices left from index `i` on: the slice that is
-- left, and the IDs to delete. An index is read from the array as it then is.
unfoldable pub scan : List String → ℕ → ℕ → Slice String → Slice String × List String
unfolding remove_slice_index
scan current zero i s = (s, [])
scan current (suc rounds) i s = elim (get_elem? s.array i) [
  | none ↦ (s, [])
  | some id ↦
      let kept = scan current rounds (suc i) s in
      let removed = scan current rounds (suc i) (remove_slice_index s (pos i)) in
      if contains id current then kept else (removed.0, id ∷ removed.1)
]

-- The loop of the calls; false if it returns early, at an ID that Keycloak does not know.
unfoldable pub delete_items : Api → (Err → Bool) → String → String → List String → Act State Bool
delete_items api gone message realm [] s = (ok true, s)
delete_items api gone message realm (id ∷ ids) s =
    let s' : State = record s { calls = delete_item realm id ∷ s.calls } in
    elim (api.on_delete s.calls realm id) [
      | ok _ ↦ delete_items api gone message realm ids s'
      | err e ↦ if gone e then (ok false, s') else (err (wrapf message (realm ∷ id ∷ []) e), s')
    ]

save_status : Api → String → List String → Act State (Unit {0})
save_status api message ids s =
    wrap message []
      (λ t. (api.on_update t.calls t.ids, record t { calls = update_status t.ids ∷ t.calls }))
      (record s { ids = ids })

-- What follows the loop of the calls.
finish : Api → String → List String → Bool → Act State (Unit {0})
unfolding save_status
finish api message ids false s = (ok tt, s)
finish api message ids true s = save_status api message ids s

-- The scan of the IDs on record.
abbrev pub scan_of : List String → List String → Slice String × List String
scan_of current ids = scan current (length ids) 0 (record { array = ids; len = length ids })

-- The body of `Flush` for a realm whose strategy is full. The status keeps its length, and sees
-- what the removals write to the array.
flush_full : Api → (Err → Bool) → String → String → String → List String → Act State (Unit {0})
unfolding scan delete_items finish remove_duplicates
flush_full api gone delete_message update_message realm current s =
    let scanned = scan_of current s.ids in
    (do
      proceed ← delete_items api gone delete_message realm scanned.1
      finish api update_message (remove_duplicates (elements scanned.0 ++ current)) proceed)
      (record s { ids = scanned.0.array })

-- `Flush` of groups.
unfoldable pub flush_groups : Api → RealmSpec → List String → Act State (Unit {0})
unfolding flush_full has_reconciliation_strategy_full
flush_groups api spec group_ids s =
    if not (has_reconciliation_strategy_full spec)
    then (ok tt, s)
    else flush_full api is_not_found "flush unable to delete realmName: %s groupID: %q: %w"
        "unable to update status of group: %w" spec.realm_name group_ids s

-- `IsErrNotFound` of pkg/client/keycloak/adapter/errors.go
unfoldable pub is_err_not_found : Err → Bool
is_err_not_found (adapter_not_found text) = true
is_err_not_found (gocloak code text) = nat_eq code 404
is_err_not_found (wrapf f args e) = is_err_not_found e
is_err_not_found _ = false

-- `Flush` of identity providers, by their aliases.
unfoldable pub flush_identity_providers : Api → RealmSpec → List String → Act State (Unit {0})
unfolding flush_full has_reconciliation_strategy_full is_err_not_found
flush_identity_providers api spec aliases s =
    if not (has_reconciliation_strategy_full spec)
    then (ok tt, s)
    else flush_full api is_err_not_found "flush unable to delete realm %s idp %q: %w"
        "unable to update status of idp: %w" spec.realm_name aliases s
