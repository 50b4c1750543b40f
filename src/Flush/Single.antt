-- ===== src/Flush/Single.antt =====
-- One ID that is no longer current.
use keycloak_config_sync_ope.Base.{
  suc, ◌≡◌, refl, sym, ap, subst, true, false, List, [], ◌∷◌, ◌++◌, arith, String, contains, length,
  All, ok,
}
use keycloak_config_sync_ope.Slices.{Slice, copy_left, elements, remove_duplicates}
use keycloak_config_sync_ope.Slices.Laws.{
  remove_slice_index_front, All-copy_left, take-copy_left_all,
}
use keycloak_config_sync_ope.Flush.{
  Api, Call, delete_item, update_status, scan, scan_of, flush_groups,
}
use keycloak_config_sync_ope.Flush.Strategy.{RealmSpec, has_reconciliation_strategy_full}
use keycloak_config_sync_ope.Flush.Scanning.{scan_removed, scan-live, scan_of-cons}

abbrev AllLive : List String → List String → Type 0
AllLive current = All (λ id. contains id current ≡ true)

abbrev Exactly : String → List String → Slice String × List String → Type 0
Exactly a ids r = (r.1 ≡ a ∷ []) × (elements r.0 ≡ ids)

module _ (current : List String) (a : String) (stale : contains a current ≡ false) where
  scan_of_front : (ys : List String) → AllLive current ys → Exactly a ys (scan_of current (a ∷ ys))
  unfolding scan
  scan_of_front [] h = rw stale (refl, refl)
  scan_of_front (y ∷ ys) h =
      subst (Exactly a (y ∷ ys))
        (sym (
          scan_removed current (suc (length ys)) 0
            (record { array = a ∷ y ∷ ys; len = suc (suc (length ys)) }) a refl stale))
        (rw
          (
            remove_slice_index_front a y ys (length ys),
            scan-live current (suc (length ys)) 1
                (record { array = y ∷ copy_left y ys (length ys); len = suc (length ys) })
                (h.0, All-copy_left _ y ys (length ys) h.0 h.1),
          )
          (refl, ap (λ t. y ∷ t) (take-copy_left_all y ys)))

  pub scan_of_single :
      (xs ys : List String)
      → AllLive current xs
      → AllLive current ys
      → Exactly a (xs ++ ys) (scan_of current (xs ++ a ∷ ys))
  scan_of_single [] ys h k = scan_of_front ys k
  scan_of_single (x ∷ xs) ys h k =
      let rest = scan_of_single xs ys h.1 k in
      rw (scan_of-cons current x (xs ++ a ∷ ys) h.0) (rest.0, ap (λ t. x ∷ t) rest.1)

  -- If exactly one ID on record is no longer current, whatever stands before and after it, and
  -- Kubernetes and Keycloak accept the calls, a flush of groups deletes that group and saves the
  -- other IDs followed by the current ones, each once, and makes no other call.
  pub flush_groups_single :
      (api : Api) (spec : RealmSpec) (xs ys : List String) (calls : List Call)
      → has_reconciliation_strategy_full spec ≡ true
      → AllLive current xs
      → AllLive current ys
      → let saved = remove_duplicates ((xs ++ ys) ++ current) in
        let deleted = delete_item spec.realm_name a ∷ calls in
        api.on_delete calls spec.realm_name a ≡ ok tt
        → api.on_update deleted saved ≡ ok tt
        → flush_groups api spec current (record { ids = xs ++ a ∷ ys; calls = calls })
          ≡ (ok tt, record { ids = saved; calls = update_status saved ∷ deleted })
  unfolding flush_groups
  flush_groups_single api spec xs ys calls full h k p q =
      let found = scan_of_single xs ys h k in rw full (rw found.0 (rw found.1 (ground arith)))
