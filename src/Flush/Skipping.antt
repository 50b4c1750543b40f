-- ===== src/Flush/Skipping.antt =====
-- Two neighbours that are no longer current: the removal of the first moves the second to a place
-- that the loop has passed.
use keycloak_config_sync_ope.Base.{
  suc, ◌≡◌, refl, sym, subst, true, false, List, [], ◌∷◌, ◌++◌, arith, String, ◌==◌, ==_refl,
  contains, length, All, All-map,
}
use keycloak_config_sync_ope.Slices.{Slice, copy_left, elements}
use keycloak_config_sync_ope.Slices.Laws.{remove_slice_index_front, All-copy_left-suc}
use keycloak_config_sync_ope.Flush.{scan_of}
use keycloak_config_sync_ope.Flush.Scanning.{scan_removed, scan-grow, scan-All, scan_of-cons}

abbrev AllLive : List String → List String → Type 0
AllLive current = All (λ id. contains id current ≡ true)

-- `b` is not deleted, and stays on record.
abbrev pub Missed : String → Slice String × List String → Type 0
Missed b r = (contains b r.1 ≡ false) × (contains b (elements r.0) ≡ true)

contains_of_All :
    (b : String) (xs : List String) → All (λ id. (b == id) ≡ false) xs → contains b xs ≡ false
contains_of_All b [] h = refl
contains_of_All b (x ∷ xs) h = rw h.0 (contains_of_All b xs h.1)

All-not-contains :
    (b : String) (xs : List String) → contains b xs ≡ false → All (λ id. (b == id) ≡ false) xs
All-not-contains b [] h = tt
All-not-contains b (x ∷ xs) h = (ground arith, All-not-contains b xs (ground arith))

module _ (current : List String) (a b c : String) (r : List String)
    (stale : contains a current ≡ false) where
  module _ (other : contains b (a ∷ c ∷ r) ≡ false) where
    Missed-scan_of : Missed b (scan_of current (a ∷ b ∷ c ∷ r))
    Missed-scan_of =
        let n = suc (length r) in
        let array = copy_left b (c ∷ r) n in
        let tail : Slice String = record { array = array; len = n } in
        let fresh = All-not-contains b (a ∷ c ∷ r) other in
        let reads =
          scan-All (λ id. (b == id) ≡ false) current (suc n) 0 tail
            (All-copy_left-suc _ b c r (length r) fresh.1) in
        subst (Missed b)
          (sym (
            scan_removed current (suc n) 0 (record { array = a ∷ b ∷ c ∷ r; len = suc (suc n) }) a
              refl stale))
          (rw (remove_slice_index_front a b (c ∷ r) n, scan-grow current (suc n) 0 b tail)
            (
              rw fresh.0 (contains_of_All b _ (All-map _ _ _ (λ id h. h.0) reads.0)),
              rw (==_refl b) refl,
            ))

    -- Take IDs on record that are current, then two that follow one another, then at least one
    -- more, where the first of the two is no longer current and the second stands nowhere else. Then
    -- the loop does not delete the second and keeps it on record, whether it is current or not.
    pub scan_of_neighbours :
        (xs : List String)
        → AllLive current xs
        → contains b xs ≡ false
        → Missed b (scan_of current (xs ++ a ∷ b ∷ c ∷ r))
    scan_of_neighbours [] h k = Missed-scan_of
    scan_of_neighbours (x ∷ xs) h k =
        let rest = scan_of_neighbours xs h.1 (ground arith) in
        rw (scan_of-cons current x (xs ++ a ∷ b ∷ c ∷ r) h.0) (ground arith)
