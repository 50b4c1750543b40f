-- ===== src/Flush/Scanning.antt =====
-- What the loop over the IDs on record reads and removes.
use keycloak_config_sync_ope.Base.Int.{pos}
use keycloak_config_sync_ope.Base.{
  ℕ, zero, suc, ◌-◌, ◌≡◌, refl, sym, ◌∙◌, subst, inl, inr, true, false, none, some, List, [], ◌∷◌,
  arith, String, leb, Bool-cases, Option-cases, contains, length, get_elem?, All, All-get_elem?,
}
use keycloak_config_sync_ope.Slices.{Slice, remove_slice_index}
use keycloak_config_sync_ope.Slices.Laws.{All-remove_slice_index}
use keycloak_config_sync_ope.Flush.{scan, scan_of}

-- The three ways in which one round goes.
module _ (current : List String) (rounds i : ℕ) (s : Slice String) where
  scan_out : get_elem? s.array i ≡ none → scan current (suc rounds) i s ≡ (s, [])
  unfolding scan
  scan_out out = rw (out, scan) refl

  scan_kept :
      (id : String)
      → get_elem? s.array i ≡ some id
      → contains id current ≡ true
      → scan current (suc rounds) i s ≡ scan current rounds (suc i) s
  unfolding scan
  scan_kept id read live = rw (read, scan) (rw live refl)

  pub scan_removed :
      (id : String)
      → get_elem? s.array i ≡ some id
      → contains id current ≡ false
      → scan current (suc rounds) i s ≡ (
        (scan current rounds (suc i) (remove_slice_index s (pos i))).0,
        id ∷ (scan current rounds (suc i) (remove_slice_index s (pos i))).1,
      )
  unfolding scan
  scan_removed id read stale = rw (read, scan) (rw stale refl)

abbrev Fits {κ} : (String → Type κ) → List String → Slice String × List String → Type κ
Fits P current r = All (λ id. P id × (contains id current ≡ false)) r.1 × All P r.0.array

-- Every ID that the loop deletes was on record and is not current, and nothing else is left.
pub scan-All {κ} :
    (P : String → Type κ) (current : List String) (rounds i : ℕ) (s : Slice String)
    → All P s.array
    → All (λ id. P id × (contains id current ≡ false)) (scan current rounds i s).1
      × All P (scan current rounds i s).0.array
unfolding scan
scan-All P current zero i s h = (tt, h)
scan-All P current (suc rounds) i s h =
    let rest = scan-All P current rounds (suc i) s h in
    let less =
      scan-All P current rounds (suc i) (remove_slice_index s (pos i))
        (All-remove_slice_index P s i h) in
    elim (Option-cases (get_elem? s.array i)) [
      | inl out ↦ subst (Fits P current) (sym (scan_out current rounds i s out)) (tt, h)
      | inr (id, read) ↦ elim (Bool-cases (contains id current)) [
        | inl live ↦ subst (Fits P current) (sym (scan_kept current rounds i s id read live)) rest
        | inr stale ↦
            subst (Fits P current) (sym (scan_removed current rounds i s id read stale))
              (((All-get_elem? P s.array i id h read, stale), less.0), less.1)
      ]
    ]

-- A slice with one more element in front.
abbrev pub grow : String → Slice String → Slice String
grow x s = record { array = x ∷ s.array; len = suc s.len }

abbrev pub grow_left : String → Slice String × List String → Slice String × List String
grow_left x r = (grow x r.0, r.1)

remove_slice_index-grow :
    (x : String) (s : Slice String) (i : ℕ)
    → remove_slice_index (grow x s) (pos (suc i)) ≡ grow x (remove_slice_index s (pos i))
unfolding remove_slice_index
remove_slice_index-grow x s i = elim (Bool-cases (leb s.len i)) [
  | inl outside ↦
      let outside' : leb (suc s.len) (suc i) ≡ true = ground arith in rw (outside, outside') refl
  | inr inside ↦
      let inside' : leb (suc s.len) (suc i) ≡ false = ground arith in
      let places : suc s.len - 1 - suc i ≡ s.len - 1 - i = omega arith in
      let size : suc s.len - 1 ≡ suc (s.len - 1) = ground arith in
      rw (inside, inside') (rw places (rw size refl))
]

-- From index 1 on the first element plays no part.
pub scan-grow :
    (current : List String) (rounds i : ℕ) (x : String) (s : Slice String)
    → scan current rounds (suc i) (grow x s) ≡ grow_left x (scan current rounds i s)
unfolding scan
scan-grow current zero i x s = refl
scan-grow current (suc rounds) i x s = ground (
  arith,
  scan-grow current rounds (suc i) x s,
  scan-grow current rounds (suc i) x (remove_slice_index s (pos i)),
  remove_slice_index-grow x s i,
)

-- A loop that reads only current IDs removes nothing.
pub scan-live :
    (current : List String) (rounds i : ℕ) (s : Slice String)
    → All (λ id. contains id current ≡ true) s.array
    → scan current rounds i s ≡ (s, [])
unfolding scan
scan-live current zero i s h = refl
scan-live current (suc rounds) i s h = elim (Option-cases (get_elem? s.array i)) [
  | inl out ↦ scan_out current rounds i s out
  | inr (id, read) ↦
      scan_kept current rounds i s id read
        (All-get_elem? (λ id. contains id current ≡ true) s.array i id h read)
      ∙ scan-live current rounds (suc i) s h
]

-- A current ID at the front stays there, and the loop goes on behind it.
pub scan_of-cons :
    (current : List String) (x : String) (xs : List String)
    → contains x current ≡ true
    → scan_of current (x ∷ xs) ≡ grow_left x (scan_of current xs)
unfolding scan
scan_of-cons current x xs h =
    rw h (scan-grow current (length xs) 0 x (record { array = xs; len = length xs }))
