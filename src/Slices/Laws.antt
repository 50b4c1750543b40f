-- ===== src/Slices/Laws.antt =====
-- What a removal does to the slice and to the array behind it.
use keycloak_config_sync_ope.Base.Int.{pos}
use keycloak_config_sync_ope.Base.{
  ℕ, zero, suc, ◌+◌, ◌-◌, ◌≤◌, ◌<◌, ◌≡◌, refl, ap, ◌∙◌, inl, inr, false, List, [], ◌∷◌, arith, leb,
  Bool-cases, length, All,
}
use keycloak_config_sync_ope.Slices.{Slice, copy_left, shift, remove_slice_index, take, elements}

-- The list without the element at an index.
abbrev pub erase_at {ℓ} : {A : Type ℓ} → ℕ → List A → List A
erase_at i [] = []
erase_at zero (x ∷ xs) = xs
erase_at (suc i) (x ∷ xs) = x ∷ erase_at i xs

module _ {A : Type 0} where
  length-copy_left : (x : A) (xs : List A) (n : ℕ) → length (copy_left x xs n) ≡ suc (length xs)
  unfolding copy_left
  length-copy_left x xs zero = refl
  length-copy_left x [] (suc n) = refl
  length-copy_left x (y ∷ ys) (suc n) = ap suc (length-copy_left y ys n)

  pub length-shift : (xs : List A) (i n : ℕ) → length (shift xs i n) ≡ length xs
  unfolding shift
  length-shift [] i n = refl
  length-shift (x ∷ xs) zero n = length-copy_left x xs n
  length-shift (x ∷ xs) (suc i) n = ap suc (length-shift xs i n)

  take-copy_left :
      (x : A) (xs : List A) (n : ℕ) → n ≤ length xs → take n (copy_left x xs n) ≡ take n xs
  unfolding copy_left
  take-copy_left x xs zero h = refl
  take-copy_left x [] (suc n) h = absurd (omega arith)
  take-copy_left x (y ∷ ys) (suc n) h = ap (λ t. y ∷ t) (take-copy_left y ys n (omega arith))

  take-shift :
      (xs : List A) (i m n : ℕ)
      → m ≡ i + n
      → m < length xs
      → take m (shift xs i n) ≡ erase_at i (take (suc m) xs)
  unfolding shift
  take-shift [] i m n e h = absurd (omega arith)
  take-shift (x ∷ xs) zero m n e h =
      let same : m ≡ n = omega arith in rw same (take-copy_left x xs n (omega arith))
  take-shift (x ∷ xs) (suc i) zero n e h = absurd (omega arith)
  take-shift (x ∷ xs) (suc i) (suc m) n e h =
      ap (λ t. x ∷ t) (take-shift xs i m n (omega arith) (omega arith))

  -- The slice loses exactly the element at the index, and the array behind it keeps its length.
  pub elements-remove_slice_index :
      (s : Slice A) (i : ℕ)
      → s.len ≤ length s.array
      → i < s.len
      → (elements (remove_slice_index s (pos i)) ≡ erase_at i (elements s))
        × (length (remove_slice_index s (pos i)).array ≡ length s.array)
        × ((remove_slice_index s (pos i)).len + 1 ≡ s.len)
  unfolding remove_slice_index
  elements-remove_slice_index s i h k =
      let inside : leb s.len i ≡ false = ground arith in
      let whole : s.len ≡ suc (s.len - 1) = omega arith in
      rw inside (
        rw (← whole) at
            (take-shift s.array i (s.len - 1) (s.len - 1 - i) (omega arith) (omega arith)),
        length-shift s.array i (s.len - 1 - i),
        omega arith,
      )

  -- A removal writes nothing to the array that was not in it.
  pub All-copy_left {κ} :
      (P : A → Type κ) (x : A) (xs : List A) (n : ℕ) → P x → All P xs → All P (copy_left x xs n)
  unfolding copy_left
  All-copy_left P x xs zero p h = (p, h)
  All-copy_left P x [] (suc n) p h = (p, tt)
  All-copy_left P x (y ∷ ys) (suc n) p h = (h.0, All-copy_left P y ys n h.0 h.1)

  pub All-copy_left-suc {κ} :
      (P : A → Type κ) (x y : A) (ys : List A) (n : ℕ)
      → All P (y ∷ ys)
      → All P (copy_left x (y ∷ ys) (suc n))
  unfolding copy_left
  All-copy_left-suc P x y ys n h = (h.0, All-copy_left P y ys n h.0 h.1)

  -- A removal at the front of a slice of two or more writes over the first element.
  pub remove_slice_index_front :
      (x y : A) (ys : List A) (n : ℕ)
      → remove_slice_index (record { array = x ∷ y ∷ ys; len = suc (suc n) }) (pos 0)
        ≡ record { array = y ∷ copy_left y ys n; len = suc n }
  unfolding remove_slice_index
  remove_slice_index_front x y ys n =
      let places : suc (suc n) - 1 - 0 ≡ suc n = omega arith in
      let size : suc (suc n) - 1 ≡ suc n = omega arith in ground arith

  All-shift {κ} : (P : A → Type κ) (xs : List A) (i n : ℕ) → All P xs → All P (shift xs i n)
  unfolding shift
  All-shift P [] i n h = tt
  All-shift P (x ∷ xs) zero n h = All-copy_left P x xs n h.0 h.1
  All-shift P (x ∷ xs) (suc i) n h = (h.0, All-shift P xs i n h.1)

  pub All-remove_slice_index {κ} :
      (P : A → Type κ) (s : Slice A) (i : ℕ)
      → All P s.array
      → All P (remove_slice_index s (pos i)).array
  unfolding remove_slice_index
  All-remove_slice_index P s i h = elim (Bool-cases (leb s.len i)) [
    | inl outside ↦ rw outside h
    | inr inside ↦ rw inside (All-shift P s.array i (s.len - 1 - i) h)
  ]

  pub All-elements {κ} : (P : A → Type κ) (n : ℕ) (xs : List A) → All P xs → All P (take n xs)
  All-elements P zero xs h = tt
  All-elements P (suc n) [] h = tt
  All-elements P (suc n) (x ∷ xs) h = (h.0, All-elements P n xs h.1)

  pub take-length : (xs : List A) → take (length xs) xs ≡ xs
  take-length [] = refl
  take-length (x ∷ xs) = ap (λ t. x ∷ t) (take-length xs)

  pub take-copy_left_all :
      (x : A) (xs : List A) → take (length xs) (copy_left x xs (length xs)) ≡ xs
  take-copy_left_all x xs = take-copy_left x xs (length xs) (omega arith) ∙ take-length xs
