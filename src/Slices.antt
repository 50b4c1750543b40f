-- ===== src/Slices.antt =====
-- RemoveSliceIndex and RemoveDuplicates of internal/controller/helper/controller_helper.go. A Go
-- slice is the array behind it, from its first element on, and the length of the slice: code that
-- still holds a longer slice of the same array sees what is written to the array.
pub mod Laws
pub mod Duplicates
use keycloak_config_sync_ope.Base.Int.{ℤ, pos, negsuc}
use keycloak_config_sync_ope.Base.{
  ℕ, zero, suc, ◌+◌, ◌-◌, ◌≤◌, ◌<◌, ◌<>◌, ◌≡◌, refl, sym, ap, ◌∙◌, ◌≢◌, ◌↔◌, ◌⊎◌, inl, inr, Bool,
  true, false, not, ◌&&◌, ◌||◌, Option, none, some, List, [], ◌∷◌, ◌++◌, map, arith, String, ltb,
  leb, nat_eq, if◌then◌else◌, Bool-cases, Option-cases, ◌==◌, String_discrete, ==_refl, eq_of_==,
  contains, or_empty, length, get_elem?, select, All, Err, errorf, wrapf, sentinel, Result, ok, err,
  is_ok, Act, pure, fail, ◌>>=◌, ◌>>◌, wrap,
}

pub record Slice (A : Type 0) : Type 0 where
  pub array : List A
  pub len : ℕ

module _ {A : Type 0} where
  -- `copy` of the next `n` elements one place to the left, onto `x` and what follows it.
  unfoldable pub copy_left : A → List A → ℕ → List A
  copy_left x xs zero = x ∷ xs
  copy_left x [] (suc n) = x ∷ []
  copy_left x (y ∷ ys) (suc n) = y ∷ copy_left y ys n

  -- The same from index `i` on.
  unfoldable pub shift : List A → ℕ → ℕ → List A
  unfolding copy_left
  shift [] i n = []
  shift (x ∷ xs) zero n = copy_left x xs n
  shift (x ∷ xs) (suc i) n = x ∷ shift xs i n

  -- `append(s[:i], s[i+1:]...)`, which has room in the array of `s`.
  unfoldable pub remove_slice_index : Slice A → ℤ → Slice A
  unfolding shift
  remove_slice_index s (negsuc _) = s
  remove_slice_index s (pos i) =
      if leb s.len i then s else record { array = shift s.array i (s.len - 1 - i); len = s.len - 1 }

  abbrev pub take : ℕ → List A → List A
  take zero xs = []
  take (suc n) [] = []
  take (suc n) (x ∷ xs) = x ∷ take n xs

  -- What the slice holds.
  abbrev pub elements : Slice A → List A
  elements s = take s.len s.array

-- The loop of `RemoveDuplicates` at text, over the values left; `seen` is the map.
remove_from : List String → List String → List String
remove_from seen [] = []
remove_from seen (val ∷ slice) =
    let fresh = val ∷ remove_from (val ∷ seen) slice in
    let again = remove_from seen slice in if contains val seen then again else fresh

unfoldable pub remove_duplicates : List String → List String
unfolding remove_from
remove_duplicates slice = remove_from [] slice
