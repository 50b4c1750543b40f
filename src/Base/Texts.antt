-- ===== src/Base/Texts.antt =====
-- Go strings: equality as a decision, `strings.HasPrefix`, `strings.Split` and `strings.TrimRight`
-- at one ASCII character.
use Prim.Native.String.{String}
use mathlib.Core.Path.{◌≡◌, refl}
use mathlib.Core.Logic.{ite, dite}
use mathlib.Core.Bool.{Bool, true, false, Bool-discrete, ◌||◌, ◌&&◌}
use mathlib.Core.Option.{Option, none, some}
use mathlib.Core.List.{List, [], ◌∷◌}
use native.Mathlib.Omega.{arith}
use text.Mathlib.Text
use text.Mathlib.TextEquality.{eq_iff}

-- Shut in proofs, where a split on `s == t` yields the equation or its negation.
unfoldable pub String_discrete : Discrete String
String_discrete s t =
    dite (Bool-discrete (Text.◌==◌ s t) true) (λ same. yes ((eq_iff s t).0 same))
      (λ differ. no (λ p. differ ((eq_iff s t).1 p)))

infix 50 ◌==◌
abbrev pub ◌==◌ : String → String → Bool
s == t = ite (String_discrete s t) true false

pub ==_refl : (s : String) → (s == s) ≡ true
==_refl s = ground arith

pub eq_of_== : (s t : String) → (s == t) ≡ true → s ≡ t
eq_of_== s t h = ground arith

-- `slices.Contains`, and the loops of the source that do the same.
abbrev pub contains : String → List String → Bool
contains s [] = false
contains s (t ∷ ts) = s == t || contains s ts

-- `*p` of a `*string` with the zero value for nil.
abbrev pub or_empty : Option String → String
or_empty none = ""
or_empty (some s) = s

-- Every text of the first list is in the second.
abbrev pub are_listed : List String → List String → Bool
are_listed [] ys = true
are_listed (x ∷ xs) ys = contains x ys && are_listed xs ys

pub are_listed_of :
    (xs ys : List String)
    → ((x : String) → contains x xs ≡ true → contains x ys ≡ true)
    → are_listed xs ys ≡ true
are_listed_of [] ys h = refl
are_listed_of (x ∷ xs) ys h =
    let here : contains x ys ≡ true = h x (let same_one = ==_refl x in ground arith) in
    let there = are_listed_of xs ys (λ y listed. h y (ground arith)) in ground arith

pub listed_in :
    (x : String) (xs ys : List String)
    → are_listed xs ys ≡ true
    → contains x xs ≡ true
    → contains x ys ≡ true
listed_in x [] ys h k = cc
listed_in x (z ∷ xs) ys h k = let rest = listed_in x xs ys in grind arith
