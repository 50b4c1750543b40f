-- ===== src/Base/Traces.antt =====
-- Histories of calls, newest first.
use mathlib.Core.Path.{◌≡◌, refl, ap}
use mathlib.Core.Logic.{◌⊎◌, inl, inr}
use mathlib.Core.List.{List, ◌∷◌}
use keycloak_config_sync_ope.Base.Errors.{Err, Result, ok, err}

-- A later history is an earlier one with calls in front that all meet `P`.
pub data Extends {C : Type 0} (P : C → Type 0) (earlier : List C) : List C → Type 0 where
  same : Extends P earlier earlier
  more : {later : List C} (c : C) → P c → Extends P earlier later → Extends P earlier (c ∷ later)

module _ {C : Type 0} {P : C → Type 0} where
  pub Extends-trans : {a b c : List C} → Extends P a b → Extends P b c → Extends P a c
  Extends-trans h same = h
  Extends-trans h (more c p k) = more c p (Extends-trans h k)

  -- One call, then others.
  pub Extends-after : {a b : List C} (c : C) → P c → Extends P (c ∷ a) b → Extends P a b
  Extends-after c p k = Extends-trans (more c p same) k

pub Extends-map :
    {C : Type 0} {P Q : C → Type 0} {a b : List C}
    → ((c : C) → P c → Q c)
    → Extends P a b
    → Extends Q a b
Extends-map f same = same
Extends-map f (more c p k) = more c (f c p) (Extends-map f k)

pub Result-cases : {A : Type 0} (r : Result A) → ((a : A) × (r ≡ ok a)) ⊎ ((e : Err) × (r ≡ err e))
Result-cases (ok a) = inl (a, refl)
Result-cases (err e) = inr (e, refl)

abbrev from_result : {A : Type 0} → A → Result A → A
from_result a (ok b) = b
from_result a (err e) = a

pub ok-injective : {A : Type 0} {a b : A} → ok a ≡ ok b → a ≡ b
ok-injective {a = a} h = ap (from_result a) h
