-- ===== src/Base/Runs.antt =====
-- Rules for steps over a state that holds a history of calls: what the calls meet, and a step that
-- succeeds taken apart.
use Prim.Native.String.{String}
use mathlib.Core.Path.{◌≡◌, refl}
use mathlib.Core.Logic.{inl, inr}
use mathlib.Core.Bool.{Bool, true, false}
use mathlib.Core.List.{List}
use keycloak_config_sync_ope.Base.Tests.{if◌then◌else◌}
use keycloak_config_sync_ope.Base.Errors.{ok}
use keycloak_config_sync_ope.Base.Actions.{Act, ◌>>=◌, ◌>>◌, wrap}
use keycloak_config_sync_ope.Base.Traces.{Extends, Extends-trans, Result-cases}

module _ {S : Type 0} where
  pub run->>= :
      {A B : Type 0} (m : Act S A) (f : A → Act S B) (s : S) {b : B}
      → ((m >>= f) s).0 ≡ ok b
      → (a : A) × ((m s).0 ≡ ok a) × (((m >>= f) s) ≡ f a (m s).1)
  run->>= m f s h = elim (Result-cases (m s).0) [
    | inl (a, e) ↦ (a, e, rw e refl)
    | inr (x, e) ↦ cc (rw e at h)
  ]

  -- The same, the result and the state apart.
  pub parts->>= :
      {A B : Type 0} (m : Act S A) (f : A → Act S B) (s : S) {b : B}
      → ((m >>= f) s).0 ≡ ok b
      → (a : A) × ((m s).0 ≡ ok a) × ((f a (m s).1).0 ≡ ok b) × (((m >>= f) s).1 ≡ (f a (m s).1).1)
  parts->>= m f s h = elim (Result-cases (m s).0) [
    | inl (a, e) ↦ (a, e, rw e at h, rw e refl)
    | inr (x, e) ↦ cc (rw e at h)
  ]

  pub run-wrap :
      {A : Type 0} (f : String) (args : List String) (m : Act S A) (s : S) {a : A}
      → (wrap f args m s).0 ≡ ok a
      → (m s).0 ≡ ok a
  run-wrap f args m s h = elim (Result-cases (m s).0) [
    | inl (a, e) ↦ cc (rw e at h)
    | inr (x, e) ↦ cc (rw e at h)
  ]

module _ {S C : Type 0} (calls : S → List C) (P : C → Type 0) where
  -- Every call that `m` makes meets `P`.
  abbrev pub Calls : {A : Type 0} → Act S A → Type 0
  Calls m = (s : S) → Extends P (calls s) (calls (m s).1)

  pub >>=-Calls :
      {A B : Type 0} (m : Act S A) (f : A → Act S B)
      → Calls m
      → ((a : A) → Calls (f a))
      → Calls (m >>= f)
  >>=-Calls m f h k s = elim (Result-cases (m s).0) [
    | inl (a, e) ↦ rw e (Extends-trans (h s) (k a (m s).1))
    | inr (x, e) ↦ rw e (h s)
  ]

  -- A step and what follows its result, where it succeeds.
  pub >>=-Extends :
      {A B : Type 0} (m : Act S A) (f : A → Act S B) (s : S)
      → Extends P (calls s) (calls (m s).1)
      → ((a : A) → (m s).0 ≡ ok a → Extends P (calls (m s).1) (calls (f a (m s).1).1))
      → Extends P (calls s) (calls ((m >>= f) s).1)
  >>=-Extends m f s h k = elim (Result-cases (m s).0) [
    | inl (a, e) ↦ rw e (Extends-trans h (k a e))
    | inr (x, e) ↦ rw e h
  ]

  -- A step and what follows it where it succeeds.
  pub >>-Extends :
      {B : Type 0} (m : Act S (Unit {0})) (n : Act S B) (s : S)
      → Extends P (calls s) (calls (m s).1)
      → ((m s).0 ≡ ok tt → Extends P (calls s) (calls (n (m s).1).1))
      → Extends P (calls s) (calls ((m >> n) s).1)
  >>-Extends m n s h k = elim (Result-cases (m s).0) [
    | inl (a, e) ↦ rw e (k e)
    | inr (x, e) ↦ rw e h
  ]

  pub if-Extends :
      {A : Type 0} (b : Bool) (m n : Act S A) (s : S)
      → (b ≡ true → Extends P (calls s) (calls (m s).1))
      → (b ≡ false → Extends P (calls s) (calls (n s).1))
      → Extends P (calls s) (calls ((if b then m else n) s).1)
  if-Extends true m n s h k = h refl
  if-Extends false m n s h k = k refl
