-- ===== src/AuthFlow/Traces.antt =====
-- Rules for the calls that a handler makes: they all meet a predicate, whatever is answered.
use keycloak_config_sync_ope.Base.{
  ◌≡◌, Bool, true, false, List, String, if◌then◌else◌, ok, Extends, same, Act, pure, ◌>>=◌, ◌>>◌,
  wrap,
}
use keycloak_config_sync_ope.Base.Runs
use keycloak_config_sync_ope.AuthFlow.{World, Call}

-- Every call that `m` makes meets `P`.
abbrev pub Allows : {A : Type 0} → (Call → Type 0) → Act World A → Type 0
Allows P m = Runs.Calls (λ w. w.calls) P m

module _ (P : Call → Type 0) where
  pub pure-Allows : {A : Type 0} (a : A) → Allows P (pure a)
  pure-Allows a w = same

  pub >>=-Allows :
      {A B : Type 0} (m : Act World A) (f : A → Act World B)
      → Allows P m
      → ((a : A) → Allows P (f a))
      → Allows P (m >>= f)
  >>=-Allows m f = Runs.>>=-Calls (λ w. w.calls) P m f

  -- A step and what follows its result, where it succeeds.
  pub >>=-Extends :
      {A B : Type 0} (m : Act World A) (f : A → Act World B) (w : World)
      → Extends P w.calls (m w).1.calls
      → ((a : A) → (m w).0 ≡ ok a → Extends P (m w).1.calls (f a (m w).1).1.calls)
      → Extends P w.calls ((m >>= f) w).1.calls
  >>=-Extends m f = Runs.>>=-Extends (λ w. w.calls) P m f

  -- A step and what follows it where it succeeds.
  pub >>-Extends :
      {B : Type 0} (m : Act World (Unit {0})) (n : Act World B) (w : World)
      → Extends P w.calls (m w).1.calls
      → ((m w).0 ≡ ok tt → Extends P w.calls (n (m w).1).1.calls)
      → Extends P w.calls ((m >> n) w).1.calls
  >>-Extends m n = Runs.>>-Extends (λ w. w.calls) P m n

  pub if-Allows :
      {A : Type 0} (b : Bool) (m n : Act World A)
      → (b ≡ true → Allows P m)
      → (b ≡ false → Allows P n)
      → Allows P (if b then m else n)
  if-Allows b m n h k w = Runs.if-Extends (λ v. v.calls) P b m n w (λ e. h e w) (λ e. k e w)

  pub if-Extends :
      {A : Type 0} (b : Bool) (m n : Act World A) (w : World)
      → (b ≡ true → Extends P w.calls (m w).1.calls)
      → (b ≡ false → Extends P w.calls (n w).1.calls)
      → Extends P w.calls ((if b then m else n) w).1.calls
  if-Extends b m n = Runs.if-Extends (λ w. w.calls) P b m n

-- A handler that succeeds, taken apart.
pub >>=-eq-ok :
    {A B : Type 0} (m : Act World A) (f : A → Act World B) (w : World) {b : B}
    → ((m >>= f) w).0 ≡ ok b
    → (a : A) × ((m w).0 ≡ ok a) × (((m >>= f) w) ≡ f a (m w).1)
>>=-eq-ok m f w h = Runs.run->>= m f w h

pub wrap-eq-ok :
    {A : Type 0} (f : String) (args : List String) (m : Act World A) (w : World) {a : A}
    → (wrap f args m w).0 ≡ ok a
    → (m w).0 ≡ ok a
wrap-eq-ok f args m w h = Runs.run-wrap f args m w h
