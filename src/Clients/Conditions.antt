-- ===== src/Clients/Conditions.antt =====
-- conditions.go: what the conditions of a client tell after a report.
use keycloak_config_sync_ope.Base.{
  ◌≡◌, refl, sym, ap, ◌∙◌, inl, inr, Bool, true, false, not, ◌&&◌, some, String, ◌<>◌,
  if◌then◌else◌, arith, Bool-cases, Option-cases, ==_refl, eq_of_==, Err, ok, err, Result-cases,
  Act, pure, ◌>>=◌,
}
use keycloak_config_sync_ope.Base.Int.{eq_of_eq_ℤ}
use keycloak_config_sync_ope.Base.Dict
use keycloak_config_sync_ope.Base.Dict.{Dict}
use keycloak_config_sync_ope.Directory.Chain.{is_panic}
use keycloak_config_sync_ope.Clients.{
  Condition, ClientState, Reporter, is_same_condition, set_condition, condition_type, report,
  reported,
}

and_parts : {a b : Bool} → (a && b) ≡ true → (a ≡ true) × (b ≡ true)
and_parts {a} {b} h = (ground arith, ground arith)

same_status : (a b : Bool) → (if a then b else not b) ≡ true → a ≡ b
same_status a b h = ground arith

-- The test for a change finds no change in equal conditions only.
equal_of_is_same_condition :
    (new old : Condition) → is_same_condition new (some old) ≡ true → old ≡ new
unfolding is_same_condition
equal_of_is_same_condition new old h =
    let (first, generations) = and_parts h in
    let (second, messages) = and_parts first in
    let (statuses, reasons) = and_parts second in
    let same = same_status old.status new.status statuses in
    let reason = eq_of_== old.reason new.reason reasons in
    let message = eq_of_== old.message new.message messages in
    let generation = eq_of_eq_ℤ old.observed_generation new.observed_generation generations in
    λ i. record {
      status = same i;
      reason = reason i;
      message = message i;
      observed_generation = generation i;
    }

-- A condition that is set is the one that is stored.
pub lookup-set_condition :
    (kind : String) (c : Condition) (s : ClientState)
    → Dict.lookup kind (set_condition kind c s).1.conditions ≡ some c
unfolding set_condition is_same_condition
lookup-set_condition kind c s = elim (Option-cases (Dict.lookup kind s.conditions)) [
  | inl none_stored ↦
      rw (none_stored) (Dict.lookup-insert s.conditions kind kind c ∙ rw (==_refl kind) refl)
  | inr (old, stored) ↦ elim (Bool-cases (is_same_condition c (some old))) [
    | inl same ↦ rw (stored) (rw (same) (stored ∙ ap some (equal_of_is_same_condition c old same)))
    | inr changed ↦
        rw (stored)
          (rw (changed) (Dict.lookup-insert s.conditions kind kind c ∙ rw (==_refl kind) refl))
  ]
]

pub set_condition-succeeds :
    (kind : String) (c : Condition) (s : ClientState) → (set_condition kind c s).0 ≡ ok tt
unfolding set_condition
set_condition-succeeds kind c s =
    elim (Bool-cases (is_same_condition c (Dict.lookup kind s.conditions))) [
      | inl same ↦ rw (same) refl
      | inr changed ↦ rw (changed) refl
    ]

-- The condition of a failure, whose message ends with the text of some error.
abbrev pub failure : Reporter → String → Err → Condition
failure r prefix e = record {
  status = false;
  reason = "KeycloakAPIError";
  message = prefix <> r.texts.error_text e;
  observed_generation = r.generation;
}

abbrev pub success : Reporter → String → String → Condition
success r reason message = record {
  status = true;
  reason = reason;
  message = message;
  observed_generation = r.generation;
}

-- Where a step fails without a panic, the condition of this type tells so.
module _ (r : Reporter) (kind prefix : String) where
  abbrev pub IsReported : ClientState → Type 0
  IsReported s =
      (x : Err) × (Dict.lookup (condition_type r kind) s.conditions ≡ some (failure r prefix x))

  unfoldable pub Reports : {A : Type 0} → Act ClientState A → Type 0
  Reports m =
      (s : ClientState) (e : Err) → (m s).0 ≡ err e → is_panic e ≡ false → IsReported (m s).1

  pub pure-Reports : {A : Type 0} (a : A) → Reports (pure a)
  unfolding Reports
  pure-Reports a s e h calm = cc h

  pub >>=-Reports :
      {A B : Type 0} (m : Act ClientState A) (f : A → Act ClientState B)
      → Reports m
      → ((a : A) → Reports (f a))
      → Reports (m >>= f)
  unfolding Reports
  >>=-Reports m f first next s e h calm = elim (Result-cases (m s).0) [
    | inl (a, done) ↦ rw (done) (next a (m s).1 e (rw (done) at h) calm)
    | inr (x, failed) ↦
        let same : x ≡ e = cc (rw (failed) at h) in rw (failed) (first s x failed (rw (same) calm))
  ]

  pub reported-Reports :
      {A : Type 0} (f : Err → Err) (m : Act ClientState A) → Reports (reported r kind prefix f m)
  unfolding Reports report
  reported-Reports f m s e h calm = elim (Result-cases (m s).0) [
    | inl (a, done) ↦ cc (rw (done) at h)
    | inr (x, failed) ↦ elim (Bool-cases (is_panic x)) [
      | inl panic ↦
          let same : x ≡ e = cc (rw (panic) at (rw (failed) at h)) in
          cc (sym panic ∙ ap is_panic same ∙ calm)
      | inr other ↦
          rw (failed) (rw (other) (x, lookup-set_condition _ (failure r prefix x) (m s).1))
    ]
  ]
