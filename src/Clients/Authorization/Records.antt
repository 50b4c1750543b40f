-- ===== src/Clients/Authorization/Records.antt =====
-- What the requests of a handler leave on record of one part.
use keycloak_config_sync_ope.Base.{
  ◌≡◌, refl, ◌∙◌, inl, inr, Bool, true, false, not, ◌&&◌, ◌||◌, Option, none, some, List, [], ◌∷◌,
  arith, String, if◌then◌else◌, Bool-cases, ◌==◌, ==_refl, Err, Result, ok, err, Result-cases, Act,
  pure, fail, ◌>>=◌, wrap,
}
use keycloak_config_sync_ope.Base.Dict
use keycloak_config_sync_ope.Base.Dict.{Dict}
use keycloak_config_sync_ope.Directory.Chain.{is_panic}
use keycloak_config_sync_ope.Clients.{
  Entity, Kind, scope, resource, policy, permission, Place, Rep, scope_rep, resource_rep,
  policy_rep, permission_rep, Call, list, create, delete, Listing, ClientState, ask, Reporter,
  set_condition, report, Condition, branch, is_same_condition,
}

abbrev pub same_kind : Kind → Kind → Bool
same_kind scope scope = true
same_kind resource resource = true
same_kind policy policy = true
same_kind permission permission = true
same_kind _ _ = false

abbrev pub same_place : Place → Place → Bool
same_place p q = same_kind p.kind q.kind && p.realm == q.realm && p.client == q.client

same_kind_refl : (k : Kind) → same_kind k k ≡ true
same_kind_refl scope = refl
same_kind_refl resource = refl
same_kind_refl policy = refl
same_kind_refl permission = refl

pub same_place_refl : (p : Place) → same_place p p ≡ true
same_place_refl p =
    let kinds = same_kind_refl p.kind in
    let realms = ==_refl p.realm in let clients = ==_refl p.client in ground arith

abbrev pub rep_name : Rep → String
rep_name (scope_rep name) = name
rep_name (resource_rep r) = r.name
rep_name (policy_rep p) = p.name
rep_name (permission_rep p) = p.name

-- Whether a part is on record under a name after these calls, newest first, where its ID is `id` and
-- where it was at first as `start` says.
module _ (place : Place) (name id : String) (start : Bool) where
  abbrev pub after_call : Call → Bool → Bool
  after_call (create p rep) before = same_place p place && rep_name rep == name || before
  after_call (delete p deleted) before = not (same_place p place && deleted == id) && before
  after_call _ before = before

  unfoldable pub is_on_record : List Call → Bool
  is_on_record [] = start
  is_on_record (c ∷ cs) = after_call c (is_on_record cs)

  -- A step that leaves what is on record, whatever it answers.
  unfoldable pub Keeps : {A : Type 0} → Act ClientState A → Type 0
  Keeps m = (s : ClientState) → is_on_record (m s).1.calls ≡ is_on_record s.calls

  pub pure-Keeps : {A : Type 0} (a : A) → Keeps (pure a)
  unfolding Keeps
  pure-Keeps a s = refl

  pub fail-Keeps : (A : Type 0) (e : Err) → Keeps (fail {A = A} e)
  unfolding Keeps
  fail-Keeps A e s = refl

  pub wrap-Keeps :
      {A : Type 0} (f : String) (args : List String) (m : Act ClientState A)
      → Keeps m
      → Keeps (wrap f args m)
  unfolding Keeps
  wrap-Keeps f args m h = h

  pub >>=-Keeps :
      {A B : Type 0} (m : Act ClientState A) (f : A → Act ClientState B)
      → Keeps m
      → ((a : A) → Keeps (f a))
      → Keeps (m >>= f)
  unfolding Keeps
  >>=-Keeps m f h k s = elim (Result-cases (m s).0) [
    | inl (a, e) ↦ rw (e) (k a (m s).1 ∙ h s)
    | inr (x, e) ↦ rw (e) (h s)
  ]

  pub if-Keeps :
      {A : Type 0} (b : Bool) (m n : Act ClientState A)
      → Keeps m
      → Keeps n
      → Keeps (if b then m else n)
  if-Keeps true m n h k = h
  if-Keeps false m n h k = k

  pub branch-Keeps :
      {A B : Type 0} (o : Option A) (m : Act ClientState B) (f : A → Act ClientState B)
      → Keeps m
      → ((a : A) → Keeps (f a))
      → Keeps (branch o m f)
  branch-Keeps none m f h k = h
  branch-Keeps (some a) m f h k = k a

  pub list-Keeps :
      (listing : Listing) (answer : List Call → Result (Dict Entity))
      → Keeps (ask (list listing) answer)
  unfolding Keeps is_on_record
  list-Keeps listing answer s = refl

pub ruleset keeps =
    (pure-Keeps, fail-Keeps, wrap-Keeps, >>=-Keeps, if-Keeps, list-Keeps, branch-Keeps)

pub calls-set_condition :
    (kind : String) (c : Condition) (s : ClientState) → (set_condition kind c s).1.calls ≡ s.calls
unfolding set_condition
calls-set_condition kind c s =
    elim (Bool-cases (is_same_condition c (Dict.lookup kind s.conditions))) [
      | inl old ↦ rw (old) refl
      | inr new ↦ rw (new) refl
    ]

pub calls-report :
    {A : Type 0} (r : Reporter) (kind prefix : String) (f : Err → Err) (res : Result A)
    (s : ClientState)
    → (report r kind prefix f res s).1.calls ≡ s.calls
unfolding report
calls-report r kind prefix f (ok a) s = refl
calls-report r kind prefix f (err e) s = elim (Bool-cases (is_panic e)) [
  | inl panic ↦ rw (panic) refl
  | inr other ↦ rw (other) (calls-set_condition _ _ s)
]

-- A step whose errors are reported succeeds if it does without.
pub ok-report :
    {A : Type 0} (r : Reporter) (kind prefix : String) (f : Err → Err) (res : Result A)
    (s : ClientState) {a : A}
    → (report r kind prefix f res s).0 ≡ ok a
    → res ≡ ok a
unfolding report
ok-report r kind prefix f (ok a) s h = h
ok-report r kind prefix f (err e) s h = elim (Bool-cases (is_panic e)) [
  | inl panic ↦ cc (rw (panic) at h)
  | inr other ↦ cc (rw (other) at h)
]
