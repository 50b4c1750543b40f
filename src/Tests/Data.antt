-- ===== src/Tests/Data.antt =====
-- A flow with one execution and one child flow, a Keycloak that accepts everything, and a sort.
use keycloak_config_sync_ope.Base.{
  if◌then◌else◌, arith, ◌≡◌, Bool, true, false, Bool-cases, inl, inr, not, ltb, none, some, List,
  [], ◌∷◌, ok, All, All-map,
}
use keycloak_config_sync_ope.Base.Int.{ℤ, pos, negsuc, ◌≤ℤ◌}
use keycloak_config_sync_ope.AuthFlow.{
  AuthenticationExecution, KeycloakAuthFlowSpec, ExecutionInfo, Api, World,
}
use keycloak_config_sync_ope.AuthFlow.Sync.Adding.{IsOrdered, IsSort}
use mathlib.Core.List.{Perm}
use mathlib.Core.List.Perm

abbrev pub cookie : AuthenticationExecution
cookie = record {
  authenticator = "auth-cookie";
  authenticator_config = none;
  authenticator_flow = false;
  priority = pos 10;
  requirement = "ALTERNATIVE";
  alias = "";
  flow_v1 = false;
}

abbrev pub forms : AuthenticationExecution
forms = record {
  authenticator = "";
  authenticator_config = none;
  authenticator_flow = true;
  priority = pos 20;
  requirement = "REQUIRED";
  alias = "forms";
  flow_v1 = false;
}

abbrev pub spec : KeycloakAuthFlowSpec
spec = record {
  realm_ref = record { kind = "KeycloakRealm"; name = "staff" };
  config_ref = record { url = ""; secret = "" };
  alias = "login";
  description = "";
  provider_id = "basic-flow";
  top_level = true;
  built_in = false;
  authentication_executions = cookie ∷ forms ∷ [];
  parent_name = "";
  child_type = "";
  child_requirement = "";
  reconciliation_strategy = "";
}

-- A stale execution and the child flow, as Keycloak lists them.
abbrev pub stale_execution : ExecutionInfo
stale_execution = record {
  authentication_flow = some false;
  display_name = some "Cookie";
  flow_id = none;
  id = some "e1";
  level = some (pos 0);
  priority = some (pos 1);
  requirement = some "DISABLED";
  rest = [];
}

abbrev pub child_execution : ExecutionInfo
child_execution = record {
  authentication_flow = some true;
  display_name = some "forms";
  flow_id = some "f2";
  id = some "e2";
  level = some (pos 0);
  priority = some (pos 1);
  requirement = some "DISABLED";
  rest = [];
}

abbrev pub listed : List ExecutionInfo
listed = stale_execution ∷ child_execution ∷ []

abbrev pub keycloak : Api
keycloak = record {
  on_get_auth_flows = λ calls realm. ok (
      record { alias = some "login"; id = some "f1" }
      ∷ record { alias = some "browser"; id = some "f0" }
      ∷ []);
  on_create_auth_flow = λ calls realm rep. ok (some "/flows/f1");
  on_update_auth_flow = λ calls realm id rep. ok tt;
  on_delete_auth_flow = λ calls realm id. ok tt;
  on_get_flow_executions = λ calls realm alias. ok listed;
  on_add_child_flow = λ calls realm alias child. ok tt;
  on_add_execution = λ calls realm e. ok (some "/executions/e3");
  on_update_execution = λ calls realm alias e. ok tt;
  on_delete_execution = λ calls realm id. ok tt;
  on_create_execution_config = λ calls realm id config. ok tt;
  on_get_realm = λ calls realm. ok (some "login");
  on_update_realm = λ calls realm alias. ok tt;
  on_list_auth_flows = λ calls. ok (spec ∷ []);
  urls = record { escaped_path = λ url. some url; path_unescape = λ segment. some segment };
}

abbrev pub world : World
world = record {
  status = record { error = ""; phase = ""; failure_count = pos 0; id = "f1" };
  calls = [];
}

-- An insertion sort by priority.
abbrev leb_ℤ : ℤ → ℤ → Bool
leb_ℤ (pos a) (pos b) = not (ltb b a)
leb_ℤ (pos a) (negsuc b) = false
leb_ℤ (negsuc a) (pos b) = true
leb_ℤ (negsuc a) (negsuc b) = not (ltb a b)

insert : AuthenticationExecution → List AuthenticationExecution → List AuthenticationExecution
insert e [] = e ∷ []
insert e (f ∷ execs) =
    let rest = insert e execs in if leb_ℤ e.priority f.priority then e ∷ f ∷ execs else f ∷ rest

unfoldable pub sort : List AuthenticationExecution → List AuthenticationExecution
unfolding insert
sort [] = []
sort (e ∷ execs) = insert e (sort execs)

leb_ℤ-true : (a b : ℤ) → leb_ℤ a b ≡ true → a ≤ℤ b
leb_ℤ-true (pos a) (pos b) h = ground arith
leb_ℤ-true (pos a) (negsuc b) h = ground arith
leb_ℤ-true (negsuc a) (pos b) h = tt
leb_ℤ-true (negsuc a) (negsuc b) h = ground arith

leb_ℤ-false : (a b : ℤ) → leb_ℤ a b ≡ false → b ≤ℤ a
leb_ℤ-false (pos a) (pos b) h = ground arith
leb_ℤ-false (pos a) (negsuc b) h = tt
leb_ℤ-false (negsuc a) (pos b) h = ground arith
leb_ℤ-false (negsuc a) (negsuc b) h = ground arith

≤ℤ_trans : (a b c : ℤ) → a ≤ℤ b → b ≤ℤ c → a ≤ℤ c
≤ℤ_trans (pos a) (pos b) (pos c) h k = omega arith
≤ℤ_trans (negsuc a) (negsuc b) (negsuc c) h k = omega arith
≤ℤ_trans (negsuc a) b (pos c) h k = tt
≤ℤ_trans (pos a) (pos b) (negsuc c) h k = k
≤ℤ_trans (pos a) (negsuc b) c h k = elim h [ ]
≤ℤ_trans (negsuc a) (pos b) (negsuc c) h k = elim k [ ]

insert-Perm :
    (e : AuthenticationExecution) (execs : List AuthenticationExecution)
    → Perm (insert e execs) (e ∷ execs)
unfolding insert
insert-Perm e [] = Perm.refl (e ∷ [])
insert-Perm e (f ∷ execs) = elim (Bool-cases (leb_ℤ e.priority f.priority)) [
  | inl before ↦ rw before (Perm.refl (e ∷ f ∷ execs))
  | inr after ↦ rw after (Perm.trans (Perm.cons f (insert-Perm e execs)) (Perm.swap e f execs))
]

sort-Perm : (execs : List AuthenticationExecution) → Perm (sort execs) execs
unfolding sort
sort-Perm [] = Perm.refl []
sort-Perm (e ∷ execs) = Perm.trans (insert-Perm e (sort execs)) (Perm.cons e (sort-Perm execs))

All-insert :
    (P : AuthenticationExecution → Type 0) (e : AuthenticationExecution)
    (execs : List AuthenticationExecution)
    → P e
    → All P execs
    → All P (insert e execs)
unfolding insert
All-insert P e [] p h = (p, tt)
All-insert P e (f ∷ execs) p h = elim (Bool-cases (leb_ℤ e.priority f.priority)) [
  | inl before ↦ rw before (p, h)
  | inr after ↦ rw after (h.0, All-insert P e execs p h.1)
]

insert-IsOrdered :
    (e : AuthenticationExecution) (execs : List AuthenticationExecution)
    → IsOrdered execs
    → IsOrdered (insert e execs)
unfolding insert
insert-IsOrdered e [] h = (tt, tt)
insert-IsOrdered e (f ∷ execs) h = elim (Bool-cases (leb_ℤ e.priority f.priority)) [
  | inl before ↦
      let first = leb_ℤ-true e.priority f.priority before in
      rw before (
        (first, All-map _ _ execs (λ g k. ≤ℤ_trans e.priority f.priority g.priority first k) h.0),
        h,
      )
  | inr after ↦ rw after (
    All-insert (λ g. f.priority ≤ℤ g.priority) e execs (leb_ℤ-false e.priority f.priority after)
        h.0,
    insert-IsOrdered e execs h.1,
  )
]

sort-IsOrdered : (execs : List AuthenticationExecution) → IsOrdered (sort execs)
unfolding sort
sort-IsOrdered [] = tt
sort-IsOrdered (e ∷ execs) = insert-IsOrdered e (sort execs) (sort-IsOrdered execs)

pub sort-IsSort : IsSort sort
sort-IsSort execs = (sort-Perm execs, sort-IsOrdered execs)
