-- ===== src/Directory/Requests.antt =====
-- The requests that steps make, and how often a chain makes a client again.
use keycloak_config_sync_ope.Base.{
  ℕ, zero, suc, ◌+◌, ◌*◌, ◌≤◌, ◌≡◌, refl, inl, inr, Bool, true, false, Option, none, some, List, [],
  ◌∷◌, arith, String, if◌then◌else◌, Bool-cases, length, All, Err, Result, ok, err, Extends, same,
  more, Extends-trans, Result-cases, Act, pure, fail, ◌>>=◌, ◌>>◌, wrap,
}
use keycloak_config_sync_ope.Base.Runs
use keycloak_config_sync_ope.Base.Dict.{Dict}
use keycloak_config_sync_ope.Directory.{
  RoleRep, Holder, group_realm, group_client, user_realm, user_client, role_composites, Source,
  in_realm, in_client, Call, list_roles, list_mappings, get_role, add_roles, remove_roles,
  create_role, update_role, delete_role, get_clients, find_group, find_child_group,
  get_group_by_path, child_groups, create_group, create_child_group, update_group, user_groups,
  join_group, leave_group, get_identity_provider, federated_identities, link_identity,
  unlink_identity, find_user, create_user, update_user, delete_user, set_password, delete_group,
  delete_identity_provider, delete_realm, new_client, Api, Session, ask, set_id, on_option, recover,
  if_nil, unless_empty, context,
}
use keycloak_config_sync_ope.Directory.Roles.{fetch_missing, apply_diff}

abbrev pub holder_realm : Holder → String
holder_realm (group_realm r g) = r
holder_realm (group_client r g c) = r
holder_realm (user_realm r u) = r
holder_realm (user_client r u c) = r
holder_realm (role_composites r n) = r

abbrev pub source_realm : Source → String
source_realm (in_realm r) = r
source_realm (in_client r c) = r

-- The realm of a request; none for the making of a client.
abbrev pub realm_of : Call → Option String
realm_of (list_roles holder) = some (holder_realm holder)
realm_of (list_mappings r g) = some r
realm_of (get_role source n) = some (source_realm source)
realm_of (add_roles holder rs) = some (holder_realm holder)
realm_of (remove_roles holder rs) = some (holder_realm holder)
realm_of (create_role r role) = some r
realm_of (update_role r n role) = some r
realm_of (delete_role r n) = some r
realm_of (get_clients r c) = some r
realm_of (find_group r n) = some r
realm_of (find_child_group r p n) = some r
realm_of (get_group_by_path r p) = some r
realm_of (child_groups r g) = some r
realm_of (create_group r g) = some r
realm_of (create_child_group r p g) = some r
realm_of (update_group r i g) = some r
realm_of (user_groups r u) = some r
realm_of (join_group r u g) = some r
realm_of (leave_group r u g) = some r
realm_of (get_identity_provider r a) = some r
realm_of (federated_identities r u) = some r
realm_of (link_identity r u a i) = some r
realm_of (unlink_identity r u a) = some r
realm_of (find_user r u) = some r
realm_of (create_user r u) = some r
realm_of (update_user r i u) = some r
realm_of (delete_user r i) = some r
realm_of (set_password r i c) = some r
realm_of (delete_group r i) = some r
realm_of (delete_identity_provider r a) = some r
realm_of (delete_realm r) = some r
realm_of new_client = none

abbrev pub IsFor : String → Call → Type 0
IsFor realm c = realm_of c ≡ some realm

-- Every request that `m` makes meets `P`.
unfoldable pub Makes : {A : Type 0} → (Call → Type 0) → Act Session A → Type 0
Makes P m = Runs.Calls (λ s. s.calls) P m

module _ (P : Call → Type 0) where
  pub ask-Makes :
      {A : Type 0} (c : Call) (answer : List Call → Result A) → P c → Makes P (ask c answer)
  unfolding Makes
  ask-Makes c answer p s = more c p same

  pub pure-Makes : {A : Type 0} (a : A) → Makes P (pure a)
  unfolding Makes
  pure-Makes a s = same

  pub fail-Makes : (A : Type 0) (e : Err) → Makes {A = A} P (fail e)
  unfolding Makes
  fail-Makes A e s = same

  pub set_id-Makes : (id : String) → Makes P (set_id id)
  unfolding Makes
  set_id-Makes id s = same

  pub wrap-Makes :
      {A : Type 0} (f : String) (args : List String) (m : Act Session A)
      → Makes P m
      → Makes P (wrap f args m)
  unfolding Makes
  wrap-Makes f args m h = h

  pub context-Makes :
      {A : Type 0} (f : String) (args : List String) (m : Act Session A)
      → Makes P m
      → Makes P (context f args m)
  unfolding Makes
  context-Makes f args m h = h

  pub >>=-Makes :
      {A B : Type 0} (m : Act Session A) (f : A → Act Session B)
      → Makes P m
      → ((a : A) → Makes P (f a))
      → Makes P (m >>= f)
  unfolding Makes
  >>=-Makes m f = Runs.>>=-Calls (λ s. s.calls) P m f

  pub if-Makes :
      {A : Type 0} (b : Bool) (m n : Act Session A)
      → Makes P m
      → Makes P n
      → Makes P (if b then m else n)
  if-Makes true m n h k = h
  if-Makes false m n h k = k

  pub if_nil-Makes :
      {A : Type 0} (m : Act Session A) (p : Option A) → Makes P m → Makes P (if_nil m p)
  unfolding Makes
  if_nil-Makes m none h s = h s
  if_nil-Makes m (some a) h s = same

  pub unless_empty-Makes :
      {A : Type 0} (f : List A → Act Session (Unit {0})) (xs : List A)
      → ((ys : List A) → Makes P (f ys))
      → Makes P (unless_empty f xs)
  unfolding Makes
  unless_empty-Makes f [] h s = same
  unless_empty-Makes f (x ∷ xs) h s = h (x ∷ xs) s

  pub on_option-Makes :
      {A B : Type 0} (o : Option A) (m : Act Session B) (f : A → Act Session B)
      → Makes P m
      → ((a : A) → Makes P (f a))
      → Makes P (on_option o m f)
  on_option-Makes none m f h k = h
  on_option-Makes (some a) m f h k = k a

  pub recover-Makes :
      {A B : Type 0} (f : Result A → Result B) (m : Act Session A)
      → Makes P m
      → Makes P (recover f m)
  unfolding Makes
  recover-Makes f m h = h

pub ruleset makes = (
  ask-Makes, pure-Makes, fail-Makes, set_id-Makes, wrap-Makes, context-Makes, >>=-Makes, if-Makes,
  if_nil-Makes, unless_empty-Makes, on_option-Makes, recover-Makes, refl,
)

module _ (P : Call → Type 0) where
  fetch_missing-Makes :
      (fetch : String → Act Session RoleRep) (current : Dict RoleRep) (names : List String)
      → ((name : String) → Makes P (fetch name))
      → Makes P (fetch_missing fetch current names)
  unfolding fetch_missing
  fetch_missing-Makes fetch current [] h = pure-Makes P []
  fetch_missing-Makes fetch current (n ∷ ns) h =
      let rest = fetch_missing-Makes fetch current ns h in search (makes, rest) depth 12

  pub apply_diff-Makes :
      (api : Api) (fetch : String → Act Session RoleRep) (holder : Holder) (f g : String)
      (args : List String) (current : Dict RoleRep) (claimed : List String) (stale : List RoleRep)
      → ((name : String) → Makes P (fetch name))
      → ((rs : List RoleRep) → P (add_roles holder rs))
      → ((rs : List RoleRep) → P (remove_roles holder rs))
      → Makes P (apply_diff api fetch holder f g args current claimed stale)
  unfolding apply_diff
  apply_diff-Makes api fetch holder f g args current claimed stale h adds removes =
      search (makes, fetch_missing-Makes) depth 12
