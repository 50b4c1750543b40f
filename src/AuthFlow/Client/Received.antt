-- ===== src/AuthFlow/Client/Received.antt =====
-- What the client makes of an answer of Keycloak.
use keycloak_config_sync_ope.Base.{
  ℕ, ◌≤◌, ◌<◌, ◌≡◌, refl, ◌⊎◌, inl, inr, none, some, nat_eq, Option-cases, sentinel, Result, ok,
  err, Result-cases,
}
use keycloak_config_sync_ope.Base.{nil_response}
use keycloak_config_sync_ope.Keycloakv2.{is_not_found}
use keycloak_config_sync_ope.Keycloakv2.Responses.{
  Bodies, check_response_error, check_response_error-IsClassified,
}
use keycloak_config_sync_ope.AuthFlow.Client.{Reply, Answer, receive}

-- What becomes of an answer: an error of the transport and a nil answer are errors, a nil HTTP
-- response is accepted, and otherwise the status code decides.
abbrev pub IsReceived : {J : Type 0} → Answer J → Result (Reply J) → Type 0
IsReceived (err e) r = r ≡ err e
IsReceived (ok none) r = r ≡ err (sentinel nil_response)
IsReceived (ok (some reply)) (ok accepted) =
    (accepted ≡ reply)
    × ((reply.status ≡ none)
        ⊎ ((code : ℕ) × (reply.status ≡ some code) × (200 ≤ code) × (code < 300)))
IsReceived (ok (some reply)) (err e) =
    (code : ℕ) × (reply.status ≡ some code)
    × ((code < 200) ⊎ (300 ≤ code))
    × (is_not_found e ≡ nat_eq code 404)

receive_coded :
    {J : Type 0} (bodies : Bodies) (reply : Reply J) (code : ℕ)
    → reply.status ≡ some code
    → IsReceived (ok (some reply)) (receive bodies (ok (some reply)))
unfolding receive
receive_coded bodies reply code coded =
    let classified = check_response_error-IsClassified bodies code reply.body in
    elim (Result-cases (check_response_error bodies (some code) reply.body)) [
      | inl (a, e) ↦
          let (low, high) = rw (e) at classified in
          rw (coded) (rw (e) (refl, inr (code, refl, low, high)))
      | inr (x, e) ↦
          let classes = rw (e) at classified in
          rw (coded) (rw (e) (code, refl, classes.0, classes.1))
    ]

-- Every answer is handed on: an error of the transport and a nil answer are errors, a nil HTTP
-- response is accepted, a status code from 200 to 299 is accepted, and any other code is an error
-- that is taken for a missing resource exactly if it is 404.
pub receive-IsReceived :
    {J : Type 0} (bodies : Bodies) (answer : Answer J) → IsReceived answer (receive bodies answer)
unfolding receive check_response_error
receive-IsReceived bodies (err e) = refl
receive-IsReceived bodies (ok none) = refl
receive-IsReceived bodies (ok (some reply)) = elim (Option-cases reply.status) [
  | inl nil ↦ rw (nil) (refl, inl refl)
  | inr (code, coded) ↦ receive_coded bodies reply code coded
]
