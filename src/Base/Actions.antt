-- ===== src/Base/Actions.antt =====
-- Code that may fail and that acts on a state `S`: what it has in memory and the calls that it
-- has made to Keycloak and to Kubernetes. A failed step keeps what was done before it.
use Prim.Native.String.{String}
use mathlib.Core.List.{List}
use keycloak_config_sync_ope.Base.Errors.{Err, Result, ok, err, wrapf}

abbrev pub Act : Type 0 → Type 0 → Type 0
Act S A = S → Result A × S

abbrev pub pure : {S A : Type 0} → A → Act S A
pure a s = (ok a, s)

abbrev pub fail : {S A : Type 0} → Err → Act S A
fail e s = (err e, s)

abbrev pub after : {S A B : Type 0} → Result A → (A → Act S B) → Act S B
after (ok a) f s = f a s
after (err e) f s = (err e, s)

infixl 5 ◌>>=◌ ◌>>◌
abbrev pub ◌>>=◌ : {S A B : Type 0} → Act S A → (A → Act S B) → Act S B
◌>>=◌ m f s = after (m s).0 f (m s).1

abbrev pub ◌>>◌ : {S B : Type 0} → Act S (Unit {0}) → Act S B → Act S B
m >> k = m >>= λ _. k

abbrev pub map_err : {A : Type 0} → (Err → Err) → Result A → Result A
map_err f (ok a) = ok a
map_err f (err e) = err (f e)

-- `if err != nil { return fmt.Errorf(format, args..., err) }`
abbrev pub wrap : {S A : Type 0} → String → List String → Act S A → Act S A
wrap f args m s = (map_err (wrapf f args) (m s).0, (m s).1)
