-- ===== src/Secretref/References.antt =====
-- A generated reference reads the key that it names, and a malformed one is refused.
use Prim.Native.Char.{Char, code}
use text.Mathlib.TextLemmas.{cons-append, nil-append}
use keycloak_config_sync_ope.Base.{
  ℕ, suc, ◌<>◌, ◌≡◌, refl, ◌≢◌, Bool, true, false, List, [], ◌∷◌, arith, String, nat_eq,
  if◌then◌else◌, length, errorf, err,
}
use keycloak_config_sync_ope.Secretref.{
  Secrets, has_secret_ref, has_keycloak_ref, tail, extend, split, read_key, read_parts,
  get_secret_from_ref, generate_secret_ref,
}

-- How often a character stands in a text.
unfoldable pub occurrences : ℕ → String → ℕ
occurrences sep String.[] = 0
occurrences sep (String.◌∷◌ c s) =
    let rest = occurrences sep s in if nat_eq (code c) sep then suc rest else rest

-- The text begins with `{`.
unfoldable pub begins_with_brace : String → Bool
begins_with_brace String.[] = false
begins_with_brace (String.◌∷◌ c s) = nat_eq (code c) b'{'

length-extend : (c : Char) (ps : List String) → length (extend c ps) ≡ length ps
unfolding extend
length-extend c [] = refl
length-extend c (p ∷ ps) = refl

length-split : (sep : ℕ) (s : String) → length (split sep s) ≡ suc (occurrences sep s)
unfolding split occurrences
length-split sep String.[] = refl
length-split sep (String.◌∷◌ c s) =
    ground (arith, length-split sep s, length-extend c (split sep s))

split_no_sep : (sep : ℕ) (s : String) → occurrences sep s ≡ 0 → split sep s ≡ s ∷ []
unfolding split occurrences
split_no_sep sep String.[] h = refl
split_no_sep sep (String.◌∷◌ c s) h = ground (arith, split_no_sep sep s)

extend_lem : (c : Char) (p : String) (ps : List String) → extend c (p ∷ ps) ≡ String.◌∷◌ c p ∷ ps
unfolding extend
extend_lem c p ps = refl

one_char : (c : Char) (s : String) → String.◌∷◌ c String.[] <> s ≡ String.◌∷◌ c s
one_char c s = rw (cons-append, nil-append) refl

split_colon :
    (name key : String)
    → occurrences b':' name ≡ 0
    → split b':' (name <> String.◌∷◌ ":" key) ≡ name ∷ split b':' key
unfolding split occurrences
split_colon String.[] key h = rw nil-append refl
split_colon (String.◌∷◌ c s) key h = rw cons-append (grind (arith, split_colon s key, extend_lem))

has_keycloak_ref_generated :
    (name key : String)
    → begins_with_brace name ≡ false
    → has_keycloak_ref (String.◌∷◌ "$" (name <> String.◌∷◌ ":" key)) ≡ false
unfolding has_keycloak_ref begins_with_brace
has_keycloak_ref_generated String.[] key h = rw nil-append refl
has_keycloak_ref_generated (String.◌∷◌ c s) key h = rw cons-append h

-- The prefix itself is no colon.
occurrences-tail :
    (ref : String) → has_secret_ref ref ≡ true → occurrences b':' (tail ref) ≡ occurrences b':' ref
unfolding has_secret_ref occurrences tail
occurrences-tail String.[] h = refl
occurrences-tail (String.◌∷◌ c s) h = ground arith

read_parts_malformed :
    (secrets : Secrets) (ns ref : String) (parts : List String)
    → length parts ≢ 2
    → read_parts secrets ns ref parts
      ≡ err (
          errorf "invalid config secret  reference %s is not in format '$secretName:secretKey'"
            (ref ∷ []))
unfolding read_parts
read_parts_malformed secrets ns ref [] h = refl
read_parts_malformed secrets ns ref (_ ∷ []) h = refl
read_parts_malformed secrets ns ref (_ ∷ _ ∷ []) h = absurd (h refl)
read_parts_malformed secrets ns ref (_ ∷ _ ∷ _ ∷ _) h = refl

-- A reference that is generated from a secret name and a key, neither with a colon and the name
-- not beginning with a brace, resolves to what a read of that key gives, errors included.
pub get_secret_from_ref-generate_secret_ref :
    (secrets : Secrets) (ns name key : String)
    → occurrences b':' name ≡ 0
    → occurrences b':' key ≡ 0
    → begins_with_brace name ≡ false
    → get_secret_from_ref secrets (generate_secret_ref name key) ns ≡ read_key secrets ns name key
unfolding get_secret_from_ref generate_secret_ref
get_secret_from_ref-generate_secret_ref secrets ns name key hn hk hb =
    rw (one_char "$" (name <> (":" <> key)), one_char ":" key)
      (rw
        (has_keycloak_ref_generated name key hb, split_colon name key hn, split_no_sep b':' key hk)
        refl)

-- A value with the reference prefix that is not Keycloak's own and does not hold exactly one colon
-- is refused, whatever the secrets are.
pub get_secret_from_ref_malformed :
    (secrets : Secrets) (ns ref : String)
    → has_secret_ref ref ≡ true
    → has_keycloak_ref ref ≡ false
    → occurrences b':' ref ≢ 1
    → get_secret_from_ref secrets ref ns
      ≡ err (
          errorf "invalid config secret  reference %s is not in format '$secretName:secretKey'"
            (ref ∷ []))
unfolding get_secret_from_ref
get_secret_from_ref_malformed secrets ns ref h k n =
    rw (h, k)
      (read_parts_malformed secrets ns ref (split b':' (tail ref))
        λ e. n (omega (arith, length-split b':' (tail ref), occurrences-tail ref h)))
