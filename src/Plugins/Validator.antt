-- ===== src/Plugins/Validator.antt =====
-- internal/auth/jwt.go: the validator of tokens. jwt.ParseWithClaims, of golang-jwt, is a parameter:
-- it takes a token and the function that gives the key for a signing method.
pub mod Genuine
use helix_gateway.Base.{ℕ, ltb, not, Text, Bool, true, false, Option, none, some, if◌then◌else◌}
use helix_gateway.Plugins.Http.{Claims}

-- The method that a token names: one of the SigningMethodHMAC, or another.
pub data SigningMethod : Type 0 where
  hmac : SigningMethod
  other_method : SigningMethod

-- jwt.Token with its claims, of which the expiry is optional.
pub record Token : Type 0 where
  pub claims : Claims
  pub expires_at : Option ℕ
  pub valid : Bool

-- The key function of Parse, with `none` for its error.
unfoldable pub key_for : Text → SigningMethod → Option Text
key_for secret hmac = some secret
key_for secret other_method = none

abbrev pub is_expired : ℕ → Option ℕ → Bool
is_expired now none = false
is_expired now (some e) = ltb e now

-- Validator.Parse at the time `now`, with `none` for an error. The claims have the type that Parse
-- passes in.
unfoldable pub parse :
    (Text → (SigningMethod → Option Text) → Option Token) → ℕ → Text → Text → Option Claims
parse parse_with_claims now secret token = elim (parse_with_claims token (key_for secret)) [
  | none ↦ none
  | some t ↦
      if not t.valid then none else if is_expired now t.expires_at then none else some t.claims
]
