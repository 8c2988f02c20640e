-- ===== src/Plugins/Validator/Genuine.antt =====
-- The tokens with which a request passes the JWT plugin.
use helix_gateway.Base.{none, ◌≤◌, ℕ, Text, true, Option, some, ◌≡◌}
use helix_gateway.Plugins.Http.{Claims}
use helix_gateway.Plugins.Validator.{SigningMethod, hmac, other_method, Token}

module _ (parse_with_claims : Text → (SigningMethod → Option Text) → Option Token) (now : ℕ)
    (secret : Text) where
  -- The library accepted the token, with a key function that gives the secret for an HMAC method and
  -- no key for another one, and its expiry, if it has one, is not before now.
  unfoldable pub Accepted : Text → Claims → Type 0
  Accepted token c =
      (key : SigningMethod → Option Text) × (t : Token) × (key hmac ≡ some secret)
      × (key other_method ≡ none)
      × (parse_with_claims token key ≡ some t)
      × (t.valid ≡ true)
      × ((e : ℕ) → t.expires_at ≡ some e → now ≤ e)
      × (t.claims ≡ c)
