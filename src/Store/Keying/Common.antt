-- ===== src/Store/Keying/Common.antt =====
-- The store whose records stand under their identifiers.
use helix_gateway.Base.{Keyed}
use helix_gateway.Store.State.{Store, Result}
use helix_gateway.Store.Calls.{status}

pub record IsKeyed (s : Store) : Type 0 where
  pub routes : Keyed (λ r. r.id) s.routes
  pub upstreams : Keyed (λ u. u.id) s.upstreams
  pub policies : Keyed (λ p. p.id) s.policies

abbrev pub After : {A : Type 0} → Result A × Store → Type 0
After p = IsKeyed (status p).1
