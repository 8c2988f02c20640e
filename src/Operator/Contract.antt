-- ===== src/Operator/Contract.antt =====
-- What the reconcilers count on in the gateway, for one kind of record.
use helix_gateway.Base.{Text, Option, some, none, ◌≡◌}
use helix_gateway.Admin.Client.{Outcome, done}

-- A created or updated record is found under its identifier and is what was sent, and a deleted one
-- is not found. `Fits` says that a record can be sent, and `Names` that a text can be the identifier
-- in a request; `Good` is the invariant of the gateway's state.
pub record Contract {S X : Type 0} (create : X → S → Outcome X × S)
    (update : Text → X → S → Outcome X × S) (delete : Text → S → Outcome (Unit {0}) × S)
    (find : Text → S → Option X) (id_of : X → Text) (Same : X → X → Type 0) (Fits : X → Type 0)
    (Names : Text → Type 0) (Good : S → Type 0) : Type 0 where
  pub created :
      (x y : X) (s t : S)
      → Fits x
      → Good s
      → create x s ≡ (done y, t)
      → (find (id_of y) t ≡ some y) × Same x y
  pub updated :
      (id : Text) (x y : X) (s t : S)
      → Names id
      → Fits x
      → Good s
      → update id x s ≡ (done y, t)
      → (find (id_of y) t ≡ some y) × Same x y × (id_of y ≡ id)
  pub deleted : (id : Text) (s t : S) → Names id → delete id s ≡ (done tt, t) → find id t ≡ none
