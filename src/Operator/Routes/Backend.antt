-- ===== src/Operator/Routes/Backend.antt =====
-- The admin client, server and store keep the reconcilers' contract for routes.
use mathlib.Core.Path.{subst}
use helix_gateway.Base.{
  Text, text_eq_refl, Option, some, none, refl, sym, ◌∙◌, ◌≡◌, lookup, lookup-insert_self,
  lookup-delete, Keyed-lookup,
}
use helix_gateway.Store.Model.{Route}
use helix_gateway.Store.State.{Store, Io, Result, ok, err, notify}
use helix_gateway.Store.Routes.{create_route, update_route, delete_route}
use helix_gateway.Store.Routes.Ends.{create_route-ends, update_route-ends, delete_route-ends}
use helix_gateway.Store.Keying.{IsKeyed}
use helix_gateway.Admin.{Env, Handlers, Payload, limited}
use helix_gateway.Admin.Mux.Segments.{IsSegment}
use helix_gateway.Admin.Server.{Login}
use helix_gateway.Admin.Client
use helix_gateway.Admin.Client.{Web, ClientError, Outcome, done}
use helix_gateway.Admin.Remote.{IsServed, seen-done}
use helix_gateway.Admin.Parity.Routes.{create_route-seen, update_route-seen, delete_route-seen}
use helix_gateway.Operator.Contract.{Contract}

-- Equal but for the identifier and the times.
abbrev pub Same : Route → Route → Type 0
Same x y = record y { id = x.id; created_at = x.created_at; updated_at = x.updated_at } ≡ x

abbrev pub find : Text → Handlers → Option Route
find id h = lookup id h.store.routes

-- The client encodes the record, and the server decodes it.
abbrev pub Fits : {B : Type 0} → Web B Handlers → Env → Route → Type 0
Fits w env x = (b : Text) × (w.write_route x ≡ some b) × (env.json.route (limited b) ≡ some x)

-- If the call gave a record, it is found in the store, and is the record of the call.
abbrev Found : Route → Result Route × Store → Type 0
Found x (ok y, s) = (lookup y.id s.routes ≡ some y) × Same x y
Found x (err f, s) = Unit {0}

abbrev FoundAt : Text → Route → Result Route × Store → Type 0
FoundAt id x (ok y, s) = (lookup y.id s.routes ≡ some y) × Same x y × (y.id ≡ id)
FoundAt id x (err f, s) = Unit {0}

abbrev Gone : Text → Result (Unit {0}) × Store → Type 0
Gone id (ok t, s) = lookup id s.routes ≡ none
Gone id (err f, s) = Unit {0}

create-Found : (io : Io) (s : Store) (x : Route) → Found x (create_route io s x)
unfolding notify
create-Found io s x =
    create_route-ends (Found x) io s x (λ f. tt)
      (λ d free known w. (lookup-insert_self io.uuid _ s.routes, refl)) (λ d f m. tt)

update-FoundAt :
    (io : Io) (s : Store) (id : Text) (x : Route)
    → IsKeyed s
    → FoundAt id x (update_route io s id x)
unfolding notify
update-FoundAt io s id x h =
    update_route-ends (FoundAt id x) io s id x (λ f. tt)
      (λ d old e free known w.
        let own : old.id ≡ id = Keyed-lookup (λ v. v.id) s.routes id old h.routes e in
        (rw own (lookup-insert_self id _ s.routes), refl, own))
      (λ d f old e m. tt)

delete-Gone : (io : Io) (s : Store) (id : Text) → Gone id (delete_route io s id)
unfolding notify
delete-Gone io s id =
    delete_route-ends (Gone id) io s id (λ f. tt)
      (λ d old e w. lookup-delete id id s.routes ∙ (rw (text_eq_refl id) refl)) (λ d f old e m. tt)

-- Through the admin client and the admin server, the store keeps the contract: what it creates or
-- updates is found under the identifier of the answer and is, but for the identifier and the times,
-- what was sent; what it deletes is not found. The server admits the client, what is sent fits, an
-- identifier is one segment of a path, and the records stand under their own identifiers.
pub store_keeps_contract :
    {B : Type 0} (w : Web B Handlers) (c : Client.Client) (login : Login) (env : Env)
    (render : Payload → B)
    → IsServed w c login env render
    → Contract
        (Client.create_route w c)
        (Client.update_route w c)
        (Client.delete_route w c)
        find
        (λ x. x.id)
        Same
        (Fits w env)
        IsSegment
        (λ h. IsKeyed h.store)
store_keeps_contract w c login env render net = record {
  created = λ x y s t (b, e, d) good h.
      let p = create_route env.io s.store x in
      let (q, at) =
        seen-done env s _ _ p y t
          (sym (create_route-seen w c login env render net s x b e d) ∙ h) in
      let f : Found x (ok y, p.1) =
        subst (λ r. Found x (r, p.1)) q (create-Found env.io s.store x) in
      (subst (λ u. find y.id u ≡ some y) at f.0, f.1);
  updated = λ id x y s t i (b, e, d) good h.
      let p = update_route env.io s.store id x in
      let (q, at) =
        seen-done env s _ _ p y t
          (sym (update_route-seen w c login env render net s id x b i e d) ∙ h) in
      let f : FoundAt id x (ok y, p.1) =
        subst (λ r. FoundAt id x (r, p.1)) q (update-FoundAt env.io s.store id x good) in
      (subst (λ u. find y.id u ≡ some y) at f.0, f.1, f.2);
  deleted = λ id s t i h.
      let p = delete_route env.io s.store id in
      let (q, at) =
        seen-done env s _ _ p tt t (sym (delete_route-seen w c login env render net s id i) ∙ h) in
      let f : Gone id (ok tt, p.1) =
        subst (λ r. Gone id (r, p.1)) q (delete-Gone env.io s.store id) in
      subst (λ u. find id u ≡ none) at f;
}
