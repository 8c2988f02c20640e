-- ===== src/Operator/Policies/Backend.antt =====
-- The admin client, server and store keep the reconcilers' contract for IP policies.
use mathlib.Core.Path.{subst}
use helix_gateway.Base.{
  Text, text_eq_refl, Option, some, none, refl, sym, ◌∙◌, ◌≡◌, lookup, lookup-insert_self,
  lookup-delete, Keyed-lookup,
}
use helix_gateway.Store.Model.{IpPolicy}
use helix_gateway.Store.State.{Store, Io, Result, ok, err, notify}
use helix_gateway.Store.Policies.{create_ip_policy, update_ip_policy, delete_ip_policy}
use helix_gateway.Store.Policies.Ends.{
  create_ip_policy-ends, update_ip_policy-ends, delete_ip_policy-ends,
}
use helix_gateway.Store.Keying.{IsKeyed}
use helix_gateway.Admin.{Env, Handlers, Payload, limited}
use helix_gateway.Admin.Mux.Segments.{IsSegment}
use helix_gateway.Admin.Server.{Login}
use helix_gateway.Admin.Client
use helix_gateway.Admin.Client.{Web, ClientError, Outcome, done}
use helix_gateway.Admin.Remote.{IsServed, seen-done}
use helix_gateway.Admin.Parity.Policies.{create_policy-seen, update_policy-seen, delete_policy-seen}
use helix_gateway.Operator.Contract.{Contract}

-- Equal but for the identifier and the times.
abbrev pub Same : IpPolicy → IpPolicy → Type 0
Same x y = record y { id = x.id; created_at = x.created_at; updated_at = x.updated_at } ≡ x

abbrev pub find : Text → Handlers → Option IpPolicy
find id h = lookup id h.store.policies

-- The client encodes the record, and the server decodes it.
abbrev pub Fits : {B : Type 0} → Web B Handlers → Env → IpPolicy → Type 0
Fits w env x = (b : Text) × (w.write_policy x ≡ some b) × (env.json.policy (limited b) ≡ some x)

-- If the call gave a record, it is found in the store, and is the record of the call.
abbrev Found : IpPolicy → Result IpPolicy × Store → Type 0
Found x (ok y, s) = (lookup y.id s.policies ≡ some y) × Same x y
Found x (err f, s) = Unit {0}

abbrev FoundAt : Text → IpPolicy → Result IpPolicy × Store → Type 0
FoundAt id x (ok y, s) = (lookup y.id s.policies ≡ some y) × Same x y × (y.id ≡ id)
FoundAt id x (err f, s) = Unit {0}

abbrev Gone : Text → Result (Unit {0}) × Store → Type 0
Gone id (ok t, s) = lookup id s.policies ≡ none
Gone id (err f, s) = Unit {0}

create-Found : (io : Io) (s : Store) (x : IpPolicy) → Found x (create_ip_policy io s x)
unfolding notify
create-Found io s x =
    create_ip_policy-ends (Found x) io s x (λ f. tt)
      (λ d free w. (lookup-insert_self io.uuid _ s.policies, refl)) (λ d f m. tt)

update-FoundAt :
    (io : Io) (s : Store) (id : Text) (x : IpPolicy)
    → IsKeyed s
    → FoundAt id x (update_ip_policy io s id x)
unfolding notify
update-FoundAt io s id x h =
    update_ip_policy-ends (FoundAt id x) io s id x (λ f. tt)
      (λ d old e free w.
        let own : old.id ≡ id = Keyed-lookup (λ v. v.id) s.policies id old h.policies e in
        (rw own (lookup-insert_self id _ s.policies), refl, own))
      (λ d f old e m. tt)

delete-Gone : (io : Io) (s : Store) (id : Text) → Gone id (delete_ip_policy io s id)
unfolding notify
delete-Gone io s id =
    delete_ip_policy-ends (Gone id) io s id (λ f. tt)
      (λ d old e w. lookup-delete id id s.policies ∙ (rw (text_eq_refl id) refl))
      (λ d f old e m. tt)

-- Through the admin client and the admin server, the store keeps the contract: what it creates or
-- updates is found under the identifier of the answer and is, but for the identifier and the times,
-- what was sent; what it deletes is not found. The server admits the client, what is sent fits, an
-- identifier is one segment of a path, and the records stand under their own identifiers.
pub store_keeps_contract :
    {B : Type 0} (w : Web B Handlers) (c : Client.Client) (login : Login) (env : Env)
    (render : Payload → B)
    → IsServed w c login env render
    → Contract
        (Client.create_policy w c)
        (Client.update_policy w c)
        (Client.delete_policy w c)
        find
        (λ x. x.id)
        Same
        (Fits w env)
        IsSegment
        (λ h. IsKeyed h.store)
store_keeps_contract w c login env render net = record {
  created = λ x y s t (b, e, d) good h.
      let p = create_ip_policy env.io s.store x in
      let (q, at) =
        seen-done env s _ _ p y t
          (sym (create_policy-seen w c login env render net s x b e d) ∙ h) in
      let f : Found x (ok y, p.1) =
        subst (λ r. Found x (r, p.1)) q (create-Found env.io s.store x) in
      (subst (λ u. find y.id u ≡ some y) at f.0, f.1);
  updated = λ id x y s t i (b, e, d) good h.
      let p = update_ip_policy env.io s.store id x in
      let (q, at) =
        seen-done env s _ _ p y t
          (sym (update_policy-seen w c login env render net s id x b i e d) ∙ h) in
      let f : FoundAt id x (ok y, p.1) =
        subst (λ r. FoundAt id x (r, p.1)) q (update-FoundAt env.io s.store id x good) in
      (subst (λ u. find y.id u ≡ some y) at f.0, f.1, f.2);
  deleted = λ id s t i h.
      let p = delete_ip_policy env.io s.store id in
      let (q, at) =
        seen-done env s _ _ p tt t (sym (delete_policy-seen w c login env render net s id i) ∙ h) in
      let f : Gone id (ok tt, p.1) =
        subst (λ r. Gone id (r, p.1)) q (delete-Gone env.io s.store id) in
      subst (λ u. find id u ≡ none) at f;
}
