-- ===== src/Operator.antt =====
-- internal/operator: the custom resources (types/types.go), and what the reconcilers use of the
-- Kubernetes API and of the admin client. The copies that types.go makes of a resource are the
-- values themselves here.
pub mod Routes
pub mod Upstreams
pub mod Policies
pub mod Contract
pub mod Ends
use helix_gateway.Base.{
  ℕ, Text, text_eq, not, Bool, List, [], ◌∷◌, ◌++◌, Option, Table, any, keep, if◌then◌else◌,
}
use helix_gateway.Store.Model.{PluginRef, Route, Upstream, IpPolicy}
use helix_gateway.Admin.Client
use helix_gateway.Admin.Client.{Web, ClientError, Outcome}

-- metav1.Condition, without the time that the API library writes
pub record Condition : Type 0 where
  pub kind : Text
  pub holds : Bool
  pub reason : Text
  pub message : Text
  pub observed_generation : ℕ

-- metav1.ObjectMeta, as far as the reconcilers read it; `deleting` says that DeletionTimestamp is set.
pub record ObjectMeta : Type 0 where
  pub namespace : Text
  pub name : Text
  pub generation : ℕ
  pub deleting : Bool
  pub finalizers : List Text

pub record MatchSpec : Type 0 where
  pub hosts : List Text
  pub path : Text
  pub path_mode : Text
  pub methods : List Text
  pub headers : Table Text

pub record GatewayRouteSpec : Type 0 where
  pub active : Bool
  pub match : MatchSpec
  pub upstream_ref : Text
  pub plugins : List PluginRef
  pub strip_path : Bool

pub record GatewayRouteStatus : Type 0 where
  pub route_id : Text
  pub conditions : List Condition

pub record GatewayRoute : Type 0 where
  pub meta : ObjectMeta
  pub spec : GatewayRouteSpec
  pub status : GatewayRouteStatus

pub record GatewayUpstreamSpec : Type 0 where
  pub url : Text
  pub health_path : Text

pub record GatewayUpstreamStatus : Type 0 where
  pub upstream_id : Text
  pub health : Text
  pub conditions : List Condition

pub record GatewayUpstream : Type 0 where
  pub meta : ObjectMeta
  pub spec : GatewayUpstreamSpec
  pub status : GatewayUpstreamStatus

pub record HelixIpPolicySpec : Type 0 where
  pub mode : Text
  pub cidrs : List Text
  pub active : Bool

pub record HelixIpPolicyStatus : Type 0 where
  pub policy_id : Text
  pub conditions : List Condition

pub record HelixIpPolicy : Type 0 where
  pub meta : ObjectMeta
  pub spec : HelixIpPolicySpec
  pub status : HelixIpPolicyStatus

-- What a Get gives; an error comes with its text.
pub data Found (A : Type 0) : Type 0 where
  found : A → Found A
  missing unavailable : Text → Found A

-- client.Client over the objects of a cluster, in the state K: reads by namespace and name, and
-- writes of an object and of its status, which give the text of their error. `set_condition` is
-- apimeta.SetStatusCondition, and `quote` the verb %q.
pub record Kube (K : Type 0) : Type 0 where
  pub get_route : Text → Text → K → Found GatewayRoute
  pub get_upstream : Text → Text → K → Found GatewayUpstream
  pub get_policy : Text → Text → K → Found HelixIpPolicy
  pub update_route : GatewayRoute → K → Option Text × K
  pub update_upstream : GatewayUpstream → K → Option Text × K
  pub update_policy : HelixIpPolicy → K → Option Text × K
  pub status_route : GatewayRoute → K → Option Text × K
  pub status_upstream : GatewayUpstream → K → Option Text × K
  pub status_policy : HelixIpPolicy → K → Option Text × K
  pub set_condition : Condition → List Condition → List Condition
  pub quote : Text → Text

-- What the reconcilers call of the admin client, on a gateway in the state S. `message` is the text
-- of an error.
pub record Gateway (S : Type 0) : Type 0 where
  pub create_route : Route → S → Outcome Route × S
  pub update_route : Text → Route → S → Outcome Route × S
  pub delete_route : Text → S → Outcome (Unit {0}) × S
  pub create_upstream : Upstream → S → Outcome Upstream × S
  pub update_upstream : Text → Upstream → S → Outcome Upstream × S
  pub delete_upstream : Text → S → Outcome (Unit {0}) × S
  pub create_policy : IpPolicy → S → Outcome IpPolicy × S
  pub update_policy : Text → IpPolicy → S → Outcome IpPolicy × S
  pub delete_policy : Text → S → Outcome (Unit {0}) × S
  pub message : ClientError → Text

-- The admin client as such an interface.
abbrev pub admin_gateway :
    {B S : Type 0} → Web B S → Client.Client → (ClientError → Text) → Gateway S
admin_gateway w c message = record {
  create_route = Client.create_route w c;
  update_route = Client.update_route w c;
  delete_route = Client.delete_route w c;
  create_upstream = Client.create_upstream w c;
  update_upstream = Client.update_upstream w c;
  delete_upstream = Client.delete_upstream w c;
  create_policy = Client.create_policy w c;
  update_policy = Client.update_policy w c;
  delete_policy = Client.delete_policy w c;
  message = message;
}

-- The end of a Reconcile: no error, or one with its text. No result asks for another round.
pub data Verdict : Type 0 where
  fine : Verdict
  failing : Text → Verdict

-- controllerutil.ContainsFinalizer
abbrev pub has_finalizer : Text → ObjectMeta → Bool
has_finalizer f m = any (text_eq f) m.finalizers

-- controllerutil.AddFinalizer, of one that is not there
abbrev pub add_finalizer : Text → ObjectMeta → ObjectMeta
add_finalizer f m = record m { finalizers = m.finalizers ++ f ∷ [] }

-- controllerutil.RemoveFinalizer
abbrev pub remove_finalizer : Text → ObjectMeta → ObjectMeta
remove_finalizer f m = record m { finalizers = keep (λ g. not (text_eq f g)) m.finalizers }
