-- ===== src/Store/Policies.antt =====
-- internal/store/store.go: the operations on IP policies.
pub mod Ends
use helix_gateway.Base.{
  Table, Bool, Text, text_eq, not, ◌&&◌, List, none, some, any, lookup, insert, delete, values,
  if◌then◌else◌,
}
use helix_gateway.Store.Model.{IpPolicy}
use helix_gateway.Store.State.{Store, Io, Result, ok, err, not_found, conflict, commit}

-- The loop that looks for another ip policy of the same name.
abbrev pub ip_policy_name_taken : Text → Table IpPolicy → Bool
ip_policy_name_taken name m = any (λ e. text_eq e.1.name name) m

-- The same loop, which passes over the key `id`.
abbrev pub ip_policy_name_taken_by_other : Text → Text → Table IpPolicy → Bool
ip_policy_name_taken_by_other id name m = any (λ e. text_eq e.1.name name && not (text_eq e.0 id)) m

-- What a creation stores: a new identifier and the two times.
abbrev pub stamped_ip_policy : Io → IpPolicy → IpPolicy
stamped_ip_policy io p = record p { id = io.uuid; created_at = io.now; updated_at = io.now }

-- What an update stores: the identifier and the creation time stay.
abbrev pub patched_ip_policy : Io → IpPolicy → IpPolicy → IpPolicy
patched_ip_policy io existing patch = record patch {
  id = existing.id;
  created_at = existing.created_at;
  updated_at = io.now;
}

-- What a toggle writes into the record.
abbrev pub toggled_ip_policy : Io → IpPolicy → Bool → IpPolicy
toggled_ip_policy io p active = record p { active = active; updated_at = io.now }

-- ListIPPolicies
unfoldable pub list_ip_policies : Store → List IpPolicy
unfolding values
list_ip_policies s = values s.policies

-- GetIPPolicy
unfoldable pub get_ip_policy : Store → Text → Result IpPolicy
get_ip_policy s id = elim (lookup id s.policies) [ none ↦ err not_found | some p ↦ ok p ]

-- CreateIPPolicy
unfoldable pub create_ip_policy : Io → Store → IpPolicy → Result IpPolicy × Store
create_ip_policy io s p =
    if ip_policy_name_taken p.name s.policies
    then (err conflict, s)
    else (let cp = stamped_ip_policy io p in
        commit io (record s { policies = insert io.uuid cp s.policies }) cp
          (λ t. record t { policies = delete io.uuid t.policies }))

-- UpdateIPPolicy
unfoldable pub update_ip_policy : Io → Store → Text → IpPolicy → Result IpPolicy × Store
update_ip_policy io s id patch = elim (lookup id s.policies) [
  | none ↦ (err not_found, s)
  | some existing ↦
      (if ip_policy_name_taken_by_other id patch.name s.policies
        then (err conflict, s)
        else (let cp = patched_ip_policy io existing patch in
            commit io (record s { policies = insert id cp s.policies }) cp
              (λ t. record t { policies = insert id existing t.policies })))
]

-- DeleteIPPolicy
unfoldable pub delete_ip_policy : Io → Store → Text → Result (Unit {0}) × Store
delete_ip_policy io s id = elim (lookup id s.policies) [
  | none ↦ (err not_found, s)
  | some backup ↦
      commit io (record s { policies = delete id s.policies }) tt
        (λ t. record t { policies = insert id backup t.policies })
]

-- ToggleIPPolicy: the policy is changed in place, and a failed write leaves the change.
unfoldable pub toggle_ip_policy : Io → Store → Text → Bool → Result IpPolicy × Store
toggle_ip_policy io s id active = elim (lookup id s.policies) [
  | none ↦ (err not_found, s)
  | some p ↦
      (let p' = toggled_ip_policy io p active in
        commit io (record s { policies = insert id p' s.policies }) p' (λ t. t))
]
