-- ===== src/Admin/Refusals.antt =====
-- The requests that the admin API turns away.
use helix_gateway.Base.{
  ◌&&◌, Option-cases, inl, inr, Text, text, text_eq, text_eq_iff, is_empty, false, some, refl, ◌≡◌,
  ◌≢◌, arith, if◌then◌else◌,
}
use helix_gateway.Admin.{Env, Handlers, AdminRequest, denied, write_json}
use helix_gateway.Admin.Server.{Login, admitted, handle}

-- Two tests that are not both true.
wrong_pair :
    (u p user pass : Text) → (u ≡ user → p ≢ pass) → text_eq u user && text_eq p pass ≡ false
wrong_pair u p user pass other = ground (arith, text_eq_iff u user, text_eq_iff p pass)

not_admitted :
    (login : Login) (r : AdminRequest)
    → is_empty login.pass ≡ false
    → r.credentials ≢ some ((if is_empty login.user then text "admin" else login.user), login.pass)
    → admitted login r ≡ false
unfolding admitted
not_admitted login r set other = elim (Option-cases r.credentials) [
  | inl e ↦ rw (set, e) refl
  | inr ((u, p), e) ↦ rw (set, e) (wrong_pair u p _ login.pass (λ a b. other (rw (e, a, b) refl)))
]

-- Where a password is set, a request that does not carry the user (admin, unless another is set)
-- and that password is answered 401 and changes nothing.
pub handle-denied :
    (login : Login) (env : Env) (h : Handlers) (r : AdminRequest)
    → is_empty login.pass ≡ false
    → r.credentials ≢ some ((if is_empty login.user then text "admin" else login.user), login.pass)
    → handle login env h r ≡ (write_json 401 denied, h)
unfolding handle
handle-denied login env h r set other = rw (not_admitted login r set other, handle) refl
