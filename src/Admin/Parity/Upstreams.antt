-- ===== src/Admin/Parity/Upstreams.antt =====
-- The calls of the admin client on upstreams, as calls of the store.
use helix_gateway.Base.{text_eq, Text, text, true, false, ◌++◌, [], some, refl, ◌≡◌}
use helix_gateway.Store.Model.{Upstream}
use helix_gateway.Store.Upstreams
use helix_gateway.Admin.{Env, Handlers, Payload, upstream, nothing, write_json, limited}
use helix_gateway.Admin.Upstreams as UpstreamHandlers
use helix_gateway.Admin.Mux.{Endpoint, chosen, resolve, choose, match_path, segments}
use helix_gateway.Admin.Mux.Segments.{IsSegment, is_plain, is_plain_path}
use helix_gateway.Admin.Mux.Upstreams.{
  resolve-update_upstream, resolve-delete_upstream, upstreams-plain,
}
use helix_gateway.Admin.Server.{Login, serve}
use helix_gateway.Admin.Client
use helix_gateway.Admin.Client.{Web, Outcome, done, read_response, do_request}
use helix_gateway.Admin.Remote.{IsServed, seen, exchange-seen}

resolve-create_upstream :
    resolve (text "POST") (text "/admin/v1/upstreams") ≡ chosen Endpoint.create_upstream
unfolding resolve choose match_path segments text_eq
resolve-create_upstream = refl

create_plain : is_plain_path (text "/admin/v1/upstreams") ≡ true
unfolding is_plain
create_plain = refl

module _ {B : Type 0} (w : Web B Handlers) (c : Client.Client) (login : Login) (env : Env)
    (render : Payload → B) (net : IsServed w c login env render) (h : Handlers) where
  pub create_upstream-seen :
      (x : Upstream) (bytes : Text)
      → w.write_upstream x ≡ some bytes
      → env.json.upstream (limited bytes) ≡ some x
      → Client.create_upstream w c x h
        ≡ seen env h
            (text "POST")
            (text "/admin/v1/upstreams")
            (Upstreams.create_upstream env.io h.store x)
  unfolding Client.create_upstream do_request
  create_upstream-seen x bytes e d =
      rw (e, Client.create_upstream, do_request)
        (exchange-seen w c login env render net h (text "POST") (text "/admin/v1/upstreams")
          w.zero_upstream w.read_upstream bytes true Endpoint.create_upstream
          (λ a. write_json 201 (upstream a)) (Upstreams.create_upstream env.io h.store x)
          resolve-create_upstream create_plain
          (λ r same. unfold serve UpstreamHandlers.create_upstream in rw (same, d) refl)
          (λ a. unfold read_response in rw (net.upstream a) refl))

  pub update_upstream-seen :
      (id : Text) (x : Upstream) (bytes : Text)
      → IsSegment id
      → w.write_upstream x ≡ some bytes
      → env.json.upstream (limited bytes) ≡ some x
      → Client.update_upstream w c id x h
        ≡ seen env h
            (text "PUT")
            (text "/admin/v1/upstreams/" ++ id)
            (Upstreams.update_upstream env.io h.store id x)
  unfolding Client.update_upstream do_request
  update_upstream-seen id x bytes i e d =
      rw (e, Client.update_upstream, do_request)
        (exchange-seen w c login env render net h (text "PUT") (text "/admin/v1/upstreams/" ++ id)
          w.zero_upstream w.read_upstream bytes true (Endpoint.update_upstream id)
          (λ a. write_json 200 (upstream a)) (Upstreams.update_upstream env.io h.store id x)
          (resolve-update_upstream id i) (upstreams-plain id i)
          (λ r same. unfold serve UpstreamHandlers.update_upstream in rw (same, d) refl)
          (λ a. unfold read_response in rw (net.upstream a) refl))

  pub delete_upstream-seen :
      (id : Text)
      → IsSegment id
      → Client.delete_upstream w c id h
        ≡ seen env h
            (text "DELETE")
            (text "/admin/v1/upstreams/" ++ id)
            (Upstreams.delete_upstream env.io h.store id)
  unfolding Client.delete_upstream do_request
  delete_upstream-seen id i =
      exchange-seen w c login env render net h (text "DELETE") (text "/admin/v1/upstreams/" ++ id)
        tt (λ _. some tt) [] false (Endpoint.delete_upstream id) (λ _. write_json 204 nothing)
        (Upstreams.delete_upstream env.io h.store id) (resolve-delete_upstream id i)
        (upstreams-plain id i) (λ r same. unfold serve UpstreamHandlers.delete_upstream in refl)
        (λ a. unfold read_response in refl)
