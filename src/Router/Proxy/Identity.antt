-- ===== src/Router/Proxy/Identity.antt =====
-- What an upstream is told of the user of a request, and what of its own headers comes back.
use helix_gateway.Base.{
  Text, text, text_eq, false, List, [], ◌∷◌, none, Bool-cases, inl, inr, any, Table, lookup, delete,
  lookup-delete, ◌≡◌, refl, ap, ◌∙◌, if_false, if◌then◌else◌,
}
use helix_gateway.Plugins.Http.{Response}
use helix_gateway.Router.Proxy.{without, cors_names, modify_response}

abbrev pub user_id : Text
user_id = text "X-Gateway-User-Id"

lookup-without :
    (n : Text) (names : List Text) (m : Table Text)
    → lookup n (without names m) ≡ (if any (λ k. text_eq k n) names then none else lookup n m)
unfolding without
lookup-without n [] m = refl
lookup-without n (k ∷ names) m = elim (Bool-cases (text_eq k n)) [
  | inl same ↦
      rw (lookup-without n names (delete k m), lookup-delete k n m, same)
        (elim (Bool-cases (any (λ k. text_eq k n) names)) [ inl t ↦ rw t refl | inr f ↦ rw f refl ])
  | inr apart ↦ rw (lookup-without n names (delete k m), lookup-delete k n m, apart) refl
]

-- Of the headers of an upstream's response, those of CORS and Vary are taken off, and all others
-- stay, unless the upstream's protocol is grpc.
modify_response-lookup :
    (protocol n : Text) (response : Response)
    → text_eq protocol (text "grpc") ≡ false
    → lookup n (modify_response protocol response).headers
      ≡ (if any (λ k. text_eq k n) cors_names then none else lookup n response.headers)
unfolding modify_response
modify_response-lookup protocol n response h =
    ap (λ r. lookup n r.headers)
      (if_false response (record response { headers = without cors_names response.headers }) h)
    ∙ lookup-without n cors_names response.headers
