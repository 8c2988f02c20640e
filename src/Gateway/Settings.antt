-- ===== src/Gateway/Settings.antt =====
-- The settings of a transformation, written as JSON and read by the gateway.
use helix_gateway.Base.{
  Text, text, text_eq, is_empty, false, List, [], ◌∷◌, Option, none, some, Table, lookup,
  lookup-insert, refl, ◌≡◌,
}
use helix_gateway.Store.Model.{Values, Fields, str, arr, obj, nil, cons, end, field}
use helix_gateway.Plugins.Rewriting.{TransformConfig, UrlRewriteConfig}
use helix_gateway.Gateway.{get_field, string_fields, strings, transform_config_from_map}

-- The JSON of the settings, as an administrator writes them.
abbrev pub json_headers : Table Text → Fields
json_headers [] = end
json_headers ((k, v) ∷ m) = field k (str v) (json_headers m)

abbrev pub json_names : List Text → Values
json_names [] = nil
json_names (s ∷ ss) = cons (str s) (json_names ss)

abbrev pub json_rewrite : Option UrlRewriteConfig → Fields
json_rewrite none = end
json_rewrite (some c) =
    field (text "url_rewrite")
      (obj (
        field (text "prefix_match") (str c.prefix_match)
          (field (text "replacement") (str c.replacement) end)))
      end

abbrev pub json_settings : TransformConfig → Fields
json_settings cfg =
    field (text "set_request_headers") (obj (json_headers cfg.set_request_headers)) (
      field (text "remove_request_headers") (arr (json_names cfg.remove_request_headers)) (
        field (text "set_response_headers") (obj (json_headers cfg.set_response_headers)) (
          field (text "remove_response_headers") (arr (json_names cfg.remove_response_headers))
            (json_rewrite cfg.url_rewrite))))

-- A rewriting that does something has a prefix.
abbrev pub HasPrefix : Option UrlRewriteConfig → Type 0
HasPrefix none = Unit {0}
HasPrefix (some c) = is_empty c.prefix_match ≡ false

string_fields-json :
    (m : Table Text) (k : Text) → lookup k (string_fields (json_headers m)) ≡ lookup k m
unfolding string_fields lookup
string_fields-json [] k = refl
string_fields-json ((j, v) ∷ m) k =
    rw (lookup-insert j k v (string_fields (json_headers m)), string_fields-json m k) refl

strings-json : (ss : List Text) → strings (json_names ss) ≡ ss
unfolding strings
strings-json [] = refl
strings-json (s ∷ ss) = rw (strings-json ss) refl

-- The two settings are alike: equal lists and rewriting, and tables with the same entries.
pub record SameSettings (a b : TransformConfig) : Type 0 where
  pub set_request : (k : Text) → lookup k a.set_request_headers ≡ lookup k b.set_request_headers
  pub remove_request : a.remove_request_headers ≡ b.remove_request_headers
  pub set_response : (k : Text) → lookup k a.set_response_headers ≡ lookup k b.set_response_headers
  pub remove_response : a.remove_response_headers ≡ b.remove_response_headers
  pub rewrite : a.url_rewrite ≡ b.url_rewrite

read_rewrite :
    (cfg : TransformConfig) (o : Option UrlRewriteConfig)
    → cfg.url_rewrite ≡ o
    → HasPrefix o
    → (transform_config_from_map (json_settings cfg)).url_rewrite ≡ o
unfolding transform_config_from_map get_field text_eq
read_rewrite cfg none e h = rw e refl
read_rewrite cfg (some c) e h = rw e (rw h refl)

-- Settings of a transformation that are written as JSON are read back by `transform_config_from_map`
-- as they were, where a rewriting has a prefix that is not empty.
pub transform_config_from_map-json :
    (cfg : TransformConfig)
    → HasPrefix cfg.url_rewrite
    → SameSettings (transform_config_from_map (json_settings cfg)) cfg
unfolding transform_config_from_map get_field text_eq
transform_config_from_map-json cfg h = record {
  set_request = λ k. string_fields-json cfg.set_request_headers k;
  remove_request = strings-json cfg.remove_request_headers;
  set_response = λ k. string_fields-json cfg.set_response_headers k;
  remove_response = strings-json cfg.remove_response_headers;
  rewrite = read_rewrite cfg cfg.url_rewrite refl h;
}
