-- ===== src/Examples/Probing.antt =====
-- A round of probes over two upstreams.
use helix_gateway.Base.{Text, text, text_eq, [], ◌∷◌, ◌≡◌, if◌then◌else◌}
use helix_gateway.Store.Model.{Upstream}
use helix_gateway.Health.{Reply, answered, new_checker, is_healthy, probe_all}
use helix_gateway.Health.Round.{last_verdict, probe_all-is_healthy}

abbrev pool : Upstream
pool = record {
  id = text "u";
  name = text "pool";
  url = text "http://a";
  protocol = [];
  endpoints = text "http://a" ∷ text "http://b" ∷ [];
  lb_algorithm = [];
  health_path = text "/health";
  created_at = 1;
  updated_at = 1;
}

-- The second endpoint is down.
abbrev get : Text → Reply
get url = if text_eq url (text "http://b/health") then answered 503 else answered 200

probe_all-is_healthy_example :
    is_healthy (text "http://b") (probe_all get (λ n. []) 5 (pool ∷ []) new_checker)
    ≡ last_verdict get
        (λ n. [])
        5
        (text "http://b")
        (pool ∷ [])
        (is_healthy (text "http://b") new_checker)
probe_all-is_healthy_example =
    probe_all-is_healthy get (λ n. []) 5 (pool ∷ []) (text "http://b") new_checker
