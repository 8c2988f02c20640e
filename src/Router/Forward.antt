-- ===== src/Router/Forward.antt =====
-- internal/router/router.go: the path that buildRouteHandler forwards, without the matched prefix.
use helix_gateway.Base.{
  ◌&&◌, Text, text, is_empty, has_prefix, trim_prefix, has_prefix-split, drop_length, Bool, true,
  false, ◌++◌, ◌≡◌, refl, sym, ap, arith, ◌∙◌, none, if◌then◌else◌,
}
use helix_gateway.Store.Model.{Route, MatchRule, PathMode, prefix}
use helix_gateway.Router.{match_path}

abbrev is_prefix_mode : PathMode → Bool
is_prefix_mode prefix = true
is_prefix_mode mode = false

-- The path and the raw path of the forwarded request.
unfoldable pub forwarded : Route → Text → Text → Text × Text
forwarded route path raw_path =
    if route.strip_path && is_prefix_mode route.match.path_mode
    then (
      (let trimmed = trim_prefix path route.match.path in
          if is_empty trimmed then text "/" else trimmed),
      (if is_empty raw_path then raw_path else trim_prefix raw_path route.match.path),
    )
    else (path, raw_path)

match_path-prefix :
    (m : MatchRule) (path : Text)
    → prefix ≡ m.path_mode
    → match_path m none path ≡ has_prefix path m.path
unfolding match_path
match_path-prefix m path e = rw (← e) refl

if-true {ℓ} : {A : Type ℓ} (b : Bool) (x y : A) → b ≡ true → (if b then x else y) ≡ x
if-true true x y e = refl
if-true false x y e = absurd (ground arith)

-- A prefix route that strips its path forwards a request that it matches with what follows the
-- prefix in the path, and with the root if nothing follows.
pub forwarded-match_path :
    (route : Route) (path raw_path : Text)
    → route.strip_path ≡ true
    → route.match.path_mode ≡ prefix
    → match_path route.match none path ≡ true
    → (rest : Text) × (route.match.path ++ rest ≡ path)
      × ((forwarded route path raw_path).0 ≡ (if is_empty rest then text "/" else rest))
unfolding forwarded trim_prefix
forwarded-match_path route path raw_path strips mode matched =
    let starts : has_prefix path route.match.path ≡ true =
      sym (match_path-prefix route.match path (sym mode)) ∙ matched in
    let on : (route.strip_path && is_prefix_mode route.match.path_mode) ≡ true =
      λ i. strips i && is_prefix_mode (mode i) in
    (
      drop_length path route.match.path,
      has_prefix-split path route.match.path starts,
      ap (λ (p : Text × Text). p.0)
            (if-true (route.strip_path && is_prefix_mode route.match.path_mode) _ _ on)
          ∙ ap (λ (t : Text). if is_empty t then text "/" else t)
              (if-true (has_prefix path route.match.path) (drop_length path route.match.path) path
                starts),
    )
