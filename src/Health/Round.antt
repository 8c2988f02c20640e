-- ===== src/Health/Round.antt =====
-- What a round of probes makes the checker answer.
use helix_gateway.Base.{
  ℕ, Text, text_eq, text_eq_iff, is_empty, Bool, true, false, not, ◌||◌, List, [], ◌∷◌, ◌++◌,
  is_some, lookup-insert, ◌≡◌, refl, ◌∙◌, any, arith, if◌then◌else◌, Bool-cases, Option-cases, inl,
  inr,
}
use helix_gateway.Store.Model.{Upstream}
use helix_gateway.Health.{
  Checker, Reply, mark_healthy, mark_unhealthy, is_healthy, upstream_urls, probe, check_url,
  check_urls, probe_all,
}

-- The upstream names the endpoint.
abbrev pub lists : Text → Upstream → Bool
lists url u = any (λ v. text_eq v url) (upstream_urls u)

module _ (get : Text → Reply) (decimal : ℕ → Text) (now : ℕ) where
  -- The verdict of the round: no health path, or a probe without an error.
  abbrev pub is_well : Text → Text → Bool
  is_well health_path url =
      is_empty health_path || not (is_some (probe get decimal now (url ++ health_path)))

  mark_healthy-is_healthy :
      (url v : Text) (c : Checker)
      → is_healthy v (mark_healthy now url c) ≡ (if text_eq url v then true else is_healthy v c)
  unfolding is_healthy mark_healthy
  mark_healthy-is_healthy url v c =
      rw
        (
          lookup-insert url v (record { healthy = true; last_check = now; error = [] }) c.states,
          is_healthy,
        )
        (ground arith)

  mark_unhealthy-is_healthy :
      (url msg v : Text) (c : Checker)
      → is_healthy v (mark_unhealthy now url msg c)
        ≡ (if text_eq url v then false else is_healthy v c)
  unfolding is_healthy mark_unhealthy
  mark_unhealthy-is_healthy url msg v c =
      rw
        (
          lookup-insert url v (record { healthy = false; last_check = now; error = msg }) c.states,
          is_healthy,
        )
        (ground arith)

  check_url-verdict :
      (health_path url v : Text) (c : Checker)
      → is_healthy v (check_url get decimal now health_path url c)
        ≡ (if text_eq url v then is_well health_path url else is_healthy v c)
  unfolding check_url
  check_url-verdict health_path url v c = elim (Bool-cases (is_empty health_path)) [
    | inl e ↦ simp (e) (mark_healthy-is_healthy url v c)
    | inr e ↦ elim (Option-cases (probe get decimal now (url ++ health_path))) [
      | inl n ↦ simp (e, n) (mark_healthy-is_healthy url v c)
      | inr (msg, n) ↦ simp (e, n) (mark_unhealthy-is_healthy url msg v c)
    ]
  ]

  check_url-is_healthy :
      (health_path url v : Text) (c : Checker)
      → is_healthy v (check_url get decimal now health_path url c)
        ≡ (if text_eq url v then is_well health_path v else is_healthy v c)
  check_url-is_healthy health_path url v c = elim (Bool-cases (text_eq url v)) [
    | inl t ↦
        (let same : url ≡ v = (text_eq_iff url v).0 t in
          check_url-verdict health_path url v c ∙ simp (t) (λ i. is_well health_path (same i)))
    | inr f ↦ check_url-verdict health_path url v c ∙ simp (f)
  ]

  check_urls-is_healthy :
      (health_path : Text) (urls : List Text) (v : Text) (c : Checker)
      → is_healthy v (check_urls get decimal now health_path urls c)
        ≡ (if any (λ u. text_eq u v) urls then is_well health_path v else is_healthy v c)
  unfolding check_urls
  check_urls-is_healthy health_path [] v c = refl
  check_urls-is_healthy health_path (url ∷ urls) v c =
      check_urls-is_healthy health_path urls v (check_url get decimal now health_path url c)
      ∙ ground (arith, check_url-is_healthy health_path url v c)

  -- The verdict of the last upstream of the list that names the endpoint.
  unfoldable pub last_verdict : Text → List Upstream → Bool → Bool
  last_verdict url [] before = before
  last_verdict url (u ∷ us) before =
      last_verdict url us (if lists url u then is_well u.health_path url else before)

  -- After a round, an endpoint is healthy as the last upstream that names it found it in the round;
  -- an endpoint that no upstream names is as healthy as before.
  pub probe_all-is_healthy :
      (us : List Upstream) (url : Text) (c : Checker)
      → is_healthy url (probe_all get decimal now us c) ≡ last_verdict url us (is_healthy url c)
  unfolding probe_all last_verdict
  probe_all-is_healthy [] url c = refl
  probe_all-is_healthy (u ∷ us) url c =
      probe_all-is_healthy us url (check_urls get decimal now u.health_path (upstream_urls u) c)
      ∙ (λ i. last_verdict url us (check_urls-is_healthy u.health_path (upstream_urls u) url c i))
