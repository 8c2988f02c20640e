-- ===== src/Plugins/Http/Order.antt =====
-- The order in which a chain of plugins sees a request.
use helix_gateway.Base.{ℕ, zero, suc, ◌≤◌, length, get_elem?-below, List, ◌∷◌, ◌≡◌, refl, arith}
use helix_gateway.Plugins.Http.{Handler, Plugin, chain_from, chain}

chain_from-cons :
    (i : ℕ) (h : Handler) (p : Plugin) (ps : List Plugin)
    → i ≤ length ps
    → chain_from (suc i) h (p ∷ ps) ≡ p (chain_from i h ps)
unfolding chain_from
chain_from-cons zero h p ps below = refl
chain_from-cons (suc i) h p ps below =
    let (q, at) = get_elem?-below ps i (omega arith) in
    rw (at, chain_from) (chain_from-cons i (q h) p ps (omega arith))

-- The plugin that is listed first is the outermost one.
chain-cons : (h : Handler) (p : Plugin) (ps : List Plugin) → chain h (p ∷ ps) ≡ p (chain h ps)
unfolding chain
chain-cons h p ps = chain_from-cons (length ps) h p ps (omega arith)
