-- ===== src/Lb/LeastConn.antt =====
-- internal/lb/lb.go: LeastConn. A call holds the mutex, so it is one step. The counters are int64,
-- which the number of open connections does not reach.
pub mod Selection
use helix_gateway.Base.{
  Text, is_empty, Bool, ◌||◌, List, [], ◌∷◌, Option, none, some, Table, lookup, insert, ℤ, pos,
  negsuc, ◌+ℤ◌, ltb_ℤ, if◌then◌else◌,
}
use helix_gateway.Lb.RoundRobin.{passes}

pub record LeastConn : Type 0 where
  pub endpoints : List Text
  pub conns : Table ℤ

unfoldable pub zero_conns : List Text → Table ℤ
zero_conns [] = []
zero_conns (ep ∷ eps) = insert ep (pos 0) (zero_conns eps)

-- NewLeastConn
unfoldable pub new_least_conn : List Text → LeastConn
unfolding zero_conns
new_least_conn endpoints = record { endpoints = endpoints; conns = zero_conns endpoints }

-- The loop of Next, with its two variables `best` and `bestCount`; `none` is the panic of a missing
-- counter.
unfoldable pub scan : Option (Text → Bool) → Table ℤ → List Text → Text → ℤ → Option (Text × ℤ)
scan is_healthy conns [] best count = some (best, count)
scan is_healthy conns (ep ∷ eps) best count =
    let skip = scan is_healthy conns eps best count in
    let counted : Option (Text × ℤ) = elim (lookup ep conns) [
      | none ↦ none
      | some c ↦
          (let better = ltb_ℤ count (pos 0) || ltb_ℤ c count in
            scan is_healthy conns eps (if better then ep else best) (if better then c else count))
    ] in
    if passes is_healthy ep then counted else skip

-- The endpoint that Next takes when the loop has found none.
abbrev pub or_first : Text → List Text → Text
or_first best [] = best
or_first best (ep ∷ eps) = if is_empty best then ep else best

-- conns[url].Add(n)
unfoldable pub add_conn : Text → ℤ → Table ℤ → Option (Table ℤ)
add_conn url n conns = elim (lookup url conns) [
  | none ↦ none
  | some c ↦ some (insert url (c +ℤ n) conns)
]

-- The end of Next: the chosen endpoint counts one connection more; the empty choice counts none.
unfoldable pub take_conn : Text → LeastConn → Option (Text × LeastConn)
take_conn url lc = if is_empty url then some (url, lc) else elim (add_conn url (pos 1) lc.conns) [
  | none ↦ none
  | some conns ↦ some (url, record lc { conns = conns })
]

-- Next
unfoldable pub next : Option (Text → Bool) → LeastConn → Option (Text × LeastConn)
next is_healthy lc = elim (scan is_healthy lc.conns lc.endpoints [] (negsuc 0)) [
  | none ↦ none
  | some (best, count) ↦ take_conn (or_first best lc.endpoints) lc
]

-- Done: an unknown endpoint changes nothing.
unfoldable pub done : Text → LeastConn → LeastConn
done url lc = elim (add_conn url (negsuc 0) lc.conns) [
  | none ↦ lc
  | some conns ↦ record lc { conns = conns }
]
