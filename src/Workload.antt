-- ===== src/Workload.antt =====
-- The requests of src/kv_aware_router/workload.py, and `reuse_ceiling`. Arrival times are whole
-- nanoseconds.
pub mod Ceiling
pub mod Arrivals
pub mod Generate
use mathlib.Core.Option
use kv_aware_router.Prelude.{
  ℕ, suc, ◌+◌, List, [], ◌∷◌, Option, none, some, String, length, ltb, if◌then◌else◌,
}
use kv_aware_router.Dict.{get_or}
use kv_aware_router.Radix.Node.{Tokens}
use kv_aware_router.Radix.Tree.{PrefixTree, match_tokens, insert}
use kv_aware_router.Radix.Unit.{Made, made, refused, new_tree}

pub record Request : Type 0 where
  pub session_id : ℕ
  pub turn : ℕ
  pub arrival : ℕ
  pub tokens : Tokens

abbrev pub n_tokens : Request → ℕ
n_tokens req = length req.tokens

abbrev pub oracle_name : String
oracle_name = "oracle"

-- The loop of `reuse_ceiling` from the request number `i` on: what it adds to `cached` and `total`.
unfoldable pub ceiling_loop : ℕ → PrefixTree → List Request → ℕ × ℕ
ceiling_loop i tree [] = (0, 0)
ceiling_loop i tree (req ∷ requests) =
    let found = get_or oracle_name 0 (match_tokens tree req.tokens) in
    let (cached, total) = ceiling_loop (i + 1) (insert req.tokens oracle_name i tree) requests in
    (found + cached, n_tokens req + total)

-- `reuse_ceiling` as the numerator and the denominator of its fraction; `none` where the
-- constructor of the tree raises.
unfoldable pub reuse_ceiling : List Request → ℕ → Option (ℕ × ℕ)
unfolding ceiling_loop
reuse_ceiling requests match_unit = elim (new_tree match_unit [] none) [
  | made tree ↦ some (ceiling_loop 0 tree requests)
  | refused e ↦ none
]

-- Python's sort by arrival, which is stable.
unfoldable pub place_by_arrival : Request → List Request → List Request
place_by_arrival req [] = req ∷ []
place_by_arrival req (other ∷ l) =
    let later = place_by_arrival req l in
    if ltb other.arrival req.arrival then other ∷ later else req ∷ other ∷ l

unfoldable pub by_arrival : List Request → List Request
unfolding place_by_arrival
by_arrival [] = []
by_arrival (req ∷ l) = place_by_arrival req (by_arrival l)
