-- ===== src/Policies.antt =====
-- src/kv_aware_router/policies.py: the policies that choose a replica for a request. A choice is
-- `none` where the code raises: `min` or `%` on an empty fleet, or a name that the fleet lacks.
pub mod Tiebreak
pub mod Candidates
pub mod Choices
pub mod Costs
pub mod Rounds
pub mod Hashing
pub mod Ring
pub mod Reassign
pub mod Registry
pub mod Ready
use mathlib.Core.Option
use kv_aware_router.Prelude.{
  ℕ, suc, ◌+◌, ◌%◌, Bool, true, false, ◌&&◌, ◌||◌, List, [], ◌∷◌, Option, none, some, String, ltb,
  ◌==◌, min, max, if◌then◌else◌, length, get_elem?, text_lt,
}
use kv_aware_router.Dict.{Dict, get, keys}
use kv_aware_router.Radix.Node.{Tokens}
use kv_aware_router.Fleet.{
  Fleet, ReplicaState, CostModel, replica_ids, cached_tokens, expected_ttft,
}

-- `fleet.replicas[r].in_flight`
unfoldable pub load : Fleet → String → Option ℕ
load f r = Option.map (λ (s : ReplicaState). s.in_flight) (get r f.replicas)

-- `(m, r) < (n, b)`
unfoldable pub before : ℕ → String → ℕ → String → Bool
before m r n b = ltb m n || (m == n && text_lt r b)

-- The loop of `min`: `b` is the best so far, with load `n`.
unfoldable pub least_loaded : Fleet → String → ℕ → List String → Option String
unfolding load before
least_loaded f b n [] = some b
least_loaded f b n (r ∷ rs) = elim (load f r) [
  | none ↦ none
  | some m ↦ least_loaded f (if before m r n b then r else b) (if before m r n b then m else n) rs
]

-- `_tiebreak`
unfoldable pub tiebreak : Fleet → List String → Option String
unfolding least_loaded
tiebreak f [] = none
tiebreak f (r ∷ rs) = elim (load f r) [ none ↦ none | some n ↦ least_loaded f r n rs ]

-- `RoundRobin.choose`: the choice and the next value of `self._n`. With no replica the division
-- by zero raises before the counter moves.
unfoldable pub round_robin : Fleet → ℕ → Option (String × ℕ)
round_robin f n = elim (replica_ids f) [
  | [] ↦ none
  | r ∷ rs ↦ Option.map (λ pick. (pick, n + 1)) (get_elem? (r ∷ rs) (n % length (r ∷ rs)))
]

-- `LeastConnections.choose`
unfoldable pub least_connections : Fleet → Option String
unfolding tiebreak keys
least_connections f = tiebreak f (replica_ids f)

-- `max(m.values())` and `min(m.values())`, from a value that is there.
unfoldable pub greatest : ℕ → Dict ℕ → ℕ
greatest n [] = n
greatest n ((r, k) ∷ m) = greatest (max n k) m

unfoldable pub least : ℕ → Dict ℕ → ℕ
least n [] = n
least n ((r, k) ∷ m) = least (min n k) m

-- `[r for r, n in m.items() if n == best]`
unfoldable pub with_value : ℕ → Dict ℕ → List String
with_value best [] = []
with_value best ((r, n) ∷ m) =
    let others = with_value best m in if n == best then r ∷ others else others

-- `PureAffinity.choose`, for what `fleet.cached_tokens(tokens)` returned.
unfoldable pub most_cached : Fleet → Dict ℕ → Option String
unfolding tiebreak keys greatest with_value
most_cached f [] = tiebreak f (replica_ids f)
most_cached f ((r, n) ∷ cached) = tiebreak f (with_value (greatest n cached) ((r, n) ∷ cached))

unfoldable pub pure_affinity : Fleet → Tokens → Option String
pure_affinity f tokens = most_cached f (cached_tokens f tokens)

-- `CostModelPolicy.choose`, for the scores; `min` of no scores raises.
unfoldable pub cheapest : Fleet → Dict ℕ → Option String
unfolding tiebreak least with_value
cheapest f [] = none
cheapest f ((r, n) ∷ scores) = tiebreak f (with_value (least n scores) ((r, n) ∷ scores))

unfoldable pub cost_model : CostModel → Fleet → Tokens → Option String
cost_model cost f tokens = cheapest f (expected_ttft f tokens cost)
