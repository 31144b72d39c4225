-- ===== src/Tests/Choices.antt =====
-- The policies of src/kv_aware_router/policies.py on small inputs.
use kv_aware_router.Prelude.{ℕ, ◌≡◌, refl, true, [], ◌∷◌, none, some, String, round_down, arith}
use kv_aware_router.Dict.{get, get_or, put, put_new, remove, has, keys, map_values}
use kv_aware_router.Dict.Distinct.{distinct}
use kv_aware_router.Radix.Node.{shared, is_tail_for}
use kv_aware_router.Radix.Tree.{match_tokens, insert}
use kv_aware_router.Radix.Unit.{new_tree}
use kv_aware_router.Fleet.{
  ReplicaState, default_cost, dispatch, uncached_tokens, expected_ttft, idle_states,
}
use kv_aware_router.Fleet.Ledger.{Balanced, dispatched}
use kv_aware_router.Fleet.Steps.{History-Balanced, start, next}
use kv_aware_router.Fleet.Lifecycle.{new_fleet-Balanced}
use kv_aware_router.Policies.{
  load, before, tiebreak, round_robin, least_connections, pure_affinity, cost_model, most_cached,
  cheapest,
}
use kv_aware_router.Policies.Tiebreak.{IsLeast, elem, tiebreak-IsLeast}
use kv_aware_router.Policies.Choices.{
  MostCached, least_connections-IsLeast, pure_affinity-MostCached,
}
use kv_aware_router.Policies.Costs.{Cheapest, cheapest-Cheapest, cost_model-SameQueue}
use kv_aware_router.Policies.Rounds.{picks, picks-round}
use kv_aware_router.Tests.Fleets.{two, two-started, two-dispatch, sent_once, ticket, prompt}

program : Unit {0}
unfolding insert match_tokens new_tree shared is_tail_for get get_or put put_new remove has keys
    round_down map_values distinct dispatch uncached_tokens expected_ttft load before tiebreak
    round_robin least_connections pure_affinity cost_model elem picks idle_states most_cached
    cheapest
program = tt

pub sent_once-Balanced : Balanced sent_once (ticket ∷ [])
sent_once-Balanced =
    History-Balanced (new_fleet-Balanced "a" ("b" ∷ []) 16 [] none two two-started)
      (next start (dispatched "a" prompt 1 ticket two-dispatch refl))

-- The busy replica has the prompt, the idle one is free: affinity and load disagree, and the cost
-- model weighs 2000000 + 5000000 + 400000 nanoseconds against 2000000.
choices :
    (least_connections sent_once ≡ some "b")
    × (pure_affinity sent_once prompt ≡ some "a")
    × (cost_model default_cost sent_once prompt ≡ some "b")
    × (round_robin sent_once 3 ≡ some ("b", 4))
unfolding program
choices = (refl, refl, refl, refl)

tiebreak-IsLeast_example :
    (c : String) × (tiebreak sent_once ("a" ∷ "b" ∷ []) ≡ some c)
    × IsLeast sent_once c ("a" ∷ "b" ∷ [])
unfolding program
tiebreak-IsLeast_example = tiebreak-IsLeast sent_once "a" ("b" ∷ []) ((1, refl), ((0, refl), tt))

least_connections-IsLeast_example :
    (c : String) × (least_connections sent_once ≡ some c) × IsLeast sent_once c ("a" ∷ "b" ∷ [])
unfolding program
least_connections-IsLeast_example = least_connections-IsLeast sent_once "a" refl

pure_affinity-MostCached_example :
    (c : String) × (pure_affinity sent_once prompt ≡ some c) × MostCached sent_once prompt c
unfolding program
pure_affinity-MostCached_example =
    pure_affinity-MostCached sent_once (ticket ∷ []) prompt "a" sent_once-Balanced refl

-- The fleet has the names of the scores.
names_of_scores : (s : String) → has {V = ℕ} s (("a", 7) ∷ ("b", 7) ∷ []) ≡ has s sent_once.replicas
unfolding program
names_of_scores s = refl

cheapest-Cheapest_example :
    (c : String) × (cheapest sent_once (("a", 7) ∷ ("b", 7) ∷ []) ≡ some c)
    × (has c sent_once.replicas ≡ true)
    × Cheapest sent_once (("a", 7) ∷ ("b", 7) ∷ []) c
unfolding program
cheapest-Cheapest_example =
    cheapest-Cheapest sent_once (("a", 7) ∷ ("b", 7) ∷ []) "a" refl names_of_scores refl

cost_model-SameQueue_example : cost_model default_cost two prompt ≡ pure_affinity two prompt
unfolding program
cost_model-SameQueue_example =
    cost_model-SameQueue default_cost two [] prompt "a" 0 0
      (new_fleet-Balanced "a" ("b" ∷ []) 16 [] none two two-started) refl refl (omega arith) idle
  where
    idle :
        (r : String) (state : ReplicaState)
        → get r two.replicas ≡ some state
        → (state.in_flight ≡ 0) × (state.pending_prefill_tokens ≡ 0)
    idle r state h = ground (arith, h)

picks-round_example : picks two 6 2 ≡ some ("a" ∷ "b" ∷ [])
unfolding program
picks-round_example = picks-round two 3
