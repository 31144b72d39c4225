-- ===== src/Tests/Simulations.antt =====
-- src/kv_aware_router/simulate.py on small inputs.
use kv_aware_router.Prelude.{
  arith, length, ℕ, ◌≡◌, ◌⊎◌, refl, List, [], ◌∷◌, none, some, String, map, round_down, text_lt,
}
use kv_aware_router.Dict.{get, get_or, put, put_new, keys, map_values, has, remove}
use kv_aware_router.Radix.Node.{shared, is_tail_for}
use kv_aware_router.Radix.Tree.{match_tokens, insert, touch}
use kv_aware_router.Radix.Tree
use kv_aware_router.Radix.Unit.{new_tree, validate_match_unit}
use kv_aware_router.Fleet.{new_fleet, dispatch, complete, idle_states, add_replica, remove_replica}
use kv_aware_router.Policies.Registry.{round_robin_from, affinity, choose_replica}
use kv_aware_router.Policies.Hashing.{str}
use kv_aware_router.Policies.{load, before, tiebreak, pure_affinity, most_cached, round_robin}
use kv_aware_router.World.{sum_values, modelled, new_world, send}
use kv_aware_router.Simulate.State.{
  Outcome, ChurnEvent, Setup, Sim, default_service, push, start_next,
}
use kv_aware_router.Simulate.Churn.{on_churn}
use kv_aware_router.Simulate.Loop.{
  Run, finished, raised, out_of_fuel, on_event, run, add_arrivals, add_churn, simulate,
}
use kv_aware_router.Simulate.Ends.{simulate-ends}
use kv_aware_router.Simulate.Completes.{IsIdle, simulate-completes}
use kv_aware_router.Simulate.State.{Job}
use kv_aware_router.Fleet.{ReplicaState}
use kv_aware_router.Tests.Replays.{asked, no_hash}

program : Unit {0}
unfolding remove insert touch match_tokens new_tree shared is_tail_for get get_or put put_new keys
    has round_down map_values new_fleet dispatch complete idle_states choose_replica new_world send
    validate_match_unit str load before tiebreak pure_affinity most_cached round_robin text_lt
    add_replica remove_replica push start_next on_churn on_event run add_arrivals add_churn simulate
    Tree.remove_replica
program = tt

abbrev two_replicas : Setup
two_replicas = record {
  service = default_service;
  capacity = none;
  belief = modelled;
  ratio_num = 1;
  ratio_den = 1;
  initial = "a" ∷ "b" ∷ [];
}

abbrev leaves : ℕ → String → ChurnEvent
leaves at r = record { at = at; action = "remove"; replica_id = r }

abbrev joins : ℕ → String → ChurnEvent
joins at r = record { at = at; action = "add"; replica_id = r }

-- Replica, time to the first token, finish and cached tokens of each outcome.
abbrev report : Outcome → String × ℕ × ℕ × ℕ
report o = (o.replica, o.ttft, o.finish, o.cached_tokens)

abbrev reports : Run → List (String × ℕ × ℕ × ℕ)
reports (finished s) = map report s.outcomes
reports raised = []
reports out_of_fuel = []

-- Round robin: the first two prefills run side by side, the third waits for the first.
asked-simulate :
    reports (simulate no_hash two_replicas (round_robin_from 0) 16 1 1 asked [])
    ≡ ("a", 2_000_000, 1_282_000_010, 0)
      ∷ ("b", 4_000_000, 1_284_000_020, 0)
      ∷ ("a", 4_099_980, 1_284_100_010, 16)
      ∷ []
unfolding program
asked-simulate = refl

-- The first request finishes on the replica that leaves; the others go where the fleet is then, and
-- an empty fleet raises.
asked-churn :
    (reports (
        simulate no_hash two_replicas
          (round_robin_from 0)
          16
          2
          1
          asked
          (joins 24 "c" ∷ leaves 24 "a" ∷ leaves 24 "b" ∷ []))
      ≡ ("a", 2_000_000, 1_282_000_005, 0)
        ∷ ("c", 3_600_000, 1_283_600_015, 0)
        ∷ ("b", 4_000_000, 1_284_000_010, 0)
        ∷ [])
    × (simulate no_hash two_replicas affinity 16 1 1 asked (leaves 5 "a" ∷ leaves 5 "b" ∷ [])
        ≡ raised)
unfolding program
asked-churn = (refl, refl)

-- A scale of 0 raises where there is a request, and divides nothing where there is none.
unscaled :
    (simulate no_hash two_replicas affinity 16 0 1 asked [] ≡ raised)
    × (simulate no_hash two_replicas affinity 16 0 1 [] []
        ≡ simulate no_hash two_replicas affinity 16 1 1 [] [])
unfolding program
unscaled = (refl, refl)

simulate-ends_example :
    (simulate no_hash two_replicas affinity 16 1 1 asked (leaves 5 "a" ∷ []) ≡ raised)
    ⊎ ((end : Sim) × (simulate no_hash two_replicas affinity 16 1 1 asked (leaves 5 "a" ∷ [])
          ≡ finished end)
        × (end.events ≡ []))
simulate-ends_example = simulate-ends no_hash two_replicas affinity 16 1 1 asked (leaves 5 "a" ∷ [])

simulate-completes_example :
    (end : Sim) × (simulate no_hash two_replicas affinity 16 1 1 asked [] ≡ finished end)
    × (length end.outcomes ≡ 3)
    × (sum_values end.requests_per_replica ≡ 3)
    × ((k : String) (jobs : List Job) → get k end.pending ≡ some jobs → jobs ≡ [])
    × ((k : String) (state : ReplicaState)
        → get k end.world.fleet.replicas ≡ some state
        → IsIdle state)
unfolding program
simulate-completes_example =
    simulate-completes no_hash two_replicas affinity "a" ("b" ∷ []) 16 1 1 asked refl refl tt
      (omega arith)
