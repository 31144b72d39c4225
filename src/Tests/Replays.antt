-- ===== src/Tests/Replays.antt =====
-- src/kv_aware_router/workload.py and src/kv_aware_router/replay.py on small inputs.
use kv_aware_router.Prelude.{
  ◌⊎◌, ◌+◌, ℕ, ◌<◌, ◌≤◌, ◌≡◌, ◌++◌, refl, List, [], ◌∷◌, Option, none, some, String, length,
  round_down, arith, text_lt,
}
use kv_aware_router.Dict.{get, get_or, put, keys, map_values, has, remove}
use kv_aware_router.Radix.Node.{empty_root, shared, is_tail_for}
use kv_aware_router.Radix.Tree.{match_tokens, insert, touch}
use kv_aware_router.Radix.Unit.{new_tree}
use kv_aware_router.Radix.Held.{longest}
use kv_aware_router.Fleet.{Dispatch, new_fleet, dispatch, complete, idle_states}
use kv_aware_router.Policies.Registry.{round_robin_from, affinity, choose_replica}
use kv_aware_router.Workload.{Request, reuse_ceiling}
use kv_aware_router.Workload.Ceiling.{shared_before, all_tokens, reuse_ceiling-eq}
use kv_aware_router.Replay.Oracle.{replay-oracle}
use kv_aware_router.Replay.{
  reuse_fraction, believed_reuse_fraction, drift_fraction, misprediction_rate, ReplayResult,
  replay_all, replay, make_room,
}
use kv_aware_router.World.{World, oracle, modelled, blind, new_world, sum_values, send}
use kv_aware_router.World.Sound.{WorldIsSound, Keeps}
use kv_aware_router.Replay.Counts.{make_room-Sound}
use kv_aware_router.Replay.Conservation.{replay-conserves}
use kv_aware_router.Radix.Unit.{validate_match_unit}
use kv_aware_router.Dict.Distinct.{distinct}
use kv_aware_router.Policies.Hashing.{str}
use kv_aware_router.Policies.{load, before, tiebreak, pure_affinity, most_cached, round_robin}
use kv_aware_router.Tests.Fleets.{ids, sent_once, ticket}
use kv_aware_router.Tests.Choices.{sent_once-Balanced}

program : Unit {0}
unfolding remove insert touch match_tokens new_tree shared is_tail_for get get_or put keys has
    round_down map_values new_fleet dispatch complete idle_states choose_replica reuse_ceiling
    shared_before all_tokens longest new_world send sum_values validate_match_unit replay_all
    make_room str load before tiebreak pure_affinity most_cached round_robin text_lt
program = tt

abbrev ask : ℕ → ℕ → ℕ → Request
ask session at n = record { session_id = session; turn = 0; arrival = at; tokens = ids n 0 }

abbrev pub asked : List Request
asked = ask 1 10 20 ∷ ask 2 20 40 ∷ ask 1 30 36 ∷ []

-- The second request shares 20 tokens with the first, the third 36 with the second.
asked-ceiling : reuse_ceiling asked 16 ≡ some (48, 96)
unfolding program
asked-ceiling = refl

abbrev counters : Option (ReplayResult × ℕ) → List ℕ
counters none = []
counters (some (result, evictions)) =
    result.total_prompt_tokens ∷ result.cached_tokens ∷ result.believed_cached_tokens ∷ evictions
    ∷ []

abbrev pub no_hash : String → ℕ
no_hash t = 0

-- Affinity reaches the ceiling. A replica of 8 tokens forgets everything, and who believes that it
-- never forgets expects too much.
asked-replay :
    (counters (replay no_hash affinity ("a" ∷ "b" ∷ []) 1 16 none modelled 1 1 [] asked)
      ≡ 96 ∷ 48 ∷ 48 ∷ 0 ∷ [])
    × (counters (replay no_hash (round_robin_from 0) ("a" ∷ "b" ∷ []) 1 16 none oracle 1 1 [] asked)
        ≡ 96 ∷ 16 ∷ 16 ∷ 0 ∷ [])
    × (counters (replay no_hash affinity ("a" ∷ []) 1 16 (some 8) blind 1 1 [] asked)
        ≡ 96 ∷ 0 ∷ 48 ∷ 5 ∷ [])
    × (counters (replay no_hash affinity ("a" ∷ []) 0 16 none blind 1 1 [] asked) ≡ [])
unfolding program replay
asked-replay = (refl, refl, refl, refl)

reuse_ceiling-eq_example :
    reuse_ceiling asked 16 ≡ some (shared_before 16 [] asked, all_tokens asked)
unfolding program
reuse_ceiling-eq_example =
    reuse_ceiling-eq asked 16
      (record {
        prefix_match_unit = 16;
        root = empty_root;
        capacity_tokens = [];
        tokens_used = [];
        evictions = [];
      })
      refl

abbrev busy : World
busy = record { fleet = sent_once; separate = none }

busy-Sound : WorldIsSound "a" busy (ticket ∷ [])
unfolding program distinct
busy-Sound = record {
  fleet = record { balanced = sent_once-Balanced; once = refl; there = refl };
  held = sent_once-Balanced.valid;
}

make_room-Sound_example :
    (w : World) × (done : List Dispatch) × (rest : List Dispatch) × (make_room 1 5 busy
        (ticket ∷ [])
      ≡ some (w, rest))
    × ((ticket ∷ []) ≡ done ++ rest)
    × (length rest < 1)
    × ((done ≡ []) ⊎ (length rest + 1 ≡ 1))
    × WorldIsSound "a" w rest
    × Keeps busy w
make_room-Sound_example = make_room-Sound "a" 1 5 busy (ticket ∷ []) (omega arith) busy-Sound

replay-conserves_example :
    (result : ReplayResult) × (evictions : ℕ) × (replay no_hash affinity
        ("a" ∷ "b" ∷ [])
        1
        16
        (some 8)
        blind
        1
        1
        []
        asked
      ≡ some (result, evictions))
    × (result.total_prompt_tokens ≡ 96)
    × (sum_values result.requests_per_replica ≡ 3)
    × (result.cached_tokens ≤ 96)
    × (result.believed_cached_tokens ≤ 96)
unfolding program
replay-conserves_example =
    replay-conserves no_hash affinity "a" ("b" ∷ []) 1 16 (some 8) blind 1 1 [] asked (omega arith)
      refl tt

replay-oracle_example :
    (result : ReplayResult) × (evictions : ℕ) × (replay no_hash affinity
        ("a" ∷ "b" ∷ [])
        1
        16
        (some 8)
        oracle
        1
        1
        []
        asked
      ≡ some (result, evictions))
    × (believed_reuse_fraction result ≡ reuse_fraction result)
    × ((drift_fraction result).0 ≡ 0)
    × ((misprediction_rate 3 result).0 ≡ 0)
unfolding program
replay-oracle_example =
    replay-oracle no_hash affinity "a" ("b" ∷ []) 1 16 (some 8) 1 1 [] asked (omega arith) refl tt
