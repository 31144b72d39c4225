-- ===== src/Replay.antt =====
-- src/kv_aware_router/replay.py: requests run through a policy, in a world with two trees.
pub mod Counts
pub mod Rounds
pub mod Conservation
pub mod Exact
pub mod Oracle
use mathlib.Core.Option
use kv_aware_router.Prelude.{
  ℕ, zero, suc, ◌+◌, ◌-◌, ◌*◌, ◌/◌, ◌%◌, Bool, true, false, ◌&&◌, List, [], ◌∷◌, ◌++◌, Option, none,
  some, String, ltb, leb, ◌==◌, max, if◌then◌else◌, length, get_elem?,
}
use kv_aware_router.Dict.{Dict, get, get_or, put}
use kv_aware_router.Radix.Tree.{match_tokens}
use kv_aware_router.Fleet.{Fleet, Dispatch, complete}
use kv_aware_router.Policies.Hashing.{str}
use kv_aware_router.Policies.Registry.{Policy, choose_replica}
use kv_aware_router.Workload.{by_arrival, Request, n_tokens}
use kv_aware_router.World.{
  World, BeliefMode, truth, insert_truth, send, take_back, same_for, new_world, all_evictions,
}

-- The counters of `ReplayResult`.
pub record ReplayResult : Type 0 where
  pub total_prompt_tokens : ℕ
  pub cached_tokens : ℕ
  pub believed_cached_tokens : ℕ
  pub mispredicted_requests : ℕ
  pub overpredicted_tokens : ℕ
  pub requests_per_replica : Dict ℕ

-- A quotient as its numerator and denominator; without a denominator the code gives 0.
abbrev pub fraction : ℕ → ℕ → ℕ × ℕ
fraction n zero = (0, 1)
fraction n (suc d) = (n, suc d)

abbrev pub reuse_fraction : ReplayResult → ℕ × ℕ
reuse_fraction result = fraction result.cached_tokens result.total_prompt_tokens

abbrev pub believed_reuse_fraction : ReplayResult → ℕ × ℕ
believed_reuse_fraction result = fraction result.believed_cached_tokens result.total_prompt_tokens

abbrev pub drift_fraction : ReplayResult → ℕ × ℕ
drift_fraction result = fraction result.overpredicted_tokens result.total_prompt_tokens

-- For the number of requests, `n_requests`.
abbrev pub misprediction_rate : ℕ → ReplayResult → ℕ × ℕ
misprediction_rate n_requests result = fraction result.mispredicted_requests n_requests

-- The local variables of `replay`.
pub record Replay : Type 0 where
  pub world : World
  pub policy : Policy
  pub inflight : List Dispatch
  pub bg : List Request
  pub bg_next : ℕ
  pub result : ReplayResult

-- The loop over `bg`; `none` is the division by an empty list of replicas.
unfoldable pub background : List String → ℕ → List Request → Replay → Option Replay
background ids now [] s = some s
background ids now (other ∷ bg) s =
    if leb other.arrival now
    then elim (get_elem? ids (s.bg_next % length ids)) [
      | none ↦ none
      | some r ↦ background ids now bg (record s {
        world = insert_truth other.tokens r other.arrival s.world;
        bg = bg;
        bg_next = s.bg_next + 1;
      })
    ]
    else some s

-- `while len(inflight) >= concurrency`; `none` is `popleft` on an empty `deque`.
unfoldable pub make_room : ℕ → ℕ → World → List Dispatch → Option (World × List Dispatch)
make_room concurrency now w [] = if concurrency == 0 then none else some (w, [])
make_room concurrency now w (d ∷ inflight) =
    let rest = make_room concurrency now (take_back d now w) inflight in
    if leb concurrency (length (d ∷ inflight)) then rest else some (w, d ∷ inflight)

-- What a request adds to the counters, with the replica's count so far.
abbrev pub counted : ℕ → Request → String → ℕ → ℕ → ℕ → ReplayResult → ReplayResult
counted match_unit req r actual believed count result =
    let missed = leb match_unit (believed - actual) && leb actual believed in
    record {
      total_prompt_tokens = result.total_prompt_tokens + n_tokens req;
      cached_tokens = result.cached_tokens + actual;
      believed_cached_tokens = result.believed_cached_tokens + believed;
      mispredicted_requests = result.mispredicted_requests + (if missed then 1 else 0);
      overpredicted_tokens =
          result.overpredicted_tokens + (if missed then believed - actual else 0);
      requests_per_replica = put r (count + 1) result.requests_per_replica;
    }

-- From the measurement to the end of the round, for the replica that was chosen.
unfoldable pub serve : ℕ → Request → String → Replay → Option Replay
unfolding send
serve match_unit req r s = elim (get r s.result.requests_per_replica) [
  | none ↦ none
  | some count ↦
      let actual = get_or r 0 (match_tokens (truth s.world) req.tokens) in
      let believed = get_or r 0 (match_tokens s.world.fleet.tree req.tokens) in
      elim (send req.tokens r req.arrival s.world) [
        | none ↦ none
        | some (w, d) ↦ some (record s {
          world = w;
          inflight = s.inflight ++ (d ∷ []);
          result = counted match_unit req r actual believed count s.result;
        })
      ]
]

abbrev pub no_counts : List String → ReplayResult
no_counts ids = record {
  total_prompt_tokens = 0;
  cached_tokens = 0;
  believed_cached_tokens = 0;
  mispredicted_requests = 0;
  overpredicted_tokens = 0;
  requests_per_replica = same_for 0 ids [];
}

abbrev pub begin : Policy → List String → List Request → World → Replay
begin policy ids bg w = record {
  world = w;
  policy = policy;
  inflight = [];
  bg = by_arrival bg;
  bg_next = 0;
  result = no_counts ids;
}

module _ (hash : String → ℕ) where
  -- The request goes where the policy says.
  unfoldable pub route : ℕ → Request → Replay → Option Replay
  unfolding serve choose_replica
  route match_unit req s =
      let (pick, p) =
        choose_replica hash s.policy s.world.fleet req.tokens (some (str req.session_id)) in
      elim pick [ none ↦ none | some r ↦ serve match_unit req r (record s { policy = p }) ]

  -- One round of the loop over `requests`.
  unfoldable pub replay_one : List String → ℕ → ℕ → Request → Replay → Option Replay
  unfolding background make_room route
  replay_one ids concurrency match_unit req s = elim (background ids req.arrival s.bg s) [
    | none ↦ none
    | some s' ↦ elim (make_room concurrency req.arrival s'.world s'.inflight) [
      | none ↦ none
      | some (w, inflight) ↦ route match_unit req (record s' { world = w; inflight = inflight })
    ]
  ]

  unfoldable pub replay_all : List String → ℕ → ℕ → List Request → Replay → Option Replay
  unfolding replay_one
  replay_all ids concurrency match_unit [] s = some s
  replay_all ids concurrency match_unit (req ∷ requests) s =
      elim (replay_one ids concurrency match_unit req s) [
        | none ↦ none
        | some s' ↦ replay_all ids concurrency match_unit requests s'
      ]

  -- `replay`: the counters, and the evictions of the replicas. The ratio of the capacity is a
  -- fraction.
  unfoldable pub replay :
      Policy
      → List String
      → ℕ
      → ℕ
      → Option ℕ
      → BeliefMode
      → ℕ
      → ℕ
      → List Request
      → List Request
      → Option (ReplayResult × ℕ)
  unfolding new_world replay_all by_arrival
  replay policy ids concurrency match_unit capacity belief num den bg requests =
      elim (new_world ids match_unit capacity belief num den) [
        | none ↦ none
        | some w ↦
            Option.map (λ (end : Replay). (end.result, all_evictions end.world))
              (replay_all ids concurrency match_unit requests (begin policy ids bg w))
      ]
