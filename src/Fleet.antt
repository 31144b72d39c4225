-- ===== src/Fleet.antt =====
-- src/kv_aware_router/fleet.py: what the router believes about each replica, kept in step with the
-- prefix tree. Times are whole nanoseconds: `prefill_s_per_token = 1e-4` is 100000 of them.
-- The counters of the code never go below 0, so they are natural numbers, and the check of
-- `__post_init__` cannot fail.
pub mod Estimates
pub mod Ledger
pub mod Steps
pub mod Lifecycle
pub mod Names
pub mod Sound
use kv_aware_router.Prelude.{ℕ, ◌+◌, ◌-◌, ◌*◌, List, [], ◌∷◌, Option, none, some, String, length}
use kv_aware_router.Dict.{Dict, get, get_or, put, put_new, remove, keys, map_values}
use kv_aware_router.Radix.Node.{Tokens}
use kv_aware_router.Radix.Tree.{PrefixTree, match_tokens, insert, touch}
use kv_aware_router.Radix.Tree
use kv_aware_router.Radix.Unit.{UnitError, Made, made, refused, new_tree}

pub record ReplicaState : Type 0 where
  pub replica_id : String
  pub in_flight : ℕ
  pub pending_prefill_tokens : ℕ

-- `ReplicaState(rid)`
abbrev pub idle_state : String → ReplicaState
idle_state r = record { replica_id = r; in_flight = 0; pending_prefill_tokens = 0 }

pub record CostModel : Type 0 where
  pub prefill_per_token : ℕ
  pub decode_interference : ℕ

abbrev pub default_cost : CostModel
default_cost = record { prefill_per_token = 100_000; decode_interference = 5_000_000 }

pub record Dispatch : Type 0 where
  pub replica_id : String
  pub tokens : Tokens
  pub uncached_tokens : ℕ

pub record Fleet : Type 0 where
  pub tree : PrefixTree
  pub replicas : Dict ReplicaState

pub data FleetError : Type 0 where
  no_replicas : FleetError
  bad_unit : UnitError → FleetError

pub data NewFleet : Type 0 where
  started : Fleet → NewFleet
  failed : FleetError → NewFleet

-- `{rid: ReplicaState(rid) for rid in replica_ids}`
unfoldable pub idle_states : List String → Dict ReplicaState → Dict ReplicaState
idle_states [] m = m
idle_states (r ∷ rs) m = idle_states rs (put r (idle_state r) m)

abbrev pub fleet_with : PrefixTree → List String → Fleet
fleet_with t rs = record { tree = t; replicas = idle_states rs [] }

-- `Fleet.__init__`
unfoldable pub new_fleet : List String → ℕ → Dict ℕ → Option String → NewFleet
unfolding idle_states
new_fleet [] unit capacity backend = failed no_replicas
new_fleet (r ∷ rs) unit capacity backend = elim (new_tree unit capacity backend) [
  | made t ↦ started (fleet_with t (r ∷ rs))
  | refused e ↦ failed (bad_unit e)
]

abbrev pub replica_ids : Fleet → List String
replica_ids f = keys f.replicas

abbrev pub cached_tokens : Fleet → Tokens → Dict ℕ
cached_tokens f tokens = match_tokens f.tree tokens

unfoldable pub uncached_tokens : Fleet → Tokens → Dict ℕ
uncached_tokens f tokens =
    let cached = match_tokens f.tree tokens in
    map_values (λ r state. length tokens - get_or r 0 cached) f.replicas

-- One round of the loop of `expected_ttft_s`.
abbrev pub ttft : CostModel → ReplicaState → ℕ → ℕ
ttft cost state uncached =
    state.pending_prefill_tokens * cost.prefill_per_token
    + state.in_flight * cost.decode_interference
    + uncached * cost.prefill_per_token

unfoldable pub expected_ttft : Fleet → Tokens → CostModel → Dict ℕ
unfolding uncached_tokens
expected_ttft f tokens cost =
    let uncached = uncached_tokens f tokens in
    map_values (λ r state. ttft cost state (get_or r 0 uncached)) f.replicas

-- `len(tokens) - self.tree.match(tokens).get(replica_id, 0)`
abbrev pub uncached_for : Fleet → String → Tokens → ℕ
uncached_for f r tokens = length tokens - get_or r 0 (match_tokens f.tree tokens)

-- The fleet after a request went to a replica in the given state.
abbrev pub sent : Fleet → String → ReplicaState → Tokens → ℕ → Fleet
sent f r state tokens now = record {
  tree = insert tokens r now f.tree;
  replicas =
      put r
        (record state {
          in_flight = state.in_flight + 1;
          pending_prefill_tokens = state.pending_prefill_tokens + uncached_for f r tokens;
        })
        f.replicas;
}

abbrev pub handle : Fleet → String → Tokens → Dispatch
handle f r tokens = record {
  replica_id = r;
  tokens = tokens;
  uncached_tokens = uncached_for f r tokens;
}

-- `dispatch`; `none` is the `KeyError` for a replica that the fleet does not have.
unfoldable pub dispatch : Fleet → String → Tokens → ℕ → Option (Fleet × Dispatch)
dispatch f r tokens now = elim (get r f.replicas) [
  | none ↦ none
  | some state ↦ some (sent f r state tokens now, handle f r tokens)
]

-- The fleet after a request is done, for a replica in the given state. The two `max(0, … - …)` are
-- the subtraction of natural numbers.
abbrev pub settled : Dispatch → ℕ → Fleet → ReplicaState → Fleet
settled d now f state = record {
  tree = touch d.tokens d.replica_id now f.tree;
  replicas =
      put d.replica_id
        (record state {
          in_flight = state.in_flight - 1;
          pending_prefill_tokens = state.pending_prefill_tokens - d.uncached_tokens;
        })
        f.replicas;
}

-- `complete`
unfoldable pub complete : Dispatch → ℕ → Fleet → Fleet
complete d now f = elim (get d.replica_id f.replicas) [
  | none ↦ f
  | some state ↦ settled d now f state
]

unfoldable pub add_replica : String → Fleet → Fleet
unfolding put_new
add_replica r f = record f { replicas = put_new r (idle_state r) f.replicas }

unfoldable pub remove_replica : String → Fleet → Fleet
remove_replica r f = record { tree = Tree.remove_replica r f.tree; replicas = remove r f.replicas }
