-- ===== src/Tests/Fleets.antt =====
-- The fleet of src/kv_aware_router/fleet.py on small inputs.
use kv_aware_router.Prelude.{ℕ, zero, suc, ◌+◌, ◌≡◌, refl, [], ◌∷◌, none, some, round_down}
use kv_aware_router.Dict.{get, get_or, put, put_new, remove, has, map_values}
use kv_aware_router.Radix.Node.{Tokens, empty_root, shared, is_tail_for}
use kv_aware_router.Radix.Tree
use kv_aware_router.Radix.Tree.{match_tokens, insert, touch}
use kv_aware_router.Radix.Unit.{new_tree}
use kv_aware_router.Radix.Invariant.{IsValid}
use kv_aware_router.Radix.Sessions.{new_tree-IsValid}
use kv_aware_router.Fleet.{
  Fleet, ReplicaState, Dispatch, new_fleet, started, dispatch, complete, add_replica,
  remove_replica, cached_tokens, uncached_tokens, sent, handle, fleet_with, idle_state,
}
use kv_aware_router.Fleet.Estimates.{cached-add-uncached, cached-dispatch}
use kv_aware_router.Fleet.Ledger.{count, owed, dispatched, left}
use kv_aware_router.Fleet.Steps.{History, start, next}
use kv_aware_router.Fleet.Lifecycle.{History-counts, History-absent, complete-dispatch}

program : Unit {0}
unfolding insert touch Tree.remove_replica match_tokens new_tree shared is_tail_for get get_or put
    put_new remove has round_down map_values new_fleet dispatch complete add_replica remove_replica
    uncached_tokens
program = tt

abbrev pub two : Fleet
two =
    fleet_with
      (record {
        prefix_match_unit = 16;
        root = empty_root;
        capacity_tokens = [];
        tokens_used = [];
        evictions = [];
      })
      ("a" ∷ "b" ∷ [])

pub two-started : new_fleet ("a" ∷ "b" ∷ []) 16 [] none ≡ started two
unfolding program
two-started = refl

abbrev pub ids : ℕ → ℕ → Tokens
ids zero n = []
ids (suc k) n = n ∷ ids k (n + 1)

abbrev pub prompt : Tokens
prompt = ids 20 0

abbrev state : ReplicaState
state = idle_state "a"

abbrev pub sent_once : Fleet
sent_once = sent two "a" state prompt 1

abbrev pub ticket : Dispatch
ticket = handle two "a" prompt

pub two-dispatch : dispatch two "a" prompt 1 ≡ some (sent_once, ticket)
unfolding program
two-dispatch = refl

-- The handle is for all 20 tokens, and the replica is credited with 16 of them at once.
sees_prefix : (ticket.uncached_tokens ≡ 20) × (cached_tokens sent_once prompt ≡ ("a", 16) ∷ [])
unfolding program
sees_prefix = (refl, refl)

two-tree-IsValid : IsValid two.tree
unfolding program
two-tree-IsValid = (new_tree-IsValid 16 [] none two.tree refl).0

cached-add-uncached_example :
    get_or "a" 0 (cached_tokens two prompt) + get_or "a" 0 (uncached_tokens two prompt) ≡ 20
unfolding program
cached-add-uncached_example = cached-add-uncached two "a" prompt state two-tree-IsValid refl

cached-dispatch_example :
    get_or "a" 0 (cached_tokens sent_once prompt) ≡ round_down sent_once.tree.prefix_match_unit 20
unfolding program
cached-dispatch_example =
    cached-dispatch two sent_once "a" prompt 1 ticket two-tree-IsValid refl two-dispatch

abbrev story : History two [] (remove_replica "b" sent_once) (ticket ∷ [])
story = next (next start (dispatched "a" prompt 1 ticket two-dispatch refl)) (left "b" refl refl)

History-counts_example : (1 ≡ count "a" (ticket ∷ [])) × (20 ≡ owed "a" (ticket ∷ []))
unfolding program
History-counts_example =
    History-counts "a" ("b" ∷ []) 16 [] none two (remove_replica "b" sent_once) (ticket ∷ []) "a"
      (record { replica_id = "a"; in_flight = 1; pending_prefill_tokens = 20 }) two-started story
      refl

History-absent_example : get "b" (cached_tokens (remove_replica "b" sent_once) prompt) ≡ none
unfolding program
History-absent_example =
    History-absent "a" ("b" ∷ []) 16 [] none two (remove_replica "b" sent_once) (ticket ∷ []) "b"
      prompt two-started story refl

-- A replica that joins again while a handle is out has no request in flight, and after a second
-- dispatch the completion of the first takes it off the count.
abbrev joined_again : Fleet
joined_again = add_replica "a" (remove_replica "a" sent_once)

forgets_handles :
    (get "a" joined_again.replicas ≡ some (idle_state "a"))
    × (get "a" (complete ticket 3 (sent joined_again "a" state prompt 2)).replicas
        ≡ some (idle_state "a"))
unfolding program
forgets_handles = (refl, refl)

complete-dispatch_example : get "a" (complete ticket 5 sent_once).replicas ≡ get "a" two.replicas
complete-dispatch_example = complete-dispatch two sent_once "a" "a" prompt 1 5 ticket two-dispatch
