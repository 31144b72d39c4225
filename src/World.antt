-- ===== src/World.antt =====
-- What `replay` (src/kv_aware_router/replay.py) and `simulate` (src/kv_aware_router/simulate.py)
-- have in common: the fleet with the tree that it believes in, and the tree of what the replicas
-- hold. Under `oracle` the two trees are one object.
pub mod Sound
pub mod Start
use mathlib.Core.Option
use kv_aware_router.Prelude.{
  ℕ, zero, suc, ◌+◌, ◌*◌, ◌/◌, List, [], ◌∷◌, Option, none, some, String, max,
}
use kv_aware_router.Dict.{Dict, put}
use kv_aware_router.Radix.Node.{Tokens}
use kv_aware_router.Radix.Tree.{PrefixTree, insert}
use kv_aware_router.Radix.Unit.{Made, made, refused, new_tree}
use kv_aware_router.Fleet.{
  Fleet, Dispatch, NewFleet, started, failed, new_fleet, dispatch, complete,
}

pub data BeliefMode : Type 0 where
  oracle modelled blind : BeliefMode

-- `separate` is the tree of the replicas where it is not the tree of the fleet.
pub record World : Type 0 where
  pub fleet : Fleet
  pub separate : Option PrefixTree

abbrev pub truth_of : Fleet → Option PrefixTree → PrefixTree
truth_of f none = f.tree
truth_of f (some t) = t

-- `truth`
abbrev pub truth : World → PrefixTree
truth w = truth_of w.fleet w.separate

abbrev pub insert_of : Tokens → String → ℕ → Fleet → Option PrefixTree → World
insert_of tokens r now f none = record {
  fleet = record f { tree = insert tokens r now f.tree };
  separate = none;
}
insert_of tokens r now f (some t) = record { fleet = f; separate = some (insert tokens r now t) }

-- `truth.insert(tokens, replica, now)`
abbrev pub insert_truth : Tokens → String → ℕ → World → World
insert_truth tokens r now w = insert_of tokens r now w.fleet w.separate

-- `truth.insert` and then `fleet.dispatch`; `none` where the dispatch raises.
unfoldable pub send : Tokens → String → ℕ → World → Option (World × Dispatch)
send tokens r now w =
    let w' = insert_truth tokens r now w in
    elim (dispatch w'.fleet r tokens now) [
      | none ↦ none
      | some (f, d) ↦ some (record { fleet = f; separate = w'.separate }, d)
    ]

-- `fleet.complete`
abbrev pub take_back : Dispatch → ℕ → World → World
take_back d now w = record { fleet = complete d now w.fleet; separate = w.separate }

-- `{rid: n for rid in replica_ids}`
unfoldable pub same_for {ℓ} : {A : Type ℓ} → A → List String → Dict A → Dict A
same_for n [] m = m
same_for n (r ∷ rs) m = same_for n rs (put r n m)

-- `if capacity_tokens`: a capacity of 0 counts as none.
abbrev pub truth_capacity : Option ℕ → List String → Dict ℕ
truth_capacity none ids = []
truth_capacity (some zero) ids = []
truth_capacity (some (suc n)) ids = same_for (suc n) ids []

-- The capacity that is believed, for a ratio that is a fraction.
abbrev pub believed : ℕ → ℕ → ℕ → ℕ
believed capacity num den = max 1 (capacity * num / den)

abbrev pub belief_capacity : Option ℕ → BeliefMode → ℕ → ℕ → List String → Dict ℕ
belief_capacity (some (suc n)) modelled num den ids = same_for (believed (suc n) num den) ids []
belief_capacity _ _ num den ids = []

abbrev pub joined_trees : BeliefMode → PrefixTree → Fleet → World
joined_trees oracle t f = record { fleet = record f { tree = t }; separate = none }
joined_trees _ t f = record { fleet = f; separate = some t }

-- The two trees and the fleet; `none` where a constructor raises.
unfoldable pub new_world : List String → ℕ → Option ℕ → BeliefMode → ℕ → ℕ → Option World
unfolding new_fleet same_for
new_world ids match_unit capacity belief num den =
    elim (new_tree match_unit (truth_capacity capacity ids) none) [
      | refused e ↦ none
      | made t ↦
          elim (new_fleet ids match_unit (belief_capacity capacity belief num den ids) none) [
            | failed e ↦ none
            | started f ↦ some (joined_trees belief t f)
          ]
    ]

-- `sum(truth.evictions.values())`
unfoldable pub sum_values : Dict ℕ → ℕ
sum_values [] = 0
sum_values ((r, n) ∷ m) = n + sum_values m

abbrev pub all_evictions : World → ℕ
all_evictions w = sum_values (truth w).evictions
