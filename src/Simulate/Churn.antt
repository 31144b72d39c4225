-- ===== src/Simulate/Churn.antt =====
-- A replica that joins or leaves during `simulate` of src/kv_aware_router/simulate.py.
use kv_aware_router.Prelude.{
  ℕ, suc, ◌*◌, ◌/◌, Bool, false, ◌||◌, List, [], ◌∷◌, Option, none, some, String, str_eq,
  if◌then◌else◌,
}
use kv_aware_router.Dict.{put, put_new}
use kv_aware_router.Radix.Tree
use kv_aware_router.Radix.Tree.{PrefixTree}
use kv_aware_router.Fleet.{Fleet, add_replica, remove_replica}
use kv_aware_router.World.{World, BeliefMode, modelled, believed}
use kv_aware_router.Simulate.State.{ChurnEvent, Setup, Sim}

-- `truth.capacity_tokens[rid] = capacity`, and on the tree of the fleet.
abbrev pub set_capacity : String → ℕ → PrefixTree → PrefixTree
set_capacity r capacity t = record t { capacity_tokens = put r capacity t.capacity_tokens }

abbrev pub on_fleet_tree : (PrefixTree → PrefixTree) → World → World
on_fleet_tree g w = record w { fleet = record w.fleet { tree = g w.fleet.tree } }

abbrev pub on_truth_of : (PrefixTree → PrefixTree) → Fleet → Option PrefixTree → World
on_truth_of g f none = record { fleet = record f { tree = g f.tree }; separate = none }
on_truth_of g f (some t) = record { fleet = f; separate = some (g t) }

abbrev pub on_truth : (PrefixTree → PrefixTree) → World → World
on_truth g w = on_truth_of g w.fleet w.separate

-- `rid in replica_ids`
unfoldable pub named : String → List String → Bool
named r [] = false
named r (k ∷ ids) = str_eq k r || named r ids

-- The capacity that is believed of a replica that joins: `belief_capacity[rid]`, or the product for
-- a new name.
abbrev pub believed_of : Setup → ℕ → String → ℕ
believed_of setup capacity r =
    if named r setup.initial
    then believed capacity setup.ratio_num setup.ratio_den
    else capacity * setup.ratio_num / setup.ratio_den

abbrev pub believe_capacity : BeliefMode → Setup → ℕ → String → World → World
believe_capacity modelled setup capacity r w =
    on_fleet_tree (set_capacity r (believed_of setup capacity r)) w
believe_capacity _ setup capacity r w = w

-- `if capacity_tokens`
abbrev pub join_capacity : Option ℕ → Setup → String → World → World
join_capacity (some (suc n)) setup r w =
    believe_capacity setup.belief setup (suc n) r (on_truth (set_capacity r (suc n)) w)
join_capacity _ setup r w = w

abbrev pub join : Setup → String → Sim → Sim
join setup r s = record s {
  world =
      join_capacity setup.capacity setup r (record s.world { fleet = add_replica r s.world.fleet });
  busy = put_new r false s.busy;
  pending = put_new r [] s.pending;
  decoding = put_new r 0 s.decoding;
  requests_per_replica = put_new r 0 s.requests_per_replica;
}

abbrev pub leave : String → Sim → Sim
leave r s = record s {
  world =
      on_truth (Tree.remove_replica r) (record s.world { fleet = remove_replica r s.world.fleet });
}

unfoldable pub on_churn : Setup → ChurnEvent → Sim → Sim
unfolding named add_replica remove_replica put_new
on_churn setup event s =
    if str_eq event.action "add" then join setup event.replica_id s else leave event.replica_id s
