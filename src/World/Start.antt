-- ===== src/World/Start.antt =====
-- The constructors that `replay` and `simulate` begin with (src/kv_aware_router/replay.py,
-- src/kv_aware_router/simulate.py).
use kv_aware_router.Prelude.{
  ℕ, ◌≡◌, ◌∙◌, refl, Bool, true, false, List, [], ◌∷◌, ◌||◌, Option, some, none, String, arith,
  eq_iff, if◌then◌else◌,
}
use kv_aware_router.Dict.{Dict, has, get, put, has-put, get-put}
use kv_aware_router.Dict.Distinct.{distinct, distinct-put}
use kv_aware_router.Radix.Tree.{PrefixTree}
use kv_aware_router.Radix.Unit.{validate_match_unit}
use kv_aware_router.Radix.Sessions.{
  fresh_tree, fresh_tree-IsValid, new_tree_accepted, unit_of_accepted,
}
use kv_aware_router.Fleet.{idle_state, new_fleet, started, fleet_with, idle_states}
use kv_aware_router.Fleet.Lifecycle.{new_fleet-Balanced}
use kv_aware_router.Fleet.Names.{new_fleet-distinct}
use kv_aware_router.Fleet.Sound.{IsSound}
use kv_aware_router.Policies.Tiebreak.{elem}
use kv_aware_router.World.{
  World, BeliefMode, oracle, modelled, blind, joined_trees, new_world, truth_capacity,
  belief_capacity, same_for,
}
use kv_aware_router.World.Sound.{WorldIsSound}

pub or_false : (b : Bool) → (b || false) ≡ b
or_false true = refl
or_false false = refl

pub has-same_for {ℓ} :
    {A : Type ℓ} (k : String) (n : A) (rs : List String) (m : Dict A)
    → has k (same_for n rs m) ≡ (elem k rs || has k m)
unfolding same_for elem
has-same_for k n [] m = refl
has-same_for k n (r ∷ rs) m = ground (arith, has-same_for k n rs (put r n m), has-put r k n m)

pub get-same_for {ℓ} :
    {A : Type ℓ} (k : String) (n : A) (rs : List String) (m : Dict A)
    → get k (same_for n rs m) ≡ (if elem k rs then some n else get k m)
unfolding same_for elem
get-same_for k n [] m = refl
get-same_for k n (r ∷ rs) m = ground (arith, get-same_for k n rs (put r n m), get-put r k n m)

pub distinct-same_for {ℓ} :
    {A : Type ℓ} (n : A) (rs : List String) (m : Dict A)
    → distinct m ≡ true
    → distinct (same_for n rs m) ≡ true
unfolding same_for
distinct-same_for n [] m h = h
distinct-same_for n (r ∷ rs) m h = distinct-same_for n rs (put r n m) (distinct-put r n m h)

pub has-idle_states :
    (k : String) (rs : List String) (m : Dict _) → has k (idle_states rs m) ≡ (elem k rs || has k m)
unfolding idle_states elem
has-idle_states k [] m = refl
has-idle_states k (r ∷ rs) m =
    ground (arith, has-idle_states k rs (put r (idle_state r) m), has-put r k (idle_state r) m)

new_fleet_accepted :
    (r : String) (rs : List String) (unit : ℕ) (capacity : Dict ℕ)
    → validate_match_unit unit none ≡ none
    → new_fleet (r ∷ rs) unit capacity none
      ≡ started (fleet_with (fresh_tree unit capacity) (r ∷ rs))
new_fleet_accepted r rs unit capacity fine =
    unfold new_fleet in rw (new_tree_accepted unit capacity none fine, new_fleet) refl

fleet_with-IsSound :
    (r : String) (rs : List String) (unit : ℕ) (capacity : Dict ℕ)
    → validate_match_unit unit none ≡ none
    → IsSound r (fleet_with (fresh_tree unit capacity) (r ∷ rs)) []
unfolding elem
fleet_with-IsSound r rs unit capacity fine =
    let made_so = new_fleet_accepted r rs unit capacity fine in
    record {
      balanced = new_fleet-Balanced r rs unit capacity none _ made_so;
      once = new_fleet-distinct r rs unit capacity none _ made_so;
      there = has-idle_states r (r ∷ rs) [] ∙ ground (arith, eq_iff r r);
    }

joined_trees-Sound :
    (r : String) (rs : List String) (unit : ℕ) (capacity belief_cap : Dict ℕ) (belief : BeliefMode)
    → validate_match_unit unit none ≡ none
    → WorldIsSound r
        (joined_trees belief
          (fresh_tree unit capacity)
          (fleet_with (fresh_tree unit belief_cap) (r ∷ rs)))
        []
joined_trees-Sound r rs unit capacity belief_cap oracle fine = record {
  fleet = fleet_with-IsSound r rs unit capacity fine;
  held = fresh_tree-IsValid unit capacity (unit_of_accepted unit none fine).0;
}
joined_trees-Sound r rs unit capacity belief_cap modelled fine = record {
  fleet = fleet_with-IsSound r rs unit belief_cap fine;
  held = fresh_tree-IsValid unit capacity (unit_of_accepted unit none fine).0;
}
joined_trees-Sound r rs unit capacity belief_cap blind fine = record {
  fleet = fleet_with-IsSound r rs unit belief_cap fine;
  held = fresh_tree-IsValid unit capacity (unit_of_accepted unit none fine).0;
}

has-joined_trees :
    (k r : String) (rs : List String) (t u : PrefixTree) (belief : BeliefMode)
    → has k (joined_trees belief t (fleet_with u (r ∷ rs))).fleet.replicas ≡ elem k (r ∷ rs)
unfolding has elem
has-joined_trees k r rs t u oracle = has-idle_states k (r ∷ rs) [] ∙ or_false (elem k (r ∷ rs))
has-joined_trees k r rs t u modelled = has-idle_states k (r ∷ rs) [] ∙ or_false (elem k (r ∷ rs))
has-joined_trees k r rs t u blind = has-idle_states k (r ∷ rs) [] ∙ or_false (elem k (r ∷ rs))

-- With at least one replica and a unit that is accepted there is a sound world, whose fleet has the
-- replicas named.
pub new_world-Sound :
    (r : String) (rs : List String) (unit : ℕ) (capacity : Option ℕ) (belief : BeliefMode)
    (num den : ℕ)
    → validate_match_unit unit none ≡ none
    → (w : World) × (new_world (r ∷ rs) unit capacity belief num den ≡ some w)
      × WorldIsSound r w []
      × ((k : String) → has k w.fleet.replicas ≡ elem k (r ∷ rs))
new_world-Sound r rs unit capacity belief num den fine =
    let ids = r ∷ rs in
    let t = fresh_tree unit (truth_capacity capacity ids) in
    let believed_cap = belief_capacity capacity belief num den ids in
    (
      joined_trees belief t (fleet_with (fresh_tree unit believed_cap) ids),
      unfold new_world in
          rw
            (
              new_tree_accepted unit (truth_capacity capacity ids) none fine,
              new_fleet_accepted r rs unit believed_cap fine,
              new_world,
            )
            refl,
      joined_trees-Sound r rs unit (truth_capacity capacity ids) believed_cap belief fine,
      λ k. has-joined_trees k r rs t (fresh_tree unit believed_cap) belief,
    )
