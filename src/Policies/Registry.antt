-- ===== src/Policies/Registry.antt =====
-- `Policy`, `POLICIES` and `make_policy` of src/kv_aware_router/policies.py. `make_policy` is
-- modelled without keyword arguments, so each policy has its defaults.
use mathlib.Core.Option
use native.Mathlib.Nat.{mod-lt}
use kv_aware_router.Prelude.{
  ℕ, zero, suc, ◌+◌, ◌%◌, refl, eq_iff, ◌<◌, ◌≡◌, ◌∙◌, ap, sym, true, List, [], ◌∷◌, Option, none,
  some, String, str_eq, if◌then◌else◌, arith, length, get_elem?,
}
use kv_aware_router.Dict.{has}
use kv_aware_router.Dict.Distinct.{distinct}
use kv_aware_router.Radix.Node.{Tokens}
use kv_aware_router.Fleet.{Fleet, Dispatch, CostModel, default_cost, replica_ids}
use kv_aware_router.Fleet.Ledger.{Balanced}
use kv_aware_router.Policies.{round_robin, least_connections, pure_affinity, cost_model}
use kv_aware_router.Policies.Tiebreak.{elem, IsLeast}
use kv_aware_router.Policies.Candidates.{elem-keys}
use kv_aware_router.Policies.Choices.{
  has_of_load, least_connections-IsLeast, pure_affinity-MostCached,
}
use kv_aware_router.Policies.Costs.{cost_model-Cheapest}
use kv_aware_router.Policies.Rounds.{round_robin_eq, at_place}
use kv_aware_router.Policies.Hashing.{ConsistentHash, new_hash, choose}
use kv_aware_router.Policies.Reassign.{IsBuilt, choose-has}

-- A policy with what it keeps from call to call.
pub data Policy : Type 0 where
  round_robin_from : ℕ → Policy
  fewest_connections : Policy
  hashing : ConsistentHash → Policy
  affinity : Policy
  costs : CostModel → Policy

-- `POLICIES[name]()`; `none` is the `ValueError` for an unknown name.
unfoldable pub make_policy : String → Option Policy
make_policy name =
    if str_eq name "round_robin"
    then some (round_robin_from 0)
    else if str_eq name "least_connections"
    then some fewest_connections
    else if str_eq name "consistent_hash"
    then some (hashing (new_hash 100 64))
    else if str_eq name "pure_affinity"
    then some affinity
    else if str_eq name "cost_model"
    then some (costs default_cost)
    else none

pub elem_get :
    (ids : List String) (i : ℕ) (r : String) → get_elem? ids i ≡ some r → elem r ids ≡ true
unfolding elem
elem_get [] i r h = cc
elem_get (s ∷ ids) zero r h = ground (arith, eq_iff s r, h)
elem_get (s ∷ ids) (suc i) r h = ground (arith, elem_get ids i r h)

pub length_of_elem : (r : String) (ids : List String) → elem r ids ≡ true → 0 < length ids
unfolding elem
length_of_elem r [] h = cc
length_of_elem r (s ∷ ids) h = omega arith

-- A least candidate among the keys of the fleet is in the fleet.
least-has : (f : Fleet) (c : String) → IsLeast f c (replica_ids f) → has c f.replicas ≡ true
least-has f c i = sym (elem-keys c f.replicas) ∙ i.among

module _ (hash : String → ℕ) where
  -- `policy.choose`: the choice, `none` where the call raises, and the policy after it.
  unfoldable pub choose_replica : Policy → Fleet → Tokens → Option String → Option String × Policy
  unfolding round_robin least_connections choose pure_affinity cost_model
  choose_replica (round_robin_from n) f tokens session = elim (round_robin f n) [
    | none ↦ (none, round_robin_from n)
    | some (pick, n') ↦ (some pick, round_robin_from n')
  ]
  choose_replica fewest_connections f tokens session = (least_connections f, fewest_connections)
  choose_replica (hashing c) f tokens session =
      let (pick, c') = choose hash f tokens session c in (pick, hashing c')
  choose_replica affinity f tokens session = (pure_affinity f tokens, affinity)
  choose_replica (costs cost) f tokens session = (cost_model cost f tokens, costs cost)

  -- A ring is kept for the names that it was built for, and has virtual nodes.
  abbrev pub IsReady : Policy → Type 0
  IsReady (hashing c) = IsBuilt hash c × (0 < c.vnodes)
  IsReady p = Unit

  round_robin-has :
      (f : Fleet) (n : ℕ) (r : String)
      → has r f.replicas ≡ true
      → (pick : String) × (round_robin f n ≡ some (pick, n + 1)) × (has pick f.replicas ≡ true)
  round_robin-has f n r h =
      let (pick, found, cut) =
        at_place (replica_ids f) (n % length (replica_ids f))
          (mod-lt n (length_of_elem r (replica_ids f) (elem-keys r f.replicas ∙ h))) in
      (
        pick,
        round_robin_eq f n ∙ ap (Option.map (λ s. (s, n + 1))) found,
        sym (elem-keys pick f.replicas) ∙ elem_get (replica_ids f) _ pick found,
      )

  choose_round_robin :
      (f : Fleet) (n n' : ℕ) (tokens : Tokens) (session : Option String) (pick : String)
      → round_robin f n ≡ some (pick, n')
      → (choose_replica (round_robin_from n) f tokens session).0 ≡ some pick
  choose_round_robin f n n' tokens session pick h =
      unfold choose_replica in rw (h, choose_replica) refl

  -- On a fleet with a replica, with balanced books and each name once, every policy returns a
  -- replica of the fleet; consistent hashing, if it has virtual nodes and its ring is the one that
  -- was built for the names it is kept with.
  pub choose_replica-has :
      (p : Policy) (f : Fleet) (out : List Dispatch) (tokens : Tokens) (session : Option String)
      (r : String)
      → IsReady p
      → Balanced f out
      → distinct f.replicas ≡ true
      → has r f.replicas ≡ true
      → (pick : String) × ((choose_replica p f tokens session).0 ≡ some pick)
        × (has pick f.replicas ≡ true)
  unfolding choose_replica
  choose_replica-has (round_robin_from n) f out tokens session r ready b once h =
      let (pick, found, there) = round_robin-has f n r h in
      (pick, choose_round_robin f n (n + 1) tokens session pick found, there)
  choose_replica-has fewest_connections f out tokens session r ready b once h =
      let (pick, found, i) = least_connections-IsLeast f r h in (pick, found, least-has f pick i)
  choose_replica-has (hashing c) f out tokens session r ready b once h =
      choose-has hash f tokens session c r ready.0 ready.1 h
  choose_replica-has affinity f out tokens session r ready b once h =
      let (pick, found, m) = pure_affinity-MostCached f out tokens r b h in
      (pick, found, has_of_load f pick m.amount m.loaded)
  choose_replica-has (costs cost) f out tokens session r ready b once h =
      let (pick, found, m) = cost_model-Cheapest cost f tokens r once h in
      (pick, found, has_of_load f pick m.amount m.loaded)
