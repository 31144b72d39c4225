-- ===== src/Replay/Oracle.antt =====
-- `replay` of src/kv_aware_router/replay.py where the fleet and the replicas share their tree.
use kv_aware_router.Prelude.{
  ℕ, zero, suc, ◌<◌, ◌≡◌, ◌∙◌, ap, sym, refl, List, ◌∷◌, Option, some, none, String, arith,
  Option-cases, inl, inr, length,
}
use kv_aware_router.Radix.Tree.{PrefixTree}
use kv_aware_router.Radix.Unit.{validate_match_unit, new_tree, made, refused, Made}
use kv_aware_router.Radix.Sessions.{unit_of_accepted}
use kv_aware_router.Fleet.{NewFleet, new_fleet, started, failed}
use kv_aware_router.Policies.Registry.{Policy, IsReady}
use kv_aware_router.Workload.{Request}
use kv_aware_router.World.{World, oracle, new_world, truth_capacity, belief_capacity}
use kv_aware_router.Replay.{
  Replay, ReplayResult, replay_all, begin, replay, fraction, reuse_fraction,
  believed_reuse_fraction, drift_fraction, misprediction_rate,
}
use kv_aware_router.Replay.Conservation.{replay-conserves}
use kv_aware_router.Replay.Exact.{IsExact, replay_all-IsExact}

separate-new_world :
    (ids : List String) (unit : ℕ) (capacity : Option ℕ) (num den : ℕ) (w : World)
    (m : Made PrefixTree) (n : NewFleet)
    → new_tree unit (truth_capacity capacity ids) none ≡ m
    → new_fleet ids unit (belief_capacity capacity oracle num den ids) none ≡ n
    → new_world ids unit capacity oracle num den ≡ some w
    → w.separate ≡ none
separate-new_world ids unit capacity num den w (refused x) n e f h =
    absurd (unfold new_world in ground (arith, e, h))
separate-new_world ids unit capacity num den w (made t) (failed x) e f h =
    absurd (unfold new_world in ground (arith, e, f, h))
separate-new_world ids unit capacity num den w (made t) (started g) e f h =
    let same : record { fleet = record g { tree = t }; separate = none } ≡ w =
      unfold new_world in ground (arith, e, f, h) in
    ap (λ (x : World). x.separate) (sym same)

module _ (hash : String → ℕ) (policy : Policy) (ids : List String) (concurrency unit : ℕ)
    (capacity : Option ℕ) (num den : ℕ) (bg requests : List Request) where
  replay_result-IsExact :
      (result : ReplayResult) (evictions : ℕ)
      → 0 < unit
      → replay hash policy ids concurrency unit capacity oracle num den bg requests
        ≡ some (result, evictions)
      → (s : Replay) × IsExact s × (s.result ≡ result)
  replay_result-IsExact result evictions pos h =
      elim (Option-cases (new_world ids unit capacity oracle num den)) [
        | inl e ↦ absurd (unfold replay in ground (arith, e, h))
        | inr (w, e) ↦
            elim (Option-cases
              (replay_all hash ids concurrency unit requests (begin policy ids bg w))) [
                | inl f ↦ absurd (unfold replay in ground (arith, e, f, h))
                | inr (s, f) ↦ (
                  s,
                  replay_all-IsExact unit pos hash ids concurrency requests (begin policy ids bg w)
                      s f
                      (record {
                        shared = separate-new_world ids unit capacity num den w _ _ refl refl e;
                        believed = refl;
                        over = refl;
                        missed = refl;
                      }),
                  unfold replay in ground (arith, e, f, h),
                )
              ]
      ]

no_fraction : (n d : ℕ) → n ≡ 0 → (fraction n d).0 ≡ 0
no_fraction n zero h = refl
no_fraction n (suc d) h = h

-- With the oracle's belief, a replica, room for a request, a unit that the tree accepts and a policy
-- that is ready, `replay` returns with no drift, whatever the traffic and the capacities: the tokens
-- that the router expects in the caches are those that are there, no request is mispredicted and no
-- token is expected in vain.
pub replay-oracle :
    (hash : String → ℕ) (policy : Policy) (r : String) (rs : List String) (concurrency unit : ℕ)
    (capacity : Option ℕ) (num den : ℕ) (bg requests : List Request)
    → 0 < concurrency
    → validate_match_unit unit none ≡ none
    → IsReady hash policy
    → (result : ReplayResult) × (evictions : ℕ) × (replay hash policy
          (r ∷ rs)
          concurrency
          unit
          capacity
          oracle
          num
          den
          bg
          requests
        ≡ some (result, evictions))
      × (believed_reuse_fraction result ≡ reuse_fraction result)
      × ((drift_fraction result).0 ≡ 0)
      × ((misprediction_rate (length requests) result).0 ≡ 0)
replay-oracle hash policy r rs concurrency unit capacity num den bg requests room fine ready =
    let (result, evictions, returned, prompts, counts, served, expected) =
      replay-conserves hash policy r rs concurrency unit capacity oracle num den bg requests room
        fine ready in
    let (s, i, same) =
      replay_result-IsExact hash policy (r ∷ rs) concurrency unit capacity num den bg requests
        result evictions (unit_of_accepted unit none fine).0 returned in
    (
      result,
      evictions,
      returned,
      ap (λ n. fraction n result.total_prompt_tokens)
          (ap (λ (x : ReplayResult). x.believed_cached_tokens) (sym same)
            ∙ i.believed
            ∙ ap (λ (x : ReplayResult). x.cached_tokens) same),
      no_fraction result.overpredicted_tokens result.total_prompt_tokens
          (ap (λ (x : ReplayResult). x.overpredicted_tokens) (sym same) ∙ i.over),
      no_fraction result.mispredicted_requests (length requests)
          (ap (λ (x : ReplayResult). x.mispredicted_requests) (sym same) ∙ i.missed),
    )
