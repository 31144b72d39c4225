-- ===== src/Simulate/Completes.antt =====
-- What `simulate` of src/kv_aware_router/simulate.py returns on a fleet without churn.
use kv_aware_router.Prelude.{
  zero, suc, ◌<◌, false, ℕ, ◌+◌, ◌*◌, ◌≡◌, ◌∙◌, ap, sym, refl, true, List, [], ◌∷◌, some, none,
  String, eq_iff, arith, Bool-cases, inl, inr, length, subst,
}
use kv_aware_router.Dict.{has_of_get, Dict, get, has, has-get}
use kv_aware_router.Dict.Distinct.{distinct}
use kv_aware_router.Radix.Unit.{validate_match_unit}
use kv_aware_router.Fleet.{ReplicaState}
use kv_aware_router.Policies.Registry.{Policy, IsReady}
use kv_aware_router.Policies.Tiebreak.{elem}
use kv_aware_router.Workload.{Request}
use kv_aware_router.World.{World, new_world, sum_values}
use kv_aware_router.World.Sound.{WorldIsSound}
use kv_aware_router.World.Start.{new_world-Sound}
use kv_aware_router.Simulate.State.{ChurnEvent, Job, Payload, Setup, Sim}
use kv_aware_router.Simulate.Loop.{finished, add_arrivals, add_churn, scale_fails, start, simulate}
use kv_aware_router.Simulate.Totals.{events_sum, jobs_sum, pending_sum, total}
use kv_aware_router.Simulate.Ends.{begun_with, simulate-run}
use kv_aware_router.Simulate.Handles.{
  handles, of_payload, of_job, one_of, due_of, tally-handles, count-tally, owed-tally,
}
use kv_aware_router.Simulate.Lines.{prefills_of}
use kv_aware_router.Simulate.Counts.{open_in, open_job, to_come, arrived_job}
use kv_aware_router.Simulate.Running.{Keeping, run-Keeping, add_arrivals-Keeping, start-Keeping}

-- With no job in any line, a sum over the lines is 0.
pending_sum-zero :
    (h : Job → ℕ) (m : Dict (List Job))
    → distinct m ≡ true
    → ((k : String) (jobs : List Job) → get k m ≡ some jobs → jobs ≡ [])
    → pending_sum h m ≡ 0
unfolding pending_sum jobs_sum distinct get
pending_sum-zero h [] once rest = refl
pending_sum-zero h ((r, jobs) ∷ m) once rest =
    let none_here : jobs ≡ [] = rest r jobs (ground (arith, eq_iff r r)) in
    let later =
      pending_sum-zero h m (ground (arith, once))
        (λ k l e. rest k l (ground (arith, e, eq_iff r k, once, has-get r m))) in
    omega (arith, ap (jobs_sum h) none_here, later)

-- At the end the lines are empty.
empty_line :
    (hash : String → ℕ) (r₀ : String) (n : ℕ) (s : Sim) (k : String) (jobs : List Job)
    → s.events ≡ []
    → Keeping hash r₀ n s
    → get k s.pending ≡ some jobs
    → jobs ≡ []
unfolding events_sum
empty_line hash r₀ n s k jobs done i found =
    let l = i.lines k (i.serving.among k (has_of_get k jobs s.pending found)) in
    elim (Bool-cases l.queue.working) [
      | inl busy ↦ absurd (omega (arith, l.queue.works busy, ap (events_sum (prefills_of k)) done))
      | inr free ↦ ground (arith, found, l.queue.in_line, l.rests free)
    ]

total-zero :
    (hash : String → ℕ) (r₀ : String) (n : ℕ) (s : Sim) (g : Payload → ℕ) (h : Job → ℕ)
    → s.events ≡ []
    → Keeping hash r₀ n s
    → total g h s ≡ 0
unfolding total events_sum
total-zero hash r₀ n s g h done i = omega (
  arith,
  ap (events_sum g) done,
  pending_sum-zero h s.pending i.serving.once
      (λ k jobs found. empty_line hash r₀ n s k jobs done i found),
)

scale_fails-positive : (load_num n : ℕ) → 0 < load_num → scale_fails load_num n ≡ false
scale_fails-positive zero n h = absurd (omega (arith, h))
scale_fails-positive (suc load_num) n h = refl

-- A replica at rest: nothing is in flight and nothing is left to prefill.
abbrev pub IsIdle : ReplicaState → Type 0
IsIdle state = (state.in_flight ≡ 0) × (state.pending_prefill_tokens ≡ 0)

-- On a fleet with a replica and without churn, with a positive scale of the load, a unit that the tree
-- accepts and a policy that is ready, `simulate` returns, whatever the traffic, the capacities and the
-- mode of belief: every request has its outcome and is counted for one replica, no job is left in
-- line, and every replica is idle.
pub simulate-completes :
    (hash : String → ℕ) (setup : Setup) (policy : Policy) (r : String) (rs : List String)
    (unit load_num load_den : ℕ) (requests : List Request)
    → setup.initial ≡ r ∷ rs
    → validate_match_unit unit none ≡ none
    → IsReady hash policy
    → 0 < load_num
    → (end : Sim) × (simulate hash setup policy unit load_num load_den requests [] ≡ finished end)
      × (length end.outcomes ≡ length requests)
      × (sum_values end.requests_per_replica ≡ length requests)
      × ((k : String) (jobs : List Job) → get k end.pending ≡ some jobs → jobs ≡ [])
      × ((k : String) (state : ReplicaState)
          → get k end.world.fleet.replicas ≡ some state
          → IsIdle state)
unfolding add_churn
simulate-completes hash setup policy r rs unit load_num load_den requests named fine ready
      positive =
    let (w, made, sound, names) =
      subst
        (λ ids.
          (w : World) × (new_world ids unit setup.capacity setup.belief setup.ratio_num
              setup.ratio_den
            ≡ some w)
          × WorldIsSound r w []
          × ((k : String) → has k w.fleet.replicas ≡ elem k ids))
        (sym named)
        (new_world-Sound r rs unit setup.capacity setup.belief setup.ratio_num setup.ratio_den
          fine) in
    let s = add_arrivals hash setup load_num load_den requests (start hash setup policy w) in
    let i =
      add_arrivals-Keeping hash setup r load_num load_den 0 requests (start hash setup policy w)
        (start-Keeping hash setup r policy w sound names ready) in
    let (end, returns, done, kept) =
      run-Keeping hash setup r (0 + length requests) (3 * length requests + 0) s
        (omega (arith, begun_with hash setup policy w load_num load_den requests [])) i in
    (
      end,
      simulate-run hash setup policy unit load_num load_den requests [] w made
            (scale_fails-positive load_num (length requests + length {A = ChurnEvent} []) positive)
          ∙ returns,
      omega (arith, kept.all_in, total-zero hash r _ end open_in open_job done kept),
      omega (arith, kept.all_counted, total-zero hash r _ end to_come arrived_job done kept),
      λ k jobs found. empty_line hash r _ end k jobs done kept found,
      λ k state found. (
        kept.serving.sound.fleet.balanced.in_flight k state found
            ∙ count-tally k (handles end)
            ∙ tally-handles (one_of k) end
            ∙ total-zero hash r _ end (of_payload (one_of k)) (of_job (one_of k)) done kept,
        kept.serving.sound.fleet.balanced.pending k state found
            ∙ owed-tally k (handles end)
            ∙ tally-handles (due_of k) end
            ∙ total-zero hash r _ end (of_payload (due_of k)) (of_job (due_of k)) done kept,
      ),
    )
