-- ===== src/Simulate/Counts.antt =====
-- The counters of `simulate` in src/kv_aware_router/simulate.py: each request stands in one place,
-- among the events, in a line or among the outcomes, and is counted for one replica once it arrived.
use kv_aware_router.Prelude.{
  ℕ, ◌+◌, ◌≡◌, ◌∙◌, ap, sym, refl, some, String, arith, Option-cases, inl, inr, length,
  length-append,
}
use kv_aware_router.Dict.{get, put}
use kv_aware_router.Policies.Hashing.{str}
use kv_aware_router.Policies.Registry.{choose_replica}
use kv_aware_router.Workload.{Request}
use kv_aware_router.World.{sum_values}
use kv_aware_router.Replay.Rounds.{sum_values-put}
use kv_aware_router.Simulate.State.{
  ServiceModel, Job, Payload, churn, arrival, prefill_done, decode_done, Setup, Sim, start_next,
}
use kv_aware_router.Simulate.Loop.{
  prefilled, decoded, job_of, admit, on_prefill_done, on_decode_done, on_arrival, on_event,
}
use kv_aware_router.Simulate.Cases.{
  start_next_cases, nothing, job_started, admit_cases, enqueue_case, prefill_next, decode_next,
}
use kv_aware_router.Simulate.Totals.{
  total, total-on_arrival, total-on_prefill_done, total-on_decode_done,
}
use kv_aware_router.Simulate.Lines.{churns}

-- The requests that are not done, and those that did not arrive.
unfoldable pub open_in : Payload → ℕ
open_in (churn event) = 0
open_in (arrival req) = 1
open_in (prefill_done r job) = 1
open_in (decode_done r job) = 1

abbrev pub open_job : Job → ℕ
open_job job = 1

unfoldable pub to_come : Payload → ℕ
to_come (churn event) = 0
to_come (arrival req) = 1
to_come (prefill_done r job) = 0
to_come (decode_done r job) = 0

abbrev pub arrived_job : Job → ℕ
arrived_job job = 0

abbrev pub requests_in : Sim → ℕ
requests_in s = total open_in open_job s + length s.outcomes

abbrev pub requests_counted : Sim → ℕ
requests_counted s = total to_come arrived_job s + sum_values s.requests_per_replica

start_next-keeps :
    (service : ServiceModel) (r : String) (now : ℕ) (s s' : Sim)
    → start_next service r now s ≡ some s'
    → (s'.outcomes ≡ s.outcomes) × (s'.requests_per_replica ≡ s.requests_per_replica)
start_next-keeps service r now s s' q = elim (start_next_cases service r now s s' q) [
  | nothing e ↦ rw e (refl, refl)
  | job_started k job jobs found e ↦ rw e (refl, refl)
]

admit-adds :
    (service : ServiceModel) (now : ℕ) (req : Request) (r : String) (s s' : Sim)
    → admit service now req r s ≡ some s'
    → (s'.outcomes ≡ s.outcomes)
      × (sum_values s'.requests_per_replica ≡ sum_values s.requests_per_replica + 1)
admit-adds service now req r s s' q =
    let (count, w, d, s₂, counted, sent, queued, started) = admit_cases service now req r s s' q in
    let s₁ = record s {
      world = w;
      requests_per_replica = put r (count + 1) s.requests_per_replica;
    } in
    let (jobs, found, e) = enqueue_case r (job_of now req r s d) s₁ s₂ queued in
    let (outcomes, counts) = start_next-keeps service r now s₂ s' started in
    (
      outcomes ∙ ap (λ (x : Sim). x.outcomes) e,
      ap sum_values (counts ∙ ap (λ (x : Sim). x.requests_per_replica) e)
          ∙ sum_values-put r count s.requests_per_replica counted,
    )

module _ (hash : String → ℕ) (setup : Setup) where
  on_arrival-adds :
      (now : ℕ) (req : Request) (s s' : Sim)
      → on_arrival hash setup now req s ≡ some s'
      → (s'.outcomes ≡ s.outcomes)
        × (sum_values s'.requests_per_replica ≡ sum_values s.requests_per_replica + 1)
  on_arrival-adds now req s s' q =
      let p = choose_replica hash s.policy s.world.fleet req.tokens (some (str req.session_id)) in
      elim (Option-cases p.0) [
        | inl e ↦ absurd (unfold on_arrival in ground (arith, e, q))
        | inr (r, e) ↦
            admit-adds setup.service now req r (record s { policy = p.1 }) s'
              (unfold on_arrival in ground (arith, e, q))
      ]

  on_prefill_done-keeps :
      (now : ℕ) (r : String) (job : Job) (s s' : Sim)
      → on_prefill_done setup.service now r job s ≡ some s'
      → (s'.outcomes ≡ s.outcomes) × (s'.requests_per_replica ≡ s.requests_per_replica)
  on_prefill_done-keeps now r job s s' q = elim (Option-cases (get r s.decoding)) [
    | inl e ↦ absurd (unfold on_prefill_done in ground (arith, e, q))
    | inr (k, e) ↦
        start_next-keeps setup.service r now (prefilled setup.service now r job k s) s'
          (sym (prefill_next setup.service now r job k s e) ∙ q)
  ]

  on_decode_done-adds :
      (now : ℕ) (r : String) (job : Job) (s s' : Sim)
      → on_decode_done setup.service now r job s ≡ some s'
      → (length s'.outcomes ≡ length s.outcomes + 1)
        × (s'.requests_per_replica ≡ s.requests_per_replica)
  on_decode_done-adds now r job s s' q = elim (Option-cases (get r s.decoding)) [
    | inl e ↦ absurd (unfold on_decode_done in ground (arith, e, q))
    | inr (k, e) ↦
        let (outcomes, counts) =
          start_next-keeps setup.service r now (decoded now r job k s) s'
            (sym (decode_next setup.service now r job k s e) ∙ q) in
        (ap length outcomes ∙ length-append s.outcomes _, counts)
  ]

  -- An event that is no change of the fleet moves its request on, and counts it where it arrives.
  pub on_event-conserves :
      (now : ℕ) (payload : Payload) (s s' : Sim)
      → churns payload ≡ 0
      → on_event hash setup now payload s ≡ some s'
      → (requests_in s' ≡ requests_in s + open_in payload)
        × (requests_counted s' ≡ requests_counted s + to_come payload)
  unfolding on_event churns open_in to_come
  on_event-conserves now (churn event) s s' fixed q = absurd (omega (arith, fixed))
  on_event-conserves now (arrival req) s s' fixed q =
      let (outcomes, counts) = on_arrival-adds now req s s' q in
      (
        omega (
          arith,
          ap length outcomes,
          (total-on_arrival open_in open_job (λ service r now k job. refl) hash setup now req s s'
              q).1,
        ),
        omega (
          arith,
          counts,
          (total-on_arrival to_come arrived_job (λ service r now k job. refl) hash setup now req s
              s' q).1,
        ),
      )
  on_event-conserves now (prefill_done r job) s s' fixed q =
      let (outcomes, counts) = on_prefill_done-keeps now r job s s' q in
      (
        omega (
          arith,
          ap length outcomes,
          total-on_prefill_done open_in open_job (λ service r now k job. refl) setup.service now r
              job s s' q,
        ),
        omega (
          arith,
          ap sum_values counts,
          total-on_prefill_done to_come arrived_job (λ service r now k job. refl) setup.service now
              r job s s' q,
        ),
      )
  on_event-conserves now (decode_done r job) s s' fixed q =
      let (outcomes, counts) = on_decode_done-adds now r job s s' q in
      (
        omega (
          arith,
          outcomes,
          total-on_decode_done open_in open_job (λ service r now k job. refl) setup.service now r
              job s s' q,
        ),
        omega (
          arith,
          ap sum_values counts,
          total-on_decode_done to_come arrived_job (λ service r now k job. refl) setup.service now r
              job s s' q,
        ),
      )
