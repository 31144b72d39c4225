-- ===== src/Simulate/Totals.antt =====
-- Sums over the requests that `simulate` of src/kv_aware_router/simulate.py still has to handle,
-- the events and the jobs in line, and what each part of its loop does to them.
use kv_aware_router.Prelude.{
  ℕ, ◌+◌, ◌*◌, ◌≡◌, ◌∙◌, ap, sym, refl, List, [], ◌∷◌, ◌++◌, some, String, arith, Option-cases,
  Bool-cases, inl, inr, str_eq,
}
use kv_aware_router.Dict.{Dict, get, put, put_new}
use kv_aware_router.Policies.Hashing.{str}
use kv_aware_router.Policies.Registry.{choose_replica}
use kv_aware_router.Fleet.{Dispatch}
use kv_aware_router.Workload.{Request}
use kv_aware_router.World.{World, send}
use kv_aware_router.Simulate.State.{
  ServiceModel, ChurnEvent, Job, Payload, prefill_done, decode_done, Event, push, Setup, schedule,
  Sim, start_next, with_prefill, prefill_time,
}
use kv_aware_router.Simulate.Churn.{on_churn}
use kv_aware_router.Simulate.Loop.{
  prefilled, decoded, job_of, admit, on_prefill_done, on_decode_done, on_arrival,
}
use kv_aware_router.Simulate.Cases.{
  nothing, job_started, start_next_cases, admit_cases, enqueue_case, prefill_next, decode_next,
}

unfoldable pub events_sum : (Payload → ℕ) → List Event → ℕ
events_sum g [] = 0
events_sum g (e ∷ events) = g e.payload + events_sum g events

unfoldable pub jobs_sum : (Job → ℕ) → List Job → ℕ
jobs_sum h [] = 0
jobs_sum h (job ∷ jobs) = h job + jobs_sum h jobs

unfoldable pub pending_sum : (Job → ℕ) → Dict (List Job) → ℕ
unfolding jobs_sum
pending_sum h [] = 0
pending_sum h ((r, jobs) ∷ m) = jobs_sum h jobs + pending_sum h m

-- A measure of what is left: `g` of each event and `h` of each job in line.
unfoldable pub total : (Payload → ℕ) → (Job → ℕ) → Sim → ℕ
unfolding events_sum pending_sum
total g h s = events_sum g s.events + pending_sum h s.pending

pub jobs_sum-append :
    (h : Job → ℕ) (jobs more : List Job)
    → jobs_sum h (jobs ++ more) ≡ jobs_sum h jobs + jobs_sum h more
unfolding jobs_sum
jobs_sum-append h [] more = omega arith
jobs_sum-append h (job ∷ jobs) more = ground (arith, jobs_sum-append h jobs more)

pub events_sum-push :
    (g : Payload → ℕ) (e : Event) (events : List Event)
    → events_sum g (push e events) ≡ g e.payload + events_sum g events
unfolding events_sum push
events_sum-push g e [] = refl
events_sum-push g e (f ∷ events) = ground (arith, events_sum-push g e events)

pub events_sum-schedule :
    (g : Payload → ℕ) (time : ℕ) (payload : Payload) (s : Sim)
    → events_sum g (schedule time payload s).events ≡ g payload + events_sum g s.events
events_sum-schedule g time payload s =
    events_sum-push g (record { time = time; seq = s.seq; payload = payload }) s.events

pub pending_sum-put :
    (h : Job → ℕ) (r : String) (jobs new : List Job) (m : Dict (List Job))
    → get r m ≡ some jobs
    → pending_sum h (put r new m) + jobs_sum h jobs ≡ pending_sum h m + jobs_sum h new
unfolding pending_sum put get
pending_sum-put h r jobs new [] e = cc
pending_sum-put h r jobs new ((s, l) ∷ m) e = ground (arith, pending_sum-put h r jobs new m)

pending_sum-put_new :
    (h : Job → ℕ) (r : String) (m : Dict (List Job))
    → pending_sum h (put_new r [] m) ≡ pending_sum h m
unfolding pending_sum put_new
pending_sum-put_new h r [] = refl
pending_sum-put_new h r ((s, l) ∷ m) = ground (arith, pending_sum-put_new h r m)

-- A measure that a job keeps when its prefill starts.
module _ (g : Payload → ℕ) (h : Job → ℕ)
    (same : (service : ServiceModel) (r : String) (now k : ℕ) (job : Job)
      → g (prefill_done r (with_prefill service now k job)) ≡ h job) where
  pub total-pop :
      (s : Sim) (e : Event) (events : List Event)
      → s.events ≡ e ∷ events
      → total g h s ≡ total g h (record s { events = events }) + g e.payload
  unfolding total events_sum
  total-pop s e events q = omega (arith, ap (events_sum g) q)

  pub total-start_next :
      (service : ServiceModel) (r : String) (now : ℕ) (s s' : Sim)
      → start_next service r now s ≡ some s'
      → total g h s' ≡ total g h s
  unfolding total jobs_sum
  total-start_next service r now s s' q = elim (start_next_cases service r now s s' q) [
    | nothing e ↦ rw e refl
    | job_started k job jobs found e ↦ rw e (
        omega (
          arith,
          events_sum-push g
              (record {
                time = now + prefill_time service job.outcome.uncached_tokens k;
                seq = s.seq;
                payload = prefill_done r (with_prefill service now k job);
              })
              s.events,
          same service r now k job,
          pending_sum-put h r (job ∷ jobs) jobs s.pending found,
        ))
  ]

  pub total-admit :
      (service : ServiceModel) (now : ℕ) (req : Request) (r : String) (s s' : Sim)
      → admit service now req r s ≡ some s'
      → (w : World) × (d : Dispatch) × (send req.tokens r now s.world ≡ some (w, d))
        × (total g h s' ≡ total g h s + h (job_of now req r s d))
  unfolding total jobs_sum
  total-admit service now req r s s' q =
      let (count, w, d, s₂, counted, sent, queued, started) =
        admit_cases service now req r s s' q in
      let s₁ = record s {
        world = w;
        requests_per_replica = put r (count + 1) s.requests_per_replica;
      } in
      let job = job_of now req r s d in
      let (jobs, found, e) = enqueue_case r job s₁ s₂ queued in
      (
        w,
        d,
        sent,
        total-start_next service r now s₂ s' started
            ∙ rw e (
                omega (
                  arith,
                  pending_sum-put h r jobs (jobs ++ (job ∷ [])) s.pending found,
                  jobs_sum-append h jobs (job ∷ []),
                )),
      )

  pub total-on_prefill_done :
      (service : ServiceModel) (now : ℕ) (r : String) (job : Job) (s s' : Sim)
      → on_prefill_done service now r job s ≡ some s'
      → total g h s' ≡ total g h s + g (decode_done r job)
  unfolding total
  total-on_prefill_done service now r job s s' q = elim (Option-cases (get r s.decoding)) [
    | inl e ↦ absurd (unfold on_prefill_done in ground (arith, e, q))
    | inr (k, e) ↦
        total-start_next service r now (prefilled service now r job k s) s'
          (sym (prefill_next service now r job k s e) ∙ q)
        ∙ omega (
          arith,
          events_sum-push g
              (record {
                time = now + service.output_tokens * service.decode_per_token;
                seq = s.seq;
                payload = decode_done r job;
              })
              s.events,
        )
  ]

  pub total-on_decode_done :
      (service : ServiceModel) (now : ℕ) (r : String) (job : Job) (s s' : Sim)
      → on_decode_done service now r job s ≡ some s'
      → total g h s' ≡ total g h s
  unfolding total
  total-on_decode_done service now r job s s' q = elim (Option-cases (get r s.decoding)) [
    | inl e ↦ absurd (unfold on_decode_done in ground (arith, e, q))
    | inr (k, e) ↦
        total-start_next service r now (decoded now r job k s) s'
          (sym (decode_next service now r job k s e) ∙ q)
  ]

  pub total-on_churn :
      (setup : Setup) (event : ChurnEvent) (s : Sim)
      → total g h (on_churn setup event s) ≡ total g h s
  unfolding total on_churn
  total-on_churn setup event s = elim (Bool-cases (str_eq event.action "add")) [
    | inl e ↦ rw e (omega (arith, pending_sum-put_new h event.replica_id s.pending))
    | inr e ↦ rw e refl
  ]

  pub total-on_arrival :
      (hash : String → ℕ) (setup : Setup) (now : ℕ) (req : Request) (s s' : Sim)
      → on_arrival hash setup now req s ≡ some s'
      → (job : Job) × (total g h s' ≡ total g h s + h job)
  unfolding total
  total-on_arrival hash setup now req s s' q =
      let p = choose_replica hash s.policy s.world.fleet req.tokens (some (str req.session_id)) in
      elim (Option-cases p.0) [
        | inl e ↦ absurd (unfold on_arrival in ground (arith, e, q))
        | inr (r, e) ↦
            let (w, d, sent, adds) =
              total-admit setup.service now req r (record s { policy = p.1 }) s'
                (unfold on_arrival in ground (arith, e, q)) in
            (job_of now req r s d, adds)
      ]
