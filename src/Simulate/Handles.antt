-- ===== src/Simulate/Handles.antt =====
-- The handles that are out during `simulate` of src/kv_aware_router/simulate.py: those of the events
-- that are scheduled and those of the jobs in line.
use kv_aware_router.Prelude.{
  ℕ, ◌+◌, ◌≡◌, refl, List, [], ◌∷◌, ◌++◌, String, str_eq, arith, if◌then◌else◌,
}
use kv_aware_router.Dict.{Dict}
use kv_aware_router.Fleet.{Dispatch}
use kv_aware_router.Fleet.Ledger.{count, owed}
use kv_aware_router.Fleet.Sound.{same_books-Balanced}
use kv_aware_router.World.{World}
use kv_aware_router.World.Sound.{WorldIsSound}
use kv_aware_router.Simulate.State.{
  Job, Payload, churn, arrival, prefill_done, decode_done, Event, Sim,
}
use kv_aware_router.Simulate.Totals.{events_sum, jobs_sum, pending_sum, total}

unfoldable pub tally : (Dispatch → ℕ) → List Dispatch → ℕ
tally f [] = 0
tally f (d ∷ out) = f d + tally f out

abbrev pub one_of : String → Dispatch → ℕ
one_of r d = if str_eq d.replica_id r then 1 else 0

abbrev pub due_of : String → Dispatch → ℕ
due_of r d = if str_eq d.replica_id r then d.uncached_tokens else 0

pub tally-append :
    (f : Dispatch → ℕ) (xs ys : List Dispatch) → tally f (xs ++ ys) ≡ tally f xs + tally f ys
unfolding tally
tally-append f [] ys = omega arith
tally-append f (d ∷ xs) ys = omega (arith, tally-append f xs ys)

pub count-tally : (r : String) (out : List Dispatch) → count r out ≡ tally (one_of r) out
unfolding tally count
count-tally r [] = refl
count-tally r (d ∷ out) = omega (arith, count-tally r out)

pub owed-tally : (r : String) (out : List Dispatch) → owed r out ≡ tally (due_of r) out
unfolding tally owed
owed-tally r [] = refl
owed-tally r (d ∷ out) = omega (arith, owed-tally r out)

-- The handle that a payload stands for, measured.
unfoldable pub of_payload : (Dispatch → ℕ) → Payload → ℕ
of_payload f (churn event) = 0
of_payload f (arrival req) = 0
of_payload f (prefill_done r job) = f job.dispatch
of_payload f (decode_done r job) = f job.dispatch

abbrev pub of_job : (Dispatch → ℕ) → Job → ℕ
of_job f job = f job.dispatch

unfoldable pub payload_handles : Payload → List Dispatch
payload_handles (churn event) = []
payload_handles (arrival req) = []
payload_handles (prefill_done r job) = job.dispatch ∷ []
payload_handles (decode_done r job) = job.dispatch ∷ []

unfoldable pub event_handles : List Event → List Dispatch
unfolding payload_handles
event_handles [] = []
event_handles (e ∷ events) = payload_handles e.payload ++ event_handles events

unfoldable pub job_handles : List Job → List Dispatch
job_handles [] = []
job_handles (job ∷ jobs) = job.dispatch ∷ job_handles jobs

unfoldable pub pending_handles : Dict (List Job) → List Dispatch
unfolding job_handles
pending_handles [] = []
pending_handles ((r, jobs) ∷ m) = job_handles jobs ++ pending_handles m

abbrev pub handles : Sim → List Dispatch
handles s = event_handles s.events ++ pending_handles s.pending

module _ (f : Dispatch → ℕ) where
  tally-payload_handles : (p : Payload) → tally f (payload_handles p) ≡ of_payload f p
  unfolding tally payload_handles of_payload
  tally-payload_handles (churn event) = refl
  tally-payload_handles (arrival req) = refl
  tally-payload_handles (prefill_done r job) = omega arith
  tally-payload_handles (decode_done r job) = omega arith

  tally-event_handles :
      (events : List Event) → tally f (event_handles events) ≡ events_sum (of_payload f) events
  unfolding tally event_handles events_sum
  tally-event_handles [] = refl
  tally-event_handles (e ∷ events) = omega (
    arith,
    tally-append f (payload_handles e.payload) (event_handles events),
    tally-payload_handles e.payload,
    tally-event_handles events,
  )

  tally-job_handles : (jobs : List Job) → tally f (job_handles jobs) ≡ jobs_sum (of_job f) jobs
  unfolding tally job_handles jobs_sum
  tally-job_handles [] = refl
  tally-job_handles (job ∷ jobs) = omega (arith, tally-job_handles jobs)

  tally-pending_handles :
      (m : Dict (List Job)) → tally f (pending_handles m) ≡ pending_sum (of_job f) m
  unfolding tally pending_handles pending_sum
  tally-pending_handles [] = refl
  tally-pending_handles ((r, jobs) ∷ m) = omega (
    arith,
    tally-append f (job_handles jobs) (pending_handles m),
    tally-job_handles jobs,
    tally-pending_handles m,
  )

  pub tally-handles : (s : Sim) → tally f (handles s) ≡ total (of_payload f) (of_job f) s
  unfolding total
  tally-handles s = omega (
    arith,
    tally-append f (event_handles s.events) (pending_handles s.pending),
    tally-event_handles s.events,
    tally-pending_handles s.pending,
  )

-- A world is sound with the handles of a state if they add up to those that it is sound with.
pub handles-Sound :
    (r₀ : String) (w : World) (out : List Dispatch) (s : Sim)
    → ((f : Dispatch → ℕ) → tally f out ≡ total (of_payload f) (of_job f) s)
    → WorldIsSound r₀ w out
    → WorldIsSound r₀ w (handles s)
handles-Sound r₀ w out s same i = record {
  fleet = record {
    balanced =
        same_books-Balanced w.fleet out (handles s)
          (λ r. (
            omega (
              arith,
              count-tally r out,
              count-tally r (handles s),
              same (one_of r),
              tally-handles (one_of r) s,
            ),
            omega (
              arith,
              owed-tally r out,
              owed-tally r (handles s),
              same (due_of r),
              tally-handles (due_of r) s,
            ),
          ))
          i.fleet.balanced;
    once = i.fleet.once;
    there = i.fleet.there;
  };
  held = i.held;
}
