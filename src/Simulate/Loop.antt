-- ===== src/Simulate/Loop.antt =====
-- The loop of `simulate` in src/kv_aware_router/simulate.py.
use kv_aware_router.Prelude.{
  ℕ, zero, suc, ◌+◌, ◌-◌, ◌*◌, ◌/◌, Bool, false, true, if◌then◌else◌, List, [], ◌∷◌, ◌++◌, Option,
  none, some, String, length,
}
use kv_aware_router.Dict.{get, get_or, put}
use kv_aware_router.Radix.Tree.{match_tokens}
use kv_aware_router.Fleet.{Dispatch}
use kv_aware_router.Policies.Hashing.{str}
use kv_aware_router.Policies.Registry.{Policy, choose_replica}
use kv_aware_router.Workload.{Request, n_tokens}
use kv_aware_router.World.{World, truth, send, take_back, same_for, new_world}
use kv_aware_router.Simulate.State.{
  ServiceModel, Outcome, ChurnEvent, Job, Payload, churn, arrival, prefill_done, decode_done, push,
  Setup, Sim, schedule, start_next,
}
use kv_aware_router.Simulate.Churn.{on_churn}

-- `at / load_scale` divides by 0 where there is a request or a change of the fleet.
abbrev pub scale_fails : ℕ → ℕ → Bool
scale_fails zero (suc n) = true
scale_fails zero zero = false
scale_fails (suc load_num) n = false

abbrev pub new_outcome : String → ℕ → ℕ → ℕ → ℕ → Outcome
new_outcome r now uncached cached believed_cached = record {
  replica = r;
  arrival = now;
  prefill_start = now;
  ttft = 0;
  finish = 0;
  cached_tokens = cached;
  uncached_tokens = uncached;
  believed_cached_tokens = believed_cached;
}

-- `pending[replica].append(job)`; `none` is a `KeyError`.
unfoldable pub enqueue : String → Job → Sim → Option Sim
enqueue r job s = elim (get r s.pending) [
  | none ↦ none
  | some jobs ↦ some (record s { pending = put r (jobs ++ (job ∷ [])) s.pending })
]

-- The job of a request, measured before it is sent.
abbrev pub job_of : ℕ → Request → String → Sim → Dispatch → Job
job_of now req r s d =
    let cached = get_or r 0 (match_tokens (truth s.world) req.tokens) in
    let believed_cached = get_or r 0 (match_tokens s.world.fleet.tree req.tokens) in
    record {
      outcome = new_outcome r now (n_tokens req - cached) cached believed_cached;
      dispatch = d;
    }

-- An arrival, for the replica that was chosen.
unfoldable pub admit : ServiceModel → ℕ → Request → String → Sim → Option Sim
unfolding start_next send enqueue
admit service now req r s = elim (get r s.requests_per_replica) [
  | none ↦ none
  | some count ↦ elim (send req.tokens r now s.world) [
    | none ↦ none
    | some (w, d) ↦
        elim (enqueue r (job_of now req r s d) (record s {
          world = w;
          requests_per_replica = put r (count + 1) s.requests_per_replica;
        })) [ none ↦ none | some s' ↦ start_next service r now s' ]
  ]
]

-- The replica is free for the next prefill, and decodes one request more.
abbrev pub prefilled : ServiceModel → ℕ → String → Job → ℕ → Sim → Sim
prefilled service now r job k s =
    schedule (now + service.output_tokens * service.decode_per_token) (decode_done r job)
      (record s { busy = put r false s.busy; decoding = put r (k + 1) s.decoding })

-- The prefill of a job is done.
unfoldable pub on_prefill_done : ServiceModel → ℕ → String → Job → Sim → Option Sim
unfolding start_next
on_prefill_done service now r job s = elim (get r s.decoding) [
  | none ↦ none
  | some k ↦ start_next service r now (prefilled service now r job k s)
]

-- The request is taken back from the fleet, and its outcome is kept.
abbrev pub decoded : ℕ → String → Job → ℕ → Sim → Sim
decoded now r job k s = record s {
  world = take_back job.dispatch now s.world;
  decoding = put r (k - 1) s.decoding;
  outcomes = s.outcomes ++ (record job.outcome { finish = now } ∷ []);
}

-- A request is done.
unfoldable pub on_decode_done : ServiceModel → ℕ → String → Job → Sim → Option Sim
unfolding start_next
on_decode_done service now r job s = elim (get r s.decoding) [
  | none ↦ none
  | some k ↦ start_next service r now (decoded now r job k s)
]

-- What the loop ends with.
pub data Run : Type 0 where
  finished : Sim → Run
  raised out_of_fuel : Run

module _ (hash : String → ℕ) (setup : Setup) where
  unfoldable pub on_arrival : ℕ → Request → Sim → Option Sim
  unfolding admit choose_replica
  on_arrival now req s =
      let (pick, p) =
        choose_replica hash s.policy s.world.fleet req.tokens (some (str req.session_id)) in
      elim pick [ none ↦ none | some r ↦ admit setup.service now req r (record s { policy = p }) ]

  -- The body of the loop.
  unfoldable pub on_event : ℕ → Payload → Sim → Option Sim
  unfolding on_churn on_arrival on_prefill_done on_decode_done
  on_event now (churn event) s = some (on_churn setup event s)
  on_event now (arrival req) s = on_arrival now req s
  on_event now (prefill_done r job) s = on_prefill_done setup.service now r job s
  on_event now (decode_done r job) s = on_decode_done setup.service now r job s

  -- `while events`, on fuel.
  unfoldable pub run : ℕ → Sim → Run
  unfolding on_event
  run zero s = elim s.events [ [] ↦ finished s | e ∷ events ↦ out_of_fuel ]
  run (suc fuel) s = elim s.events [
    | [] ↦ finished s
    | e ∷ events ↦ elim (on_event e.time e.payload (record s { events = events })) [
      | none ↦ raised
      | some s' ↦ run fuel s'
    ]
  ]

  abbrev pub scaled : ℕ → ℕ → ℕ → ℕ
  scaled load_num load_den at = at * load_den / load_num

  unfoldable pub add_arrivals : ℕ → ℕ → List Request → Sim → Sim
  unfolding push
  add_arrivals load_num load_den [] s = s
  add_arrivals load_num load_den (req ∷ requests) s =
      add_arrivals load_num load_den requests
        (schedule (scaled load_num load_den req.arrival) (arrival req) s)

  unfoldable pub add_churn : ℕ → ℕ → List ChurnEvent → Sim → Sim
  unfolding push
  add_churn load_num load_den [] s = s
  add_churn load_num load_den (event ∷ events) s =
      add_churn load_num load_den events
        (schedule (scaled load_num load_den event.at) (churn event) s)

  abbrev pub start : Policy → World → Sim
  start policy w = record {
    world = w;
    policy = policy;
    busy = same_for false setup.initial [];
    pending = same_for [] setup.initial [];
    decoding = same_for 0 setup.initial [];
    events = [];
    seq = 0;
    outcomes = [];
    requests_per_replica = same_for 0 setup.initial [];
  }

  -- `simulate`: each request gives three events at most, and a change of the fleet one.
  unfoldable pub simulate : Policy → ℕ → ℕ → ℕ → List Request → List ChurnEvent → Run
  unfolding new_world run add_arrivals add_churn
  simulate policy match_unit load_num load_den requests churn_events =
      if scale_fails load_num (length requests + length churn_events)
      then raised
      else elim (new_world setup.initial match_unit setup.capacity setup.belief setup.ratio_num
          setup.ratio_den) [
            | none ↦ raised
            | some w ↦ run (3 * length requests + length churn_events) (
                add_churn load_num load_den churn_events
                  (add_arrivals load_num load_den requests (start policy w)))
          ]
