-- ===== src/Simulate/Ends.antt =====
-- What the loop of `simulate` in src/kv_aware_router/simulate.py has left to do at each event.
use kv_aware_router.Prelude.{
  Bool-cases, false, ℕ, zero, suc, ◌+◌, ◌*◌, ◌≤◌, ◌<◌, ◌≡◌, ◌∙◌, refl, List, [], ◌∷◌, some, none,
  String, arith, Option-cases, List-cases, ◌⊎◌, inl, inr, length,
}
use kv_aware_router.Workload.{Request}
use kv_aware_router.World.{World, new_world}
use kv_aware_router.Simulate.State.{
  ChurnEvent, Job, Payload, churn, arrival, prefill_done, decode_done, Event, Setup, Sim,
}
use kv_aware_router.Simulate.Churn.{on_churn}
use kv_aware_router.Simulate.Loop.{finished, raised, on_event, run}
use kv_aware_router.Simulate.Loop.{add_arrivals, add_churn, scale_fails, start, simulate}
use kv_aware_router.Simulate.Starts.{total-start, total-add_arrivals, total-add_churn}
use kv_aware_router.Policies.Registry.{Policy}
use kv_aware_router.Simulate.Totals.{
  total, total-pop, total-on_churn, total-on_arrival, total-on_prefill_done, total-on_decode_done,
}

-- The events that a payload still stands for, itself included.
unfoldable pub weight : Payload → ℕ
weight (churn event) = 1
weight (arrival req) = 3
weight (prefill_done r job) = 2
weight (decode_done r job) = 1

abbrev pub two : Job → ℕ
two job = 2

abbrev pub left_to_do : Sim → ℕ
left_to_do = total weight two

module _ (hash : String → ℕ) (setup : Setup) where
  -- An event that is handled leaves one thing less to be done.
  pub left_to_do-on_event :
      (now : ℕ) (payload : Payload) (s s' : Sim)
      → on_event hash setup now payload s ≡ some s'
      → left_to_do s' + 1 ≡ left_to_do s + weight payload
  unfolding on_event weight
  left_to_do-on_event now (churn event) s s' h =
      let same : on_churn setup event s ≡ s' = ground (arith, h) in
      rw (← same)
        (omega (arith, total-on_churn weight two (λ service r now k job. refl) setup event s))
  left_to_do-on_event now (arrival req) s s' h = omega (
    arith,
    (total-on_arrival weight two (λ service r now k job. refl) hash setup now req s s' h).1,
  )
  left_to_do-on_event now (prefill_done r job) s s' h = omega (
    arith,
    total-on_prefill_done weight two (λ service r now k job. refl) setup.service now r job s s' h,
  )
  left_to_do-on_event now (decode_done r job) s s' h = omega (
    arith,
    total-on_decode_done weight two (λ service r now k job. refl) setup.service now r job s s' h,
  )

  pub run_next :
      (fuel : ℕ) (s s' : Sim) (e : Event) (events : List Event)
      → s.events ≡ e ∷ events
      → on_event hash setup e.time e.payload (record s { events = events }) ≡ some s'
      → run hash setup (suc fuel) s ≡ run hash setup fuel s'
  run_next fuel s s' e events h k = unfold run in rw (h, k, run) refl

  run_raised :
      (fuel : ℕ) (s : Sim) (e : Event) (events : List Event)
      → s.events ≡ e ∷ events
      → on_event hash setup e.time e.payload (record s { events = events }) ≡ none
      → run hash setup (suc fuel) s ≡ raised
  run_raised fuel s e events h k = unfold run in rw (h, k, run) refl

  pub run_empty : (fuel : ℕ) (s : Sim) → s.events ≡ [] → run hash setup fuel s ≡ finished s
  run_empty zero s h = unfold run in ground (arith, h)
  run_empty (suc fuel) s h = unfold run in ground (arith, h)

  pub some_weight : (payload : Payload) → 0 < weight payload
  unfolding weight
  some_weight (churn event) = omega arith
  some_weight (arrival req) = omega arith
  some_weight (prefill_done r job) = omega arith
  some_weight (decode_done r job) = omega arith

  -- The loop never runs out of fuel that covers what is left to do.
  run-ends :
      (fuel : ℕ) (s : Sim)
      → left_to_do s ≤ fuel
      → (run hash setup fuel s ≡ raised)
        ⊎ ((end : Sim) × (run hash setup fuel s ≡ finished end) × (end.events ≡ []))
  run-ends zero s h = elim (List-cases s.events) [
    | inl e ↦ inr (s, run_empty zero s e, e)
    | inr (e, events, found) ↦ absurd (
        omega (
          arith,
          h,
          total-pop weight two (λ service r now k job. unfold weight in refl) s e events found,
          some_weight e.payload,
        ))
  ]
  run-ends (suc fuel) s h = elim (List-cases s.events) [
    | inl e ↦ inr (s, run_empty (suc fuel) s e, e)
    | inr (e, events, found) ↦
        let popped = record s { events = events } in
        elim (Option-cases (on_event hash setup e.time e.payload popped)) [
          | inl k ↦ inl (run_raised fuel s e events found k)
          | inr (s', k) ↦
              elim (run-ends fuel s' (
                omega (
                  arith,
                  h,
                  total-pop weight two (λ service r now k job. unfold weight in refl) s e events
                      found,
                  left_to_do-on_event e.time e.payload popped s' k,
                ))) [
                  | inl r ↦ inl (run_next fuel s s' e events found k ∙ r)
                  | inr (end, r, done) ↦ inr (end, run_next fuel s s' e events found k ∙ r, done)
                ]
        ]
  ]

pub begun_with :
    (hash : String → ℕ) (setup : Setup) (policy : Policy) (w : World) (load_num load_den : ℕ)
    (requests : List Request) (churn_events : List ChurnEvent)
    → left_to_do (
        add_churn hash setup load_num load_den churn_events
          (add_arrivals hash setup load_num load_den requests (start hash setup policy w)))
      ≡ 3 * length requests + length churn_events
unfolding weight
begun_with hash setup policy w load_num load_den requests churn_events = omega (
  arith,
  total-add_churn weight two hash setup load_num load_den 1 (λ event. refl) churn_events
      (add_arrivals hash setup load_num load_den requests (start hash setup policy w)),
  total-add_arrivals weight two hash setup load_num load_den 3 (λ req. refl) requests
      (start hash setup policy w),
  total-start weight two hash setup policy w,
)

pub simulate-run :
    (hash : String → ℕ) (setup : Setup) (policy : Policy) (unit load_num load_den : ℕ)
    (requests : List Request) (churn_events : List ChurnEvent) (w : World)
    → new_world setup.initial unit setup.capacity setup.belief setup.ratio_num setup.ratio_den
      ≡ some w
    → scale_fails load_num (length requests + length churn_events) ≡ false
    → simulate hash setup policy unit load_num load_den requests churn_events
      ≡ run hash setup (3 * length requests + length churn_events) (
          add_churn hash setup load_num load_den churn_events
            (add_arrivals hash setup load_num load_den requests (start hash setup policy w)))
simulate-run hash setup policy unit load_num load_den requests churn_events w h scaled_so =
    unfold simulate in rw (scaled_so, h, simulate) refl

-- The loop of `simulate` ends, whatever the policy, the requests and the changes of the fleet: it
-- raises, or it returns with no event left.
pub simulate-ends :
    (hash : String → ℕ) (setup : Setup) (policy : Policy) (unit load_num load_den : ℕ)
    (requests : List Request) (churn_events : List ChurnEvent)
    → (simulate hash setup policy unit load_num load_den requests churn_events ≡ raised)
      ⊎ ((end : Sim) × (simulate hash setup policy unit load_num load_den requests churn_events
            ≡ finished end)
          × (end.events ≡ []))
simulate-ends hash setup policy unit load_num load_den requests churn_events =
    elim (Bool-cases (scale_fails load_num (length requests + length churn_events))) [
      | inl e ↦ inl (unfold simulate in rw (e, simulate) refl)
      | inr scaled_so ↦
          elim (Option-cases (
            new_world setup.initial unit setup.capacity setup.belief setup.ratio_num
              setup.ratio_den)) [
                | inl e ↦ inl (unfold simulate in rw (scaled_so, e, simulate) refl)
                | inr (w, e) ↦
                    let ready = add_churn hash setup load_num load_den churn_events (
                      add_arrivals hash setup load_num load_den requests
                        (start hash setup policy w)) in
                    let fuel = 3 * length requests + length churn_events in
                    let same =
                      simulate-run hash setup policy unit load_num load_den requests churn_events w
                        e scaled_so in
                    elim (run-ends hash setup fuel ready (
                      omega (
                        arith,
                        begun_with hash setup policy w load_num load_den requests churn_events,
                      ))) [
                        | inl r ↦ inl (same ∙ r)
                        | inr (end, r, done) ↦ inr (end, same ∙ r, done)
                      ]
              ]
    ]
