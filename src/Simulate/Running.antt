-- ===== src/Simulate/Running.antt =====
-- The loop of `simulate` in src/kv_aware_router/simulate.py, on a fleet without churn: what it keeps
-- from its start to its end.
use kv_aware_router.Prelude.{
  ℕ, zero, suc, ◌+◌, ◌≤◌, ◌≡◌, ◌∙◌, ap, sym, refl, false, List, [], ◌∷◌, some, String, arith,
  List-cases, inl, inr, length, subst,
}
use kv_aware_router.Dict.{has}
use kv_aware_router.Dict.Distinct.{distinct}
use kv_aware_router.Policies.Registry.{Policy, IsReady}
use kv_aware_router.Policies.Tiebreak.{elem}
use kv_aware_router.Workload.{Request}
use kv_aware_router.World.{World, sum_values}
use kv_aware_router.World.Sound.{WorldIsSound}
use kv_aware_router.World.Start.{has-same_for, get-same_for, distinct-same_for}
use kv_aware_router.Replay.Conservation.{sum_values-same_for}
use kv_aware_router.Simulate.State.{Job, Payload, arrival, Event, Setup, Sim, schedule}
use kv_aware_router.Simulate.Loop.{finished, on_event, run, scaled, add_arrivals, start}
use kv_aware_router.Simulate.Totals.{events_sum, events_sum-schedule, total, total-pop}
use kv_aware_router.Simulate.Starts.{total-start}
use kv_aware_router.Simulate.Ends.{
  weight, two, left_to_do, left_to_do-on_event, run_next, run_empty, some_weight,
}
use kv_aware_router.Simulate.Handles.{
  handles, tally, of_payload, of_job, tally-handles, handles-Sound,
}
use kv_aware_router.Simulate.Lines.{Lines, IsServing, churns, stays_at, prefills_of}
use kv_aware_router.Simulate.Arrives.{on_event-IsServing}
use kv_aware_router.Simulate.Counts.{
  open_in, open_job, to_come, arrived_job, requests_in, requests_counted, on_event-conserves,
}

-- The state is sound, and `n` requests are in it.
pub record Keeping (hash : String → ℕ) (r₀ : String) (n : ℕ) (s : Sim) : Type 0 where
  pub serving : IsServing hash r₀ s
  pub lines : Lines s
  pub all_in : requests_in s ≡ n
  pub all_counted : requests_counted s ≡ n

module _ (hash : String → ℕ) (setup : Setup) (r₀ : String) where
  on_event-Keeping :
      (n : ℕ) (s : Sim) (e : Event) (events : List Event)
      → s.events ≡ e ∷ events
      → Keeping hash r₀ n s
      → (s' : Sim) × (on_event hash setup e.time e.payload (record s { events = events }) ≡ some s')
        × Keeping hash r₀ n s'
  unfolding events_sum
  on_event-Keeping n s e events found i =
      let popped = record s { events = events } in
      let (s', on, i', lines') =
        on_event-IsServing hash r₀ setup e.time e.seq e.payload popped
          (subst (λ es. IsServing hash r₀ (record s { events = es })) found i.serving)
          (subst (λ es. Lines (record s { events = es })) found i.lines) in
      let (all_in, all_counted) =
        on_event-conserves hash setup e.time e.payload popped s'
          (omega (arith, ap (events_sum churns) found, i.serving.no_churn)) on in
      (
        s',
        on,
        record {
          serving = i';
          lines = lines';
          all_in = omega (
            arith,
            all_in,
            i.all_in,
            total-pop open_in open_job (λ service r now k job. unfold open_in in refl) s e events
                found,
          );
          all_counted = omega (
            arith,
            all_counted,
            i.all_counted,
            total-pop to_come arrived_job (λ service r now k job. unfold to_come in refl) s e events
                found,
          );
        },
      )

  -- With enough fuel the loop returns, and keeps the state.
  pub run-Keeping :
      (n fuel : ℕ) (s : Sim)
      → left_to_do s ≤ fuel
      → Keeping hash r₀ n s
      → (end : Sim) × (run hash setup fuel s ≡ finished end)
        × (end.events ≡ [])
        × Keeping hash r₀ n end
  run-Keeping n zero s h i = elim (List-cases s.events) [
    | inl e ↦ (s, run_empty hash setup zero s e, e, i)
    | inr (e, events, found) ↦ absurd (
        omega (
          arith,
          h,
          total-pop weight two (λ service r now k job. unfold weight in refl) s e events found,
          some_weight hash setup e.payload,
        ))
  ]
  run-Keeping n (suc fuel) s h i = elim (List-cases s.events) [
    | inl e ↦ (s, run_empty hash setup (suc fuel) s e, e, i)
    | inr (e, events, found) ↦
        let popped = record s { events = events } in
        let (s', on, i') = on_event-Keeping n s e events found i in
        let (end, r, done, i'') =
          run-Keeping n fuel s'
            (omega (
              arith,
              h,
              total-pop weight two (λ service r now k job. unfold weight in refl) s e events found,
              left_to_do-on_event hash setup e.time e.payload popped s' on,
            ))
            i' in
        (end, run_next hash setup fuel s s' e events found on ∙ r, done, i'')
  ]

  -- A request more is scheduled.
  schedule-Keeping :
      (n time : ℕ) (req : Request) (s : Sim)
      → Keeping hash r₀ n s
      → Keeping hash r₀ (n + 1) (schedule time (arrival req) s)
  unfolding total of_payload churns stays_at prefills_of open_in to_come
  schedule-Keeping n time req s i =
      let adds = λ (g : Payload → ℕ). events_sum-schedule g time (arrival req) s in
      record {
        serving = record {
          sound =
              handles-Sound r₀ s.world (handles s) (schedule time (arrival req) s)
                (λ f. omega (arith, tally-handles f s, adds (of_payload f))) i.serving.sound;
          ready = i.serving.ready;
          no_churn = omega (arith, adds churns, i.serving.no_churn);
          known = λ k e. omega (arith, adds (stays_at k), i.serving.known k e);
          decodes = i.serving.decodes;
          counts = i.serving.counts;
          among = i.serving.among;
          once = i.serving.once;
        };
        lines = λ k e. record {
          queue = record {
            working = (i.lines k e).queue.working;
            jobs = (i.lines k e).queue.jobs;
            is_busy = (i.lines k e).queue.is_busy;
            in_line = (i.lines k e).queue.in_line;
            works = λ w. omega (arith, adds (prefills_of k), (i.lines k e).queue.works w);
          };
          rests = (i.lines k e).rests;
        };
        all_in = omega (arith, adds open_in, i.all_in);
        all_counted = omega (arith, adds to_come, i.all_counted);
      }

  pub add_arrivals-Keeping :
      (load_num load_den n : ℕ) (requests : List Request) (s : Sim)
      → Keeping hash r₀ n s
      → Keeping hash r₀ (n + length requests) (add_arrivals hash setup load_num load_den requests s)
  unfolding add_arrivals
  add_arrivals-Keeping load_num load_den n [] s i = subst (λ m. Keeping hash r₀ m s) (omega arith) i
  add_arrivals-Keeping load_num load_den n (req ∷ requests) s i =
      let s' = schedule (scaled hash setup load_num load_den req.arrival) (arrival req) s in
      subst (λ m. Keeping hash r₀ m (add_arrivals hash setup load_num load_den requests s'))
        (omega arith)
        (add_arrivals-Keeping load_num load_den (n + 1) requests s'
          (schedule-Keeping n (scaled hash setup load_num load_den req.arrival) req s i))

  pub start-Keeping :
      (policy : Policy) (w : World)
      → WorldIsSound r₀ w []
      → ((k : String) → has k w.fleet.replicas ≡ elem k setup.initial)
      → IsReady hash policy
      → Keeping hash r₀ 0 (start hash setup policy w)
  unfolding events_sum sum_values tally
  start-Keeping policy w sound names ready =
      let s = start hash setup policy w in
      let no_jobs : List Job = [] in
      record {
        serving = record {
          sound =
              handles-Sound r₀ w [] s
                (λ f. sym (total-start (of_payload f) (of_job f) hash setup policy w)) sound;
          ready = ready;
          no_churn = refl;
          known = λ k e. refl;
          decodes = λ k e. has-same_for k 0 setup.initial [] ∙ ground (arith, names k, e);
          counts = λ k e. has-same_for k 0 setup.initial [] ∙ ground (arith, names k, e);
          among = λ k e.
              unfold has in ground (arith, names k, has-same_for k no_jobs setup.initial [], e);
          once = distinct-same_for no_jobs setup.initial [] (unfold distinct in refl);
        };
        lines = λ k e. record {
          queue = record {
            working = false;
            jobs = [];
            is_busy = get-same_for k false setup.initial [] ∙ ground (arith, names k, e);
            in_line = get-same_for k no_jobs setup.initial [] ∙ ground (arith, names k, e);
            works = λ w. absurd (ground (arith, w));
          };
          rests = λ e'. refl;
        };
        all_in = omega (arith, total-start open_in open_job hash setup policy w);
        all_counted = omega (
          arith,
          total-start to_come arrived_job hash setup policy w,
          sum_values-same_for setup.initial [] refl,
        );
      }
