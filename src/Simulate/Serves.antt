-- ===== src/Simulate/Serves.antt =====
-- The handlers of `simulate` in src/kv_aware_router/simulate.py for the end of a prefill and of a
-- decode, on a fleet without churn.
use kv_aware_router.Prelude.{
  ℕ, ◌+◌, ◌-◌, ◌*◌, ◌≡◌, ◌∙◌, sym, refl, Bool, true, false, [], ◌∷◌, some, String, eq_iff, arith,
}
use kv_aware_router.Dict.{
  value_of_has, has_of_get, get_other, get_same, get, has, put, has-put_of_has,
}
use kv_aware_router.World.Sound.{take_back-Sound, Keeps}
use kv_aware_router.Simulate.State.{ServiceModel, Job, Payload, prefill_done, decode_done, Sim}
use kv_aware_router.Simulate.Loop.{prefilled, decoded, on_prefill_done, on_decode_done}
use kv_aware_router.Simulate.Cases.{prefill_next, decode_next}
use kv_aware_router.Simulate.Totals.{events_sum, events_sum-schedule, total}
use kv_aware_router.Simulate.Handles.{
  handles, of_payload, payload_handles, event_handles, tally-handles, handles-Sound,
}
use kv_aware_router.Simulate.Lines.{
  Queue, Line, Lines, OtherLines, IsServing, prefills_of, stays_at, churns, start_next-IsServing,
}

-- The state before an event was taken out of the heap.
abbrev pub before_pop : ℕ → ℕ → Payload → Sim → Sim
before_pop time seq payload s = record s {
  events = record { time = time; seq = seq; payload = payload } ∷ s.events;
}

-- A replica that an event is for is in the fleet.
pub there_of_event :
    (r : String) (payload : Payload) (events : ℕ) (there : Bool)
    → stays_at r payload ≡ 1
    → (there ≡ false → stays_at r payload + events ≡ 0)
    → there ≡ true
there_of_event r payload events true at known = refl
there_of_event r payload events false at known = absurd (omega (arith, at, known refl))

module _ (hash : String → ℕ) (r₀ : String) (service : ServiceModel) (time seq : ℕ) where
  module _ (r : String) (job : Job) (s : Sim) (k : ℕ) (found : get r s.decoding ≡ some k) where
    prefilled-IsServing :
        IsServing hash r₀ (before_pop time seq (prefill_done r job) s)
        → IsServing hash r₀ (prefilled service time r job k s)
    unfolding events_sum total of_payload churns stays_at
    prefilled-IsServing i =
        let later = time + service.output_tokens * service.decode_per_token in
        let freed = record s { busy = put r false s.busy; decoding = put r (k + 1) s.decoding } in
        let b = before_pop time seq (prefill_done r job) s in
        record {
          sound =
              handles-Sound r₀ s.world (handles b) (prefilled service time r job k s)
                (λ f. omega (
                  arith,
                  tally-handles f b,
                  events_sum-schedule (of_payload f) later (decode_done r job) freed,
                ))
                i.sound;
          ready = i.ready;
          no_churn =
              omega (arith, events_sum-schedule churns later (decode_done r job) freed, i.no_churn);
          known = λ j e. omega (
            arith,
            events_sum-schedule (stays_at j) later (decode_done r job) freed,
            i.known j e,
          );
          decodes = λ j e.
              has-put_of_has r j (k + 1) s.decoding (has_of_get r k s.decoding found)
              ∙ i.decodes j e;
          counts = i.counts;
          among = i.among;
          once = i.once;
        }

    prefilled-Queue :
        Queue r (before_pop time seq (prefill_done r job) s)
        → Queue r (prefilled service time r job k s)
    prefilled-Queue q = record {
      working = false;
      jobs = q.jobs;
      is_busy = get_same r false s.busy;
      in_line = q.in_line;
      works = λ e. absurd (ground (arith, e));
    }

    prefilled-OtherLines :
        OtherLines r (before_pop time seq (prefill_done r job) s)
        → OtherLines r (prefilled service time r job k s)
    unfolding events_sum prefills_of
    prefilled-OtherLines others j e other =
        let l = others j e other in
        let later = time + service.output_tokens * service.decode_per_token in
        let freed = record s { busy = put r false s.busy; decoding = put r (k + 1) s.decoding } in
        record {
          queue = record {
            working = l.queue.working;
            jobs = l.queue.jobs;
            is_busy = get_other r j false s.busy other ∙ l.queue.is_busy;
            in_line = l.queue.in_line;
            works = λ w. ground (
              arith,
              events_sum-schedule (prefills_of j) later (decode_done r job) freed,
              l.queue.works w,
              other,
            );
          };
          rests = l.rests;
        }

  pub on_prefill_done-IsServing :
      (r : String) (job : Job) (s : Sim)
      → IsServing hash r₀ (before_pop time seq (prefill_done r job) s)
      → Lines (before_pop time seq (prefill_done r job) s)
      → (s' : Sim) × (on_prefill_done service time r job s ≡ some s')
        × IsServing hash r₀ s'
        × Lines s'
  unfolding stays_at events_sum
  on_prefill_done-IsServing r job s i lines =
      let h =
        there_of_event r (prefill_done r job) (events_sum (stays_at r) s.events)
          (has r s.world.fleet.replicas) (ground (arith, eq_iff r r)) (i.known r) in
      let (k, found) = value_of_has r s.decoding (i.decodes r h) in
      let (s', started, i', lines') =
        start_next-IsServing hash r₀ service r time (prefilled service time r job k s) h
          (prefilled-IsServing r job s k found i)
          (prefilled-Queue r job s k found (lines r h).queue)
          (prefilled-OtherLines r job s k found (λ j e other. lines j e)) in
      (s', prefill_next service time r job k s found ∙ started, i', lines')

  module _ (r : String) (job : Job) (s : Sim) (k : ℕ) (found : get r s.decoding ≡ some k) where
    -- The request is taken back, and the fleet has the same replicas.
    decoded-IsServing :
        IsServing hash r₀ (before_pop time seq (decode_done r job) s)
        → IsServing hash r₀ (decoded time r job k s) × Keeps s.world (decoded time r job k s).world
    unfolding events_sum churns stays_at payload_handles event_handles
    decoded-IsServing i =
        let (sound, keeps) = take_back-Sound r₀ s.world job.dispatch time [] (handles s) i.sound in
        (
          record {
            sound = sound;
            ready = i.ready;
            no_churn = omega (arith, i.no_churn);
            known = λ j e. omega (arith, i.known j (sym (keeps j) ∙ e));
            decodes = λ j e.
                has-put_of_has r j (k - 1) s.decoding (has_of_get r k s.decoding found)
                ∙ i.decodes j (sym (keeps j) ∙ e);
            counts = λ j e. i.counts j (sym (keeps j) ∙ e);
            among = λ j e. keeps j ∙ i.among j e;
            once = i.once;
          },
          keeps,
        )

    decoded-Line :
        (j : String)
        → Line j (before_pop time seq (decode_done r job) s)
        → Line j (decoded time r job k s)
    unfolding events_sum prefills_of
    decoded-Line j l = record {
      queue = record {
        working = l.queue.working;
        jobs = l.queue.jobs;
        is_busy = l.queue.is_busy;
        in_line = l.queue.in_line;
        works = λ w. omega (arith, l.queue.works w);
      };
      rests = l.rests;
    }

  pub on_decode_done-IsServing :
      (r : String) (job : Job) (s : Sim)
      → IsServing hash r₀ (before_pop time seq (decode_done r job) s)
      → Lines (before_pop time seq (decode_done r job) s)
      → (s' : Sim) × (on_decode_done service time r job s ≡ some s')
        × IsServing hash r₀ s'
        × Lines s'
  unfolding stays_at events_sum
  on_decode_done-IsServing r job s i lines =
      let h =
        there_of_event r (decode_done r job) (events_sum (stays_at r) s.events)
          (has r s.world.fleet.replicas) (ground (arith, eq_iff r r)) (i.known r) in
      let (k, found) = value_of_has r s.decoding (i.decodes r h) in
      let (i₁, keeps) = decoded-IsServing r job s k found i in
      let (s', started, i', lines') =
        start_next-IsServing hash r₀ service r time (decoded time r job k s) (keeps r ∙ h) i₁
          (decoded-Line r job s k found r (lines r h)).queue
          (λ j e other. decoded-Line r job s k found j (lines j (sym (keeps j) ∙ e))) in
      (s', decode_next service time r job k s found ∙ started, i', lines')
