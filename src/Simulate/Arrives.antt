-- ===== src/Simulate/Arrives.antt =====
-- The handler of `simulate` in src/kv_aware_router/simulate.py for an arrival, on a fleet without
-- churn.
use kv_aware_router.Prelude.{
  ℕ, ◌+◌, ◌≡◌, ◌∙◌, sym, refl, true, List, [], ◌∷◌, ◌++◌, Option, some, String, arith,
}
use kv_aware_router.Dict.{
  value_of_has, has_of_get, get_other, get_same, get, has, put, has-put_of_has,
}
use kv_aware_router.Dict.Distinct.{distinct-put}
use kv_aware_router.Fleet.{Dispatch}
use kv_aware_router.Policies.Hashing.{str}
use kv_aware_router.Policies.Registry.{choose_replica, choose_replica-has}
use kv_aware_router.Policies.Ready.{choose_replica-IsReady}
use kv_aware_router.Workload.{Request}
use kv_aware_router.World.{World, send}
use kv_aware_router.World.Sound.{WorldIsSound, send-Sound, Keeps}
use kv_aware_router.Simulate.State.{
  ServiceModel, Job, Payload, churn, arrival, prefill_done, decode_done, Setup, Sim, start_next,
}
use kv_aware_router.Simulate.Loop.{enqueue, job_of, admit, on_arrival, on_event}
use kv_aware_router.Simulate.Totals.{events_sum, jobs_sum, jobs_sum-append, pending_sum-put, total}
use kv_aware_router.Simulate.Handles.{
  handles, tally, of_job, payload_handles, event_handles, tally-handles, handles-Sound,
}
use kv_aware_router.Simulate.Lines.{
  Queue, Lines, OtherLines, IsServing, prefills_of, stays_at, churns, start_next-IsServing,
}
use kv_aware_router.Simulate.Serves.{
  before_pop, on_prefill_done-IsServing, on_decode_done-IsServing,
}

-- The event of an arrival stands for no handle and for no replica.
popped-IsServing :
    (hash : String → ℕ) (r₀ : String) (time seq : ℕ) (req : Request) (s : Sim)
    → IsServing hash r₀ (before_pop time seq (arrival req) s)
    → IsServing hash r₀ s
unfolding events_sum churns stays_at payload_handles event_handles
popped-IsServing hash r₀ time seq req s i = record {
  sound = i.sound;
  ready = i.ready;
  no_churn = omega (arith, i.no_churn);
  known = λ j e. omega (arith, i.known j e);
  decodes = i.decodes;
  counts = i.counts;
  among = i.among;
  once = i.once;
}

popped-Lines :
    (time seq : ℕ) (req : Request) (s : Sim) → Lines (before_pop time seq (arrival req) s) → Lines s
unfolding events_sum prefills_of
popped-Lines time seq req s lines j e = record {
  queue = record {
    working = (lines j e).queue.working;
    jobs = (lines j e).queue.jobs;
    is_busy = (lines j e).queue.is_busy;
    in_line = (lines j e).queue.in_line;
    works = λ w. omega (arith, (lines j e).queue.works w);
  };
  rests = (lines j e).rests;
}

-- The request is counted and sent, and its job stands in line.
abbrev queued : String → Job → List Job → World → ℕ → Sim → Sim
queued r job jobs w count s = record s {
  world = w;
  requests_per_replica = put r (count + 1) s.requests_per_replica;
  pending = put r (jobs ++ (job ∷ [])) s.pending;
}

admit_next :
    (service : ServiceModel) (now : ℕ) (req : Request) (r : String) (s : Sim) (count : ℕ)
    (w : World) (d : Dispatch) (jobs : List Job)
    → get r s.requests_per_replica ≡ some count
    → send req.tokens r now s.world ≡ some (w, d)
    → get r s.pending ≡ some jobs
    → admit service now req r s
      ≡ start_next service r now (queued r (job_of now req r s d) jobs w count s)
admit_next service now req r s count w d jobs counted sent found =
    unfold admit in unfold enqueue in rw (counted, sent, found, admit, enqueue) refl

module _ (hash : String → ℕ) (r₀ : String) where
  module _ (r : String) (job : Job) (jobs : List Job) (w : World) (count : ℕ) (s : Sim) where
    queued-IsServing :
        get r s.requests_per_replica ≡ some count
        → get r s.pending ≡ some jobs
        → WorldIsSound r₀ w (job.dispatch ∷ handles s)
        → Keeps s.world w
        → IsServing hash r₀ s
        → IsServing hash r₀ (queued r job jobs w count s)
    unfolding total jobs_sum tally
    queued-IsServing counted found sound keeps i = record {
      sound =
          handles-Sound r₀ w (job.dispatch ∷ handles s) (queued r job jobs w count s)
            (λ f. omega (
              arith,
              tally-handles f s,
              pending_sum-put (of_job f) r jobs (jobs ++ (job ∷ [])) s.pending found,
              jobs_sum-append (of_job f) jobs (job ∷ []),
            ))
            sound;
      ready = i.ready;
      no_churn = i.no_churn;
      known = λ j e. i.known j (sym (keeps j) ∙ e);
      decodes = λ j e. i.decodes j (sym (keeps j) ∙ e);
      counts = λ j e.
          has-put_of_has r j (count + 1) s.requests_per_replica
            (has_of_get r count s.requests_per_replica counted)
          ∙ i.counts j (sym (keeps j) ∙ e);
      among = λ j e.
          keeps j
          ∙ i.among j (
              sym (
                has-put_of_has r j (jobs ++ (job ∷ [])) s.pending
                  (has_of_get r jobs s.pending found))
              ∙ e);
      once = distinct-put r (jobs ++ (job ∷ [])) s.pending i.once;
    }

    queued-Queue : Queue r s → Queue r (queued r job jobs w count s)
    queued-Queue q = record {
      working = q.working;
      jobs = jobs ++ (job ∷ []);
      is_busy = q.is_busy;
      in_line = get_same r (jobs ++ (job ∷ [])) s.pending;
      works = q.works;
    }

    queued-OtherLines : Keeps s.world w → Lines s → OtherLines r (queued r job jobs w count s)
    queued-OtherLines keeps lines j e other =
        let l = lines j (sym (keeps j) ∙ e) in
        record {
          queue = record {
            working = l.queue.working;
            jobs = l.queue.jobs;
            is_busy = l.queue.is_busy;
            in_line = get_other r j (jobs ++ (job ∷ [])) s.pending other ∙ l.queue.in_line;
            works = l.queue.works;
          };
          rests = l.rests;
        }

  admit-IsServing :
      (service : ServiceModel) (now : ℕ) (req : Request) (r : String) (s : Sim)
      → has r s.world.fleet.replicas ≡ true
      → IsServing hash r₀ s
      → Lines s
      → (s' : Sim) × (admit service now req r s ≡ some s') × IsServing hash r₀ s' × Lines s'
  admit-IsServing service now req r s h i lines =
      let (count, counted) = value_of_has r s.requests_per_replica (i.counts r h) in
      let (w, d, sent, to_r, sound, keeps) =
        send-Sound r₀ r s.world (handles s) req.tokens now h i.sound in
      let q = (lines r h).queue in
      let job = job_of now req r s d in
      let (s', started, i', lines') =
        start_next-IsServing hash r₀ service r now (queued r job q.jobs w count s) (keeps r ∙ h)
          (queued-IsServing r job q.jobs w count s counted q.in_line sound keeps i)
          (queued-Queue r job q.jobs w count s q)
          (queued-OtherLines r job q.jobs w count s keeps lines) in
      (
        s',
        admit_next service now req r s count w d q.jobs counted sent q.in_line ∙ started,
        i',
        lines',
      )

  module _ (setup : Setup) (time seq : ℕ) where
    on_arrival-IsServing :
        (req : Request) (s : Sim)
        → IsServing hash r₀ s
        → Lines s
        → (s' : Sim) × (on_arrival hash setup time req s ≡ some s')
          × IsServing hash r₀ s'
          × Lines s'
    on_arrival-IsServing req s i lines =
        let session : Option String = some (str req.session_id) in
        let (pick, found, there) =
          choose_replica-has hash s.policy s.world.fleet (handles s) req.tokens session r₀ i.ready
            i.sound.fleet.balanced i.sound.fleet.once i.sound.fleet.there in
        let p = (choose_replica hash s.policy s.world.fleet req.tokens session).1 in
        let i₁ : IsServing hash r₀ (record s { policy = p }) = record {
          sound = i.sound;
          ready = choose_replica-IsReady hash s.policy s.world.fleet req.tokens session i.ready;
          no_churn = i.no_churn;
          known = i.known;
          decodes = i.decodes;
          counts = i.counts;
          among = i.among;
          once = i.once;
        } in
        let lines₁ : Lines (record s { policy = p }) = λ j e. record {
          queue = record {
            working = (lines j e).queue.working;
            jobs = (lines j e).queue.jobs;
            is_busy = (lines j e).queue.is_busy;
            in_line = (lines j e).queue.in_line;
            works = (lines j e).queue.works;
          };
          rests = (lines j e).rests;
        } in
        let (s', admitted, i', lines') =
          admit-IsServing setup.service time req pick (record s { policy = p }) there i₁ lines₁ in
        (s', unfold on_arrival in rw (found, on_arrival) admitted, i', lines')

    -- No event but a change of the fleet raises, and each leaves every line moving.
    pub on_event-IsServing :
        (payload : Payload) (s : Sim)
        → IsServing hash r₀ (before_pop time seq payload s)
        → Lines (before_pop time seq payload s)
        → (s' : Sim) × (on_event hash setup time payload s ≡ some s')
          × IsServing hash r₀ s'
          × Lines s'
    unfolding on_event events_sum churns
    on_event-IsServing (churn event) s i lines = absurd (omega (arith, i.no_churn))
    on_event-IsServing (arrival req) s i lines =
        on_arrival-IsServing req s (popped-IsServing hash r₀ time seq req s i)
          (popped-Lines time seq req s lines)
    on_event-IsServing (prefill_done r job) s i lines =
        on_prefill_done-IsServing hash r₀ setup.service time seq r job s i lines
    on_event-IsServing (decode_done r job) s i lines =
        on_decode_done-IsServing hash r₀ setup.service time seq r job s i lines
