-- ===== src/Simulate/Lines.antt =====
-- The replicas of a fleet without churn in `simulate` of src/kv_aware_router/simulate.py: what its
-- variables satisfy, and `start_next`.
use kv_aware_router.Prelude.{
  ℕ, ◌+◌, ◌<◌, ◌≡◌, ◌∙◌, sym, refl, Bool, true, false, List, [], ◌∷◌, some, String, str_eq, eq_iff,
  arith, Bool-cases, inl, inr, subst, if◌then◌else◌,
}
use kv_aware_router.Dict.{
  value_of_has, has_of_get, get_other, get_same, Dict, get, has, has-put_of_has,
}
use kv_aware_router.Dict.Distinct.{distinct, distinct-put}
use kv_aware_router.Policies.Registry.{IsReady}
use kv_aware_router.World.Sound.{WorldIsSound}
use kv_aware_router.Simulate.State.{
  ServiceModel, Job, Payload, churn, prefill_done, decode_done, Sim, start_next, begin_prefill,
  with_prefill, prefill_time,
}
use kv_aware_router.Simulate.Totals.{events_sum, events_sum-schedule, total-start_next}
use kv_aware_router.Simulate.Handles.{handles, of_payload, of_job, tally-handles, handles-Sound}

-- The ends of prefills of a replica, all the events of a replica, and the changes of the fleet.
unfoldable pub prefills_of : String → Payload → ℕ
prefills_of k (prefill_done r job) = if str_eq r k then 1 else 0
prefills_of k _ = 0

unfoldable pub stays_at : String → Payload → ℕ
stays_at k (prefill_done r job) = if str_eq r k then 1 else 0
stays_at k (decode_done r job) = if str_eq r k then 1 else 0
stays_at k _ = 0

unfoldable pub churns : Payload → ℕ
churns (churn event) = 1
churns _ = 0

-- A replica that is busy has the end of a prefill to come.
pub record Queue (k : String) (s : Sim) : Type 0 where
  pub working : Bool
  pub jobs : List Job
  pub is_busy : get k s.busy ≡ some working
  pub in_line : get k s.pending ≡ some jobs
  pub works : working ≡ true → 0 < events_sum (prefills_of k) s.events

-- A replica that is not busy has no job in line.
pub record Line (k : String) (s : Sim) : Type 0 where
  pub queue : Queue k s
  pub rests : queue.working ≡ false → queue.jobs ≡ []

pub record IsServing (hash : String → ℕ) (r₀ : String) (s : Sim) : Type 0 where
  pub sound : WorldIsSound r₀ s.world (handles s)
  pub ready : IsReady hash s.policy
  pub no_churn : events_sum churns s.events ≡ 0
  pub known :
      (k : String) → has k s.world.fleet.replicas ≡ false → events_sum (stays_at k) s.events ≡ 0
  pub decodes : (k : String) → has k s.world.fleet.replicas ≡ true → has k s.decoding ≡ true
  pub counts :
      (k : String) → has k s.world.fleet.replicas ≡ true → has k s.requests_per_replica ≡ true
  pub among : (k : String) → has k s.pending ≡ true → has k s.world.fleet.replicas ≡ true
  pub once : distinct s.pending ≡ true

abbrev pub Lines : Sim → Type 0
Lines s = (k : String) → has k s.world.fleet.replicas ≡ true → Line k s

-- The lines of the other replicas.
abbrev pub OtherLines : String → Sim → Type 0
OtherLines r s = (k : String) → has k s.world.fleet.replicas ≡ true → str_eq r k ≡ false → Line k s

-- Two names, of which the fleet has one, differ.
pub ne_of_has :
    {V : Type 0} (r k : String) (m : Dict V) → has r m ≡ true → has k m ≡ false → str_eq r k ≡ false
ne_of_has r k m h g = elim (Bool-cases (str_eq r k)) [
  | inr other ↦ other
  | inl same ↦ absurd (clash (subst (λ j. has j m ≡ true) ((eq_iff r k).0 same) h))
]
  where
    clash : has k m ≡ true → ⊥
    clash e = ground (arith, e, g)

-- The lines of all replicas, from those of one and of the others.
joined-Lines : (r : String) (s : Sim) → Line r s → OtherLines r s → Lines s
joined-Lines r s l others k h = elim (Bool-cases (str_eq r k)) [
  | inl same ↦ subst (λ j. Line j s) ((eq_iff r k).0 same) l
  | inr other ↦ others k h other
]

module _ (hash : String → ℕ) (r₀ : String) (service : ServiceModel) (r : String) (now : ℕ) where
  events_sum-begin :
      (g : Payload → ℕ) (k : ℕ) (job : Job) (jobs : List Job) (s : Sim)
      → events_sum g (begin_prefill service r now k job jobs s).events
        ≡ g (prefill_done r (with_prefill service now k job)) + events_sum g s.events
  events_sum-begin g k job jobs s =
      events_sum-schedule g (now + prefill_time service job.outcome.uncached_tokens k)
        (prefill_done r (with_prefill service now k job)) s

  -- The first job in line starts.
  begin-IsServing :
      (k : ℕ) (job : Job) (jobs : List Job) (s : Sim)
      → start_next service r now s ≡ some (begin_prefill service r now k job jobs s)
      → has r s.world.fleet.replicas ≡ true
      → get r s.pending ≡ some (job ∷ jobs)
      → IsServing hash r₀ s
      → IsServing hash r₀ (begin_prefill service r now k job jobs s)
  unfolding churns stays_at of_payload
  begin-IsServing k job jobs s started h found i =
      let s' = begin_prefill service r now k job jobs s in
      record {
        sound =
            handles-Sound r₀ s.world (handles s) s'
              (λ f.
                tally-handles f s
                ∙ sym (
                    total-start_next (of_payload f) (of_job f) (λ service r now k job. refl) service
                      r now s s' started))
              i.sound;
        ready = i.ready;
        no_churn = omega (arith, events_sum-begin churns k job jobs s, i.no_churn);
        known = λ j e. ground (
          arith,
          events_sum-begin (stays_at j) k job jobs s,
          i.known j e,
          ne_of_has r j s.world.fleet.replicas h e,
        );
        decodes = i.decodes;
        counts = i.counts;
        among = λ j e.
            i.among j
              (sym (has-put_of_has r j jobs s.pending (has_of_get r _ s.pending found)) ∙ e);
        once = distinct-put r jobs s.pending i.once;
      }

  begin-Line :
      (k : ℕ) (job : Job) (jobs : List Job) (s : Sim)
      → Line r (begin_prefill service r now k job jobs s)
  unfolding prefills_of
  begin-Line k job jobs s = record {
    queue = record {
      working = true;
      jobs = jobs;
      is_busy = get_same r true s.busy;
      in_line = get_same r jobs s.pending;
      works = λ e. ground (arith, events_sum-begin (prefills_of r) k job jobs s, eq_iff r r);
    };
    rests = λ e. absurd (ground (arith, e));
  }

  begin-OtherLine :
      (k : ℕ) (job : Job) (jobs : List Job) (s : Sim) (j : String)
      → str_eq r j ≡ false
      → Line j s
      → Line j (begin_prefill service r now k job jobs s)
  unfolding prefills_of
  begin-OtherLine k job jobs s j other l = record {
    queue = record {
      working = l.queue.working;
      jobs = l.queue.jobs;
      is_busy = get_other r j true s.busy other ∙ l.queue.is_busy;
      in_line = get_other r j jobs s.pending other ∙ l.queue.in_line;
      works = λ e. omega (arith, events_sum-begin (prefills_of j) k job jobs s, l.queue.works e);
    };
    rests = l.rests;
  }

  start_from :
      (working : Bool) (jobs : List Job) (s : Sim)
      → get r s.busy ≡ some working
      → get r s.pending ≡ some jobs
      → (working ≡ true → 0 < events_sum (prefills_of r) s.events)
      → has r s.world.fleet.replicas ≡ true
      → IsServing hash r₀ s
      → OtherLines r s
      → (s' : Sim) × (start_next service r now s ≡ some s') × IsServing hash r₀ s' × Lines s'
  start_from true jobs s b l w h i others =
      let queue : Queue r s = record {
        working = true;
        jobs = jobs;
        is_busy = b;
        in_line = l;
        works = w;
      } in
      (
        s,
        unfold start_next in rw (b, start_next) refl,
        i,
        joined-Lines r s (record { queue = queue; rests = λ e. absurd (ground (arith, e)) }) others,
      )
  start_from false [] s b l w h i others =
      let queue : Queue r s = record {
        working = false;
        jobs = [];
        is_busy = b;
        in_line = l;
        works = w;
      } in
      (
        s,
        unfold start_next in rw (b, l, start_next) refl,
        i,
        joined-Lines r s (record { queue = queue; rests = λ e. refl }) others,
      )
  start_from false (job ∷ jobs) s b l w h i others =
      let (k, decodes) = value_of_has r s.decoding (i.decodes r h) in
      let s' = begin_prefill service r now k job jobs s in
      let started : start_next service r now s ≡ some s' =
        unfold start_next in rw (b, l, decodes, start_next) refl in
      (
        s',
        started,
        begin-IsServing k job jobs s started h l i,
        joined-Lines r s' (begin-Line k job jobs s)
            (λ j e other. begin-OtherLine k job jobs s j other (others j e other)),
      )

  -- `start_next` succeeds where the fleet has the replica, and leaves every line moving.
  pub start_next-IsServing :
      (s : Sim)
      → has r s.world.fleet.replicas ≡ true
      → IsServing hash r₀ s
      → Queue r s
      → OtherLines r s
      → (s' : Sim) × (start_next service r now s ≡ some s') × IsServing hash r₀ s' × Lines s'
  start_next-IsServing s h i q others =
      start_from q.working q.jobs s q.is_busy q.in_line q.works h i others
