-- ===== src/Simulate/Cases.antt =====
-- What the parts of the loop of `simulate` (src/kv_aware_router/simulate.py) have done where they do
-- not raise.
use kv_aware_router.Prelude.{
  ℕ, ◌+◌, ◌≡◌, refl, true, false, List, [], ◌∷◌, ◌++◌, some, String, arith, Option-cases, inl, inr,
}
use kv_aware_router.Dict.{get, put}
use kv_aware_router.Fleet.{Dispatch}
use kv_aware_router.Workload.{Request}
use kv_aware_router.World.{World, send}
use kv_aware_router.Simulate.State.{ServiceModel, Job, Sim, start_next, begin_prefill}
use kv_aware_router.Simulate.Loop.{
  prefilled, decoded, enqueue, job_of, admit, on_prefill_done, on_decode_done,
}

-- What `start_next` may have done.
pub data Started (service : ServiceModel) (r : String) (now : ℕ) (s s' : Sim) : Type 0 where
  nothing : s' ≡ s → Started service r now s s'
  job_started :
      (k : ℕ) (job : Job) (jobs : List Job)
      → get r s.pending ≡ some (job ∷ jobs)
      → s' ≡ begin_prefill service r now k job jobs s
      → Started service r now s s'

pub start_next_cases :
    (service : ServiceModel) (r : String) (now : ℕ) (s s' : Sim)
    → start_next service r now s ≡ some s'
    → Started service r now s s'
start_next_cases service r now s s' h = elim (Option-cases (get r s.busy)) [
  | inl e ↦ absurd (unfold start_next in ground (arith, e, h))
  | inr (true, e) ↦ nothing (unfold start_next in ground (arith, e, h))
  | inr (false, e) ↦ elim (Option-cases (get r s.pending)) [
    | inl e' ↦ absurd (unfold start_next in ground (arith, e, e', h))
    | inr ([], e') ↦ nothing (unfold start_next in ground (arith, e, e', h))
    | inr (job ∷ jobs, e') ↦ elim (Option-cases (get r s.decoding)) [
      | inl f ↦ absurd (unfold start_next in ground (arith, e, e', f, h))
      | inr (k, f) ↦ job_started k job jobs e' (unfold start_next in ground (arith, e, e', f, h))
    ]
  ]
]

-- What an arrival that is admitted did.
pub admit_cases :
    (service : ServiceModel) (now : ℕ) (req : Request) (r : String) (s s' : Sim)
    → admit service now req r s ≡ some s'
    → (count : ℕ) × (w : World) × (d : Dispatch) × (s₂ : Sim) × (get r s.requests_per_replica
        ≡ some count)
      × (send req.tokens r now s.world ≡ some (w, d))
      × (enqueue r (job_of now req r s d) (record s {
        world = w;
        requests_per_replica = put r (count + 1) s.requests_per_replica;
      })
          ≡ some s₂)
      × (start_next service r now s₂ ≡ some s')
admit_cases service now req r s s' h = elim (Option-cases (get r s.requests_per_replica)) [
  | inl e ↦ absurd (unfold admit in ground (arith, e, h))
  | inr (count, e) ↦ elim (Option-cases (send req.tokens r now s.world)) [
    | inl f ↦ absurd (unfold admit in ground (arith, e, f, h))
    | inr ((w, d), f) ↦
        elim (Option-cases (
          enqueue r (job_of now req r s d) (record s {
            world = w;
            requests_per_replica = put r (count + 1) s.requests_per_replica;
          }))) [
            | inl g ↦ absurd (unfold admit in ground (arith, e, f, g, h))
            | inr (s₂, g) ↦ (count, w, d, s₂, e, f, g, unfold admit in ground (arith, e, f, g, h))
          ]
  ]
]

pub enqueue_case :
    (r : String) (job : Job) (s s' : Sim)
    → enqueue r job s ≡ some s'
    → (jobs : List Job) × (get r s.pending ≡ some jobs)
      × (s' ≡ record s { pending = put r (jobs ++ (job ∷ [])) s.pending })
enqueue_case r job s s' h = elim (Option-cases (get r s.pending)) [
  | inl e ↦ absurd (unfold enqueue in ground (arith, e, h))
  | inr (jobs, e) ↦ (jobs, e, unfold enqueue in ground (arith, e, h))
]

pub prefill_next :
    (service : ServiceModel) (now : ℕ) (r : String) (job : Job) (k : ℕ) (s : Sim)
    → get r s.decoding ≡ some k
    → on_prefill_done service now r job s
      ≡ start_next service r now (prefilled service now r job k s)
prefill_next service now r job k s e = unfold on_prefill_done in rw (e, on_prefill_done) refl

pub decode_next :
    (service : ServiceModel) (now : ℕ) (r : String) (job : Job) (k : ℕ) (s : Sim)
    → get r s.decoding ≡ some k
    → on_decode_done service now r job s ≡ start_next service r now (decoded now r job k s)
decode_next service now r job k s e = unfold on_decode_done in rw (e, on_decode_done) refl
