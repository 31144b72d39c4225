-- ===== src/Tests/Workloads.antt =====
-- `generate` of src/kv_aware_router/workload.py on small inputs.
use kv_aware_router.Prelude.{ℕ, ◌<◌, length, ◌≡◌, ◌≤◌, refl, List, [], ◌∷◌, some, none, arith}
use kv_aware_router.Workload.{Request}
use kv_aware_router.Workload.Arrivals.{IsIn, IsOrdered}
use kv_aware_router.Workload.Generate.{draw_turns, WorkloadSpec, Draws, generate}
use kv_aware_router.Workload.Generate.Turns.{turns_of}
use kv_aware_router.Workload.Generate.Growth.{IsDrawn, generate-grows}
use kv_aware_router.Workload.Generate.Repeats.{Extends}

abbrev two_sessions : WorkloadSpec
two_sessions = record {
  n_sessions = 2;
  turns_per_session = 2;
  n_system_prompts = 1;
  system_tokens = 2;
  user_tokens = 1;
  reply_tokens = 1;
  turn_skew = 0;
}

abbrev steady : Draws
steady = record { gap = λ k. 10; index = λ k. 0; turns = λ k. 0; think = λ k turn. 100 }

abbrev request : ℕ → ℕ → ℕ → List ℕ → Request
request session turn at tokens = record {
  session_id = session;
  turn = turn;
  arrival = at;
  tokens = tokens;
}

-- The turns of the two sessions alternate, and each repeats the turn before it.
two_sessions_generated :
    generate two_sessions steady
    ≡ some (
        request 0 0 10 (0 ∷ 1 ∷ 2 ∷ [])
        ∷ request 1 0 20 (0 ∷ 1 ∷ 6 ∷ [])
        ∷ request 0 1 110 (0 ∷ 1 ∷ 2 ∷ 3 ∷ 4 ∷ [])
        ∷ request 1 1 120 (0 ∷ 1 ∷ 6 ∷ 7 ∷ 8 ∷ [])
        ∷ [])
unfolding generate
two_sessions_generated = refl

-- A prompt that is not there.
no_prompt : generate (record two_sessions { n_system_prompts = 0 }) steady ≡ none
unfolding generate
no_prompt = refl

generate-grows_example :
    (l : List Request) × (generate two_sessions steady ≡ some l)
    × IsOrdered l
    × ((x y : Request)
        → IsIn x l
        → IsIn y l
        → x.session_id ≡ y.session_id
        → x.turn ≤ y.turn
        → Extends x.tokens y.tokens)
    × (length l ≡ 4)
    × ((x : Request) → IsIn x l → IsDrawn two_sessions steady two_sessions.n_sessions x)
    × ((s t : ℕ)
        → s < two_sessions.n_sessions
        → t < draw_turns two_sessions steady s
        → (x : Request) × IsIn x l × (x.session_id ≡ s) × (x.turn ≡ t))
unfolding turns_of
generate-grows_example = generate-grows two_sessions steady (λ k. omega arith)
