-- ===== src/Simulate/Starts.antt =====
-- What is left to handle where the loop of `simulate` (src/kv_aware_router/simulate.py) starts.
use native.Mathlib.Nat.{mul-suc}
use kv_aware_router.Prelude.{ℕ, ◌+◌, ◌*◌, ◌≡◌, refl, List, [], ◌∷◌, String, arith, length}
use kv_aware_router.Dict.{Dict, put}
use kv_aware_router.Policies.Registry.{Policy}
use kv_aware_router.Workload.{Request}
use kv_aware_router.World.{World, same_for}
use kv_aware_router.Simulate.State.{ChurnEvent, Job, Payload, churn, arrival, Setup, Sim, schedule}
use kv_aware_router.Simulate.Loop.{start, scaled, add_arrivals, add_churn}
use kv_aware_router.Simulate.Totals.{events_sum, events_sum-push, jobs_sum, pending_sum, total}

module _ (g : Payload → ℕ) (h : Job → ℕ) where
  pending_sum-put_none :
      (r : String) (m : Dict (List Job)) → pending_sum h m ≡ 0 → pending_sum h (put r [] m) ≡ 0
  unfolding pending_sum jobs_sum put
  pending_sum-put_none r [] e = refl
  pending_sum-put_none r ((s, jobs) ∷ m) e = ground (arith, e, pending_sum-put_none r m)

  pub pending_sum-same_for :
      (rs : List String) (m : Dict (List Job))
      → pending_sum h m ≡ 0
      → pending_sum h (same_for [] rs m) ≡ 0
  unfolding same_for
  pending_sum-same_for [] m e = e
  pending_sum-same_for (r ∷ rs) m e =
      pending_sum-same_for rs (put r [] m) (pending_sum-put_none r m e)

  total-schedule :
      (time : ℕ) (payload : Payload) (s : Sim)
      → total g h (schedule time payload s) ≡ total g h s + g payload
  unfolding total
  total-schedule time payload s =
      omega
        (arith, events_sum-push g (record { time = time; seq = s.seq; payload = payload }) s.events)

  module _ (hash : String → ℕ) (setup : Setup) where
    pub total-start : (policy : Policy) (w : World) → total g h (start hash setup policy w) ≡ 0
    unfolding total events_sum pending_sum
    total-start policy w = omega (arith, pending_sum-same_for setup.initial [] refl)

    module _ (load_num load_den n : ℕ) where
      pub total-add_arrivals :
          ((req : Request) → g (arrival req) ≡ n)
          → (requests : List Request) (s : Sim)
          → total g h (add_arrivals hash setup load_num load_den requests s)
            ≡ total g h s + n * length requests
      unfolding add_arrivals
      total-add_arrivals each [] s = omega arith
      total-add_arrivals each (req ∷ requests) s = omega (
        arith,
        total-add_arrivals each requests
            (schedule (scaled hash setup load_num load_den req.arrival) (arrival req) s),
        total-schedule (scaled hash setup load_num load_den req.arrival) (arrival req) s,
        each req,
        mul-suc n (length requests),
      )

      pub total-add_churn :
          ((event : ChurnEvent) → g (churn event) ≡ n)
          → (events : List ChurnEvent) (s : Sim)
          → total g h (add_churn hash setup load_num load_den events s)
            ≡ total g h s + n * length events
      unfolding add_churn
      total-add_churn each [] s = omega arith
      total-add_churn each (event ∷ events) s = omega (
        arith,
        total-add_churn each events
            (schedule (scaled hash setup load_num load_den event.at) (churn event) s),
        total-schedule (scaled hash setup load_num load_den event.at) (churn event) s,
        each event,
        mul-suc n (length events),
      )
