-- ===== src/Simulate/State.antt =====
-- The records of src/kv_aware_router/simulate.py, its heap of events, and `start_next`.
use kv_aware_router.Prelude.{
  ℕ, ◌+◌, ◌-◌, ◌*◌, ◌/◌, Bool, true, false, ◌&&◌, ◌||◌, List, [], ◌∷◌, Option, none, some, String,
  ltb, ◌==◌, if◌then◌else◌,
}
use kv_aware_router.Dict.{Dict, get, put}
use kv_aware_router.Fleet.{Dispatch}
use kv_aware_router.Policies.Registry.{Policy}
use kv_aware_router.Workload.{Request}
use kv_aware_router.World.{World, BeliefMode}

-- `decode_interference` is in thousandths.
pub record ServiceModel : Type 0 where
  pub prefill_per_token : ℕ
  pub decode_per_token : ℕ
  pub decode_interference : ℕ
  pub output_tokens : ℕ

abbrev pub default_service : ServiceModel
default_service = record {
  prefill_per_token = 100_000;
  decode_per_token = 8_000_000;
  decode_interference = 50;
  output_tokens = 160;
}

pub record Outcome : Type 0 where
  pub replica : String
  pub arrival : ℕ
  pub prefill_start : ℕ
  pub ttft : ℕ
  pub finish : ℕ
  pub cached_tokens : ℕ
  pub uncached_tokens : ℕ
  pub believed_cached_tokens : ℕ

abbrev pub queue_wait : Outcome → ℕ
queue_wait o = o.prefill_start - o.arrival

pub record ChurnEvent : Type 0 where
  pub at : ℕ
  pub action : String
  pub replica_id : String

-- An entry of `pending`.
pub record Job : Type 0 where
  pub outcome : Outcome
  pub dispatch : Dispatch

pub data Payload : Type 0 where
  churn : ChurnEvent → Payload
  arrival : Request → Payload
  prefill_done decode_done : String → Job → Payload

pub record Event : Type 0 where
  pub time : ℕ
  pub seq : ℕ
  pub payload : Payload

-- `a < b` on the tuples of the heap, whose `seq` differ.
abbrev pub earlier : Event → Event → Bool
earlier a b = ltb a.time b.time || (a.time == b.time && ltb a.seq b.seq)

-- `heapq.heappush`
unfoldable pub push : Event → List Event → List Event
push e [] = e ∷ []
push e (f ∷ events) = let later = push e events in if earlier f e then f ∷ later else e ∷ f ∷ events

-- The arguments of `simulate` that its loop reads. The ratio and the load are fractions.
pub record Setup : Type 0 where
  pub service : ServiceModel
  pub capacity : Option ℕ
  pub belief : BeliefMode
  pub ratio_num : ℕ
  pub ratio_den : ℕ
  pub initial : List String

-- The local variables of `simulate`, with the counters of `SimResult`.
pub record Sim : Type 0 where
  pub world : World
  pub policy : Policy
  pub busy : Dict Bool
  pub pending : Dict (List Job)
  pub decoding : Dict ℕ
  pub events : List Event
  pub seq : ℕ
  pub outcomes : List Outcome
  pub requests_per_replica : Dict ℕ

-- `heapq.heappush(events, (time, seq, ...)); seq += 1`
abbrev pub schedule : ℕ → Payload → Sim → Sim
schedule time payload s = record s {
  events = push (record { time = time; seq = s.seq; payload = payload }) s.events;
  seq = s.seq + 1;
}

-- The time that a prefill takes beside `k` decodes.
abbrev pub prefill_time : ServiceModel → ℕ → ℕ → ℕ
prefill_time service uncached k =
    uncached * service.prefill_per_token * (1000 + service.decode_interference * k) / 1000

abbrev pub with_prefill : ServiceModel → ℕ → ℕ → Job → Job
with_prefill service now k job = record job {
  outcome = record job.outcome {
    prefill_start = now;
    ttft = now - job.outcome.arrival + prefill_time service job.outcome.uncached_tokens k;
  };
}

-- The first job in line starts, on a replica that decodes `k` requests.
abbrev pub begin_prefill : ServiceModel → String → ℕ → ℕ → Job → List Job → Sim → Sim
begin_prefill service r now k job jobs s =
    schedule (now + prefill_time service job.outcome.uncached_tokens k)
      (prefill_done r (with_prefill service now k job))
      (record s { busy = put r true s.busy; pending = put r jobs s.pending })

-- `start_next`; `none` is a `KeyError`.
unfoldable pub start_next : ServiceModel → String → ℕ → Sim → Option Sim
unfolding push
start_next service r now s = elim (get r s.busy) [
  | none ↦ none
  | some true ↦ some s
  | some false ↦ elim (get r s.pending) [
    | none ↦ none
    | some [] ↦ some s
    | some (job ∷ jobs) ↦ elim (get r s.decoding) [
      | none ↦ none
      | some k ↦ some (begin_prefill service r now k job jobs s)
    ]
  ]
]
