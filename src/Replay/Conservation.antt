-- ===== src/Replay/Conservation.antt =====
-- `replay` of src/kv_aware_router/replay.py as a whole, and what its counters account for.
use kv_aware_router.Prelude.{
  ℕ, suc, ◌+◌, ◌<◌, ◌≤◌, ◌≡◌, ◌∙◌, sym, refl, true, List, [], ◌∷◌, ◌++◌, Option, some, none, String,
  arith, length, length-append, subst,
}
use kv_aware_router.Dict.{value_of_has, Dict, has, put, get_or, has-put_of_has}
use kv_aware_router.Radix.Tree.{match_tokens}
use kv_aware_router.Radix.Unit.{validate_match_unit}
use kv_aware_router.Fleet.{Dispatch}
use kv_aware_router.Fleet.Estimates.{match_tokens-le}
use kv_aware_router.Fleet.Sound.{last-Balanced}
use kv_aware_router.Policies.Registry.{Policy, IsReady, choose_replica, choose_replica-has}
use kv_aware_router.Policies.Ready.{choose_replica-IsReady}
use kv_aware_router.Policies.Hashing.{str}
use kv_aware_router.Workload.{Request, n_tokens}
use kv_aware_router.Workload.Ceiling.{all_tokens}
use kv_aware_router.World.{World, BeliefMode, truth, sum_values, same_for, all_evictions}
use kv_aware_router.World.Sound.{WorldIsSound, send-Sound}
use kv_aware_router.World.Start.{new_world-Sound, has-same_for}
use kv_aware_router.Replay.{
  Replay, ReplayResult, counted, serve, route, replay_one, replay_all, begin, replay,
}
use kv_aware_router.Replay.Counts.{make_room-Sound}
use kv_aware_router.Replay.Rounds.{Adds, IsRunning, sum_values-put, background-IsRunning}

-- The last handle may stand anywhere.
last-Sound :
    (r₀ : String) (w : World) (d : Dispatch) (out : List Dispatch)
    → WorldIsSound r₀ w (d ∷ out)
    → WorldIsSound r₀ w (out ++ (d ∷ []))
last-Sound r₀ w d out s = record {
  fleet = record {
    balanced = last-Balanced w.fleet d out s.fleet.balanced;
    once = s.fleet.once;
    there = s.fleet.there;
  };
  held = s.held;
}

serve-IsRunning :
    (hash : String → ℕ) (r₀ : String) (ids : List String) (unit : ℕ) (req : Request) (r : String)
    (s : Replay)
    → has r s.world.fleet.replicas ≡ true
    → IsRunning hash r₀ ids s
    → (s' : Replay) × (serve unit req r s ≡ some s')
      × IsRunning hash r₀ ids s'
      × Adds (n_tokens req) 1 s.result s'.result
      × (length s'.inflight ≡ length s.inflight + 1)
serve-IsRunning hash r₀ ids unit req r s h i =
    let (count, counted_so_far) = value_of_has r s.result.requests_per_replica (i.counts r h) in
    let (w, d, sent_so, to_r, sound, keeps) =
      send-Sound r₀ r s.world s.inflight req.tokens req.arrival h i.sound in
    let actual = get_or r 0 (match_tokens (truth s.world) req.tokens) in
    let believed = get_or r 0 (match_tokens s.world.fleet.tree req.tokens) in
    (
      record s {
        world = w;
        inflight = s.inflight ++ (d ∷ []);
        result = counted unit req r actual believed count s.result;
      },
      unfold serve in rw (counted_so_far, sent_so, serve) refl,
      record {
        sound = last-Sound r₀ w d s.inflight sound;
        ready = i.ready;
        among = i.among;
        named = λ k e. keeps k ∙ i.named k e;
        counts = λ k e.
            has-put_of_has r k (count + 1) s.result.requests_per_replica (i.counts r h)
            ∙ i.counts k (sym (keeps k) ∙ e);
      },
      record {
        prompts = refl;
        requests = sum_values-put r count s.result.requests_per_replica counted_so_far;
        served = omega (arith, match_tokens-le (truth s.world) r req.tokens (i.sound.held r));
        expected = omega (
          arith,
          match_tokens-le s.world.fleet.tree r req.tokens (i.sound.fleet.balanced.valid r),
        );
      },
      length-append s.inflight (d ∷ []),
    )

Adds-trans :
    (m n j k : ℕ) (a b c : ReplayResult) → Adds m j a b → Adds n k b c → Adds (m + n) (j + k) a c
Adds-trans m n j k a b c p q = record {
  prompts = omega (arith, p.prompts, q.prompts);
  requests = omega (arith, p.requests, q.requests);
  served = omega (arith, p.served, q.served);
  expected = omega (arith, p.expected, q.expected);
}

one_more : (n : ℕ) → 1 + n ≡ suc n
one_more n = omega arith

Adds-nothing : (a : ReplayResult) → Adds 0 0 a a
Adds-nothing a = record {
  prompts = omega arith;
  requests = omega arith;
  served = omega arith;
  expected = omega arith;
}

module _ (hash : String → ℕ) (r₀ : String) (ids : List String) (unit : ℕ) where
  route-IsRunning :
      (req : Request) (s : Replay)
      → IsRunning hash r₀ ids s
      → (s' : Replay) × (route hash unit req s ≡ some s')
        × IsRunning hash r₀ ids s'
        × Adds (n_tokens req) 1 s.result s'.result
        × (length s'.inflight ≡ length s.inflight + 1)
  route-IsRunning req s i =
      let session : Option String = some (str req.session_id) in
      let (pick, found, there) =
        choose_replica-has hash s.policy s.world.fleet s.inflight req.tokens session r₀ i.ready
          i.sound.fleet.balanced i.sound.fleet.once i.sound.fleet.there in
      let p = (choose_replica hash s.policy s.world.fleet req.tokens session).1 in
      let i' : IsRunning hash r₀ ids (record s { policy = p }) = record {
        sound = i.sound;
        ready = choose_replica-IsReady hash s.policy s.world.fleet req.tokens session i.ready;
        among = i.among;
        named = i.named;
        counts = i.counts;
      } in
      let (s', served, i'', adds, longer) =
        serve-IsRunning hash r₀ ids unit req pick (record s { policy = p }) there i' in
      (s', unfold route in rw (found, route) served, i'', adds, longer)

  replay_one-IsRunning :
      (concurrency : ℕ) (req : Request) (s : Replay)
      → 0 < concurrency
      → IsRunning hash r₀ ids s
      → (s' : Replay) × (replay_one hash ids concurrency unit req s ≡ some s')
        × IsRunning hash r₀ ids s'
        × Adds (n_tokens req) 1 s.result s'.result
        × (length s'.inflight ≤ concurrency)
  replay_one-IsRunning concurrency req s pos i =
      let (s₁, seen, i₁, same) = background-IsRunning hash r₀ ids req.arrival s.bg s i in
      let (w, done, rest, room, split, free, needed, sound, keeps) =
        make_room-Sound r₀ concurrency req.arrival s₁.world s₁.inflight pos i₁.sound in
      let s₂ = record s₁ { world = w; inflight = rest } in
      let (s₃, served, i₃, adds, longer) = route-IsRunning req s₂ (record {
        sound = sound;
        ready = i₁.ready;
        among = i₁.among;
        named = λ k e. keeps k ∙ i₁.named k e;
        counts = λ k e. i₁.counts k (sym (keeps k) ∙ e);
      }) in
      (
        s₃,
        unfold replay_one in rw (seen, room, replay_one) served,
        i₃,
        subst (λ a. Adds (n_tokens req) 1 a s₃.result) same adds,
        omega (arith, longer, free),
      )

  replay_all_cons :
      (concurrency : ℕ) (req : Request) (requests : List Request) (s s' : Replay)
      → replay_one hash ids concurrency unit req s ≡ some s'
      → replay_all hash ids concurrency unit (req ∷ requests) s
        ≡ replay_all hash ids concurrency unit requests s'
  replay_all_cons concurrency req requests s s' one = unfold replay_all in rw (one, replay_all) refl

  -- On a sound world with a policy that is ready, and with room for a request, the loop returns: it
  -- counts each request for one replica, adds up all their tokens, counts no more tokens as cached,
  -- or as believed to be, than there are, and never has more requests in flight than allowed.
  pub replay_all-Adds :
      (concurrency : ℕ) (requests : List Request) (s : Replay)
      → 0 < concurrency
      → IsRunning hash r₀ ids s
      → length s.inflight ≤ concurrency
      → (s' : Replay) × (replay_all hash ids concurrency unit requests s ≡ some s')
        × IsRunning hash r₀ ids s'
        × Adds (all_tokens requests) (length requests) s.result s'.result
        × (length s'.inflight ≤ concurrency)
  unfolding replay_all all_tokens
  replay_all-Adds concurrency [] s pos i window = (s, refl, i, Adds-nothing s.result, window)
  replay_all-Adds concurrency (req ∷ requests) s pos i window =
      let (s₁, one, i₁, adds₁, window₁) = replay_one-IsRunning concurrency req s pos i in
      let (s₂, all, i₂, adds₂, window₂) = replay_all-Adds concurrency requests s₁ pos i₁ window₁ in
      (
        s₂,
        replay_all_cons concurrency req requests s s₁ one ∙ all,
        i₂,
        subst (λ k. Adds (n_tokens req + all_tokens requests) k s.result s₂.result)
            (one_more (length requests))
            (Adds-trans (n_tokens req) (all_tokens requests) 1 (length requests) s.result s₁.result
              s₂.result adds₁ adds₂),
        window₂,
      )

sum_values-put_zero : (k : String) (m : Dict ℕ) → sum_values m ≡ 0 → sum_values (put k 0 m) ≡ 0
unfolding sum_values put
sum_values-put_zero k [] e = refl
sum_values-put_zero k ((j, n) ∷ m) e = ground (arith, e, sum_values-put_zero k m)

pub sum_values-same_for :
    (rs : List String) (m : Dict ℕ) → sum_values m ≡ 0 → sum_values (same_for 0 rs m) ≡ 0
unfolding same_for
sum_values-same_for [] m h = h
sum_values-same_for (r ∷ rs) m h = sum_values-same_for rs (put r 0 m) (sum_values-put_zero r m h)

-- From the first line to the last: with a replica, room for a request, a unit that the tree accepts
-- and a policy that is ready, `replay` returns, whatever the background traffic, the capacities and
-- the mode of belief; every request is counted for one replica, all prompt tokens are added up, and
-- no more of them are counted as cached, or as believed to be, than there are.
pub replay-conserves :
    (hash : String → ℕ) (policy : Policy) (r : String) (rs : List String) (concurrency unit : ℕ)
    (capacity : Option ℕ) (belief : BeliefMode) (num den : ℕ) (bg requests : List Request)
    → 0 < concurrency
    → validate_match_unit unit none ≡ none
    → IsReady hash policy
    → (result : ReplayResult) × (evictions : ℕ) × (replay hash policy
          (r ∷ rs)
          concurrency
          unit
          capacity
          belief
          num
          den
          bg
          requests
        ≡ some (result, evictions))
      × (result.total_prompt_tokens ≡ all_tokens requests)
      × (sum_values result.requests_per_replica ≡ length requests)
      × (result.cached_tokens ≤ all_tokens requests)
      × (result.believed_cached_tokens ≤ all_tokens requests)
replay-conserves hash policy r rs concurrency unit capacity belief num den bg requests pos fine
      ready =
    let ids = r ∷ rs in
    let (w, world_so, sound, names) = new_world-Sound r rs unit capacity belief num den fine in
    let (s', done, i, adds, window) =
      replay_all-Adds hash r ids unit concurrency requests (begin policy ids bg w) pos
        (record {
          sound = sound;
          ready = ready;
          among = sym (names r) ∙ sound.fleet.there;
          named = λ k e. names k ∙ e;
          counts = λ k e. has-same_for k 0 ids [] ∙ ground (arith, names k, e);
        })
        (omega arith) in
    (
      s'.result,
      all_evictions s'.world,
      unfold replay in rw (world_so, done, replay) refl,
      omega (arith, adds.prompts),
      omega (arith, adds.requests, sum_values-same_for ids [] (unfold sum_values in refl)),
      omega (arith, adds.served),
      omega (arith, adds.expected),
    )
