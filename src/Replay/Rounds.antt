-- ===== src/Replay/Rounds.antt =====
-- A round of the loop of `replay` in src/kv_aware_router/replay.py: what its variables satisfy
-- before and after each part.
use native.Mathlib.Nat.{mod-lt}
use kv_aware_router.Prelude.{
  ℕ, ◌+◌, ◌%◌, ◌≤◌, ◌≡◌, ◌∙◌, sym, refl, true, false, List, [], ◌∷◌, some, String, arith,
  Bool-cases, inl, inr, length, leb, get_elem?,
}
use kv_aware_router.Dict.{Dict, get, has, put}
use kv_aware_router.Radix.Node.{Tokens}
use kv_aware_router.Policies.Tiebreak.{elem}
use kv_aware_router.Policies.Rounds.{at_place}
use kv_aware_router.Policies.Registry.{IsReady, elem_get, length_of_elem}
use kv_aware_router.Workload.{Request}
use kv_aware_router.World.{insert_truth, sum_values}
use kv_aware_router.World.Sound.{WorldIsSound, insert_truth-Sound}
use kv_aware_router.Replay.{Replay, ReplayResult, background}

-- What a stretch of the loop adds to the counters, for `n` requests of so many tokens.
pub record Adds (tokens n : ℕ) (a b : ReplayResult) : Type 0 where
  pub prompts : b.total_prompt_tokens ≡ a.total_prompt_tokens + tokens
  pub requests : sum_values b.requests_per_replica ≡ sum_values a.requests_per_replica + n
  pub served : b.cached_tokens ≤ a.cached_tokens + tokens
  pub expected : b.believed_cached_tokens ≤ a.believed_cached_tokens + tokens

pub sum_values-put :
    (r : String) (n : ℕ) (m : Dict ℕ)
    → get r m ≡ some n
    → sum_values (put r (n + 1) m) ≡ sum_values m + 1
unfolding sum_values put get
sum_values-put r n [] h = cc
sum_values-put r n ((s, k) ∷ m) h = ground (arith, sum_values-put r n m)

-- The world is sound, the policy is ready, and the replicas named or counted are those that are
-- there.
pub record IsRunning (hash : String → ℕ) (r₀ : String) (ids : List String) (s : Replay)
    : Type 0 where
  pub sound : WorldIsSound r₀ s.world s.inflight
  pub ready : IsReady hash s.policy
  pub among : elem r₀ ids ≡ true
  pub named : (r : String) → elem r ids ≡ true → has r s.world.fleet.replicas ≡ true
  pub counts :
      (r : String)
      → has r s.world.fleet.replicas ≡ true
      → has r s.result.requests_per_replica ≡ true

background_next :
    (ids : List String) (now : ℕ) (other : Request) (bg : List Request) (s : Replay) (r : String)
    → leb other.arrival now ≡ true
    → get_elem? ids (s.bg_next % length ids) ≡ some r
    → background ids now (other ∷ bg) s
      ≡ background ids now bg (record s {
        world = insert_truth other.tokens r other.arrival s.world;
        bg = bg;
        bg_next = s.bg_next + 1;
      })
background_next ids now other bg s r due found =
    unfold background in rw (due, found, background) refl

background_waits :
    (ids : List String) (now : ℕ) (other : Request) (bg : List Request) (s : Replay)
    → leb other.arrival now ≡ false
    → background ids now (other ∷ bg) s ≡ some s
background_waits ids now other bg s early = unfold background in rw early refl

-- An insertion keeps what runs; only the fleet's tree or the other one changes.
insert_truth-IsRunning :
    (hash : String → ℕ) (r₀ : String) (ids : List String) (s : Replay) (tokens : Tokens)
    (r : String) (now : ℕ) (bg : List Request) (n : ℕ)
    → elem r ids ≡ true
    → IsRunning hash r₀ ids s
    → IsRunning hash r₀ ids
        (record s { world = insert_truth tokens r now s.world; bg = bg; bg_next = n })
insert_truth-IsRunning hash r₀ ids s tokens r now bg n h i =
    let (sound, keeps) =
      insert_truth-Sound r₀ r s.world s.inflight tokens now (i.named r h) i.sound in
    record {
      sound = sound;
      ready = i.ready;
      among = i.among;
      named = λ k e. keeps k ∙ i.named k e;
      counts = λ k e. i.counts k (sym (keeps k) ∙ e);
    }

pub background-IsRunning :
    (hash : String → ℕ) (r₀ : String) (ids : List String) (now : ℕ) (bg : List Request) (s : Replay)
    → IsRunning hash r₀ ids s
    → (s' : Replay) × (background ids now bg s ≡ some s')
      × IsRunning hash r₀ ids s'
      × (s'.result ≡ s.result)
unfolding background
background-IsRunning hash r₀ ids now [] s i = (s, refl, i, refl)
background-IsRunning hash r₀ ids now (other ∷ bg) s i = elim (Bool-cases (leb other.arrival now)) [
  | inr early ↦ (s, background_waits ids now other bg s early, i, refl)
  | inl due ↦
      let (r, found, cut) =
        at_place ids (s.bg_next % length ids) (mod-lt s.bg_next (length_of_elem r₀ ids i.among)) in
      let next =
        insert_truth-IsRunning hash r₀ ids s other.tokens r other.arrival bg (s.bg_next + 1)
          (elem_get ids (s.bg_next % length ids) r found) i in
      let (s', reached, i', same) = background-IsRunning hash r₀ ids now bg _ next in
      (s', background_next ids now other bg s r due found ∙ reached, i', same)
]
