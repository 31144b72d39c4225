-- ===== src/Policies/Costs.antt =====
-- `CostModelPolicy.choose` of src/kv_aware_router/policies.py: the choice among the scores of the
-- replicas, and the case of replicas with the same queue.
use kv_aware_router.Prelude.{
  ℕ, ◌*◌, ◌-◌, ◌+◌, ◌≤◌, ◌<◌, ◌≡◌, ◌∙◌, ap, sym, true, false, List, [], ◌∷◌, some, String, arith,
  inl, inr, text_lt_antisym, length, Option-cases,
}
use native.Mathlib.Nat.{le_of_mul-le-mul_right}
use kv_aware_router.Dict.{Dict, get, get_or, has}
use kv_aware_router.Dict.Distinct.{distinct, has-map_values, distinct-map_values}
use kv_aware_router.Radix.Node.{Tokens}
use kv_aware_router.Fleet.{
  Fleet, ReplicaState, Dispatch, CostModel, cached_tokens, expected_ttft, ttft, uncached_tokens,
}
use kv_aware_router.Fleet.Estimates.{get-expected_ttft, match_tokens-le}
use kv_aware_router.Fleet.Ledger.{Balanced}
use kv_aware_router.Policies.{load, before, least, with_value, cheapest, cost_model, pure_affinity}
use kv_aware_router.Policies.Tiebreak.{IsLeast}
use kv_aware_router.Policies.Candidates.{
  elem-with_value, get-with_value, least-below, least-NotEmpty, choose_among,
}
use kv_aware_router.Policies.Choices.{has_of_get, MostCached, pure_affinity-MostCached}

-- Among all scores `c` has the least one, and of those that have it too the fewest requests in flight,
-- and then the least name.
pub record Cheapest (f : Fleet) (scores : Dict ℕ) (c : String) : Type 0 where
  pub score : ℕ
  pub scored : get c scores ≡ some score
  pub amount : ℕ
  pub loaded : load f c ≡ some amount
  pub cheapest : (s : String) (v : ℕ) → get s scores ≡ some v → score ≤ v
  pub least :
      (s : String) (n : ℕ)
      → load f s ≡ some n
      → get s scores ≡ some score
      → before n s amount c ≡ false

has-expected_ttft :
    (cost : CostModel) (f : Fleet) (q : Tokens) (r : String)
    → has r (expected_ttft f q cost) ≡ has r f.replicas
unfolding expected_ttft
has-expected_ttft cost f q r =
    has-map_values (λ s st. ttft cost st (get_or s 0 (uncached_tokens f q))) r f.replicas

distinct-expected_ttft :
    (cost : CostModel) (f : Fleet) (q : Tokens)
    → distinct (expected_ttft f q cost) ≡ distinct f.replicas
unfolding expected_ttft
distinct-expected_ttft cost f q =
    distinct-map_values (λ s st. ttft cost st (get_or s 0 (uncached_tokens f q))) f.replicas

least_of_all : (r s : String) (n v : ℕ) (m : Dict ℕ) → get s ((r, n) ∷ m) ≡ some v → least n m ≤ v
unfolding get
least_of_all r s n v m h = ground (arith, (least-below n m).0, (least-below n m).1 s v)

Cheapest-entry :
    (f : Fleet) (r c : String) (n : ℕ) (m : Dict ℕ)
    → distinct ((r, n) ∷ m) ≡ true
    → IsLeast f c (with_value (least n m) ((r, n) ∷ m))
    → Cheapest f ((r, n) ∷ m) c
Cheapest-entry f r c n m once i = record {
  score = least n m;
  scored = get-with_value c (least n m) ((r, n) ∷ m) once i.among;
  amount = i.amount;
  loaded = i.loaded;
  cheapest = λ s v h. least_of_all r s n v m h;
  least = λ s k h same. i.least s k (elem-with_value s (least n m) ((r, n) ∷ m) same) h;
}

-- On a fleet with a replica, whatever the scores of the replicas are, one for each name: a replica of
-- the fleet is chosen that has the least score, and of those the one with the fewest requests in
-- flight, and then the least name.
pub cheapest-Cheapest :
    (f : Fleet) (scores : Dict ℕ) (r : String)
    → distinct scores ≡ true
    → ((s : String) → has s scores ≡ has s f.replicas)
    → has r f.replicas ≡ true
    → (c : String) × (cheapest f scores ≡ some c) × (has c f.replicas ≡ true) × Cheapest f scores c
unfolding cheapest has
cheapest-Cheapest f [] r once names h = ground (arith, names r, h)
cheapest-Cheapest f ((s, n) ∷ m) r once names h =
    let (c, found, i) =
      choose_among f (with_value (least n m) ((s, n) ∷ m)) (least-NotEmpty s n m) (λ t among.
        sym (names t) ∙ has_of_get t _ _ (get-with_value t (least n m) ((s, n) ∷ m) once among)) in
    (
      c,
      found,
      sym (names c) ∙ has_of_get c _ _ (get-with_value c (least n m) ((s, n) ∷ m) once i.among),
      Cheapest-entry f s c n m once i,
    )

-- The estimates of the cost model, added up exactly, are such scores.
pub cost_model-Cheapest :
    (cost : CostModel) (f : Fleet) (q : Tokens) (r : String)
    → distinct f.replicas ≡ true
    → has r f.replicas ≡ true
    → (c : String) × (cost_model cost f q ≡ some c) × Cheapest f (expected_ttft f q cost) c
unfolding cost_model
cost_model-Cheapest cost f q r once h =
    let (c, found, there, i) =
      cheapest-Cheapest f (expected_ttft f q cost) r (distinct-expected_ttft cost f q ∙ once)
        (has-expected_ttft cost f q) h in
    (c, found, i)

-- All replicas have the same queue.
abbrev pub SameQueue : Fleet → ℕ → ℕ → Type 0
SameQueue f k p =
    (r : String) (state : ReplicaState)
    → get r f.replicas ≡ some state
    → (state.in_flight ≡ k) × (state.pending_prefill_tokens ≡ p)

queue_score :
    (cost : CostModel) (f : Fleet) (out : List Dispatch) (q : Tokens) (r : String) (k p n : ℕ)
    → SameQueue f k p
    → load f r ≡ some n
    → (n ≡ k)
      × (get r (expected_ttft f q cost)
          ≡ some (
              p * cost.prefill_per_token
              + k * cost.decode_interference
              + (length q - get_or r 0 (cached_tokens f q)) * cost.prefill_per_token))
unfolding load
queue_score cost f out q r k p n same h = elim (Option-cases (get r f.replicas)) [
  | inl missing ↦ ground (arith, missing, h)
  | inr (state, found) ↦
      ground (arith, h, found, same r state found, get-expected_ttft f r q cost state found)
]

fewer : (a b l p : ℕ) → 0 < p → b ≤ l → (l - a) * p ≤ (l - b) * p → b ≤ a
fewer a b l p pos h m = omega (arith, le_of_mul-le-mul_right m pos, h)

equal_before :
    (m n : ℕ) (r s : String) → m ≡ n → before m r n s ≡ false → before n s m r ≡ false → r ≡ s
unfolding before
equal_before m n r s e p q = text_lt_antisym r s (ground (arith, e, p)) (ground (arith, e, q))

same_choice :
    (cost : CostModel) (f : Fleet) (out : List Dispatch) (q : Tokens) (c d : String) (k p : ℕ)
    → Balanced f out
    → 0 < cost.prefill_per_token
    → SameQueue f k p
    → Cheapest f (expected_ttft f q cost) c
    → MostCached f q d
    → c ≡ d
same_choice cost f out q c d k p b pos same i j =
    let (c_load, c_score) = queue_score cost f out q c k p i.amount same i.loaded in
    let (d_load, d_score) = queue_score cost f out q d k p j.amount same j.loaded in
    let c_le =
      fewer (get_or c 0 (cached_tokens f q)) (get_or d 0 (cached_tokens f q)) (length q)
        cost.prefill_per_token pos (match_tokens-le f.tree d q (b.valid d))
        (ground (arith, i.cheapest d _ d_score, i.scored, c_score)) in
    let d_le = j.most c in
    let cached_eq : get_or c 0 (cached_tokens f q) ≡ get_or d 0 (cached_tokens f q) =
      omega (arith, c_le, d_le) in
    equal_before i.amount j.amount c d (c_load ∙ sym d_load) (j.least c i.amount i.loaded cached_eq)
      (i.least d j.amount j.loaded (ground (arith, d_score, c_score, i.scored, cached_eq)))

-- On a fleet with a replica, with balanced books and each name once, when all replicas have the
-- same queue and a token has a price, the cost model chooses as pure affinity does.
pub cost_model-SameQueue :
    (cost : CostModel) (f : Fleet) (out : List Dispatch) (q : Tokens) (r : String) (k p : ℕ)
    → Balanced f out
    → distinct f.replicas ≡ true
    → has r f.replicas ≡ true
    → 0 < cost.prefill_per_token
    → SameQueue f k p
    → cost_model cost f q ≡ pure_affinity f q
cost_model-SameQueue cost f out q r k p b once h pos same =
    let (c, found, i) = cost_model-Cheapest cost f q r once h in
    let (d, found', j) = pure_affinity-MostCached f out q r b h in
    found ∙ ap some (same_choice cost f out q c d k p b pos same i j) ∙ sym found'
