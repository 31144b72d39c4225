-- ===== src/Policies/Choices.antt =====
-- The choices of `LeastConnections` and `PureAffinity` in src/kv_aware_router/policies.py, and of
-- `CostModelPolicy` among its candidates, by the measure of the policy.
use mathlib.Core.Option
use kv_aware_router.Prelude.{
  ℕ, ◌≤◌, ◌≡◌, ◌∙◌, ap, sym, subst, true, false, List, [], ◌∷◌, none, some, String, if◌then◌else◌,
  arith, Option-cases, inl, inr, List-cases, round_down, round_down-zero, ltb,
}
use kv_aware_router.Dict.{Dict, get, get_or, has, has-get, get_or-get}
use kv_aware_router.Dict.Distinct.{distinct}
use kv_aware_router.Radix.Node.{Tokens}
use kv_aware_router.Radix.Answers.{distinct-match_tokens}
use kv_aware_router.Radix.Invariant.{get-match_tokens}
use kv_aware_router.Fleet.{Fleet, Dispatch, replica_ids, cached_tokens}
use kv_aware_router.Fleet.Estimates.{get_or-match_tokens}
use kv_aware_router.Fleet.Ledger.{Balanced}
use kv_aware_router.Policies.{
  load, before, tiebreak, greatest, with_value, least_connections, most_cached, pure_affinity,
}
use kv_aware_router.Policies.Tiebreak.{elem, IsLeast}
use kv_aware_router.Policies.Candidates.{
  elem-keys, elem-with_value, get-with_value, greatest-above, greatest-NotEmpty, choose_among,
}

-- The tie break over the whole fleet.
pub among_all :
    (f : Fleet) (r : String)
    → has r f.replicas ≡ true
    → (c : String) × (tiebreak f (replica_ids f) ≡ some c) × IsLeast f c (replica_ids f)
among_all f r h =
    choose_among f (replica_ids f) (r, elem-keys r f.replicas ∙ h)
      (λ s e. sym (elem-keys s f.replicas) ∙ e)

-- On a fleet with a replica, least connections chooses a replica of the fleet, and no replica has
-- fewer requests in flight, or as many and a smaller name.
pub least_connections-IsLeast :
    (f : Fleet) (r : String)
    → has r f.replicas ≡ true
    → (c : String) × (least_connections f ≡ some c) × IsLeast f c (replica_ids f)
unfolding least_connections
least_connections-IsLeast f r h = among_all f r h

pub has_of_load : (f : Fleet) (r : String) (n : ℕ) → load f r ≡ some n → has r f.replicas ≡ true
unfolding load
has_of_load f r n h = ground (arith, has-get r f.replicas, h)

pub has_of_get {ℓ} :
    {V : Type ℓ} (r : String) (m : Dict V) (v : V) → get r m ≡ some v → has r m ≡ true
has_of_get r m v h = ground (arith, has-get r m)

-- What `match` credits, it credits to replicas of the fleet, with at least a token.
cached-has :
    (f : Fleet) (out : List Dispatch) (q : Tokens) (r : String) (n : ℕ)
    → Balanced f out
    → get r (cached_tokens f q) ≡ some n
    → has r f.replicas ≡ true
cached-has f out q r n b h = elim (Option-cases (get r f.replicas)) [
  | inl missing ↦ ground (
    arith,
    get-match_tokens f.tree r q (b.valid r),
    ap (round_down f.tree.prefix_match_unit) (b.absent r missing q),
    round_down-zero f.tree.prefix_match_unit,
    h,
  )
  | inr (state, found) ↦ has_of_get r f.replicas state found
]

-- Among all replicas of the fleet `c` has the most of `q` cached, and of those that have as much it
-- has the fewest requests in flight, and then the least name.
pub record MostCached (f : Fleet) (q : Tokens) (c : String) : Type 0 where
  pub amount : ℕ
  pub loaded : load f c ≡ some amount
  pub most : (s : String) → get_or s 0 (cached_tokens f q) ≤ get_or c 0 (cached_tokens f q)
  pub least :
      (s : String) (n : ℕ)
      → load f s ≡ some n
      → get_or s 0 (cached_tokens f q) ≡ get_or c 0 (cached_tokens f q)
      → before n s amount c ≡ false

-- `match` has no entry of 0 tokens.
get-cached_tokens :
    (f : Fleet) (out : List Dispatch) (q : Tokens) (s : String)
    → Balanced f out
    → get s (cached_tokens f q)
      ≡ (let n = get_or s 0 (cached_tokens f q) in if ltb 0 n then some n else none)
get-cached_tokens f out q s b =
    get-match_tokens f.tree s q (b.valid s)
    ∙ ap (λ n. if ltb 0 n then some n else none) (sym (get_or-match_tokens f.tree s q (b.valid s)))

greatest_of_all : (r s : String) (n : ℕ) (m : Dict ℕ) → get_or s 0 ((r, n) ∷ m) ≤ greatest n m
unfolding get_or
greatest_of_all r s n m = ground (
  arith,
  (greatest-above n m).0,
  get_or-get s 0 m,
  Option-cases (get s m),
  (greatest-above n m).1 s (get_or s 0 m),
)

entry_of_same :
    (s c : String) (best : ℕ) (m : Dict ℕ)
    → ((t : String) → get t m ≡ (if ltb 0 (get_or t 0 m) then some (get_or t 0 m) else none))
    → get c m ≡ some best
    → get_or s 0 m ≡ get_or c 0 m
    → get s m ≡ some best
entry_of_same s c best m entries h same = ground (arith, entries s, entries c, h, same)

-- The candidates of `PureAffinity.choose`, when `match` returned an entry.
MostCached-entry :
    (f : Fleet) (out : List Dispatch) (q : Tokens) (r c : String) (n : ℕ) (m : Dict ℕ)
    → Balanced f out
    → cached_tokens f q ≡ (r, n) ∷ m
    → IsLeast f c (with_value (greatest n m) ((r, n) ∷ m))
    → MostCached f q c
MostCached-entry f out q r c n m b e i =
    let once = subst (λ cm. distinct cm ≡ true) e (distinct-match_tokens f.tree q) in
    let best = get-with_value c (greatest n m) ((r, n) ∷ m) once i.among in
    let best_or = get_or-get c 0 ((r, n) ∷ m) ∙ ap (λ o. Option.get_or o 0) best in
    record {
      amount = i.amount;
      loaded = i.loaded;
      most = λ s. rw (e, best_or) (greatest_of_all r s n m);
      least = λ s k h same.
          i.least s k
            (elem-with_value s (greatest n m) ((r, n) ∷ m) (
              entry_of_same s c (greatest n m) ((r, n) ∷ m)
                (subst
                  (λ cm.
                    (t : String)
                    → get t cm ≡ (if ltb 0 (get_or t 0 cm) then some (get_or t 0 cm) else none))
                  e (λ t. get-cached_tokens f out q t b))
                best (rw e at same)))
            h;
    }

MostCached-nothing :
    (f : Fleet) (q : Tokens) (c : String)
    → cached_tokens f q ≡ []
    → IsLeast f c (replica_ids f)
    → MostCached f q c
unfolding get_or
MostCached-nothing f q c e i = record {
  amount = i.amount;
  loaded = i.loaded;
  most = λ s. rw (e, get_or) omega arith;
  least = λ s n h same. i.least s n (elem-keys s f.replicas ∙ has_of_load f s n h) h;
}

candidate-has :
    (f : Fleet) (out : List Dispatch) (q : Tokens) (r t : String) (n : ℕ) (m : Dict ℕ)
    → Balanced f out
    → cached_tokens f q ≡ (r, n) ∷ m
    → elem t (with_value (greatest n m) ((r, n) ∷ m)) ≡ true
    → has t f.replicas ≡ true
candidate-has f out q r t n m b e among = cached-has f out q t (greatest n m) b (
    rw e (
      get-with_value t (greatest n m) ((r, n) ∷ m)
        (subst (λ cm. distinct cm ≡ true) e (distinct-match_tokens f.tree q)) among))

-- On a fleet with a replica, whose books are balanced, pure affinity chooses a replica of the
-- fleet with the most tokens of the request cached, and of those the one with the fewest requests
-- in flight, and then the least name.
pub pure_affinity-MostCached :
    (f : Fleet) (out : List Dispatch) (q : Tokens) (r : String)
    → Balanced f out
    → has r f.replicas ≡ true
    → (c : String) × (pure_affinity f q ≡ some c) × MostCached f q c
unfolding pure_affinity most_cached
pure_affinity-MostCached f out q r b h = elim (List-cases (cached_tokens f q)) [
  | inl e ↦
      let (c, found, i) = among_all f r h in
      (c, ap (most_cached f) e ∙ found, MostCached-nothing f q c e i)
  | inr ((s, n), m, e) ↦
      let (c, found, i) =
        choose_among f (with_value (greatest n m) ((s, n) ∷ m)) (greatest-NotEmpty s n m)
          (λ t among. candidate-has f out q s t n m b e among) in
      (c, ap (most_cached f) e ∙ found, MostCached-entry f out q s c n m b e i)
]
