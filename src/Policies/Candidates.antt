-- ===== src/Policies/Candidates.antt =====
-- The candidates of `PureAffinity.choose` and `CostModelPolicy.choose` in
-- src/kv_aware_router/policies.py: the keys of a `dict` whose value is the greatest or the least.
use kv_aware_router.Prelude.{
  ℕ, ◌≤◌, ◌≡◌, ◌∙◌, ◌⊎◌, refl, true, List, [], ◌∷◌, some, String, eq_iff, min, max, arith,
  Option-cases, inl, inr, All,
}
use kv_aware_router.Dict.{Dict, get, has, keys, has-get}
use kv_aware_router.Dict.Distinct.{distinct}
use kv_aware_router.Fleet.{Fleet}
use kv_aware_router.Policies.{load, tiebreak, greatest, least, with_value}
use kv_aware_router.Policies.Tiebreak.{elem, Loaded, IsLeast, tiebreak-IsLeast}

pub elem-keys {ℓ} : {V : Type ℓ} (r : String) (m : Dict V) → elem r (keys m) ≡ has r m
unfolding elem keys has
elem-keys r [] = refl
elem-keys r ((s, v) ∷ m) = ground (arith, elem-keys r m)

max_cases : (n w : ℕ) → (max n w ≡ n) ⊎ (max n w ≡ w)
max_cases n w = omega arith

min_cases : (n w : ℕ) → (min n w ≡ n) ⊎ (min n w ≡ w)
min_cases n w = omega arith

has-with_value :
    (r : String) (best : ℕ) (m : Dict ℕ) → elem r (with_value best m) ≡ true → has r m ≡ true
unfolding elem with_value has
has-with_value r best [] h = h
has-with_value r best ((s, v) ∷ m) h = ground (arith, has-with_value r best m)

pub elem-with_value :
    (r : String) (best : ℕ) (m : Dict ℕ) → get r m ≡ some best → elem r (with_value best m) ≡ true
unfolding elem with_value get
elem-with_value r best [] h = cc
elem-with_value r best ((s, v) ∷ m) h = ground (arith, elem-with_value r best m)

pub get-with_value :
    (r : String) (best : ℕ) (m : Dict ℕ)
    → distinct m ≡ true
    → elem r (with_value best m) ≡ true
    → get r m ≡ some best
unfolding elem with_value get distinct
get-with_value r best [] d h = cc
get-with_value r best ((s, v) ∷ m) d h =
    ground (arith, eq_iff s r, get-with_value r best m, has-with_value r best m)

pub greatest-above :
    (n : ℕ) (m : Dict ℕ)
    → (n ≤ greatest n m) × ((r : String) (v : ℕ) → get r m ≡ some v → v ≤ greatest n m)
unfolding greatest get
greatest-above n [] = (omega arith, λ r v h. cc)
greatest-above n ((s, w) ∷ m) =
    let (above, others) = greatest-above (max n w) m in
    (omega (arith, above), λ r v h. ground (arith, above, others r v))

pub least-below :
    (n : ℕ) (m : Dict ℕ)
    → (least n m ≤ n) × ((r : String) (v : ℕ) → get r m ≡ some v → least n m ≤ v)
unfolding least get
least-below n [] = (omega arith, λ r v h. cc)
least-below n ((s, w) ∷ m) =
    let (below, others) = least-below (min n w) m in
    (omega (arith, below), λ r v h. ground (arith, below, others r v))

-- There is an entry.
abbrev pub NotEmpty : List String → Type 0
NotEmpty rs = (r : String) × (elem r rs ≡ true)

with_value_here :
    (r : String) (n : ℕ) (m : Dict ℕ) (best : ℕ)
    → best ≡ n
    → elem r (with_value best ((r, n) ∷ m)) ≡ true
unfolding elem with_value
with_value_here r n m best h = ground (arith, eq_iff r r)

with_value_later :
    (r s : String) (n : ℕ) (m : Dict ℕ) (best : ℕ)
    → elem r (with_value best m) ≡ true
    → elem r (with_value best ((s, n) ∷ m)) ≡ true
unfolding elem with_value
with_value_later r s n m best h = ground (arith, h)

greatest_attained :
    (n : ℕ) (m : Dict ℕ) → (greatest n m ≡ n) ⊎ NotEmpty (with_value (greatest n m) m)
unfolding greatest
greatest_attained n [] = inl refl
greatest_attained n ((s, w) ∷ m) = elim (greatest_attained (max n w) m) [
  | inr (r, h) ↦ inr (r, with_value_later r s w m _ h)
  | inl h ↦ elim (max_cases n w) [
    | inl e ↦ inl (h ∙ e)
    | inr e ↦ inr (s, with_value_here s w m _ (h ∙ e))
  ]
]

least_attained : (n : ℕ) (m : Dict ℕ) → (least n m ≡ n) ⊎ NotEmpty (with_value (least n m) m)
unfolding least
least_attained n [] = inl refl
least_attained n ((s, w) ∷ m) = elim (least_attained (min n w) m) [
  | inr (r, h) ↦ inr (r, with_value_later r s w m _ h)
  | inl h ↦ elim (min_cases n w) [
    | inl e ↦ inl (h ∙ e)
    | inr e ↦ inr (s, with_value_here s w m _ (h ∙ e))
  ]
]

attained :
    (r : String) (n best : ℕ) (m : Dict ℕ)
    → (best ≡ n) ⊎ NotEmpty (with_value best m)
    → NotEmpty (with_value best ((r, n) ∷ m))
attained r n best m (inl e) = (r, with_value_here r n m best e)
attained r n best m (inr (s, h)) = (s, with_value_later s r n m best h)

pub greatest-NotEmpty :
    (r : String) (n : ℕ) (m : Dict ℕ) → NotEmpty (with_value (greatest n m) ((r, n) ∷ m))
greatest-NotEmpty r n m = attained r n (greatest n m) m (greatest_attained n m)

pub least-NotEmpty :
    (r : String) (n : ℕ) (m : Dict ℕ) → NotEmpty (with_value (least n m) ((r, n) ∷ m))
least-NotEmpty r n m = attained r n (least n m) m (least_attained n m)

loaded : (f : Fleet) (r : String) → has r f.replicas ≡ true → Loaded f r
unfolding load
loaded f r h = elim (Option-cases (get r f.replicas)) [
  | inl missing ↦ ground (arith, has-get r f.replicas, missing)
  | inr (state, found) ↦ (state.in_flight, rw found refl)
]

All-Loaded :
    (f : Fleet) (rs : List String)
    → ((r : String) → elem r rs ≡ true → has r f.replicas ≡ true)
    → All (Loaded f) rs
unfolding elem
All-Loaded f [] h = tt
All-Loaded f (r ∷ rs) h = (
  loaded f r (h r (ground (arith, eq_iff r r))),
  All-Loaded f rs (λ s e. h s (ground (arith, e))),
)

-- The tie break among candidates that the fleet has.
pub choose_among :
    (f : Fleet) (rs : List String)
    → NotEmpty rs
    → ((r : String) → elem r rs ≡ true → has r f.replicas ≡ true)
    → (c : String) × (tiebreak f rs ≡ some c) × IsLeast f c rs
unfolding elem
choose_among f [] (r, e) h = cc
choose_among f (r ∷ rs) ne h = tiebreak-IsLeast f r rs (All-Loaded f (r ∷ rs) h)
