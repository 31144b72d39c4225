-- ===== src/Radix/Sessions.antt =====
-- Any use of a `PrefixTree` (src/kv_aware_router/radix.py) from its constructor on, and the checks
-- of `validate_match_unit`.
use kv_aware_router.Prelude.{
  ℕ, ◌%◌, ◌≤◌, ◌<◌, ◌≡◌, refl, subst, ◌↔◌, ◌⊎◌, inl, inr, List, [], ◌∷◌, Option, none, some, String,
  arith, Option-cases,
}
use kv_aware_router.Dict.{Dict, get, get_or}
use kv_aware_router.Radix.Node.{Tokens, empty_root}
use kv_aware_router.Radix.Held.{ShapeBelow, held_below, longest}
use kv_aware_router.Radix.Tree.{PrefixTree, insert, touch, remove_replica}
use kv_aware_router.Radix.Unit.{
  made, new_tree, validate_match_unit, kernel_tile_tokens, backend_max_match_unit,
}
use kv_aware_router.Radix.Invariant.{IsValid, cached, load_below}
use kv_aware_router.Radix.Upkeep.{touch-IsValid, remove_replica-IsValid}
use kv_aware_router.Radix.Effects.{insert-IsValid}

pub data TreeCall : Type 0 where
  inserts : Tokens → String → ℕ → TreeCall
  touches : Tokens → String → ℕ → TreeCall
  removes : String → TreeCall

unfoldable pub call : TreeCall → PrefixTree → PrefixTree
call (inserts tokens r now) t = insert tokens r now t
call (touches tokens r now) t = touch tokens r now t
call (removes r) t = remove_replica r t

unfoldable pub run : List TreeCall → PrefixTree → PrefixTree
unfolding call
run [] t = t
run (c ∷ cs) t = run cs (call c t)

pub call-IsValid : (c : TreeCall) (t : PrefixTree) → IsValid t → IsValid (call c t)
unfolding call
call-IsValid (inserts tokens r now) t v = insert-IsValid tokens r now t v
call-IsValid (touches tokens r now) t v = touch-IsValid tokens r now t v
call-IsValid (removes r) t v = remove_replica-IsValid r t v

-- Any sequence of insertions, with the evictions that they set off, touches and removals keeps the
-- invariant: keys are distinct and are the first tokens of the edges, depths add up, a replica that
-- is resident at a node is resident above it, and `tokens_used` is the sum of its segments.
pub run-IsValid : (cs : List TreeCall) (t : PrefixTree) → IsValid t → IsValid (run cs t)
unfolding run
run-IsValid [] t v = v
run-IsValid (c ∷ cs) t v = run-IsValid cs (call c t) (call-IsValid c t v)

pub unit_of_accepted :
    (unit : ℕ) (backend : Option String)
    → validate_match_unit unit backend ≡ none
    → (0 < unit) × (unit % kernel_tile_tokens ≡ 0)
unfolding validate_match_unit
unit_of_accepted unit backend h = ground arith

unknown_refused :
    (unit : ℕ) (backend : String)
    → get backend backend_max_match_unit ≡ none
    → validate_match_unit unit (some backend) ≡ none
    → ⊥
unfolding validate_match_unit
unknown_refused unit backend unknown h = ground arith

cap_fits :
    (unit : ℕ) (backend : String) (limit : ℕ)
    → get backend backend_max_match_unit ≡ some limit
    → validate_match_unit unit (some backend) ≡ none
    → (limit ≡ 0) ⊎ (unit ≤ limit)
unfolding validate_match_unit
cap_fits unit backend limit known h = ground arith

accepted :
    (unit : ℕ) (backend : String) (limit : ℕ)
    → get backend backend_max_match_unit ≡ some limit
    → 0 < unit
    → unit % kernel_tile_tokens ≡ 0
    → (limit ≡ 0) ⊎ (unit ≤ limit)
    → validate_match_unit unit (some backend) ≡ none
unfolding validate_match_unit
accepted unit backend limit known pos tile fits = ground arith

backend_accepted_iff :
    (unit : ℕ) (backend : String)
    → (validate_match_unit unit (some backend) ≡ none) ↔ (
        (0 < unit)
        × (unit % kernel_tile_tokens ≡ 0)
        × ((limit : ℕ) × (get backend backend_max_match_unit ≡ some limit)
            × ((limit ≡ 0) ⊎ (unit ≤ limit))))
backend_accepted_iff unit backend = elim (Option-cases (get backend backend_max_match_unit)) [
  | inl unknown ↦ (
    λ h. absurd (unknown_refused unit backend unknown h),
    λ fine. let (limit, known, fits) = fine.2 in cc (unknown, known),
  )
  | inr (limit, known) ↦ (
    λ h.
        let (pos, tile) = unit_of_accepted unit (some backend) h in
        (pos, tile, (limit, known, cap_fits unit backend limit known h)),
    λ fine.
        let (limit', known', fits) = fine.2 in
        accepted unit backend limit' known' fine.0 fine.1 fits,
  )
]

-- The rule of a backend: it is known, and its cap, if it has one, is not passed.
abbrev pub Fits : ℕ → Option String → Type 0
Fits unit none = Unit
Fits unit (some backend) =
    (limit : ℕ) × (get backend backend_max_match_unit ≡ some limit) × ((limit ≡ 0) ⊎ (unit ≤ limit))

accepted_alone :
    (unit : ℕ) → 0 < unit → unit % kernel_tile_tokens ≡ 0 → validate_match_unit unit none ≡ none
unfolding validate_match_unit
accepted_alone unit pos tile = ground arith

-- A unit is accepted exactly when it is a positive multiple of the kernel's tile and, where a
-- backend is named, the backend is known and its cap, if it has one, is not passed.
pub validate_match_unit-none_iff :
    (unit : ℕ) (backend : Option String)
    → (validate_match_unit unit backend ≡ none)
      ↔ ((0 < unit) × (unit % kernel_tile_tokens ≡ 0) × Fits unit backend)
validate_match_unit-none_iff unit none = (
  λ h. let (pos, tile) = unit_of_accepted unit none h in (pos, tile, tt),
  λ fine. accepted_alone unit fine.0 fine.1,
)
validate_match_unit-none_iff unit (some backend) = backend_accepted_iff unit backend

-- The tree of the constructor.
abbrev pub fresh_tree : ℕ → Dict ℕ → PrefixTree
fresh_tree unit capacity = record {
  prefix_match_unit = unit;
  root = empty_root;
  capacity_tokens = capacity;
  tokens_used = [];
  evictions = [];
}

pub fresh_tree-IsValid :
    (unit : ℕ) (capacity : Dict ℕ) → 0 < unit → IsValid (fresh_tree unit capacity)
unfolding ShapeBelow load_below get_or
fresh_tree-IsValid unit capacity h r = record {
  unit_pos = h;
  shape = (refl, refl, refl, tt);
  accounted = refl;
}

new_tree_cases :
    (unit : ℕ) (capacity : Dict ℕ) (backend : Option String) (t : PrefixTree)
    → new_tree unit capacity backend ≡ made t
    → (validate_match_unit unit backend ≡ none) × (fresh_tree unit capacity ≡ t)
new_tree_cases unit capacity backend t h = elim (Option-cases (validate_match_unit unit backend)) [
  | inl fine ↦ (fine, unfold new_tree in ground (arith, fine, h))
  | inr (bad, e) ↦ absurd (unfold new_tree in ground (arith, e, h))
]

pub new_tree_accepted :
    (unit : ℕ) (capacity : Dict ℕ) (backend : Option String)
    → validate_match_unit unit backend ≡ none
    → new_tree unit capacity backend ≡ made (fresh_tree unit capacity)
new_tree_accepted unit capacity backend fine = unfold new_tree in rw (fine, new_tree) refl

-- A tree that the constructor makes satisfies the invariant; its unit is the one
-- given, a multiple of the tile, and its capacities are the ones given.
pub new_tree-IsValid :
    (unit : ℕ) (capacity : Dict ℕ) (backend : Option String) (t : PrefixTree)
    → new_tree unit capacity backend ≡ made t
    → IsValid t
      × (t.prefix_match_unit ≡ unit)
      × (unit % kernel_tile_tokens ≡ 0)
      × (t.capacity_tokens ≡ capacity)
new_tree-IsValid unit capacity backend t h =
    let (fine, same) = new_tree_cases unit capacity backend t h in
    let (pos, tile) = unit_of_accepted unit backend fine in
    subst
      (λ x.
        IsValid x
        × (x.prefix_match_unit ≡ unit)
        × (unit % kernel_tile_tokens ≡ 0)
        × (x.capacity_tokens ≡ capacity))
      same (fresh_tree-IsValid unit capacity pos, refl, tile, refl)

-- It holds nothing.
pub new_tree-held :
    (unit : ℕ) (capacity : Dict ℕ) (backend : Option String) (t : PrefixTree)
    → new_tree unit capacity backend ≡ made t
    → (r : String) (q : Tokens) → cached t r q ≡ longest [] q
new_tree-held unit capacity backend t h r q =
    let (fine, same) = new_tree_cases unit capacity backend t h in
    subst (λ x. cached x r q ≡ longest [] q) same (unfold held_below in refl)
