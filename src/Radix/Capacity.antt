-- ===== src/Radix/Capacity.antt =====
-- The loop of `_enforce_capacity` in src/kv_aware_router/radix.py, and its end.
use kv_aware_router.Prelude.{
  ℕ, zero, suc, ◌-◌, ◌≤◌, ◌<◌, ◌≡◌, refl, Bool, true, false, List, [], ◌∷◌, none, some, String,
  eq_iff, arith, ltb, Bool-cases, inl, inr, Option-cases, head?,
}
use kv_aware_router.Dict.{get, get_or, get_or-put, has}
use kv_aware_router.Radix.Node.{Node, node, Children, nil, cons, children, is_tail_for, edge}
use kv_aware_router.Radix.Evict.{Candidate, scan_below, oldest_of, Ref, here, first, later}
use kv_aware_router.Radix.EvictScan.{TailAt, TailBelow, scan_below_ne-nil, oldest_of-some}
use kv_aware_router.Radix.EvictDrop.{tail-Shape}
use kv_aware_router.Radix.Held.{ShapeAt, ShapeBelow}
use kv_aware_router.Radix.Tree.{
  PrefixTree, victim, evict, evict_one, enforce_loop, enforce_capacity,
}
use kv_aware_router.Radix.Invariant.{ValidFor, IsValid, RootShape, load_at, load_below}
use kv_aware_router.Radix.Upkeep.{victim-Tail, evict-IsValid}

mutual
  unfolding TailAt ShapeAt

  tail_size_at :
      (r s : String) (up : Bool) (d : ℕ) (p : Ref) (size k : ℕ) (n : Node)
      → head? (edge n) ≡ some k
      → TailAt r p size n
      → ShapeAt s up d n
      → 0 < size
  tail_size_at r s up d here size k (node [] d' cs rs) e t h = cc
  tail_size_at r s up d here size k (node (x ∷ q) d' cs rs) e t h = omega (arith, t.2)
  tail_size_at r s up d (first p) size k (node q d' cs rs) e t h =
      tail_size_below r s (has s rs) d' (first p) size cs t h.2
  tail_size_at r s up d (later p) size k (node q d' cs rs) e t h =
      tail_size_below r s (has s rs) d' (later p) size cs t h.2

  pub tail_size_below :
      (r s : String) (up : Bool) (d : ℕ) (p : Ref) (size : ℕ) (cs : Children)
      → TailBelow r p size cs
      → ShapeBelow s up d cs
      → 0 < size
  tail_size_below r s up d p size nil t h = absurd t
  tail_size_below r s up d here size (cons k c cs) t h = absurd t
  tail_size_below r s up d (first p) size (cons k c cs) t h =
      tail_size_at r s up d p size k c h.0 t h.2
  tail_size_below r s up d (later p) size (cons k c cs) t h =
      tail_size_below r s up d p size cs t h.3

mutual
  unfolding ShapeAt load_at

  load_at_absent : (r : String) (d : ℕ) (n : Node) → ShapeAt r false d n → load_at r n ≡ 0
  load_at_absent r d (node e d' cs rs) h = elim (Bool-cases (has r rs)) [
    | inl on ↦ cc (h.1 on)
    | inr off ↦ rw off (omega (arith, load_below_absent r d' cs (rw off at h.2)))
  ]

  load_below_absent :
      (r : String) (d : ℕ) (cs : Children) → ShapeBelow r false d cs → load_below r cs ≡ 0
  load_below_absent r d nil h = refl
  load_below_absent r d (cons k c cs) h =
      omega (arith, load_at_absent r d c h.2, load_below_absent r d cs h.3)

pub root_Shape : (r : String) (n : Node) → RootShape r n → ShapeBelow r true 0 (children n)
root_Shape r (node e d cs rs) h = h.3

-- With no victim the replica is resident at no child of the root, and so nowhere.
pub no_victim :
    (r : String) (t : PrefixTree) → victim r t ≡ none → is_tail_for r (children t.root) ≡ true
unfolding victim
no_victim r t h = elim (Bool-cases (is_tail_for r (children t.root))) [
  | inl tail ↦ tail
  | inr more ↦
      absurd (scan_below_ne-nil r (children t.root) more (empty (scan_below r (children t.root)) h))
]
  where
    empty : (l : List Candidate) → oldest_of none l ≡ none → l ≡ []
    empty [] e = refl
    empty (x ∷ l) e = let (c, found) = oldest_of-some l x in cc (e, found)

-- A victim exists while tokens are used.
no_victim-used :
    (r : String) (t : PrefixTree) → ValidFor r t → victim r t ≡ none → get_or r 0 t.tokens_used ≡ 0
no_victim-used r t v h = omega (
  arith,
  v.accounted,
  load_below_absent r 0 (children t.root)
      (tail-Shape r true 0 (children t.root) (no_victim r t h) (root_Shape r t.root v.shape)),
)

pub evict-used :
    (r : String) (t : PrefixTree) (c : Candidate)
    → get_or r 0 (evict r c t).tokens_used ≡ get_or r 0 t.tokens_used - c.size
unfolding evict
evict-used r t c =
    ground (arith, get_or-put r r 0 (get_or r 0 t.tokens_used - c.size) t.tokens_used, eq_iff r r)

-- Enough fuel: each round frees a token at least.
pub enforce_loop-within :
    (fuel : ℕ) (r : String) (cap : ℕ) (t : PrefixTree)
    → IsValid t
    → get_or r 0 t.tokens_used ≤ fuel
    → get_or r 0 (enforce_loop fuel r cap t).tokens_used ≤ cap
unfolding enforce_loop
enforce_loop-within zero r cap t v h = omega arith
enforce_loop-within (suc fuel) r cap t v h =
    elim (Bool-cases (ltb cap (get_or r 0 t.tokens_used))) [
      | inr within ↦ rw (within, enforce_loop) (ground arith)
      | inl above ↦
          rw (above, enforce_loop)
            (elim (Option-cases (victim r t)) [
              | inl nobody ↦ rw (nobody, evict_one) (omega (arith, no_victim-used r t (v r) nobody))
              | inr (c, found) ↦
                  rw (found, evict_one)
                    (enforce_loop-within fuel r cap (evict r c t) (evict-IsValid r t c found v) (
                      omega (
                        arith,
                        evict-used r t c,
                        tail_size_below r r true 0 c.ref c.size (children t.root)
                            (victim-Tail r t c found) (root_Shape r t.root (v r).shape),
                      )))
            ])
    ]

-- An invariant of single evictions is one of the whole loop.
pub enforce_loop_inv {κ} :
    (P : PrefixTree → Type κ) (r : String)
    → ((t : PrefixTree) (c : Candidate) → victim r t ≡ some c → P t → P (evict r c t))
    → (fuel cap : ℕ) (t : PrefixTree) → P t
    → P (enforce_loop fuel r cap t)
unfolding enforce_loop
enforce_loop_inv P r step zero cap t p = p
enforce_loop_inv P r step (suc fuel) cap t p =
    elim (Bool-cases (ltb cap (get_or r 0 t.tokens_used))) [
      | inr within ↦ rw (within, enforce_loop) p
      | inl above ↦
          rw (above, enforce_loop)
            (elim (Option-cases (victim r t)) [
              | inl nobody ↦ rw (nobody, evict_one) p
              | inr (c, found) ↦
                  rw (found, evict_one)
                    (enforce_loop_inv P r step fuel cap (evict r c t) (step t c found p))
            ])
    ]

pub enforce_capacity_inv {κ} :
    (P : PrefixTree → Type κ) (r : String)
    → ((t : PrefixTree) (c : Candidate) → victim r t ≡ some c → P t → P (evict r c t))
    → (t : PrefixTree) → P t
    → P (enforce_capacity r t)
unfolding enforce_capacity
enforce_capacity_inv P r step t p = elim (Option-cases (get r t.capacity_tokens)) [
  | inl open_ended ↦ rw (open_ended, enforce_capacity) p
  | inr (cap, bounded) ↦ rw (bounded, enforce_capacity) (enforce_loop_inv P r step _ cap t p)
]

pub enforce_capacity-within :
    (r : String) (cap : ℕ) (t : PrefixTree)
    → IsValid t
    → get r t.capacity_tokens ≡ some cap
    → get_or r 0 (enforce_capacity r t).tokens_used ≤ cap
unfolding enforce_capacity
enforce_capacity-within r cap t v h =
    rw (h, enforce_capacity) (enforce_loop-within _ r cap t v (omega arith))
