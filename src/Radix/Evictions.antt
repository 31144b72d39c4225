-- ===== src/Radix/Evictions.antt =====
-- What `_evict_one` of src/kv_aware_router/radix.py does to the tree.
use kv_aware_router.Prelude.{
  ◌+◌, ◌≤◌, ◌<◌, ◌≡◌, ◌↔◌, subst, true, false, List, [], ◌∷◌, none, some, String, str_eq, eq_iff,
  arith, if◌then◌else◌, inl, inr, Option-cases, Bool-cases, All,
}
use kv_aware_router.Dict.{get_or, get_or-put}
use kv_aware_router.Radix.Node.{children}
use kv_aware_router.Radix.Evict.{Candidate, scan_below, oldest_of}
use kv_aware_router.Radix.EvictScan.{oldest_of-first, oldest_of-least}
use kv_aware_router.Radix.EvictDrop.{
  Loses, lose, keep, tail-Shape, held-drop_below, held-drop_below_ne, load-drop_below,
}
use kv_aware_router.Radix.Held.{held_below_absent}
use kv_aware_router.Radix.Tree.{PrefixTree, victim, evict, evict_one}
use kv_aware_router.Radix.Invariant.{IsValid, held}
use kv_aware_router.Radix.Upkeep.{victim-Tail, children-with_children}
use kv_aware_router.Radix.Capacity.{no_victim, root_Shape, tail_size_below, evict-used}

-- An eviction leaves the other replicas what they hold.
pub held-evict_ne :
    (r s : String) (c : Candidate) (t : PrefixTree)
    → str_eq r s ≡ false
    → held s (evict r c t) ≡ held s t
unfolding evict
held-evict_ne r s c t other =
    rw children-with_children (held-drop_below_ne r s c.ref (children t.root) other)

evict_one_failed :
    (r : String) (t t' : PrefixTree) → victim r t ≡ none → evict_one r t ≡ some t' → ⊥
unfolding evict_one
evict_one_failed r t t' nobody e = let e' : none ≡ some t' = rw (nobody, evict_one) at e in cc

evict_one_found :
    (r : String) (t t' : PrefixTree) (c : Candidate)
    → victim r t ≡ some c
    → evict_one r t ≡ some t'
    → evict r c t ≡ t'
evict_one_found r t t' c found e = unfold evict_one in ground (arith, found, e)

held-evict :
    (r : String) (t : PrefixTree) (c : Candidate)
    → victim r t ≡ some c
    → Loses (held r t) (held r (evict r c t))
unfolding evict
held-evict r t c found =
    rw children-with_children
      (held-drop_below r c.ref c.size (children t.root) (victim-Tail r t c found))

evictions-evict :
    (r : String) (t : PrefixTree) (c : Candidate)
    → get_or r 0 (evict r c t).evictions ≡ get_or r 0 t.evictions + 1
unfolding evict
evictions-evict r t c =
    ground (arith, get_or-put r r 0 (get_or r 0 t.evictions + 1) t.evictions, eq_iff r r)

held-evict_cases :
    (r s : String) (t : PrefixTree) (c : Candidate)
    → victim r t ≡ some c
    → (if str_eq r s
        then Loses (held s t) (held s (evict r c t))
        else (held s (evict r c t) ≡ held s t))
held-evict_cases r s t c found = elim (Bool-cases (str_eq r s)) [
  | inl same ↦ rw same (
      subst (λ k. Loses (held k t) (held k (evict r c t))) ((eq_iff r s).0 same)
        (held-evict r t c found))
  | inr other ↦ rw other (held-evict_ne r s c t other)
]

evict-frees :
    (r : String) (t : PrefixTree) (c : Candidate)
    → IsValid t
    → victim r t ≡ some c
    → get_or r 0 (evict r c t).tokens_used < get_or r 0 t.tokens_used
evict-frees r t c v found =
    let tail = victim-Tail r t c found in
    ground (
      arith,
      evict-used r t c,
      (v r).accounted,
      load-drop_below r r c.ref c.size (children t.root) tail,
      tail_size_below r r true 0 c.ref c.size (children t.root) tail
          (root_Shape r t.root (v r).shape),
      eq_iff r r,
    )

evict-effect :
    (r s : String) (t : PrefixTree) (c : Candidate)
    → IsValid t
    → victim r t ≡ some c
    → (if str_eq r s
        then Loses (held s t) (held s (evict r c t))
        else (held s (evict r c t) ≡ held s t))
      × (get_or r 0 (evict r c t).tokens_used < get_or r 0 t.tokens_used)
      × (get_or r 0 (evict r c t).evictions ≡ get_or r 0 t.evictions + 1)
evict-effect r s t c v found =
    (held-evict_cases r s t c found, evict-frees r t c v found, evictions-evict r t c)

-- An eviction that succeeds takes exactly one held prefix of its replica away and leaves every
-- other replica what it holds; its replica uses fewer tokens, and one eviction more is counted.
pub evict_one-effect :
    (r s : String) (t t' : PrefixTree)
    → IsValid t
    → evict_one r t ≡ some t'
    → (if str_eq r s then Loses (held s t) (held s t') else (held s t' ≡ held s t))
      × (get_or r 0 t'.tokens_used < get_or r 0 t.tokens_used)
      × (get_or r 0 t'.evictions ≡ get_or r 0 t.evictions + 1)
evict_one-effect r s t t' v e = elim (Option-cases (victim r t)) [
  | inl nobody ↦ absurd (evict_one_failed r t t' nobody e)
  | inr (c, found) ↦
      subst
        (λ x.
          (if str_eq r s then Loses (held s t) (held s x) else (held s x ≡ held s t))
          × (get_or r 0 x.tokens_used < get_or r 0 t.tokens_used)
          × (get_or r 0 x.evictions ≡ get_or r 0 t.evictions + 1))
        (evict_one_found r t t' c found e) (evict-effect r s t c v found)
]

evict_one-some :
    (r : String) (t : PrefixTree) (c : Candidate) → victim r t ≡ some c → evict_one r t ≡ none → ⊥
unfolding evict_one
evict_one-some r t c found e = let e' : some (evict r c t) ≡ none = rw (found, evict_one) at e in cc

Loses-nil {ℓ} : {A : Type ℓ} {l l' : List A} → Loses l l' → l ≡ [] → ⊥
Loses-nil (lose x l) e = cc
Loses-nil (keep x h) e = cc

-- It fails only for a replica that holds nothing.
pub evict_one-none :
    (r : String) (t : PrefixTree) → IsValid t → (evict_one r t ≡ none) ↔ (held r t ≡ [])
evict_one-none r t v = (
  λ e. elim (Option-cases (victim r t)) [
    | inl nobody ↦ held_below_absent r 0 (children t.root) (
        tail-Shape r true 0 (children t.root) (no_victim r t nobody)
          (root_Shape r t.root (v r).shape))
    | inr (c, found) ↦ absurd (evict_one-some r t c found e)
  ],
  λ e. elim (Option-cases (victim r t)) [
    | inl nobody ↦ unfold evict_one in ground (arith, nobody)
    | inr (c, found) ↦ absurd (Loses-nil (held-evict r t c found) e)
  ],
)

-- No node that the scan found was used before the victim.
pub victim-scanned :
    (r : String) (t : PrefixTree) (c : Candidate)
    → victim r t ≡ some c
    → All (λ x. c.stamp ≤ x.stamp) (scan_below r (children t.root))
unfolding victim
victim-scanned r t c h = least (scan_below r (children t.root)) h
  where
    least : (l : List Candidate) → oldest_of none l ≡ some c → All (λ x. c.stamp ≤ x.stamp) l
    least [] e = tt
    least (x ∷ l) e = (oldest_of-first l x c e, oldest_of-least l x c e)
