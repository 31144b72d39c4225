-- ===== src/Radix/Queries.antt =====
-- `match` of src/kv_aware_router/radix.py against the prefixes that the tree holds.
use kv_aware_router.Prelude.{
  ℕ, ◌+◌, ◌≤◌, ◌<◌, ◌≡◌, refl, max, Bool, true, false, [], ◌∷◌, String, str_eq, some, none, arith,
  ltb, if◌then◌else◌, length, drop, head?, round_down, round_down_mono, eq_iff, Bool-cases, inl,
  inr,
}
use native.Mathlib.Nat.{add-zero}
use kv_aware_router.Dict.{Dict, has, get_or, get_or-put, put, get}
use kv_aware_router.Radix.Node.{
  Tokens, Node, node, Children, nil, cons, edge, residents, at_key, shared, children,
}
use kv_aware_router.Radix.Match.{credit, match_at, match_below, positive, match_from}
use kv_aware_router.Radix.Over.{over, over_partial, over_full, shared-le}
use kv_aware_router.Radix.Held.{ShapeAt, ShapeBelow, reach_at, reach_below, is_fresh}

-- One round of the loop in `credit`.
raise_best : String → ℕ → Dict ℕ → Dict ℕ
raise_best s usable best = if ltb (get_or s 0 best) usable then put s usable best else best

get_or-raise_best :
    (s r : String) (usable : ℕ) (best : Dict ℕ)
    → get_or r 0 (raise_best s usable best)
      ≡ (if str_eq s r then max (get_or r 0 best) usable else get_or r 0 best)
unfolding raise_best
get_or-raise_best s r usable best = ground (arith, get_or-put s r 0 usable best, eq_iff s r)

get_or-credit :
    (u n : ℕ) (r : String) (rs best : Dict ℕ)
    → get_or r 0 (credit u n rs best)
      ≡ (if has r rs then max (get_or r 0 best) (round_down u n) else get_or r 0 best)
unfolding credit has raise_best
get_or-credit u n r [] best = refl
get_or-credit u n r ((s, t) ∷ rs) best =
    let best' = raise_best s (round_down u n) best in
    let ih : get_or r 0 (credit u n rs best')
        ≡ (if has r rs then max (get_or r 0 best') (round_down u n) else get_or r 0 best') =
      get_or-credit u n r rs best' in
    ground (arith, ih, get_or-raise_best s r (round_down u n) best)

-- Every entry credits at least one token.
abbrev pub IsPositive : Dict ℕ → Type 0
IsPositive [] = Unit
IsPositive ((r, n) ∷ m) = (0 < n) × IsPositive m

put-IsPositive : (s : String) (n : ℕ) (m : Dict ℕ) → 0 < n → IsPositive m → IsPositive (put s n m)
unfolding put
put-IsPositive s n [] h p = (h, tt)
put-IsPositive s n ((j, w) ∷ m) h p = elim (Bool-cases (str_eq j s)) [
  | inl e ↦ rw e (h, p.1)
  | inr e ↦ rw e (p.0, put-IsPositive s n m h p.1)
]

if_IsPositive :
    (b : Bool) (m n : Dict ℕ) → IsPositive m → IsPositive n → IsPositive (if b then m else n)
if_IsPositive true m n p q = p
if_IsPositive false m n p q = q

credit-IsPositive : (u n : ℕ) (rs best : Dict ℕ) → IsPositive best → IsPositive (credit u n rs best)
unfolding credit
credit-IsPositive u n [] best p = p
credit-IsPositive u n ((s, t) ∷ rs) best p =
    elim (Bool-cases (ltb (get_or s 0 best) (round_down u n))) [
      | inl e ↦ rw e (credit-IsPositive u n rs _ (put-IsPositive s _ best (ground arith) p))
      | inr e ↦ rw e (credit-IsPositive u n rs best p)
    ]

positive-eq_self : (m : Dict ℕ) → IsPositive m → positive m ≡ m
unfolding positive
positive-eq_self [] p = refl
positive-eq_self ((s, n) ∷ m) p = ground (arith, positive-eq_self m p.1)

-- Where the next token is not the key, nothing below the child counts.
pub reach_at_other :
    (r : String) (k : ℕ) (n : Node) (q : Tokens)
    → head? (edge n) ≡ some k
    → at_key k q ≡ false
    → reach_at r n q ≡ 0
unfolding reach_at over
reach_at_other r k (node [] d cs rs) q h m = cc
reach_at_other r k (node (x ∷ e) d cs rs) [] h m = ground arith
reach_at_other r k (node (x ∷ e) d cs rs) (y ∷ q) h m = ground arith

pub reach_below_fresh :
    (r : String) (up : Bool) (d k : ℕ) (cs : Children) (q : Tokens)
    → ShapeBelow r up d cs
    → is_fresh k cs ≡ true
    → at_key k q ≡ true
    → reach_below r cs q ≡ 0
unfolding ShapeAt reach_at is_fresh
reach_below_fresh r up d k nil q h f m = refl
reach_below_fresh r up d k (cons j c cs) [] h f m = cc
reach_below_fresh r up d k (cons j c cs) (t ∷ q) h f m =
    ground (arith, reach_at_other r j c (t ∷ q), reach_below_fresh r up d k cs (t ∷ q))

resident_above :
    (r : String) (up : Bool) (d : ℕ) (n : Node)
    → ShapeAt r up d n
    → has r (residents n) ≡ true
    → up ≡ true
unfolding ShapeAt
resident_above r up d (node e d' cs rs) h = h.1

reach_at_partial :
    (r : String) (n : Node) (q : Tokens)
    → shared (edge n) q < length (edge n)
    → reach_at r n q ≡ (if has r (residents n) then shared (edge n) q else 0)
unfolding reach_at
reach_at_partial r (node e d cs rs) q h = rw (over_partial (reach_below r cs) e q h)

reach_at_full :
    (r : String) (n : Node) (q : Tokens)
    → length (edge n) ≤ shared (edge n) q
    → reach_at r n q ≡ (
        if has r (residents n)
        then shared (edge n) q + reach_below r (children n) (drop (shared (edge n) q) q)
        else 0)
unfolding reach_at
reach_at_full r (node e d cs rs) q h =
    let full : shared e q ≡ length e = omega (arith, shared-le e q) in
    rw (full, over_full (reach_below r cs) e q h)

module _ (u : ℕ) (u_pos : 0 < u) (r : String) where
  -- What the loop has credited `r` with, after a subtree where it is resident at the top or not.
  abbrev pub credited : Bool → ℕ → Dict ℕ → ℕ
  credited on n best = max (get_or r 0 best) (if on then round_down u n else 0)

  mutual
    unfolding match_at ShapeAt reach_at

    get_or-match_at :
        (up : Bool) (d i : ℕ) (q : Tokens) (n : Node) (best : Dict ℕ)
        → ShapeAt r up d n
        → i ≡ d + length (edge n)
        → get_or r 0 (match_at u i q n best)
          ≡ credited (has r (residents n)) (i + reach_below r (children n) q) best
    get_or-match_at up d i q (node e d' cs rs) best h at = ground (
      arith,
      get_or-match_below (has r rs) i q cs (credit u d' rs best),
      get_or-credit u d' r rs best,
      round_down_mono u d' (d' + reach_below r cs q) u_pos,
    )

    pub get_or-match_below :
        (up : Bool) (d : ℕ) (q : Tokens) (cs : Children) (best : Dict ℕ)
        → ShapeBelow r up d cs
        → (up ≡ true → round_down u d ≤ get_or r 0 best)
        → get_or r 0 (match_below u d q cs best) ≡ credited up (d + reach_below r cs q) best
    get_or-match_below up d q nil best h low = ground (arith, add-zero d)
    get_or-match_below up d q (cons k c cs) best h low =
        let j = shared (edge c) q in
        ground (
          arith,
          get_or-match_at up d (d + j) (drop j q) c best h.2,
          get_or-match_below up d q cs best h.3,
          get_or-credit u (d + j) r (residents c) best,
          resident_above r up d c h.2,
          reach_at_partial r c q,
          reach_at_full r c q,
          reach_at_other r k c q h.0,
          reach_below_fresh r up d k cs q h.3 h.1,
          shared-le (edge c) q,
          round_down_mono u d (d + j) u_pos,
          add-zero d,
        )

mutual
  unfolding match_at

  pub match_at-IsPositive :
      (u i : ℕ) (q : Tokens) (n : Node) (best : Dict ℕ)
      → IsPositive best
      → IsPositive (match_at u i q n best)
  match_at-IsPositive u i q (node e d cs rs) best p =
      match_below-IsPositive u i q cs _ (credit-IsPositive u d rs best p)

  match_below-IsPositive :
      (u i : ℕ) (q : Tokens) (cs : Children) (best : Dict ℕ)
      → IsPositive best
      → IsPositive (match_below u i q cs best)
  match_below-IsPositive u i q nil best p = p
  match_below-IsPositive u i q (cons k c cs) best p =
      if_IsPositive (at_key k q) _ _
        (if_IsPositive (ltb (shared (edge c) q) (length (edge c))) _ _
          (credit-IsPositive u (i + shared (edge c) q) (residents c) best p)
          (match_at-IsPositive u (i + shared (edge c) q) (drop (shared (edge c) q) q) c best p))
        (match_below-IsPositive u i q cs best p)

-- So the filter at the end of `match` drops nothing.
pub match_from-positive :
    (u : ℕ) (root : Node) (q : Tokens) → match_from u root q ≡ match_at u 0 q root []
unfolding match_from
match_from-positive u root q = positive-eq_self _ (match_at-IsPositive u 0 q root [] tt)

pub get_of_IsPositive :
    (r : String) (m : Dict ℕ)
    → IsPositive m
    → get r m ≡ (if ltb 0 (get_or r 0 m) then some (get_or r 0 m) else none)
unfolding get get_or
get_of_IsPositive r [] p = refl
get_of_IsPositive r ((s, n) ∷ m) p = ground (arith, get_of_IsPositive r m p.1)
