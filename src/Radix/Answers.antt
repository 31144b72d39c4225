-- ===== src/Radix/Answers.antt =====
-- The keys of the `dict` that `PrefixTree.match` of src/kv_aware_router/radix.py returns.
use kv_aware_router.Prelude.{
  ℕ, ◌+◌, ◌≡◌, true, false, Bool, [], ◌∷◌, ltb, if◌then◌else◌, length, drop, round_down, refl,
}
use kv_aware_router.Dict.{Dict, get_or}
use kv_aware_router.Dict.Distinct.{distinct, distinct-put}
use kv_aware_router.Radix.Node.{
  Tokens, Node, node, Children, nil, cons, edge, residents, at_key, shared,
}
use kv_aware_router.Radix.Match.{credit, match_at, match_below}
use kv_aware_router.Radix.Queries.{match_from-positive}
use kv_aware_router.Radix.Tree.{PrefixTree, match_tokens}

if_distinct :
    (b : Bool) (m n : Dict ℕ)
    → distinct m ≡ true
    → distinct n ≡ true
    → distinct (if b then m else n) ≡ true
if_distinct true m n p q = p
if_distinct false m n p q = q

distinct-credit :
    (u n : ℕ) (rs best : Dict ℕ) → distinct best ≡ true → distinct (credit u n rs best) ≡ true
unfolding credit
distinct-credit u n [] best p = p
distinct-credit u n ((s, t) ∷ rs) best p =
    distinct-credit u n rs _
      (if_distinct (ltb (get_or s 0 best) (round_down u n)) _ _ (distinct-put s _ best p) p)

mutual
  unfolding match_at

  distinct-match_at :
      (u i : ℕ) (q : Tokens) (n : Node) (best : Dict ℕ)
      → distinct best ≡ true
      → distinct (match_at u i q n best) ≡ true
  distinct-match_at u i q (node e d cs rs) best p =
      distinct-match_below u i q cs _ (distinct-credit u d rs best p)

  distinct-match_below :
      (u i : ℕ) (q : Tokens) (cs : Children) (best : Dict ℕ)
      → distinct best ≡ true
      → distinct (match_below u i q cs best) ≡ true
  distinct-match_below u i q nil best p = p
  distinct-match_below u i q (cons k c cs) best p =
      if_distinct (at_key k q) _ _
        (if_distinct (ltb (shared (edge c) q) (length (edge c))) _ _
          (distinct-credit u (i + shared (edge c) q) (residents c) best p)
          (distinct-match_at u (i + shared (edge c) q) (drop (shared (edge c) q) q) c best p))
        (distinct-match_below u i q cs best p)

pub distinct-match_tokens : (t : PrefixTree) (q : Tokens) → distinct (match_tokens t q) ≡ true
unfolding match_tokens distinct
distinct-match_tokens t q =
    rw match_from-positive (distinct-match_at t.prefix_match_unit 0 q t.root [] refl)
