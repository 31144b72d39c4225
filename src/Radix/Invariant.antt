-- ===== src/Radix/Invariant.antt =====
-- The invariant of `PrefixTree` in src/kv_aware_router/radix.py, and what `match` then answers.
use kv_aware_router.Prelude.{
  ℕ, ◌+◌, ◌<◌, ◌≡◌, true, List, [], String, none, some, arith, ltb, if◌then◌else◌, length,
  round_down, round_down-zero,
}
use native.Mathlib.Nat.{zero-add}
use kv_aware_router.Dict.{has, get, get_or}
use kv_aware_router.Radix.Node.{Tokens, Node, node, Children, nil, cons, children}
use kv_aware_router.Radix.Match.{credit, match_at}
use kv_aware_router.Radix.Held.{ShapeBelow, held_below, longest, reach_below, longest-held_below}
use kv_aware_router.Radix.Queries.{
  get_or-match_below, match_from-positive, match_at-IsPositive, get_of_IsPositive,
}
use kv_aware_router.Radix.Tree.{PrefixTree, match_tokens}

-- The tokens of the segments where a replica is resident.
unfoldable mutual
  pub load_at : String → Node → ℕ
  load_at r (node e d cs rs) = (if has r rs then length e else 0) + load_below r cs

  pub load_below : String → Children → ℕ
  load_below r nil = 0
  load_below r (cons k c cs) = load_at r c + load_below r cs

-- The root has no edge and no residents.
abbrev pub RootShape : String → Node → Type 0
RootShape r (node e d cs rs) = (e ≡ []) × (d ≡ 0) × (rs ≡ []) × ShapeBelow r true 0 cs

pub record ValidFor (r : String) (t : PrefixTree) : Type 0 where
  pub unit_pos : 0 < t.prefix_match_unit
  pub shape : RootShape r t.root
  pub accounted : get_or r 0 t.tokens_used ≡ load_below r (children t.root)

-- The invariant holds for every replica.
abbrev pub IsValid : PrefixTree → Type 0
IsValid t = (r : String) → ValidFor r t

-- The prefixes that the tree says a replica holds.
abbrev pub held : String → PrefixTree → List Tokens
held r t = held_below r (children t.root)

-- How many tokens of a query the replica holds, before rounding.
abbrev pub cached : PrefixTree → String → Tokens → ℕ
cached t r q = longest (held r t) q

pub reach_root :
    (r : String) (n : Node) (q : Tokens)
    → RootShape r n
    → longest (held_below r (children n)) q ≡ reach_below r (children n) q
reach_root r (node e d cs rs) q h = longest-held_below r true 0 cs q h.3

pub cached-eq-reach :
    (t : PrefixTree) (r : String) (q : Tokens)
    → ValidFor r t
    → cached t r q ≡ reach_below r (children t.root) q
cached-eq-reach t r q v = reach_root r t.root q v.shape

get_or-match_root :
    (u : ℕ) (r : String) (n : Node) (q : Tokens)
    → 0 < u
    → RootShape r n
    → get_or r 0 (match_at u 0 q n []) ≡ round_down u (reach_below r (children n) q)
unfolding match_at credit get_or
get_or-match_root u r (node e d cs rs) q u_pos h = ground (
  arith,
  get_or-match_below u u_pos r true 0 q cs [] h.3,
  round_down-zero u,
  zero-add (reach_below r cs q),
)

-- The answer of `match` for a replica: the longest prefix of the query that it holds, rounded down
-- to the unit, and no entry where that is 0.
pub get-match_tokens :
    (t : PrefixTree) (r : String) (q : Tokens)
    → ValidFor r t
    → get r (match_tokens t q)
      ≡ (let n = round_down t.prefix_match_unit (cached t r q) in if ltb 0 n then some n else none)
unfolding match_tokens
get-match_tokens t r q v = rw match_from-positive (
    ground (
      arith,
      get_of_IsPositive r _ (match_at-IsPositive t.prefix_match_unit 0 q t.root [] tt),
      get_or-match_root t.prefix_match_unit r t.root q v.unit_pos v.shape,
      cached-eq-reach t r q v,
    ))
