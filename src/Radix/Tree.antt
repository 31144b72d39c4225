-- ===== src/Radix/Tree.antt =====
-- `PrefixTree` of src/kv_aware_router/radix.py: its state and its methods.
use kv_aware_router.Prelude.{
  ℕ, zero, suc, ◌+◌, ◌-◌, true, false, [], ◌∷◌, Option, none, some, String, ltb,
}
use kv_aware_router.Dict.{Dict, get, get_or, put, remove}
use kv_aware_router.Radix.Node.{Tokens, Node, node, Children, children}
use kv_aware_router.Radix.Match.{match_from}
use kv_aware_router.Radix.Insert.{insert_below}
use kv_aware_router.Radix.Touch.{touch_below, forget_at}
use kv_aware_router.Radix.Evict.{Candidate, scan_below, oldest_of, drop_below}

pub record PrefixTree : Type 0 where
  pub prefix_match_unit : ℕ
  pub root : Node
  pub capacity_tokens : Dict ℕ
  pub tokens_used : Dict ℕ
  pub evictions : Dict ℕ

-- The methods but the constructor leave the root's own fields alone, except its children.
abbrev pub with_children : Children → Node → Node
with_children cs (node e d _ rs) = node e d cs rs

-- The victim of `_evict_one`: the root is never one.
unfoldable pub victim : String → PrefixTree → Option Candidate
unfolding scan_below oldest_of
victim r t = oldest_of none (scan_below r (children t.root))

-- What `_evict_one` does to the victim that it found.
unfoldable pub evict : String → Candidate → PrefixTree → PrefixTree
unfolding drop_below
evict r v t = record t {
  root = with_children (drop_below r v.ref (children t.root)) t.root;
  tokens_used = put r (get_or r 0 t.tokens_used - v.size) t.tokens_used;
  evictions = put r (get_or r 0 t.evictions + 1) t.evictions;
}

-- `_evict_one`; `none` is the result `False`.
unfoldable pub evict_one : String → PrefixTree → Option PrefixTree
unfolding victim evict
evict_one r t = elim (victim r t) [ none ↦ none | some v ↦ some (evict r v t) ]

-- The loop of `_enforce_capacity`, on fuel.
unfoldable pub enforce_loop : ℕ → String → ℕ → PrefixTree → PrefixTree
unfolding evict_one
enforce_loop zero r cap t = t
enforce_loop (suc fuel) r cap t = elim (ltb cap (get_or r 0 t.tokens_used)) [
  | true ↦ elim (evict_one r t) [ none ↦ t | some t' ↦ enforce_loop fuel r cap t' ]
  | false ↦ t
]

-- `_enforce_capacity`. Each round frees a token at least, so the tokens used are fuel enough.
unfoldable pub enforce_capacity : String → PrefixTree → PrefixTree
unfolding enforce_loop
enforce_capacity r t = elim (get r t.capacity_tokens) [
  | none ↦ t
  | some cap ↦ enforce_loop (get_or r 0 t.tokens_used) r cap t
]

unfoldable pub match_tokens : PrefixTree → Tokens → Dict ℕ
unfolding match_from
match_tokens t tokens = match_from t.prefix_match_unit t.root tokens

-- `insert` up to the call of `_enforce_capacity`.
unfoldable pub record_prefix : Tokens → String → ℕ → PrefixTree → PrefixTree
unfolding insert_below
record_prefix tokens r now t =
    let (cs, used) = insert_below r now 0 tokens (children t.root) t.tokens_used in
    record t { root = with_children cs t.root; tokens_used = used }

unfoldable pub insert : Tokens → String → ℕ → PrefixTree → PrefixTree
unfolding record_prefix enforce_capacity
insert [] r now t = t
insert (x ∷ tokens) r now t = enforce_capacity r (record_prefix (x ∷ tokens) r now t)

unfoldable pub touch : Tokens → String → ℕ → PrefixTree → PrefixTree
unfolding touch_below
touch tokens r now t = record t {
  root = with_children (touch_below r now tokens (children t.root)) t.root;
}

unfoldable pub remove_replica : String → PrefixTree → PrefixTree
unfolding forget_at
remove_replica r t = record t { root = forget_at r t.root; tokens_used = remove r t.tokens_used }
