-- ===== src/Radix/Touch.antt =====
-- `touch` and `remove_replica` of src/kv_aware_router/radix.py, on the nodes.
use kv_aware_router.Prelude.{ℕ, String, leb, if◌then◌else◌, length, drop}
use kv_aware_router.Dict.{Dict, has, put, remove}
use kv_aware_router.Radix.Node.{Tokens, Node, node, Children, nil, cons, edge, at_key, shared}

-- `if replica in node.residents: node.residents[replica] = now`
unfoldable pub refresh : String → ℕ → Dict ℕ → Dict ℕ
refresh r now rs = if has r rs then put r now rs else rs

-- `touch` below a node. The walk goes on only through edges that the tokens cover whole:
-- `tokens[i : i + len(child.edge)] == child.edge`.
unfoldable mutual
  unfolding refresh

  pub touch_at : String → ℕ → Tokens → Node → Node
  touch_at r now rest (node e d cs rs) =
      node e d (touch_below r now (drop (length e) rest) cs) (refresh r now rs)

  pub touch_below : String → ℕ → Tokens → Children → Children
  touch_below r now rest nil = nil
  touch_below r now rest (cons k c cs) =
      let through = cons k (touch_at r now rest c) cs in
      let stop = cons k c cs in
      let other = cons k c (touch_below r now rest cs) in
      if at_key k rest
      then (if leb (length (edge c)) (shared (edge c) rest) then through else stop)
      else other

-- `remove_replica`: the loop over the whole tree.
unfoldable mutual
  pub forget_at : String → Node → Node
  forget_at r (node e d cs rs) = node e d (forget_below r cs) (remove r rs)

  pub forget_below : String → Children → Children
  forget_below r nil = nil
  forget_below r (cons k c cs) = cons k (forget_at r c) (forget_below r cs)
