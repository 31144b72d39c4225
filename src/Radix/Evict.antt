-- ===== src/Radix/Evict.antt =====
-- `_evict_one` of src/kv_aware_router/radix.py, on the nodes: the scan for the victim, and the
-- removal of its residency.
use kv_aware_router.Prelude.{
  ℕ, ◌&&◌, List, [], ◌∷◌, ◌++◌, map, Option, none, some, String, ltb, if◌then◌else◌, length,
}
use kv_aware_router.Dict.{has, get_or, remove}
use kv_aware_router.Radix.Node.{Node, node, Children, nil, cons, is_tail_for}

-- A reference to a node: the node itself, one below the first child, or one below a later child.
pub data Ref : Type 0 where
  here : Ref
  first later : Ref → Ref

-- A node that may be evicted: `size` is `len(node.edge)`, `stamp` is `node.residents[replica]`.
pub record Candidate : Type 0 where
  pub ref : Ref
  pub size : ℕ
  pub stamp : ℕ

abbrev pub under : (Ref → Ref) → Candidate → Candidate
under f c = record c { ref = f c.ref }

-- What the loop passes on to the test `ts < oldest`: the node, if it is resident and a tail.
unfoldable pub candidate : String → Node → List Candidate
candidate r (node e d cs rs) =
    if has r rs && is_tail_for r cs
    then record { ref = here; size = length e; stamp = get_or r 0 rs } ∷ []
    else []

-- The order of the stack: a node, then its children, the last one first.
unfoldable mutual
  unfolding candidate

  pub scan_at : String → Node → List Candidate
  scan_at r (node e d cs rs) = candidate r (node e d cs rs) ++ scan_below r cs

  pub scan_below : String → Children → List Candidate
  scan_below r nil = []
  scan_below r (cons k c cs) =
      map (under Ref.later) (scan_below r cs) ++ map (under Ref.first) (scan_at r c)

-- `if ts < oldest: victim, oldest = node, ts`, from `oldest = inf` with no victim.
unfoldable pub oldest_of : Option Candidate → List Candidate → Option Candidate
oldest_of victim [] = victim
oldest_of none (c ∷ l) = oldest_of (some c) l
oldest_of (some v) (c ∷ l) = oldest_of (if ltb c.stamp v.stamp then some c else some v) l

-- `del victim.residents[replica]`, at the reference.
unfoldable mutual
  pub drop_at : String → Ref → Node → Node
  drop_at r here (node e d cs rs) = node e d cs (remove r rs)
  drop_at r (first p) (node e d cs rs) = node e d (drop_below r (first p) cs) rs
  drop_at r (later p) (node e d cs rs) = node e d (drop_below r (later p) cs) rs

  pub drop_below : String → Ref → Children → Children
  drop_below r p nil = nil
  drop_below r here (cons k c cs) = cons k c cs
  drop_below r (first p) (cons k c cs) = cons k (drop_at r p c) cs
  drop_below r (later p) (cons k c cs) = cons k c (drop_below r p cs)
