-- ===== src/Radix/Upkeep.antt =====
-- The methods of `PrefixTree` in src/kv_aware_router/radix.py and the invariant.
use kv_aware_router.Prelude.{
  ℕ, ◌-◌, ◌≡◌, refl, true, List, [], ◌∷◌, none, some, String, str_eq, eq_iff, arith, if◌then◌else◌,
  All,
}
use kv_aware_router.Dict.{get_or, remove, get_or-put, get_or-remove}
use kv_aware_router.Radix.Node.{Tokens, Node, node, Children, children}
use kv_aware_router.Radix.InsertKeeps.{shape-insert_below}
use kv_aware_router.Radix.InsertLoad.{load-insert_below}
use kv_aware_router.Radix.Evict.{Candidate, scan_below, oldest_of}
use kv_aware_router.Radix.EvictScan.{TailBelow, scan_below-Tail, oldest_of-among}
use kv_aware_router.Radix.EvictDrop.{shape-drop_below, load-drop_below}
use kv_aware_router.Radix.TouchHeld.{
  shape-touch_below, load-touch_below, shape-forget_below, load-forget_below,
}
use kv_aware_router.Radix.Touch.{forget_at}
use kv_aware_router.Radix.Held.{ShapeBelow}
use kv_aware_router.Radix.Tree.{
  PrefixTree, with_children, victim, evict, record_prefix, touch, remove_replica,
}
use kv_aware_router.Radix.Invariant.{IsValid, RootShape, load_below}

-- New children of the right shape, under the root.
RootShape-with_children :
    (s : String) (n : Node) (cs : Children)
    → RootShape s n
    → (ShapeBelow s true 0 (children n) → ShapeBelow s true 0 cs)
    → RootShape s (with_children cs n)
RootShape-with_children s (node e d ds rs) cs h f = (h.0, h.1, h.2, f h.3)

pub children-with_children : (n : Node) (cs : Children) → children (with_children cs n) ≡ cs
children-with_children (node e d ds rs) cs = refl

pub record_prefix-IsValid :
    (tokens : Tokens) (r : String) (now : ℕ) (t : PrefixTree)
    → IsValid t
    → IsValid (record_prefix tokens r now t)
unfolding record_prefix
record_prefix-IsValid tokens r now t v s = record {
  unit_pos = (v s).unit_pos;
  shape =
      RootShape-with_children s t.root _ (v s).shape
        (shape-insert_below r s true now 0 tokens (children t.root) t.tokens_used (λ _. refl));
  accounted = rw children-with_children (
      omega (
        arith,
        load-insert_below r s now 0 tokens (children t.root) t.tokens_used,
        (v s).accounted,
      ));
}

pub touch-IsValid :
    (tokens : Tokens) (r : String) (now : ℕ) (t : PrefixTree)
    → IsValid t
    → IsValid (touch tokens r now t)
unfolding touch
touch-IsValid tokens r now t v s = record {
  unit_pos = (v s).unit_pos;
  shape =
      RootShape-with_children s t.root _ (v s).shape
        (shape-touch_below r s true 0 now tokens (children t.root));
  accounted =
      rw (children-with_children, load-touch_below r s now tokens (children t.root))
        (v s).accounted;
}

RootShape-forget_at : (r s : String) (n : Node) → RootShape s n → RootShape s (forget_at r n)
unfolding forget_at remove
RootShape-forget_at r s (node e d cs rs) h =
    (h.0, h.1, rw h.2, shape-forget_below r s true true 0 cs (λ _ _. refl) h.3)

load-forget_root :
    (r s : String) (n : Node)
    → load_below s (children (forget_at r n))
      ≡ (if str_eq r s then 0 else load_below s (children n))
unfolding forget_at
load-forget_root r s (node e d cs rs) = load-forget_below r s cs

pub remove_replica-IsValid :
    (r : String) (t : PrefixTree) → IsValid t → IsValid (remove_replica r t)
unfolding remove_replica
remove_replica-IsValid r t v s = record {
  unit_pos = (v s).unit_pos;
  shape = RootShape-forget_at r s t.root (v s).shape;
  accounted =
      ground
        (arith, load-forget_root r s t.root, get_or-remove r s 0 t.tokens_used, (v s).accounted);
}

-- The victim that `_evict_one` finds is a tail.
pub victim-Tail :
    (r : String) (t : PrefixTree) (c : Candidate)
    → victim r t ≡ some c
    → TailBelow r c.ref c.size (children t.root)
unfolding victim
victim-Tail r t c h = among (scan_below r (children t.root)) (scan_below-Tail r (children t.root)) h
  where
    among :
        (l : List Candidate)
        → All (λ x. TailBelow r x.ref x.size (children t.root)) l
        → oldest_of none l ≡ some c
        → TailBelow r c.ref c.size (children t.root)
    among [] a e = cc
    among (x ∷ l) a e =
        oldest_of-among (λ y. TailBelow r y.ref y.size (children t.root)) l x c a.0 a.1 e

pub evict-IsValid :
    (r : String) (t : PrefixTree) (c : Candidate)
    → victim r t ≡ some c
    → IsValid t
    → IsValid (evict r c t)
unfolding evict
evict-IsValid r t c found v s =
    let tail = victim-Tail r t c found in
    record {
      unit_pos = (v s).unit_pos;
      shape =
          RootShape-with_children s t.root _ (v s).shape
            (shape-drop_below r s true 0 c.ref c.size (children t.root) tail);
      accounted = rw children-with_children (
          ground (
            arith,
            get_or-put r s 0 (get_or r 0 t.tokens_used - c.size) t.tokens_used,
            load-drop_below r s c.ref c.size (children t.root) tail,
            (v s).accounted,
            eq_iff r s,
          ));
    }
