-- ===== src/Radix/InsertLoad.antt =====
-- `insert` of src/kv_aware_router/radix.py and `tokens_used`.
use kv_aware_router.Prelude.{
  ℕ, ◌+◌, ◌≡◌, refl, [], ◌∷◌, String, eq_iff, arith, ltb, length, drop, Bool-cases, inl, inr,
  length-take, length-drop,
}
use kv_aware_router.Dict.{Dict, has, get_or, has-put, get_or-put}
use kv_aware_router.Radix.Node.{Tokens, Node, node, Children, nil, cons, shared, children}
use kv_aware_router.Radix.Insert.{mark, leaf, extend, close, split, insert_at, insert_below}
use kv_aware_router.Radix.Invariant.{load_at, load_below}

load-mark :
    (r s : String) (now : ℕ) (e : Tokens) (d : ℕ) (cs : Children) (rs used : Dict ℕ)
    → get_or s 0 (mark r now (node e d cs rs) used).1 + load_at s (node e d cs rs)
      ≡ get_or s 0 used + load_at s (mark r now (node e d cs rs) used).0
unfolding mark load_at
load-mark r s now e d cs rs used =
    ground
      (arith, has-put r s now rs, get_or-put r s 0 (get_or r 0 used + length e) used, eq_iff r s)

load-leaf :
    (r s : String) (now d : ℕ) (rest : Tokens) (used : Dict ℕ)
    → get_or s 0 (leaf r now d rest used).1 ≡ get_or s 0 used + load_at s (leaf r now d rest used).0
unfolding leaf
load-leaf r s now d rest used =
    unfold load_at has in ground (arith, load-mark r s now rest (d + length rest) nil [] used)

load-extend :
    (r s : String) (now d : ℕ) (rest : Tokens) (cs : Children) (used : Dict ℕ)
    → get_or s 0 (extend r now d rest cs used).1 + load_below s cs
      ≡ get_or s 0 used + load_below s (extend r now d rest cs used).0
unfolding extend load_at
load-extend r s now d [] cs used = refl
load-extend r s now d (t ∷ rest) nil used = omega (arith, load-leaf r s now d (t ∷ rest) used)
load-extend r s now d (t ∷ rest) (cons k c cs) used =
    omega (arith, load-extend r s now d (t ∷ rest) cs used)

load-split : (s : String) (d : ℕ) (n : Node) (at : ℕ) → load_at s (split d n at) ≡ load_at s n
unfolding split load_at
load-split s d (node e d' cs rs) at = ground (arith, length-take at e, length-drop at e)

load-close :
    (r s : String) (now : ℕ) (n : Node) (cs : Children) (used0 used : Dict ℕ)
    → get_or s 0 used + load_below s (children n) ≡ get_or s 0 used0 + load_below s cs
    → get_or s 0 (close r now n (cs, used)).1 + load_at s n
      ≡ get_or s 0 used0 + load_at s (close r now n (cs, used)).0
load-close r s now (node e d cs0 rs) cs used0 used h =
    unfold load_at in ground (arith, load-mark r s now e d cs rs used)

load-cut :
    (r s : String) (now d : ℕ) (rest : Tokens) (n : Node) (used : Dict ℕ) (j : ℕ)
    → (let new =
          close r now (split d n j) (extend r now (d + j) rest (children (split d n j)) used) in
        get_or s 0 new.1 + load_at s n ≡ get_or s 0 used + load_at s new.0)
load-cut r s now d rest n used j =
    let (below, charged) = extend r now (d + j) rest (children (split d n j)) used in
    omega (
      arith,
      load-split s d n j,
      load-close r s now (split d n j) below used charged
          (load-extend r s now (d + j) rest (children (split d n j)) used),
    )

mutual
  unfolding insert_at load_at

  load-insert_at :
      (r s : String) (now d : ℕ) (rest : Tokens) (n : Node) (used : Dict ℕ)
      → get_or s 0 (insert_at r now d rest n used).1 + load_at s n
        ≡ get_or s 0 used + load_at s (insert_at r now d rest n used).0
  load-insert_at r s now d rest (node e d' cs rs) used =
      elim (Bool-cases (ltb (shared e rest) (length e))) [
        | inl cut ↦
            rw cut (
              load-cut r s now d (drop (shared e rest) rest) (node e d' cs rs) used (shared e rest))
        | inr full ↦ rw full (
            load-close r s now (node e d' cs rs) _ used _
              (load-insert_below r s now d' (drop (shared e rest) rest) cs used))
      ]

  pub load-insert_below :
      (r s : String) (now d : ℕ) (rest : Tokens) (cs : Children) (used : Dict ℕ)
      → get_or s 0 (insert_below r now d rest cs used).1 + load_below s cs
        ≡ get_or s 0 used + load_below s (insert_below r now d rest cs used).0
  load-insert_below r s now d rest nil used = load-extend r s now d rest nil used
  load-insert_below r s now d rest (cons k c cs) used =
      ground (arith, load-insert_at r s now d rest c used, load-insert_below r s now d rest cs used)
