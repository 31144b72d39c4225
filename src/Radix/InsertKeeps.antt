-- ===== src/Radix/InsertKeeps.antt =====
-- `insert` of src/kv_aware_router/radix.py, the shape of the tree and the count of its tokens.
use kv_aware_router.Prelude.{
  ℕ, zero, suc, ◌+◌, ◌<◌, ◌≡◌, refl, subst, Bool, true, false, [], ◌∷◌, String, some, str_eq, arith,
  ltb, length, take, drop, head?, Bool-cases, inl, inr, length-take, length-drop,
}
use kv_aware_router.Dict.{Dict, has, put, has-put}
use kv_aware_router.Radix.Node.{
  Tokens, Node, node, Children, nil, cons, edge, at_key, shared, children,
}
use kv_aware_router.Radix.Insert.{key, leaf, extend, split, insert_at, insert_below}
use kv_aware_router.Radix.Over.{shared-le}
use kv_aware_router.Radix.Held.{ShapeAt, ShapeBelow, is_fresh}

-- More may be resident above.
pub ShapeBelow-mono :
    (s : String) (up up' : Bool) (d : ℕ) (cs : Children)
    → (up ≡ true → up' ≡ true)
    → ShapeBelow s up d cs
    → ShapeBelow s up' d cs
unfolding ShapeAt
ShapeBelow-mono s up up' d nil m h = tt
ShapeBelow-mono s up up' d (cons k (node e d' ds rs) cs) m h =
    (h.0, h.1, (h.2.0, λ on. m (h.2.1 on), h.2.2), ShapeBelow-mono s up up' d cs m h.3)

is_fresh-extend :
    (r : String) (k now d : ℕ) (rest : Tokens) (cs : Children) (used : Dict ℕ)
    → is_fresh k cs ≡ true
    → at_key k rest ≡ false
    → is_fresh k (extend r now d rest cs used).0 ≡ true
unfolding extend is_fresh
is_fresh-extend r k now d [] cs used f m = f
is_fresh-extend r k now d (t ∷ rest) nil used f m = ground arith
is_fresh-extend r k now d (t ∷ rest) (cons j c cs) used f m =
    ground (arith, is_fresh-extend r k now d (t ∷ rest) cs used)

is_fresh-insert_below :
    (r : String) (k now d : ℕ) (rest : Tokens) (cs : Children) (used : Dict ℕ)
    → is_fresh k cs ≡ true
    → at_key k rest ≡ false
    → is_fresh k (insert_below r now d rest cs used).0 ≡ true
unfolding insert_at is_fresh
is_fresh-insert_below r k now d rest nil used f m = is_fresh-extend r k now d rest nil used f m
is_fresh-insert_below r k now d rest (cons j c cs) used f m =
    ground (arith, is_fresh-insert_below r k now d rest cs used)

shape-leaf :
    (r s : String) (up : Bool) (now d : ℕ) (rest : Tokens) (used : Dict ℕ)
    → (str_eq r s ≡ true → up ≡ true)
    → ShapeAt s up d (leaf r now d rest used).0
unfolding leaf ShapeAt has put
shape-leaf r s up now d rest used on = (refl, λ e. ground arith, tt)

-- The tokens begin with no key of the children.
abbrev is_new : Tokens → Children → Bool
is_new [] cs = true
is_new (t ∷ rest) cs = is_fresh t cs

shape-extend :
    (r s : String) (up : Bool) (now d : ℕ) (rest : Tokens) (cs : Children) (used : Dict ℕ)
    → (str_eq r s ≡ true → up ≡ true)
    → is_new rest cs ≡ true
    → ShapeBelow s up d cs
    → ShapeBelow s up d (extend r now d rest cs used).0
unfolding extend ShapeAt is_fresh
shape-extend r s up now d [] cs used on f h = h
shape-extend r s up now d (t ∷ rest) nil used on f h =
    (refl, refl, shape-leaf r s up now d (t ∷ rest) used on, tt)
shape-extend r s up now d (t ∷ rest) (cons k c cs) used on f h = (
  h.0,
  is_fresh-extend r k now d (t ∷ rest) cs used h.1 (ground arith),
  h.2,
  shape-extend r s up now d (t ∷ rest) cs used on (ground arith) h.3,
)

-- The walk stops inside an edge because the next token is another, or is missing.
key_differs :
    (e rest : Tokens)
    → shared e rest < length e
    → at_key (key (drop (shared e rest) e)) (drop (shared e rest) rest) ≡ false
unfolding shared
key_differs [] rest h = absurd (omega arith)
key_differs (x ∷ e) [] h = refl
key_differs (x ∷ e) (y ∷ rest) h = ground (arith, key_differs e rest)

head?-drop : (e : Tokens) (n : ℕ) → n < length e → head? (drop n e) ≡ some (key (drop n e))
head?-drop [] n h = absurd (omega arith)
head?-drop (x ∷ e) zero h = refl
head?-drop (x ∷ e) (suc n) h = head?-drop e n (omega arith)

head?-take :
    (k : ℕ) (e rest : Tokens)
    → head? e ≡ some k
    → at_key k rest ≡ true
    → head? (take (shared e rest) e) ≡ some k
unfolding shared
head?-take k [] rest h m = cc
head?-take k (x ∷ e) [] h m = cc
head?-take k (x ∷ e) (y ∷ rest) h m = ground arith

-- Residency after a mark.
marked : (r s : String) (now : ℕ) (rs : Dict ℕ) → has s rs ≡ true → has s (put r now rs) ≡ true
marked r s now rs h = ground (arith, has-put r s now rs)

marked_self :
    (r s : String) (now : ℕ) (rs : Dict ℕ) → str_eq r s ≡ true → has s (put r now rs) ≡ true
marked_self r s now rs h = ground (arith, has-put r s now rs)

is_new-nil : (rest : Tokens) → is_new rest nil ≡ true
unfolding is_fresh
is_new-nil [] = refl
is_new-nil (t ∷ rest) = refl

shape-split :
    (s : String) (up : Bool) (d : ℕ) (e : Tokens) (d' : ℕ) (cs : Children) (rs : Dict ℕ) (at : ℕ)
    → at < length e
    → ShapeAt s up d (node e d' cs rs)
    → ShapeBelow s (has s rs) (d + at) (children (split d (node e d' cs rs) at))
unfolding split ShapeAt is_fresh
shape-split s up d e d' cs rs at lt h = (
  head?-drop e at lt,
  refl,
  (refl, λ on. on, subst (λ n. ShapeBelow s (has s rs) n cs) deep h.2),
  tt,
)
  where
    deep : d' ≡ d + at + length (drop at e)
    deep = omega (arith, h.0, length-drop at e)

is_new-split :
    (d : ℕ) (n : Node) (at : ℕ) (rest : Tokens)
    → at_key (key (drop at (edge n))) rest ≡ false
    → is_new rest (children (split d n at)) ≡ true
unfolding split is_fresh
is_new-split d n at [] h = refl
is_new-split d (node e d' cs rs) at (t ∷ rest) h = ground arith

shape-cut :
    (r s : String) (up : Bool) (now d : ℕ) (rest : Tokens) (e : Tokens) (d' : ℕ) (cs : Children)
    (rs used : Dict ℕ)
    → (str_eq r s ≡ true → up ≡ true)
    → shared e rest < length e
    → ShapeAt s up d (node e d' cs rs)
    → ShapeBelow s
        (has s (put r now rs))
        (d + shared e rest)
        (extend r now
          (d + shared e rest)
          (drop (shared e rest) rest)
          (children (split d (node e d' cs rs) (shared e rest)))
          used).0
shape-cut r s up now d rest e d' cs rs used on lt h =
    let j = shared e rest in
    shape-extend r s (has s (put r now rs)) now (d + j) (drop j rest)
      (children (split d (node e d' cs rs) j)) used (marked_self r s now rs)
      (is_new-split d (node e d' cs rs) j (drop j rest) (key_differs e rest lt))
      (ShapeBelow-mono s (has s rs) (has s (put r now rs)) (d + j) _ (marked r s now rs)
        (shape-split s up d e d' cs rs j lt h))

edge-insert_at :
    (r : String) (now d : ℕ) (rest : Tokens) (n : Node) (used : Dict ℕ) (k : ℕ)
    → head? (edge n) ≡ some k
    → at_key k rest ≡ true
    → head? (edge (insert_at r now d rest n used).0) ≡ some k
unfolding insert_at
edge-insert_at r now d rest (node e d' cs rs) used k h m =
    elim (Bool-cases (ltb (shared e rest) (length e))) [
      | inl cut ↦ rw cut (head?-take k e rest h m)
      | inr full ↦ rw full h
    ]

mutual
  unfolding insert_at ShapeAt

  shape-insert_at :
      (r s : String) (up : Bool) (now d : ℕ) (rest : Tokens) (n : Node) (used : Dict ℕ)
      → (str_eq r s ≡ true → up ≡ true)
      → ShapeAt s up d n
      → ShapeAt s up d (insert_at r now d rest n used).0
  shape-insert_at r s up now d rest (node e d' cs rs) used on h =
      elim (Bool-cases (ltb (shared e rest) (length e))) [
        | inl cut ↦ rw cut (
          omega (arith, length-take (shared e rest) e, shared-le e rest),
          λ put_on. ground (arith, has-put r s now rs),
          shape-cut r s up now d rest e d' cs rs used on (ground arith) h,
        )
        | inr full ↦ rw full (
          h.0,
          λ put_on. ground (arith, has-put r s now rs),
          shape-insert_below r s (has s (put r now rs)) now d' (drop (shared e rest) rest) cs used
              (marked_self r s now rs)
              (ShapeBelow-mono s (has s rs) (has s (put r now rs)) d' cs (marked r s now rs) h.2),
        )
      ]

  pub shape-insert_below :
      (r s : String) (up : Bool) (now d : ℕ) (rest : Tokens) (cs : Children) (used : Dict ℕ)
      → (str_eq r s ≡ true → up ≡ true)
      → ShapeBelow s up d cs
      → ShapeBelow s up d (insert_below r now d rest cs used).0
  shape-insert_below r s up now d rest nil used on h =
      shape-extend r s up now d rest nil used on (is_new-nil rest) h
  shape-insert_below r s up now d rest (cons k c cs) used on h = elim (Bool-cases (at_key k rest)) [
    | inl same ↦ rw same (
      edge-insert_at r now d rest c used k h.0 same,
      h.1,
      shape-insert_at r s up now d rest c used on h.2,
      h.3,
    )
    | inr other ↦ rw other (
      h.0,
      is_fresh-insert_below r k now d rest cs used h.1 other,
      h.2,
      shape-insert_below r s up now d rest cs used on h.3,
    )
  ]
