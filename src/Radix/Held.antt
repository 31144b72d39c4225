-- ===== src/Radix/Held.antt =====
-- What the tree of src/kv_aware_router/radix.py stands for: the prefixes that each replica holds,
-- as plain lists of tokens, and how much of a query the best of them covers.
use kv_aware_router.Prelude.{
  ℕ, ◌+◌, ◌≡◌, refl, ◌∙◌, max, Bool, true, false, List, [], ◌∷◌, ◌++◌, map, String, some, arith,
  if◌then◌else◌, length, head?, Bool-cases, inl, inr, not, ◌&&◌, ◌==◌,
}
use kv_aware_router.Dict.{has}
use kv_aware_router.Radix.Node.{Tokens, Node, node, Children, nil, cons, edge, shared}
use kv_aware_router.Radix.Over.{over, shared-append, over-nothing, over-max, over_cong}

-- The token sequences, from the root, of the nodes where the replica is resident.
unfoldable mutual
  pub held_at : String → Node → List Tokens
  held_at r (node e d cs rs) =
      let below = map (λ p. e ++ p) (held_below r cs) in if has r rs then e ∷ below else below

  pub held_below : String → Children → List Tokens
  held_below r nil = []
  held_below r (cons k c cs) = held_at r c ++ held_below r cs

-- The longest prefix that a query shares with one of the texts.
unfoldable pub longest : List Tokens → Tokens → ℕ
longest [] q = 0
longest (p ∷ ps) q = max (shared p q) (longest ps q)

-- The same, computed by a walk through the tree.
unfoldable mutual
  unfolding over

  pub reach_at : String → Node → Tokens → ℕ
  reach_at r (node e d cs rs) q = if has r rs then over (reach_below r cs) e q else 0

  pub reach_below : String → Children → Tokens → ℕ
  reach_below r nil q = 0
  reach_below r (cons k c cs) q = max (reach_at r c q) (reach_below r cs q)

unfoldable pub is_fresh : ℕ → Children → Bool
is_fresh k nil = true
is_fresh k (cons j c cs) = not (j == k) && is_fresh k cs

-- The shape that the operations keep, for one replica. `up` says that it is resident above, `d` is
-- the depth above. Keys are the first tokens of the edges and distinct, depths add up, and a
-- replica that is resident at a node is resident above.
unfoldable mutual
  pub ShapeAt : String → Bool → ℕ → Node → Type 0
  ShapeAt r up d (node e d' cs rs) =
      (d' ≡ d + length e) × (has r rs ≡ true → up ≡ true) × ShapeBelow r (has r rs) d' cs

  pub ShapeBelow : String → Bool → ℕ → Children → Type 0
  ShapeBelow r up d nil = Unit
  ShapeBelow r up d (cons k c cs) =
      (head? (edge c) ≡ some k) × (is_fresh k cs ≡ true) × ShapeAt r up d c × ShapeBelow r up d cs

longest-nil : (q : Tokens) → longest [] q ≡ 0
unfolding longest
longest-nil q = refl

pub longest-append :
    (ps qs : List Tokens) (q : Tokens) → longest (ps ++ qs) q ≡ max (longest ps q) (longest qs q)
unfolding longest
longest-append [] qs q = omega arith
longest-append (p ∷ ps) qs q = omega (arith, longest-append ps qs q)

-- Texts that all begin with one edge, the edge itself among them.
pub longest-over :
    (e : Tokens) (ps : List Tokens) (q : Tokens)
    → longest (e ∷ map (λ p. e ++ p) ps) q ≡ over (longest ps) e q
unfolding longest
longest-over e [] q =
    omega (arith, over-nothing e q, over_cong (longest []) (λ _. 0) e q (λ _. refl))
longest-over e (p ∷ ps) q = omega (
  arith,
  longest-over e ps q,
  shared-append e p q,
  over-max (shared p) (longest ps) e q,
  over_cong (longest (p ∷ ps)) (λ t. max (shared p t) (longest ps t)) e q (λ _. refl),
)

-- A replica that is not resident above is resident nowhere below.
mutual
  unfolding ShapeAt held_at reach_at

  pub reach_at_absent :
      (r : String) (d : ℕ) (n : Node) (q : Tokens) → ShapeAt r false d n → reach_at r n q ≡ 0
  reach_at_absent r d (node e d' cs rs) q h = ground arith

  pub reach_below_absent :
      (r : String) (d : ℕ) (cs : Children) (q : Tokens)
      → ShapeBelow r false d cs
      → reach_below r cs q ≡ 0
  reach_below_absent r d nil q h = refl
  reach_below_absent r d (cons k c cs) q h =
      omega (arith, reach_at_absent r d c q h.2, reach_below_absent r d cs q h.3)

mutual
  unfolding ShapeAt held_at

  pub held_at_absent : (r : String) (d : ℕ) (n : Node) → ShapeAt r false d n → held_at r n ≡ []
  held_at_absent r d (node e d' cs rs) h = elim (Bool-cases (has r rs)) [
    | inl e ↦ cc (h.1 e)
    | inr e ↦ rw (e, held_below_absent r d' cs (rw e at h.2))
  ]

  pub held_below_absent :
      (r : String) (d : ℕ) (cs : Children) → ShapeBelow r false d cs → held_below r cs ≡ []
  held_below_absent r d nil h = refl
  held_below_absent r d (cons k c cs) h =
      rw (held_at_absent r d c h.2, held_below_absent r d cs h.3)

-- On a tree of the right shape the walk finds the longest shared prefix.
mutual
  unfolding ShapeAt held_at reach_at

  pub longest-held_at :
      (r : String) (up : Bool) (d : ℕ) (n : Node) (q : Tokens)
      → ShapeAt r up d n
      → longest (held_at r n) q ≡ reach_at r n q
  longest-held_at r up d (node e d' cs rs) q h = elim (Bool-cases (has r rs)) [
    | inl on ↦ rw on (
        longest-over e (held_below r cs) q
        ∙ over_cong _ _ e q (λ p. longest-held_below r (has r rs) d' cs p h.2))
    | inr off ↦ rw (off, held_below_absent r d' cs (rw off at h.2)) (longest-nil q)
  ]

  pub longest-held_below :
      (r : String) (up : Bool) (d : ℕ) (cs : Children) (q : Tokens)
      → ShapeBelow r up d cs
      → longest (held_below r cs) q ≡ reach_below r cs q
  longest-held_below r up d nil q h = longest-nil q
  longest-held_below r up d (cons k c cs) q h = omega (
    arith,
    longest-append (held_at r c) (held_below r cs) q,
    longest-held_at r up d c q h.2,
    longest-held_below r up d cs q h.3,
  )
