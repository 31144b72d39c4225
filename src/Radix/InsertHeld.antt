-- ===== src/Radix/InsertHeld.antt =====
-- `insert` of src/kv_aware_router/radix.py, against the prefixes that are held.
use kv_aware_router.Prelude.{
  ℕ, ◌+◌, ◌≡◌, refl, ap, ◌∙◌, sym, max, Bool, true, false, List, [], ◌∷◌, String, str_eq, arith,
  ltb, if◌then◌else◌, length, take, drop, Bool-cases, inl, inr,
}
use kv_aware_router.Dict.{Dict, has, put, has-put}
use kv_aware_router.Radix.Node.{
  Tokens, Node, node, Children, nil, cons, residents, shared, children,
}
use kv_aware_router.Radix.Insert.{mark, leaf, extend, split, insert_at, insert_below}
use kv_aware_router.Radix.Over.{
  over, over_cong, over-max, over-nothing, over-cut, shared-over, shared-le,
}
use kv_aware_router.Radix.Held.{ShapeAt, ShapeBelow, reach_at, reach_below, reach_below_absent}

-- What one replica gains from an insertion for the replica `r`.
abbrev pub gain : String → String → Tokens → Tokens → ℕ
gain r s rest q = if str_eq r s then shared rest q else 0

reach-leaf :
    (r s : String) (now d : ℕ) (rest : Tokens) (used : Dict ℕ) (q : Tokens)
    → reach_at s (leaf r now d rest used).0 q ≡ gain r s rest q
unfolding leaf reach_at has put
reach-leaf r s now d rest used q =
    ground (arith, over_cong (reach_below s nil) (λ _. 0) rest q (λ _. refl), over-nothing rest q)

reach-extend :
    (r s : String) (now d : ℕ) (rest : Tokens) (cs : Children) (used : Dict ℕ) (q : Tokens)
    → reach_below s (extend r now d rest cs used).0 q ≡ max (reach_below s cs q) (gain r s rest q)
unfolding extend reach_at
reach-extend r s now d [] cs used q = unfold shared in ground arith
reach-extend r s now d (t ∷ rest) nil used q =
    ground (arith, reach-leaf r s now d (t ∷ rest) used q)
reach-extend r s now d (t ∷ rest) (cons k c cs) used q =
    ground (arith, reach-extend r s now d (t ∷ rest) cs used q)

-- The walk has agreed with the front `take j e` of an edge, and below that front stands what was
-- there, `f`, and the rest of the tokens.
over-gain :
    (on : Bool) (f : Tokens → ℕ) (e rest q : Tokens)
    → (on ≡ false → (p : Tokens) → f p ≡ 0)
    → over (λ p. max (f p) (shared (drop (shared e rest) rest) p)) (take (shared e rest) e) q
      ≡ max (if on then over f (take (shared e rest) e) q else 0) (shared rest q)
over-gain true f e rest q h =
    over-max f (shared (drop (shared e rest) rest)) (take (shared e rest) e) q
    ∙ ap (max (over f (take (shared e rest) e) q)) (sym (shared-over e rest q))
over-gain false f e rest q h =
    over_cong (λ p. max (f p) (shared (drop (shared e rest) rest) p))
      (shared (drop (shared e rest) rest)) (take (shared e rest) e) q (λ p. omega (arith, h refl p))
    ∙ (sym (shared-over e rest q) ∙ omega arith)

take-length {ℓ} : {A : Type ℓ} (xs : List A) → take (length xs) xs ≡ xs
take-length [] = refl
take-length (x ∷ xs) = ap (◌∷◌ x) (take-length xs)

-- A node that has been marked, over children that have gained the rest.
reach-marked :
    (r s : String) (now d : ℕ) (e rest : Tokens) (cs cs' : Children) (rs used : Dict ℕ) (q : Tokens)
    → ((p : Tokens)
        → reach_below s cs' p ≡ max (reach_below s cs p) (gain r s (drop (shared e rest) rest) p))
    → (has s rs ≡ false → (p : Tokens) → reach_below s cs p ≡ 0)
    → reach_at s (mark r now (node (take (shared e rest) e) d cs' rs) used).0 q
      ≡ max
          (if has s rs then over (reach_below s cs) (take (shared e rest) e) q else 0)
          (gain r s rest q)
unfolding mark reach_at
reach-marked r s now d e rest cs cs' rs used q gained absent =
    let front = take (shared e rest) e in
    elim (Bool-cases (str_eq r s)) [
      | inl same ↦ ground (
        arith,
        has-put r s now rs,
        over_cong (reach_below s cs')
            (λ p. max (reach_below s cs p) (shared (drop (shared e rest) rest) p)) front q
            (λ p. rw same at (gained p)),
        over-gain (has s rs) (reach_below s cs) e rest q absent,
      )
      | inr other ↦ ground (
        arith,
        has-put r s now rs,
        over_cong (reach_below s cs') (reach_below s cs) front q
            (λ p. rw other at (gained p) ∙ omega arith),
      )
    ]

-- A split changes nothing that a replica holds.
reach-split :
    (s : String) (d : ℕ) (e : Tokens) (d' : ℕ) (cs : Children) (rs : Dict ℕ) (at : ℕ) (q : Tokens)
    → has s rs ≡ true
    → over (reach_below s (children (split d (node e d' cs rs) at))) (take at e) q
      ≡ over (reach_below s cs) e q
unfolding split reach_at
reach-split s d e d' cs rs at q on =
    over_cong (reach_below s (children (split d (node e d' cs rs) at)))
      (over (reach_below s cs) (drop at e)) (take at e) q (λ p. rw on (omega arith))
    ∙ over-cut (reach_below s cs) at e q

reach-split_absent :
    (s : String) (d : ℕ) (n : Node) (at : ℕ) (q : Tokens)
    → has s (residents n) ≡ false
    → reach_below s (children (split d n at)) q ≡ 0
unfolding split reach_at
reach-split_absent s d (node e d' cs rs) at q off = ground arith

take_full : (e rest : Tokens) → ltb (shared e rest) (length e) ≡ false → take (shared e rest) e ≡ e
take_full e rest full =
    let same : shared e rest ≡ length e = ground (arith, shared-le e rest) in
    rw same (take-length e)

absent_below :
    (s : String) (d : ℕ) (cs : Children) (rs : Dict ℕ)
    → ShapeBelow s (has s rs) d cs
    → has s rs ≡ false
    → (p : Tokens) → reach_below s cs p ≡ 0
absent_below s d cs rs h off p = reach_below_absent s d cs p (rw off at h)

mutual
  unfolding insert_at ShapeAt reach_at

  -- A replica's longest shared prefix, after an insertion: the tokens inserted count for `r`.
  reach-insert_at :
      (r s : String) (now : ℕ) (up : Bool) (d : ℕ) (rest : Tokens) (n : Node) (used : Dict ℕ)
      (q : Tokens)
      → ShapeAt s up d n
      → reach_at s (insert_at r now d rest n used).0 q ≡ max (reach_at s n q) (gain r s rest q)
  reach-insert_at r s now up d rest (node e d' cs rs) used q h =
      elim (Bool-cases (ltb (shared e rest) (length e))) [
        | inl cut ↦ rw cut (
            let below = children (split d (node e d' cs rs) (shared e rest)) in
            let new = extend r now (d + shared e rest) (drop (shared e rest) rest) below used in
            ground (
              arith,
              reach-marked r s now (d + shared e rest) e rest below new.0 rs new.1 q
                  (reach-extend r s now (d + shared e rest) (drop (shared e rest) rest) below used)
                  (λ off p. reach-split_absent s d (node e d' cs rs) (shared e rest) p off),
              reach-split s d e d' cs rs (shared e rest) q,
            ))
        | inr full ↦ rw full (
            let new = insert_below r now d' (drop (shared e rest) rest) cs used in
            ground (
              arith,
              reach-marked r s now d' e rest cs new.0 rs new.1 q
                  (λ p.
                    reach-insert_below r s now (has s rs) d' (drop (shared e rest) rest) cs used p
                      h.2)
                  (absent_below s d' cs rs h.2),
              take_full e rest full,
            ))
      ]

  pub reach-insert_below :
      (r s : String) (now : ℕ) (up : Bool) (d : ℕ) (rest : Tokens) (cs : Children) (used : Dict ℕ)
      (q : Tokens)
      → ShapeBelow s up d cs
      → reach_below s (insert_below r now d rest cs used).0 q
        ≡ max (reach_below s cs q) (gain r s rest q)
  reach-insert_below r s now up d rest nil used q h = reach-extend r s now d rest nil used q
  reach-insert_below r s now up d rest (cons k c cs) used q h = ground (
    arith,
    reach-insert_at r s now up d rest c used q h.2,
    reach-insert_below r s now up d rest cs used q h.3,
  )
