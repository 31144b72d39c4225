-- ===== src/Radix/EvictDrop.antt =====
-- The removal of a victim in `_evict_one` of src/kv_aware_router/radix.py, and what it does to the
-- tree.
use kv_aware_router.Prelude.{
  ℕ, ◌+◌, ◌≡◌, refl, subst, Bool, true, false, List, [], ◌∷◌, ◌++◌, map, String, str_eq, eq_iff,
  arith, if◌then◌else◌, Bool-cases, inl, inr,
}
use kv_aware_router.Dict.{Dict, has, remove, has-remove}
use kv_aware_router.Radix.Node.{Tokens, Node, node, Children, nil, cons, edge, is_tail_for}
use kv_aware_router.Radix.Evict.{Ref, here, first, later, drop_at, drop_below}
use kv_aware_router.Radix.EvictScan.{TailAt, TailBelow}
use kv_aware_router.Radix.Held.{ShapeAt, ShapeBelow, is_fresh, held_at, held_below}
use kv_aware_router.Radix.Invariant.{load_at, load_below}

-- `l` without one of its entries.
pub data Loses {ℓ} {A : Type ℓ} : List A → List A → Type ℓ where
  lose : (x : A) (l : List A) → Loses (x ∷ l) l
  keep : (x : A) {l l' : List A} → Loses l l' → Loses (x ∷ l) (x ∷ l')

Loses-append_left {ℓ} :
    {A : Type ℓ} (xs : List A) {l l' : List A} → Loses l l' → Loses (xs ++ l) (xs ++ l')
Loses-append_left [] h = h
Loses-append_left (x ∷ xs) h = keep x (Loses-append_left xs h)

Loses-append_right {ℓ} :
    {A : Type ℓ} (xs : List A) {l l' : List A} → Loses l l' → Loses (l ++ xs) (l' ++ xs)
Loses-append_right xs (lose x l) = lose x (l ++ xs)
Loses-append_right xs (keep x h) = keep x (Loses-append_right xs h)

Loses-map {ℓ κ} :
    {A : Type ℓ} {B : Type κ} (f : A → B) {l l' : List A} → Loses l l' → Loses (map f l) (map f l')
Loses-map f (lose x l) = lose (f x) (map f l)
Loses-map f (keep x h) = keep (f x) (Loses-map f h)

-- A tail has no held prefix below it.
pub tail-Shape :
    (r : String) (up : Bool) (d : ℕ) (cs : Children)
    → is_tail_for r cs ≡ true
    → ShapeBelow r up d cs
    → ShapeBelow r false d cs
unfolding is_tail_for ShapeAt
tail-Shape r up d nil t h = tt
tail-Shape r up d (cons k (node e d' ds rs) cs) t h =
    (h.0, h.1, (h.2.0, λ on. ground arith, h.2.2), tail-Shape r up d cs (ground arith) h.3)

edge-drop_at : (r : String) (p : Ref) (n : Node) → edge (drop_at r p n) ≡ edge n
unfolding drop_at
edge-drop_at r here (node e d cs rs) = refl
edge-drop_at r (first p) (node e d cs rs) = refl
edge-drop_at r (later p) (node e d cs rs) = refl

is_fresh-drop_below :
    (r : String) (k : ℕ) (p : Ref) (cs : Children) → is_fresh k (drop_below r p cs) ≡ is_fresh k cs
unfolding drop_at is_fresh
is_fresh-drop_below r k here nil = refl
is_fresh-drop_below r k (first p) nil = refl
is_fresh-drop_below r k (later p) nil = refl
is_fresh-drop_below r k here (cons j c cs) = refl
is_fresh-drop_below r k (first p) (cons j c cs) = refl
is_fresh-drop_below r k (later p) (cons j c cs) = rw (is_fresh-drop_below r k p cs)

shape-drop_here :
    (r s : String) (up : Bool) (d : ℕ) (cs : Children) (rs : Dict ℕ)
    → is_tail_for r cs ≡ true
    → ShapeBelow s (has s rs) d cs
    → ShapeBelow s (has s (remove r rs)) d cs
shape-drop_here r s up d cs rs t h = elim (Bool-cases (str_eq r s)) [
  | inl same ↦
      rw (has-remove r s rs, same)
        (tail-Shape s (has s rs) d cs (subst (λ x. is_tail_for x cs ≡ true) ((eq_iff r s).0 same) t)
          h)
  | inr other ↦ rw (has-remove r s rs, other) h
]

mutual
  unfolding drop_at TailAt ShapeAt

  shape-drop_at :
      (r s : String) (up : Bool) (d : ℕ) (p : Ref) (size : ℕ) (n : Node)
      → TailAt r p size n
      → ShapeAt s up d n
      → ShapeAt s up d (drop_at r p n)
  shape-drop_at r s up d here size (node e d' cs rs) t h =
      (h.0, λ on. ground (arith, has-remove r s rs), shape-drop_here r s up d' cs rs t.1 h.2)
  shape-drop_at r s up d (first p) size (node e d' cs rs) t h =
      (h.0, h.1, shape-drop_below r s (has s rs) d' (first p) size cs t h.2)
  shape-drop_at r s up d (later p) size (node e d' cs rs) t h =
      (h.0, h.1, shape-drop_below r s (has s rs) d' (later p) size cs t h.2)

  pub shape-drop_below :
      (r s : String) (up : Bool) (d : ℕ) (p : Ref) (size : ℕ) (cs : Children)
      → TailBelow r p size cs
      → ShapeBelow s up d cs
      → ShapeBelow s up d (drop_below r p cs)
  shape-drop_below r s up d p size nil t h = absurd t
  shape-drop_below r s up d here size (cons k c cs) t h = absurd t
  shape-drop_below r s up d (first p) size (cons k c cs) t h =
      (rw (edge-drop_at r p c) h.0, h.1, shape-drop_at r s up d p size c t h.2, h.3)
  shape-drop_below r s up d (later p) size (cons k c cs) t h =
      (h.0, rw (is_fresh-drop_below r k p cs) h.1, h.2, shape-drop_below r s up d p size cs t h.3)

mutual
  unfolding drop_at TailAt load_at

  load-drop_at :
      (r s : String) (p : Ref) (size : ℕ) (n : Node)
      → TailAt r p size n
      → load_at s (drop_at r p n) + (if str_eq r s then size else 0) ≡ load_at s n
  load-drop_at r s here size (node e d' cs rs) t = ground (arith, has-remove r s rs, eq_iff r s)
  load-drop_at r s (first p) size (node e d' cs rs) t =
      omega (arith, load-drop_below r s (first p) size cs t)
  load-drop_at r s (later p) size (node e d' cs rs) t =
      omega (arith, load-drop_below r s (later p) size cs t)

  pub load-drop_below :
      (r s : String) (p : Ref) (size : ℕ) (cs : Children)
      → TailBelow r p size cs
      → load_below s (drop_below r p cs) + (if str_eq r s then size else 0) ≡ load_below s cs
  load-drop_below r s p size nil t = absurd t
  load-drop_below r s here size (cons k c cs) t = absurd t
  load-drop_below r s (first p) size (cons k c cs) t = omega (arith, load-drop_at r s p size c t)
  load-drop_below r s (later p) size (cons k c cs) t =
      omega (arith, load-drop_below r s p size cs t)

held-drop_here :
    (r : String) (e : Tokens) (d : ℕ) (cs : Children) (rs : Dict ℕ)
    → has r rs ≡ true
    → Loses (held_at r (node e d cs rs)) (held_at r (node e d cs (remove r rs)))
unfolding held_at
held-drop_here r e d cs rs on =
    let off : has r (remove r rs) ≡ false = ground (arith, has-remove r r rs, eq_iff r r) in
    rw (on, off) (lose e (map (λ p. e ++ p) (held_below r cs)))

held-below :
    (r : String) (e : Tokens) (d : ℕ) (cs cs' : Children) (rs : Dict ℕ)
    → Loses (held_below r cs) (held_below r cs')
    → Loses (held_at r (node e d cs rs)) (held_at r (node e d cs' rs))
unfolding held_at
held-below r e d cs cs' rs h = elim (Bool-cases (has r rs)) [
  | inl on ↦ rw on (keep e (Loses-map (λ p. e ++ p) h))
  | inr off ↦ rw off (Loses-map (λ p. e ++ p) h)
]

held-first :
    (r : String) (k : ℕ) (c c' : Node) (cs : Children)
    → Loses (held_at r c) (held_at r c')
    → Loses (held_below r (cons k c cs)) (held_below r (cons k c' cs))
unfolding held_at
held-first r k c c' cs h = Loses-append_right (held_below r cs) h

held-later :
    (r : String) (k : ℕ) (c : Node) (cs cs' : Children)
    → Loses (held_below r cs) (held_below r cs')
    → Loses (held_below r (cons k c cs)) (held_below r (cons k c cs'))
unfolding held_at
held-later r k c cs cs' h = Loses-append_left (held_at r c) h

mutual
  unfolding drop_at TailAt

  held-drop_at :
      (r : String) (p : Ref) (size : ℕ) (n : Node)
      → TailAt r p size n
      → Loses (held_at r n) (held_at r (drop_at r p n))
  held-drop_at r here size (node e d cs rs) t = held-drop_here r e d cs rs t.0
  held-drop_at r (first p) size (node e d cs rs) t =
      held-below r e d cs _ rs (held-drop_below r (first p) size cs t)
  held-drop_at r (later p) size (node e d cs rs) t =
      held-below r e d cs _ rs (held-drop_below r (later p) size cs t)

  pub held-drop_below :
      (r : String) (p : Ref) (size : ℕ) (cs : Children)
      → TailBelow r p size cs
      → Loses (held_below r cs) (held_below r (drop_below r p cs))
  held-drop_below r p size nil t = absurd t
  held-drop_below r here size (cons k c cs) t = absurd t
  held-drop_below r (first p) size (cons k c cs) t =
      held-first r k c _ cs (held-drop_at r p size c t)
  held-drop_below r (later p) size (cons k c cs) t =
      held-later r k c cs _ (held-drop_below r p size cs t)

-- The other replicas hold what they held.
mutual
  unfolding drop_at held_at

  held-drop_at_ne :
      (r s : String) (p : Ref) (n : Node)
      → str_eq r s ≡ false
      → held_at s (drop_at r p n) ≡ held_at s n
  held-drop_at_ne r s here (node e d cs rs) other = ground (arith, has-remove r s rs)
  held-drop_at_ne r s (first p) (node e d cs rs) other =
      rw (held-drop_below_ne r s (first p) cs other)
  held-drop_at_ne r s (later p) (node e d cs rs) other =
      rw (held-drop_below_ne r s (later p) cs other)

  pub held-drop_below_ne :
      (r s : String) (p : Ref) (cs : Children)
      → str_eq r s ≡ false
      → held_below s (drop_below r p cs) ≡ held_below s cs
  held-drop_below_ne r s p nil other = refl
  held-drop_below_ne r s here (cons k c cs) other = refl
  held-drop_below_ne r s (first p) (cons k c cs) other = rw (held-drop_at_ne r s p c other)
  held-drop_below_ne r s (later p) (cons k c cs) other = rw (held-drop_below_ne r s p cs other)
