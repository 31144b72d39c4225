-- ===== src/Radix/TouchHeld.antt =====
-- `touch` and `remove_replica` of src/kv_aware_router/radix.py, against the prefixes that are
-- held.
use kv_aware_router.Prelude.{
  ℕ, ◌≡◌, refl, Bool, true, false, List, [], String, str_eq, eq_iff, arith, leb, if◌then◌else◌,
  length, drop, Bool-cases, inl, inr,
}
use kv_aware_router.Dict.{Dict, has, remove, has-put, has-remove}
use kv_aware_router.Radix.Node.{Tokens, Node, node, Children, nil, cons, edge, at_key, shared}
use kv_aware_router.Radix.Touch.{refresh, touch_at, touch_below, forget_at, forget_below}
use kv_aware_router.Radix.Held.{ShapeAt, ShapeBelow, is_fresh, held_at, held_below}
use kv_aware_router.Radix.Invariant.{load_at, load_below}

has-refresh : (r s : String) (now : ℕ) (rs : Dict ℕ) → has s (refresh r now rs) ≡ has s rs
unfolding refresh
has-refresh r s now rs = ground (arith, has-put r s now rs, eq_iff r s)

-- The children after a touch, in the three cases of the walk.
touch_below-cases {κ} :
    (P : Children → Type κ) (r : String) (now : ℕ) (rest : Tokens) (k : ℕ) (c : Node)
    (cs : Children)
    → P (cons k (touch_at r now rest c) cs)
    → P (cons k c cs)
    → P (cons k c (touch_below r now rest cs))
    → P (touch_below r now rest (cons k c cs))
unfolding touch_at
touch_below-cases P r now rest k c cs through stop other = elim (Bool-cases (at_key k rest)) [
  | inl same ↦ rw same (elim (Bool-cases (leb (length (edge c)) (shared (edge c) rest))) [
    | inl whole ↦ rw whole through
    | inr part ↦ rw part stop
  ])
  | inr differs ↦ rw differs other
]

mutual
  unfolding touch_at held_at

  held-touch_at :
      (r s : String) (now : ℕ) (rest : Tokens) (n : Node)
      → held_at s (touch_at r now rest n) ≡ held_at s n
  held-touch_at r s now rest (node e d cs rs) =
      rw (has-refresh r s now rs, held-touch_below r s now (drop (length e) rest) cs)

  pub held-touch_below :
      (r s : String) (now : ℕ) (rest : Tokens) (cs : Children)
      → held_below s (touch_below r now rest cs) ≡ held_below s cs
  held-touch_below r s now rest nil = refl
  held-touch_below r s now rest (cons k c cs) =
      touch_below-cases (λ ds. held_below s ds ≡ held_below s (cons k c cs)) r now rest k c cs
        (rw (held-touch_at r s now rest c)) refl (rw (held-touch_below r s now rest cs))

mutual
  unfolding touch_at load_at

  load-touch_at :
      (r s : String) (now : ℕ) (rest : Tokens) (n : Node)
      → load_at s (touch_at r now rest n) ≡ load_at s n
  load-touch_at r s now rest (node e d cs rs) =
      rw (has-refresh r s now rs, load-touch_below r s now (drop (length e) rest) cs)

  pub load-touch_below :
      (r s : String) (now : ℕ) (rest : Tokens) (cs : Children)
      → load_below s (touch_below r now rest cs) ≡ load_below s cs
  load-touch_below r s now rest nil = refl
  load-touch_below r s now rest (cons k c cs) =
      touch_below-cases (λ ds. load_below s ds ≡ load_below s (cons k c cs)) r now rest k c cs
        (rw (load-touch_at r s now rest c)) refl (rw (load-touch_below r s now rest cs))

edge-touch_at :
    (r : String) (now : ℕ) (rest : Tokens) (n : Node) → edge (touch_at r now rest n) ≡ edge n
unfolding touch_at
edge-touch_at r now rest (node e d cs rs) = refl

is_fresh-touch_below :
    (r : String) (k now : ℕ) (rest : Tokens) (cs : Children)
    → is_fresh k (touch_below r now rest cs) ≡ is_fresh k cs
unfolding touch_at is_fresh
is_fresh-touch_below r k now rest nil = refl
is_fresh-touch_below r k now rest (cons j c cs) =
    touch_below-cases (λ ds. is_fresh k ds ≡ is_fresh k (cons j c cs)) r now rest j c cs refl refl
      (rw (is_fresh-touch_below r k now rest cs))

mutual
  unfolding touch_at ShapeAt

  shape-touch_at :
      (r s : String) (up : Bool) (d now : ℕ) (rest : Tokens) (n : Node)
      → ShapeAt s up d n
      → ShapeAt s up d (touch_at r now rest n)
  shape-touch_at r s up d now rest (node e d' cs rs) h = (
    h.0,
    λ on. h.1 (rw has-refresh at on),
    rw has-refresh (shape-touch_below r s (has s rs) d' now (drop (length e) rest) cs h.2),
  )

  pub shape-touch_below :
      (r s : String) (up : Bool) (d now : ℕ) (rest : Tokens) (cs : Children)
      → ShapeBelow s up d cs
      → ShapeBelow s up d (touch_below r now rest cs)
  shape-touch_below r s up d now rest nil h = tt
  shape-touch_below r s up d now rest (cons k c cs) h =
      touch_below-cases (ShapeBelow s up d) r now rest k c cs
        (rw (edge-touch_at r now rest c) h.0, h.1, shape-touch_at r s up d now rest c h.2, h.3) h
        (
          h.0,
          rw (is_fresh-touch_below r k now rest cs) h.1,
          h.2,
          shape-touch_below r s up d now rest cs h.3,
        )

-- What is left of a list of texts, or nothing.
abbrev pub unless {ℓ} : {A : Type ℓ} → Bool → List A → List A
unless gone l = if gone then [] else l

mutual
  unfolding forget_at held_at

  held-forget_at :
      (r s : String) (n : Node) → held_at s (forget_at r n) ≡ unless (str_eq r s) (held_at s n)
  held-forget_at r s (node e d cs rs) = ground (arith, held-forget_below r s cs, has-remove r s rs)

  pub held-forget_below :
      (r s : String) (cs : Children)
      → held_below s (forget_below r cs) ≡ unless (str_eq r s) (held_below s cs)
  held-forget_below r s nil = ground arith
  held-forget_below r s (cons k c cs) =
      ground (arith, held-forget_at r s c, held-forget_below r s cs)

mutual
  unfolding forget_at load_at

  load-forget_at :
      (r s : String) (n : Node)
      → load_at s (forget_at r n) ≡ (if str_eq r s then 0 else load_at s n)
  load-forget_at r s (node e d cs rs) = ground (arith, load-forget_below r s cs, has-remove r s rs)

  pub load-forget_below :
      (r s : String) (cs : Children)
      → load_below s (forget_below r cs) ≡ (if str_eq r s then 0 else load_below s cs)
  load-forget_below r s nil = ground arith
  load-forget_below r s (cons k c cs) =
      ground (arith, load-forget_at r s c, load-forget_below r s cs)

edge-forget_at : (r : String) (n : Node) → edge (forget_at r n) ≡ edge n
unfolding forget_at
edge-forget_at r (node e d cs rs) = refl

is_fresh-forget_below :
    (r : String) (k : ℕ) (cs : Children) → is_fresh k (forget_below r cs) ≡ is_fresh k cs
unfolding forget_at is_fresh
is_fresh-forget_below r k nil = refl
is_fresh-forget_below r k (cons j c cs) = rw (is_fresh-forget_below r k cs)

mutual
  unfolding forget_at ShapeAt

  shape-forget_at :
      (r s : String) (up up' : Bool) (d : ℕ) (n : Node)
      → (str_eq r s ≡ false → up ≡ true → up' ≡ true)
      → ShapeAt s up d n
      → ShapeAt s up' d (forget_at r n)
  shape-forget_at r s up up' d (node e d' cs rs) m h = (
    h.0,
    λ on. ground (arith, has-remove r s rs),
    shape-forget_below r s (has s rs) (has s (remove r rs)) d' cs
        (λ other on. ground (arith, has-remove r s rs)) h.2,
  )

  pub shape-forget_below :
      (r s : String) (up up' : Bool) (d : ℕ) (cs : Children)
      → (str_eq r s ≡ false → up ≡ true → up' ≡ true)
      → ShapeBelow s up d cs
      → ShapeBelow s up' d (forget_below r cs)
  shape-forget_below r s up up' d nil m h = tt
  shape-forget_below r s up up' d (cons k c cs) m h = (
    rw (edge-forget_at r c) h.0,
    rw (is_fresh-forget_below r k cs) h.1,
    shape-forget_at r s up up' d c m h.2,
    shape-forget_below r s up up' d cs m h.3,
  )
