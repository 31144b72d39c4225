-- ===== src/Radix/EvictScan.antt =====
-- The scan of `_evict_one` in src/kv_aware_router/radix.py for the nodes that may be evicted.
use kv_aware_router.Prelude.{
  ℕ, ◌≤◌, ◌≡◌, ◌≢◌, ◌⊎◌, refl, subst, true, false, ◌&&◌, List, [], ◌∷◌, ◌++◌, map, some, String,
  arith, ltb, length, Bool-cases, inl, inr, All, All-append, All-map,
}
use kv_aware_router.Dict.{has}
use kv_aware_router.Radix.Node.{Node, node, Children, nil, cons, children, residents, is_tail_for}
use kv_aware_router.Radix.Evict.{
  Ref, here, first, later, Candidate, under, candidate, scan_at, scan_below, oldest_of,
}

-- The reference leads to a node where the replica is resident and at no child, with an edge of
-- the given length.
unfoldable mutual
  pub TailAt : String → Ref → ℕ → Node → Type 0
  TailAt r here size (node e d cs rs) =
      (has r rs ≡ true) × (is_tail_for r cs ≡ true) × (size ≡ length e)
  TailAt r (first p) size (node e d cs rs) = TailBelow r (first p) size cs
  TailAt r (later p) size (node e d cs rs) = TailBelow r (later p) size cs

  pub TailBelow : String → Ref → ℕ → Children → Type 0
  TailBelow r p size nil = ⊥
  TailBelow r here size (cons k c cs) = ⊥
  TailBelow r (first p) size (cons k c cs) = TailAt r p size c
  TailBelow r (later p) size (cons k c cs) = TailBelow r p size cs

TailAt-of_below :
    (r : String) (p : Ref) (size : ℕ) (n : Node)
    → TailBelow r p size (children n)
    → TailAt r p size n
unfolding TailAt
TailAt-of_below r here size (node e d nil rs) h = absurd h
TailAt-of_below r here size (node e d (cons k c cs) rs) h = absurd h
TailAt-of_below r (first p) size (node e d cs rs) h = h
TailAt-of_below r (later p) size (node e d cs rs) h = h

candidate-Tail : (r : String) (n : Node) → All (λ c. TailAt r c.ref c.size n) (candidate r n)
unfolding candidate TailAt
candidate-Tail r (node e d cs rs) = elim (Bool-cases (has r rs && is_tail_for r cs)) [
  | inl on ↦ rw on ((ground arith, ground arith, refl), tt)
  | inr off ↦ rw off tt
]

All-weaken {ℓ κ} :
    {A : Type ℓ} (P Q : A → Type κ) (xs : List A) → ((a : A) → P a → Q a) → All P xs → All Q xs
All-weaken P Q [] f h = tt
All-weaken P Q (x ∷ xs) f h = (f x h.0, All-weaken P Q xs f h.1)

-- Every node that the scan passes to the test may be evicted.
mutual
  unfolding scan_at TailAt

  scan_at-Tail : (r : String) (n : Node) → All (λ c. TailAt r c.ref c.size n) (scan_at r n)
  scan_at-Tail r (node e d cs rs) =
      All-append (λ c. TailAt r c.ref c.size (node e d cs rs)) (candidate r (node e d cs rs))
        (scan_below r cs) (candidate-Tail r (node e d cs rs))
        (All-weaken (λ c. TailBelow r c.ref c.size cs) (λ c. TailAt r c.ref c.size (node e d cs rs))
          (scan_below r cs) (λ c. TailAt-of_below r c.ref c.size (node e d cs rs))
          (scan_below-Tail r cs))

  pub scan_below-Tail :
      (r : String) (cs : Children) → All (λ c. TailBelow r c.ref c.size cs) (scan_below r cs)
  scan_below-Tail r nil = tt
  scan_below-Tail r (cons k c cs) =
      All-append (λ v. TailBelow r v.ref v.size (cons k c cs))
        (map (under Ref.later) (scan_below r cs)) (map (under Ref.first) (scan_at r c))
        (All-map (λ v. TailBelow r v.ref v.size (cons k c cs)) (λ v. TailBelow r v.ref v.size cs)
          (under Ref.later) (scan_below r cs) (λ v h. h) (scan_below-Tail r cs))
        (All-map (λ v. TailBelow r v.ref v.size (cons k c cs)) (λ v. TailAt r v.ref v.size c)
          (under Ref.first) (scan_at r c) (λ v h. h) (scan_at-Tail r c))

append_ne-nil {ℓ} : {A : Type ℓ} (xs ys : List A) → (xs ≢ []) ⊎ (ys ≢ []) → xs ++ ys ≢ []
append_ne-nil [] ys (inl h) = λ e. h refl
append_ne-nil [] ys (inr h) = h
append_ne-nil (x ∷ xs) ys h = λ e. cc

map_ne-nil {ℓ κ} : {A : Type ℓ} {B : Type κ} (f : A → B) (xs : List A) → xs ≢ [] → map f xs ≢ []
map_ne-nil f [] h = λ e. h refl
map_ne-nil f (x ∷ xs) h = λ e. cc

-- Where the replica is resident there is a tail to evict.
mutual
  unfolding scan_at is_tail_for

  scan_at_ne-nil : (r : String) (n : Node) → has r (residents n) ≡ true → scan_at r n ≢ []
  scan_at_ne-nil r (node e d cs rs) on =
      append_ne-nil (candidate r (node e d cs rs)) (scan_below r cs)
        (elim (Bool-cases (is_tail_for r cs)) [
          | inl tail ↦ inl (rw on (rw tail (λ e. cc)))
          | inr more ↦ inr (scan_below_ne-nil r cs more)
        ])

  pub scan_below_ne-nil :
      (r : String) (cs : Children) → is_tail_for r cs ≡ false → scan_below r cs ≢ []
  scan_below_ne-nil r nil h = cc
  scan_below_ne-nil r (cons k c cs) h =
      append_ne-nil (map (under Ref.later) (scan_below r cs)) (map (under Ref.first) (scan_at r c))
        (elim (Bool-cases (has r (residents c))) [
          | inl on ↦ inr (map_ne-nil (under Ref.first) (scan_at r c) (scan_at_ne-nil r c on))
          | inr off ↦ inl (
              map_ne-nil (under Ref.later) (scan_below r cs) (scan_below_ne-nil r cs (rw off at h)))
        ])

-- The choice is one of the nodes scanned, and none of them is older.
pub oldest_of-among {κ} :
    (P : Candidate → Type κ) (l : List Candidate) (v c : Candidate)
    → P v
    → All P l
    → oldest_of (some v) l ≡ some c
    → P c
unfolding oldest_of
oldest_of-among P [] v c pv pl h = let e : v ≡ c = cc in subst P e pv
oldest_of-among P (x ∷ l) v c pv pl h = elim (Bool-cases (ltb x.stamp v.stamp)) [
  | inl younger ↦ oldest_of-among P l x c pl.0 pl.1 (rw younger at h)
  | inr older ↦ oldest_of-among P l v c pv pl.1 (rw older at h)
]

pub oldest_of-first :
    (l : List Candidate) (v c : Candidate) → oldest_of (some v) l ≡ some c → c.stamp ≤ v.stamp
unfolding oldest_of
oldest_of-first [] v c h = ground arith
oldest_of-first (x ∷ l) v c h = elim (Bool-cases (ltb x.stamp v.stamp)) [
  | inl younger ↦ ground (arith, oldest_of-first l x c (rw younger at h))
  | inr older ↦ oldest_of-first l v c (rw older at h)
]

pub oldest_of-least :
    (l : List Candidate) (v c : Candidate)
    → oldest_of (some v) l ≡ some c
    → All (λ x. c.stamp ≤ x.stamp) l
unfolding oldest_of
oldest_of-least [] v c h = tt
oldest_of-least (x ∷ l) v c h = elim (Bool-cases (ltb x.stamp v.stamp)) [
  | inl younger ↦ (oldest_of-first l x c (rw younger at h), oldest_of-least l x c (rw younger at h))
  | inr older ↦
      (ground (arith, oldest_of-first l v c (rw older at h)), oldest_of-least l v c (rw older at h))
]

pub oldest_of-some :
    (l : List Candidate) (v : Candidate) → (c : Candidate) × (oldest_of (some v) l ≡ some c)
unfolding oldest_of
oldest_of-some [] v = (v, refl)
oldest_of-some (x ∷ l) v = elim (Bool-cases (ltb x.stamp v.stamp)) [
  | inl younger ↦ rw younger (oldest_of-some l x)
  | inr older ↦ rw older (oldest_of-some l v)
]
