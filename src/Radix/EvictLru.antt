-- ===== src/Radix/EvictLru.antt =====
-- The victim of `_evict_one` in src/kv_aware_router/radix.py among all the nodes that may be
-- evicted.
use kv_aware_router.Prelude.{ℕ, ◌≡◌, refl, ap, List, [], ◌∷◌, ◌++◌, map, String}
use kv_aware_router.Dict.{get_or}
use kv_aware_router.Radix.Node.{Node, node, Children, nil, cons}
use kv_aware_router.Radix.Evict.{
  Ref, here, first, later, Candidate, under, candidate, scan_at, scan_below,
}
use kv_aware_router.Radix.EvictScan.{TailAt, TailBelow}

-- The time stamp at the node that a reference leads to.
unfoldable mutual
  pub stamp_at : String → Ref → Node → ℕ
  stamp_at r here (node e d cs rs) = get_or r 0 rs
  stamp_at r (first p) (node e d cs rs) = stamp_below r (first p) cs
  stamp_at r (later p) (node e d cs rs) = stamp_below r (later p) cs

  pub stamp_below : String → Ref → Children → ℕ
  stamp_below r p nil = 0
  stamp_below r here (cons k c cs) = 0
  stamp_below r (first p) (cons k c cs) = stamp_at r p c
  stamp_below r (later p) (cons k c cs) = stamp_below r p cs

-- A candidate with the reference and the stamp is in the list.
data Among (p : Ref) (stamp : ℕ) : List Candidate → Type 0 where
  hit : (c : Candidate) (l : List Candidate) → c.ref ≡ p → c.stamp ≡ stamp → Among p stamp (c ∷ l)
  skip : (c : Candidate) {l : List Candidate} → Among p stamp l → Among p stamp (c ∷ l)

Among-append_left :
    {p : Ref} {stamp : ℕ} {l : List Candidate} (l' : List Candidate)
    → Among p stamp l
    → Among p stamp (l ++ l')
Among-append_left l' (hit c l e f) = hit c (l ++ l') e f
Among-append_left l' (skip c a) = skip c (Among-append_left l' a)

Among-append_right :
    {p : Ref} {stamp : ℕ} (l : List Candidate) {l' : List Candidate}
    → Among p stamp l'
    → Among p stamp (l ++ l')
Among-append_right [] a = a
Among-append_right (c ∷ l) a = skip c (Among-append_right l a)

Among-under :
    {p : Ref} {stamp : ℕ} {l : List Candidate} (f : Ref → Ref)
    → Among p stamp l
    → Among (f p) stamp (map (under f) l)
Among-under f (hit c l e g) = hit (under f c) (map (under f) l) (ap f e) g
Among-under f (skip c a) = skip (under f c) (Among-under f a)

candidate_here :
    (r : String) (n : Node) (size : ℕ)
    → TailAt r here size n
    → Among here (stamp_at r here n) (candidate r n)
unfolding TailAt candidate stamp_at
candidate_here r (node e d cs rs) size t = rw (t.0, t.1) (hit _ [] refl refl)

mutual
  unfolding TailAt scan_at stamp_at

  scan_at_complete :
      (r : String) (p : Ref) (size : ℕ) (n : Node)
      → TailAt r p size n
      → Among p (stamp_at r p n) (scan_at r n)
  scan_at_complete r here size (node e d cs rs) t =
      Among-append_left (scan_below r cs) (candidate_here r (node e d cs rs) size t)
  scan_at_complete r (first p) size (node e d cs rs) t =
      Among-append_right (candidate r (node e d cs rs)) (scan_below_complete r (first p) size cs t)
  scan_at_complete r (later p) size (node e d cs rs) t =
      Among-append_right (candidate r (node e d cs rs)) (scan_below_complete r (later p) size cs t)

  scan_below_complete :
      (r : String) (p : Ref) (size : ℕ) (cs : Children)
      → TailBelow r p size cs
      → Among p (stamp_below r p cs) (scan_below r cs)
  scan_below_complete r p size nil t = absurd t
  scan_below_complete r here size (cons k c cs) t = absurd t
  scan_below_complete r (first p) size (cons k c cs) t =
      Among-append_right (map (under Ref.later) (scan_below r cs))
        (Among-under Ref.first (scan_at_complete r p size c t))
  scan_below_complete r (later p) size (cons k c cs) t =
      Among-append_left (map (under Ref.first) (scan_at r c))
        (Among-under Ref.later (scan_below_complete r p size cs t))
