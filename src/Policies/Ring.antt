-- ===== src/Policies/Ring.antt =====
-- The ring of `ConsistentHash` in src/kv_aware_router/policies.py when a replica leaves.
use kv_aware_router.Prelude.{
  ℕ, ◌≡◌, ◌∙◌, refl, sym, Bool, true, false, List, [], ◌∷◌, ◌++◌, none, some, String, if◌then◌else◌,
  str_eq, eq_iff, arith, inl, inr, ◌≢◌, Option-cases,
}
use kv_aware_router.Policies.Tiebreak.{before_not_trans, before_asym}
use kv_aware_router.Policies.Hashing.{
  Point, Ring, point_before, place, sort, at_or_after, first_owner, owner,
}

-- The ring without the points of a replica.
unfoldable pub without : String → Ring → Ring
without r [] = []
without r ((n, s) ∷ ring) = if str_eq s r then without r ring else (n, s) ∷ without r ring

-- A list of names without one of them.
unfoldable pub drop_name : String → List String → List String
drop_name r [] = []
drop_name r (s ∷ rs) = if str_eq s r then drop_name r rs else s ∷ drop_name r rs

-- No point of the ring comes before `x`.
unfoldable none_before : Point → Ring → Bool
none_before x [] = true
none_before x (y ∷ ring) = if point_before y x then false else none_before x ring

unfoldable is_sorted : Ring → Bool
unfolding none_before
is_sorted [] = true
is_sorted (x ∷ ring) = if none_before x ring then is_sorted ring else false

place_least : (x : Point) (ring : Ring) → none_before x ring ≡ true → place x ring ≡ x ∷ ring
unfolding place none_before
place_least x [] h = refl
place_least x (y ∷ ring) h = ground (arith, h)

none_before-without :
    (r : String) (x : Point) (ring : Ring)
    → none_before x ring ≡ true
    → none_before x (without r ring) ≡ true
unfolding without none_before
none_before-without r x [] h = refl
none_before-without r x ((n, s) ∷ ring) h = ground (arith, h, none_before-without r x ring)

none_before_mono :
    (x y : Point) (ring : Ring)
    → point_before y x ≡ false
    → none_before y ring ≡ true
    → none_before x ring ≡ true
unfolding none_before
none_before_mono x y [] p h = refl
none_before_mono (m, r) (n, s) ((k, t) ∷ ring) p h =
    ground (arith, before_not_trans k n m t s r, none_before_mono (m, r) (n, s) ring p)

none_before-place :
    (x y : Point) (ring : Ring)
    → point_before y x ≡ false
    → none_before x ring ≡ true
    → none_before x (place y ring) ≡ true
unfolding none_before place
none_before-place x y [] p h = ground (arith, p)
none_before-place x y (z ∷ ring) p h = ground (arith, p, h, none_before-place x y ring p)

is_sorted-place :
    (x : Point) (ring : Ring) → is_sorted ring ≡ true → is_sorted (place x ring) ≡ true
unfolding is_sorted place none_before
is_sorted-place x [] h = refl
is_sorted-place (m, r) ((n, s) ∷ ring) h = ground (
  arith,
  h,
  before_asym n m s r,
  is_sorted-place (m, r) ring,
  none_before-place (n, s) (m, r) ring,
  none_before_mono (m, r) (n, s) ring,
)

is_sorted-sort : (ring : Ring) → is_sorted (sort ring) ≡ true
unfolding sort is_sorted
is_sorted-sort [] = refl
is_sorted-sort (x ∷ ring) = is_sorted-place x (sort ring) (is_sorted-sort ring)

without-place :
    (r s : String) (n : ℕ) (ring : Ring)
    → is_sorted ring ≡ true
    → without r (place (n, s) ring)
      ≡ (if str_eq s r then without r ring else place (n, s) (without r ring))
unfolding without place is_sorted
without-place r s n [] h = refl
without-place r s n ((k, t) ∷ ring) h = ground (
  arith,
  h,
  eq_iff s r,
  eq_iff t r,
  without-place r s n ring,
  none_before_mono (n, s) (k, t) ring,
  none_before-without r (n, s) ring,
  place_least (n, s) (without r ring),
)

pub without-sort : (r : String) (ring : Ring) → without r (sort ring) ≡ sort (without r ring)
unfolding sort without
without-sort r [] = refl
without-sort r ((n, s) ∷ ring) =
    without-place r s n (sort ring) (is_sorted-sort ring) ∙ ground (arith, without-sort r ring)

pub without-append :
    (r : String) (xs ys : Ring) → without r (xs ++ ys) ≡ without r xs ++ without r ys
unfolding without
without-append r [] ys = refl
without-append r ((n, s) ∷ xs) ys = ground (arith, without-append r xs ys)

at_or_after-without :
    (r c : String) (h : ℕ) (ring : Ring)
    → c ≢ r
    → at_or_after h ring ≡ some c
    → at_or_after h (without r ring) ≡ some c
unfolding at_or_after without
at_or_after-without r c h [] ne e = e
at_or_after-without r c h ((n, s) ∷ ring) ne e =
    ground (arith, ne, e, eq_iff s r, at_or_after-without r c h ring)

at_or_after-without-none :
    (r : String) (h : ℕ) (ring : Ring)
    → at_or_after h ring ≡ none
    → at_or_after h (without r ring) ≡ none
unfolding at_or_after without
at_or_after-without-none r h [] e = refl
at_or_after-without-none r h ((n, s) ∷ ring) e =
    ground (arith, e, at_or_after-without-none r h ring)

first_owner-without :
    (r c : String) (ring : Ring)
    → c ≢ r
    → first_owner ring ≡ some c
    → first_owner (without r ring) ≡ some c
unfolding first_owner without
first_owner-without r c [] ne e = e
first_owner-without r c ((n, s) ∷ ring) ne e = ground (arith, ne, e, eq_iff s r)

pub owner_found :
    (h : ℕ) (ring : Ring) (c : String) → at_or_after h ring ≡ some c → owner h ring ≡ some c
owner_found h ring c e = unfold owner in rw (e, owner) refl

pub owner_wraps :
    (h : ℕ) (ring : Ring) → at_or_after h ring ≡ none → owner h ring ≡ first_owner ring
owner_wraps h ring e = unfold owner in rw (e, owner) refl

pub owner-without :
    (r c : String) (h : ℕ) (ring : Ring)
    → c ≢ r
    → owner h ring ≡ some c
    → owner h (without r ring) ≡ some c
owner-without r c h ring ne e = elim (Option-cases (at_or_after h ring)) [
  | inl wraps ↦
      owner_wraps h (without r ring) (at_or_after-without-none r h ring wraps)
      ∙ first_owner-without r c ring ne (sym (owner_wraps h ring wraps) ∙ e)
  | inr (d, found) ↦
      owner_found h (without r ring) c
        (at_or_after-without r c h ring ne (found ∙ sym (owner_found h ring d found) ∙ e))
]
