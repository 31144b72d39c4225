-- ===== src/Workload/Arrivals.antt =====
-- The sort of requests by their arrivals, in src/kv_aware_router/workload.py and
-- src/kv_aware_router/replay.py.
use kv_aware_router.Prelude.{
  length, ◌+◌, ◌≤◌, ◌≡◌, ap, sym, refl, subst, true, false, List, [], ◌∷◌, ◌++◌, ◌⊎◌, inl, inr, ltb,
  arith, Bool-cases,
}
use kv_aware_router.Workload.{Request, by_arrival, place_by_arrival}

-- The request stands in the list.
unfoldable pub IsIn : Request → List Request → Type 0
IsIn x [] = ⊥
IsIn x (y ∷ l) = (x ≡ y) ⊎ IsIn x l

pub IsIn-append : (x : Request) (xs ys : List Request) → IsIn x (xs ++ ys) → IsIn x xs ⊎ IsIn x ys
unfolding IsIn
IsIn-append x [] ys h = inr h
IsIn-append x (y ∷ xs) ys (inl e) = inl (inl e)
IsIn-append x (y ∷ xs) ys (inr h) = elim (IsIn-append x xs ys h) [
  | inl a ↦ inl (inr a)
  | inr b ↦ inr b
]

pub IsIn-left : (x : Request) (xs ys : List Request) → IsIn x xs → IsIn x (xs ++ ys)
unfolding IsIn
IsIn-left x [] ys h = absurd h
IsIn-left x (y ∷ xs) ys (inl e) = inl e
IsIn-left x (y ∷ xs) ys (inr h) = inr (IsIn-left x xs ys h)

pub IsIn-right : (x : Request) (xs ys : List Request) → IsIn x ys → IsIn x (xs ++ ys)
unfolding IsIn
IsIn-right x [] ys h = h
IsIn-right x (y ∷ xs) ys h = inr (IsIn-right x xs ys h)

place_later :
    (y z : Request) (l : List Request)
    → ltb z.arrival y.arrival ≡ true
    → place_by_arrival y (z ∷ l) ≡ z ∷ place_by_arrival y l
place_later y z l e = unfold place_by_arrival in rw e refl

place_here :
    (y z : Request) (l : List Request)
    → ltb z.arrival y.arrival ≡ false
    → place_by_arrival y (z ∷ l) ≡ y ∷ z ∷ l
place_here y z l e = unfold place_by_arrival in rw e refl

IsIn-place : (x y : Request) (l : List Request) → IsIn x (place_by_arrival y l) → (x ≡ y) ⊎ IsIn x l
unfolding IsIn place_by_arrival
IsIn-place x y [] h = h
IsIn-place x y (z ∷ l) h = elim (Bool-cases (ltb z.arrival y.arrival)) [
  | inr e ↦ subst (IsIn x) (place_here y z l e) h
  | inl e ↦
      let q : (x ≡ z) ⊎ IsIn x (place_by_arrival y l) = subst (IsIn x) (place_later y z l e) h in
      elim q [
        | inl a ↦ inr (inl a)
        | inr b ↦ elim (IsIn-place x y l b) [ inl a ↦ inl a | inr c ↦ inr (inr c) ]
      ]
]

pub IsIn-by_arrival : (x : Request) (l : List Request) → IsIn x (by_arrival l) → IsIn x l
unfolding IsIn by_arrival
IsIn-by_arrival x [] h = h
IsIn-by_arrival x (y ∷ l) h = elim (IsIn-place x y (by_arrival l) h) [
  | inl e ↦ inl e
  | inr q ↦ inr (IsIn-by_arrival x l q)
]

place-IsIn : (x y : Request) (l : List Request) → (x ≡ y) ⊎ IsIn x l → IsIn x (place_by_arrival y l)
unfolding IsIn place_by_arrival
place-IsIn x y [] h = h
place-IsIn x y (z ∷ l) h = elim (Bool-cases (ltb z.arrival y.arrival)) [
  | inr e ↦ subst (IsIn x) (sym (place_here y z l e)) h
  | inl e ↦ subst (IsIn x) (sym (place_later y z l e)) (elim h [
    | inl a ↦ inr (place-IsIn x y l (inl a))
    | inr b ↦ elim b [ inl c ↦ inl c | inr d ↦ inr (place-IsIn x y l (inr d)) ]
  ])
]

pub by_arrival-IsIn : (x : Request) (l : List Request) → IsIn x l → IsIn x (by_arrival l)
unfolding IsIn by_arrival
by_arrival-IsIn x [] h = h
by_arrival-IsIn x (y ∷ l) (inl e) = place-IsIn x y (by_arrival l) (inl e)
by_arrival-IsIn x (y ∷ l) (inr h) = place-IsIn x y (by_arrival l) (inr (by_arrival-IsIn x l h))

length-place : (y : Request) (l : List Request) → length (place_by_arrival y l) ≡ length l + 1
unfolding place_by_arrival
length-place y [] = refl
length-place y (z ∷ l) = elim (Bool-cases (ltb z.arrival y.arrival)) [
  | inl e ↦ omega (arith, ap length (place_later y z l e), length-place y l)
  | inr e ↦ omega (arith, ap length (place_here y z l e))
]

pub length-by_arrival : (l : List Request) → length (by_arrival l) ≡ length l
unfolding by_arrival
length-by_arrival [] = refl
length-by_arrival (y ∷ l) = omega (arith, length-place y (by_arrival l), length-by_arrival l)

-- Each request arrives before all that follow.
unfoldable pub IsOrdered : List Request → Type 0
IsOrdered [] = Unit
IsOrdered (x ∷ l) = ((y : Request) → IsIn y l → x.arrival ≤ y.arrival) × IsOrdered l

place-IsOrdered : (y : Request) (l : List Request) → IsOrdered l → IsOrdered (place_by_arrival y l)
unfolding IsIn IsOrdered place_by_arrival
place-IsOrdered y [] h = (λ x q. absurd q, tt)
place-IsOrdered y (z ∷ l) (first, rest) = elim (Bool-cases (ltb z.arrival y.arrival)) [
  | inl e ↦ subst IsOrdered (sym (place_later y z l e)) (
    λ x q. elim (IsIn-place x y l q) [
      | inl a ↦ ground (arith, e, ap (λ (r : Request). r.arrival) a)
      | inr b ↦ first x b
    ],
    place-IsOrdered y l rest,
  )
  | inr e ↦ subst IsOrdered (sym (place_here y z l e)) (
    λ x q. elim q [
      | inl a ↦ ground (arith, e, ap (λ (r : Request). r.arrival) a)
      | inr b ↦ ground (arith, e, first x b)
    ],
    (first, rest),
  )
]

pub by_arrival-IsOrdered : (l : List Request) → IsOrdered (by_arrival l)
unfolding IsOrdered by_arrival
by_arrival-IsOrdered [] = tt
by_arrival-IsOrdered (y ∷ l) = place-IsOrdered y (by_arrival l) (by_arrival-IsOrdered l)
