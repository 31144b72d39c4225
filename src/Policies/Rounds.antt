-- ===== src/Policies/Rounds.antt =====
-- Rounds of `RoundRobin.choose` in src/kv_aware_router/policies.py.
use mathlib.Core.Option
use native.Mathlib.Nat.{mod-eq_of_lt, add-mul-mod_self_right}
use kv_aware_router.Prelude.{
  ℕ, zero, suc, ◌+◌, ◌*◌, ◌%◌, ◌≤◌, ◌<◌, ◌≡◌, ◌∙◌, ap, refl, sym, List, [], ◌∷◌, Option, none, some,
  String, arith, length, take, drop, get_elem?, inl, inr, List-cases,
}
use kv_aware_router.Fleet.{Fleet, replica_ids}
use kv_aware_router.Policies.{round_robin}

-- `k` calls of `choose` in a row, from the counter `n`, on the same fleet.
unfoldable pub picks : Fleet → ℕ → ℕ → Option (List String)
unfolding round_robin
picks f n zero = some []
picks f n (suc k) = elim (round_robin f n) [
  | none ↦ none
  | some (pick, n') ↦ Option.map (◌∷◌ pick) (picks f n' k)
]

pub round_robin_eq :
    (f : Fleet) (n : ℕ)
    → round_robin f n
      ≡ Option.map (λ pick. (pick, n + 1)) (get_elem? (replica_ids f) (n % length (replica_ids f)))
round_robin_eq f n = elim (List-cases (replica_ids f)) [
  | inl e ↦ unfold round_robin in rw (e, round_robin) refl
  | inr (r, rs, e) ↦ unfold round_robin in rw (e, round_robin) refl
]

pub at_place :
    (ids : List String) (i : ℕ)
    → i < length ids
    → (pick : String) × (get_elem? ids i ≡ some pick) × (drop i ids ≡ pick ∷ drop (suc i) ids)
at_place [] i h = absurd (omega (arith, h))
at_place (r ∷ rs) zero h = (r, refl, refl)
at_place (r ∷ rs) (suc i) h = at_place rs i (omega (arith, h))

picks_next :
    (f : Fleet) (n k : ℕ) (pick : String)
    → get_elem? (replica_ids f) (n % length (replica_ids f)) ≡ some pick
    → picks f n (suc k) ≡ Option.map (◌∷◌ pick) (picks f (n + 1) k)
picks_next f n k pick h = unfold picks in rw (round_robin_eq f n, h, picks) refl

take_all : (ids : List String) → take (length ids) ids ≡ ids
take_all [] = refl
take_all (r ∷ rs) = ap (◌∷◌ r) (take_all rs)

one_later : (i a : ℕ) → i + a + 1 ≡ suc i + a
one_later i a = omega arith

from_zero : (a : ℕ) → a ≡ 0 + a
from_zero a = omega arith

picks_from :
    (f : Fleet) (i j k : ℕ)
    → i + k ≤ length (replica_ids f)
    → picks f (i + j * length (replica_ids f)) k ≡ some (take k (drop i (replica_ids f)))
unfolding picks
picks_from f i j zero h = refl
picks_from f i j (suc k) h =
    let l = length (replica_ids f) in
    let (pick, found, cut) = at_place (replica_ids f) i (omega (arith, h)) in
    let place = add-mul-mod_self_right i j l ∙ mod-eq_of_lt (omega (arith, h)) in
    picks_next f (i + j * l) k pick (rw place found)
    ∙ ap (Option.map (◌∷◌ pick))
        (ap (λ n. picks f n k) (one_later i (j * l)) ∙ picks_from f (suc i) j k (omega (arith, h)))
    ∙ ap (λ ids. some (take (suc k) ids)) (sym cut)

-- From a multiple of the number of replicas on, as many choices as there are replicas take each
-- replica once, in the order of the fleet.
pub picks-round :
    (f : Fleet) (j : ℕ)
    → picks f (j * length (replica_ids f)) (length (replica_ids f)) ≡ some (replica_ids f)
picks-round f j =
    ap (λ n. picks f n (length (replica_ids f))) (from_zero (j * length (replica_ids f)))
    ∙ picks_from f 0 j (length (replica_ids f)) (omega arith)
    ∙ ap some (take_all (replica_ids f))
