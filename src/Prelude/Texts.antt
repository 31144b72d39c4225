-- ===== src/Prelude/Texts.antt =====
-- Equality and the order of texts, which is that of their code points, as Python's `<` has it.
pub use text.Mathlib.Text.{◌==◌ as str_eq}
use Prim.Native.Nat.{Ordering}
use Prim.Native.String.{String, compare}
use Prim.Native.String.compare
use mathlib.Core.Path.{◌≡◌}
use mathlib.Core.Bool.{Bool, true, false}
use native.Mathlib.Omega.{arith}
use text.Mathlib.Text.{is_lt}
use text.Mathlib.TextEquality.{path_by_compare}
use text.Mathlib.TextPositions.{compare_refl}

-- `s < t`
unfoldable pub text_lt : String → String → Bool
text_lt s t = is_lt (compare s t)

pub text_lt_trans : (s t u : String) → text_lt s t ≡ true → text_lt t u ≡ true → text_lt s u ≡ true
unfolding text_lt
text_lt_trans String.[] String.[] u p q = q
text_lt_trans String.[] (String.◌∷◌ d t) String.[] p q = ground (arith, compare.cons-nil d t)
text_lt_trans String.[] (String.◌∷◌ d t) (String.◌∷◌ e u) p q = ground (arith, compare.nil-cons e u)
text_lt_trans (String.◌∷◌ c s) String.[] u p q = ground (arith, compare.cons-nil c s)
text_lt_trans (String.◌∷◌ c s) (String.◌∷◌ d t) String.[] p q = ground (arith, compare.cons-nil d t)
text_lt_trans (String.◌∷◌ c s) (String.◌∷◌ d t) (String.◌∷◌ e u) p q = ground (
  arith,
  compare.cons-cons c d s t,
  compare.cons-cons d e t u,
  compare.cons-cons c e s u,
  text_lt_trans s t u,
)

pub text_lt_not_trans :
    (s t u : String) → text_lt s t ≡ false → text_lt t u ≡ false → text_lt s u ≡ false
unfolding text_lt
text_lt_not_trans String.[] String.[] u p q = q
text_lt_not_trans String.[] (String.◌∷◌ d t) u p q = ground (arith, compare.nil-cons d t)
text_lt_not_trans (String.◌∷◌ c s) t String.[] p q = ground (arith, compare.cons-nil c s)
text_lt_not_trans (String.◌∷◌ c s) String.[] (String.◌∷◌ e u) p q =
    ground (arith, compare.nil-cons e u)
text_lt_not_trans (String.◌∷◌ c s) (String.◌∷◌ d t) (String.◌∷◌ e u) p q = ground (
  arith,
  compare.cons-cons c d s t,
  compare.cons-cons d e t u,
  compare.cons-cons c e s u,
  text_lt_not_trans s t u,
)

pub text_lt_asym : (s t : String) → text_lt s t ≡ true → text_lt t s ≡ false
unfolding text_lt
text_lt_asym String.[] String.[] p = ground (arith, p)
text_lt_asym String.[] (String.◌∷◌ d t) p = ground (arith, compare.cons-nil d t)
text_lt_asym (String.◌∷◌ c s) String.[] p = ground (arith, compare.cons-nil c s)
text_lt_asym (String.◌∷◌ c s) (String.◌∷◌ d t) p =
    ground (arith, compare.cons-cons c d s t, compare.cons-cons d c t s, text_lt_asym s t)

compare_of_neither :
    (s t : String) → text_lt s t ≡ false → text_lt t s ≡ false → compare s t ≡ Ordering.eq
unfolding text_lt
compare_of_neither String.[] String.[] p q = compare_refl String.[]
compare_of_neither String.[] (String.◌∷◌ d t) p q = ground (arith, compare.nil-cons d t)
compare_of_neither (String.◌∷◌ c s) String.[] p q = ground (arith, compare.nil-cons c s)
compare_of_neither (String.◌∷◌ c s) (String.◌∷◌ d t) p q =
    ground (arith, compare.cons-cons c d s t, compare.cons-cons d c t s, compare_of_neither s t)

-- Of two different texts one is less.
pub text_lt_antisym : (s t : String) → text_lt s t ≡ false → text_lt t s ≡ false → s ≡ t
text_lt_antisym s t p q = path_by_compare s t (compare_of_neither s t p q)
