-- ===== src/Radix/Over.antt =====
-- How far a query agrees with a text that begins with an edge: the lemmas on `shared` of
-- src/kv_aware_router/radix.py that the proofs about the tree share.
use kv_aware_router.Prelude.{
  ℕ, suc, ◌+◌, ◌≤◌, ◌<◌, ◌≡◌, refl, ap, sym, ◌∙◌, ◌==◌, max, [], ◌∷◌, ◌++◌, arith, if◌then◌else◌,
  length, take, drop, take-append-drop,
}
use kv_aware_router.Radix.Node.{Tokens, shared}

-- The agreement of `q` with the edge `e`, and behind the whole edge what `f` says of the rest.
unfoldable pub over : (Tokens → ℕ) → Tokens → Tokens → ℕ
over f [] q = f q
over f (x ∷ e) [] = 0
over f (x ∷ e) (y ∷ q) = if x == y then suc (over f e q) else 0

pub shared-append : (e x q : Tokens) → shared (e ++ x) q ≡ over (shared x) e q
unfolding shared over
shared-append [] x q = refl
shared-append (a ∷ e) x [] = refl
shared-append (a ∷ e) x (y ∷ q) = ground (arith, shared-append e x q)

pub over-append : (f : Tokens → ℕ) (e e' q : Tokens) → over f (e ++ e') q ≡ over (over f e') e q
unfolding over
over-append f [] e' q = refl
over-append f (a ∷ e) e' [] = refl
over-append f (a ∷ e) e' (y ∷ q) = ground (arith, over-append f e e' q)

pub over_cong :
    (f g : Tokens → ℕ) (e q : Tokens) → ((p : Tokens) → f p ≡ g p) → over f e q ≡ over g e q
unfolding over
over_cong f g [] q h = h q
over_cong f g (a ∷ e) [] h = refl
over_cong f g (a ∷ e) (y ∷ q) h = ground (arith, over_cong f g e q h)

pub over_mono :
    (f g : Tokens → ℕ) (e q : Tokens) → ((p : Tokens) → f p ≤ g p) → over f e q ≤ over g e q
unfolding over
over_mono f g [] q h = h q
over_mono f g (a ∷ e) [] h = omega arith
over_mono f g (a ∷ e) (y ∷ q) h = ground (arith, over_mono f g e q h)

pub over-max :
    (f g : Tokens → ℕ) (e q : Tokens)
    → over (λ p. max (f p) (g p)) e q ≡ max (over f e q) (over g e q)
unfolding over
over-max f g [] q = refl
over-max f g (a ∷ e) [] = omega arith
over-max f g (a ∷ e) (y ∷ q) = ground (arith, over-max f g e q)

pub over-nothing : (e q : Tokens) → over (λ _. 0) e q ≡ shared e q
unfolding over shared
over-nothing [] q = refl
over-nothing (a ∷ e) [] = refl
over-nothing (a ∷ e) (y ∷ q) = ground (arith, over-nothing e q)

pub shared-le : (e q : Tokens) → shared e q ≤ length e
unfolding shared
shared-le [] q = omega arith
shared-le (a ∷ e) [] = omega arith
shared-le (a ∷ e) (y ∷ q) = ground (arith, shared-le e q)

pub shared-le_right : (e q : Tokens) → shared e q ≤ length q
unfolding shared
shared-le_right [] q = omega arith
shared-le_right (a ∷ e) [] = omega arith
shared-le_right (a ∷ e) (y ∷ q) = ground (arith, shared-le_right e q)

pub shared_self : (e : Tokens) → shared e e ≡ length e
unfolding shared
shared_self [] = refl
shared_self (a ∷ e) = ground (arith, shared_self e)

pub over-le_right :
    (f : Tokens → ℕ) (e q : Tokens) → ((p : Tokens) → f p ≤ length p) → over f e q ≤ length q
unfolding over
over-le_right f [] q h = h q
over-le_right f (a ∷ e) [] h = omega arith
over-le_right f (a ∷ e) (y ∷ q) h = ground (arith, over-le_right f e q h)

-- An edge that ends the agreement.
pub over_partial : (f : Tokens → ℕ) (e q : Tokens) → shared e q < length e → over f e q ≡ shared e q
unfolding over shared
over_partial f [] q h = absurd (omega arith)
over_partial f (a ∷ e) [] h = refl
over_partial f (a ∷ e) (y ∷ q) h = ground (arith, over_partial f e q)

-- An edge that the query covers.
pub over_full :
    (f : Tokens → ℕ) (e q : Tokens)
    → length e ≤ shared e q
    → over f e q ≡ length e + f (drop (length e) q)
unfolding over shared
over_full f [] q h = omega arith
over_full f (a ∷ e) [] h = absurd (omega arith)
over_full f (a ∷ e) (y ∷ q) h = ground (arith, over_full f e q)

-- A walk that has agreed with the edge so far, in the words of the tokens that it walks.
pub shared-over :
    (e rest q : Tokens)
    → shared rest q ≡ over (shared (drop (shared e rest) rest)) (take (shared e rest) e) q
unfolding shared over
shared-over [] rest q = refl
shared-over (a ∷ e) [] q = refl
shared-over (a ∷ e) (y ∷ rest) [] = ground arith
shared-over (a ∷ e) (y ∷ rest) (z ∷ q) = ground (arith, shared-over e rest q)

pub over-cut :
    (f : Tokens → ℕ) (n : ℕ) (e q : Tokens) → over (over f (drop n e)) (take n e) q ≡ over f e q
over-cut f n e q =
    sym (over-append f (take n e) (drop n e) q) ∙ ap (λ t. over f t q) (take-append-drop n e)
