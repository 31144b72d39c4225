-- ===== src/Workload/Generate/Repeats.antt =====
-- The turns of a session in `generate` of src/kv_aware_router/workload.py, and the prompts of
-- earlier ones.
use kv_aware_router.Prelude.{
  ℕ, zero, suc, ◌+◌, ◌≤◌, ◌≡◌, ◌∙◌, ap, sym, refl, subst, [], ◌∷◌, ◌++◌, inl, inr, arith,
}
use kv_aware_router.Radix.Node.{Tokens}
use kv_aware_router.Workload.{Request}
use kv_aware_router.Workload.Generate.{WorkloadSpec, Draws, range_from, turn_loop}
use kv_aware_router.Workload.Arrivals.{IsIn}

-- The one prompt goes on where the other ends.
abbrev pub Extends : Tokens → Tokens → Type 0
Extends a b = (more : Tokens) × (a ++ more ≡ b)

append_assoc : (xs ys zs : Tokens) → (xs ++ ys) ++ zs ≡ xs ++ (ys ++ zs)
append_assoc [] ys zs = refl
append_assoc (x ∷ xs) ys zs = ap (x ∷◌) (append_assoc xs ys zs)

append_nil : (xs : Tokens) → xs ++ [] ≡ xs
append_nil [] = refl
append_nil (x ∷ xs) = ap (x ∷◌) (append_nil xs)

module _ (spec : WorkloadSpec) (draws : Draws) where
  -- A request of a session extends what was said before it.
  pub record IsTurn (session turn : ℕ) (history : Tokens) (x : Request) : Type 0 where
    pub same : x.session_id ≡ session
    pub later : turn ≤ x.turn
    pub extends : Extends history x.tokens

  pub turn_loop-IsTurn :
      (left session turn : ℕ) (history : Tokens) (next at : ℕ) (x : Request)
      → IsIn x (turn_loop spec draws left session turn history next at).0
      → IsTurn session turn history x
  unfolding IsIn turn_loop
  turn_loop-IsTurn zero session turn history next at x h = absurd h
  turn_loop-IsTurn (suc left) session turn history next at x (inl e) =
      subst (IsTurn session turn history) (sym e) (record {
        same = refl;
        later = omega arith;
        extends = (range_from next spec.user_tokens, refl);
      })
  turn_loop-IsTurn (suc left) session turn history next at x (inr h) =
      let asked = history ++ range_from next spec.user_tokens in
      let reply = range_from (next + spec.user_tokens) spec.reply_tokens in
      let i =
        turn_loop-IsTurn left session (turn + 1) (asked ++ reply)
          (next + spec.user_tokens + spec.reply_tokens) (at + draws.think session turn) x h in
      let (more, e) = i.extends in
      record {
        same = i.same;
        later = omega (arith, i.later);
        extends = (
          range_from next spec.user_tokens ++ (reply ++ more),
          sym (append_assoc history (range_from next spec.user_tokens) (reply ++ more))
              ∙ sym (append_assoc asked reply more)
              ∙ e,
        );
      }

  pub turn_loop-Extends :
      (left session turn : ℕ) (history : Tokens) (next at : ℕ) (x y : Request)
      → IsIn x (turn_loop spec draws left session turn history next at).0
      → IsIn y (turn_loop spec draws left session turn history next at).0
      → x.turn ≤ y.turn
      → Extends x.tokens y.tokens
  unfolding IsIn turn_loop
  turn_loop-Extends zero session turn history next at x y h k le = absurd h
  turn_loop-Extends (suc left) session turn history next at x y (inl e) (inl f) le =
      ([], append_nil x.tokens ∙ ap (λ (z : Request). z.tokens) (e ∙ sym f))
  turn_loop-Extends (suc left) session turn history next at x y (inl e) (inr k) le =
      let asked = history ++ range_from next spec.user_tokens in
      let reply = range_from (next + spec.user_tokens) spec.reply_tokens in
      let i =
        turn_loop-IsTurn left session (turn + 1) (asked ++ reply)
          (next + spec.user_tokens + spec.reply_tokens) (at + draws.think session turn) y k in
      let (more, q) = i.extends in
      (
        reply ++ more,
        ap (λ (z : Request). z.tokens ++ (reply ++ more)) e
            ∙ sym (append_assoc asked reply more)
            ∙ q,
      )
  turn_loop-Extends (suc left) session turn history next at x y (inr h) (inl f) le =
      let i = turn_loop-IsTurn left session (turn + 1) _ _ _ x h in
      absurd (omega (arith, le, i.later, ap (λ (z : Request). z.turn) f))
  turn_loop-Extends (suc left) session turn history next at x y (inr h) (inr k) le =
      turn_loop-Extends left session (turn + 1) _ _ _ x y h k le
