-- ===== src/Workload/Generate/Turns.antt =====
-- The turns of a session in `generate` of src/kv_aware_router/workload.py: how many there are, and how
-- long their prompts are.
use kv_aware_router.Prelude.{
  ℕ, zero, suc, ◌+◌, ◌*◌, ◌<◌, ◌≡◌, refl, ◌++◌, some, inl, inr, arith, get_elem?, length,
  length-append, subst, sym, ap,
}
use kv_aware_router.Radix.Node.{Tokens}
use kv_aware_router.Workload.{Request}
use kv_aware_router.Workload.Generate.{
  draw_turns, WorkloadSpec, Draws, range_from, prompts_from, turn_loop,
}
use kv_aware_router.Workload.Arrivals.{IsIn}

pub length-range_from : (start n : ℕ) → length (range_from start n) ≡ n
unfolding range_from
length-range_from start zero = refl
length-range_from start (suc n) = omega (arith, length-range_from (start + 1) n)

pub prompts_found :
    (system_tokens i n k : ℕ)
    → k < n
    → (p : Tokens) × (get_elem? (prompts_from system_tokens i n) k ≡ some p)
      × (length p ≡ system_tokens)
unfolding prompts_from
prompts_found system_tokens i zero k h = absurd (omega (arith, h))
prompts_found system_tokens i (suc n) zero h =
    (_, refl, length-range_from (i * system_tokens) system_tokens)
prompts_found system_tokens i (suc n) (suc k) h =
    prompts_found system_tokens (i + 1) n k (omega (arith, h))

module _ (spec : WorkloadSpec) where
  -- The tokens that a session has before a turn: the system prompt, and what was said in earlier turns.
  unfoldable pub history_tokens : ℕ → ℕ
  history_tokens zero = spec.system_tokens
  history_tokens (suc turn) = history_tokens turn + spec.user_tokens + spec.reply_tokens

  pub history_tokens_eq :
      (turn : ℕ)
      → history_tokens turn ≡ spec.system_tokens + turn * (spec.user_tokens + spec.reply_tokens)
  unfolding history_tokens
  history_tokens_eq zero = omega arith
  history_tokens_eq (suc turn) = ground (arith, history_tokens_eq turn)

  history_tokens-next :
      (turn : ℕ)
      → history_tokens (turn + 1) ≡ history_tokens turn + spec.user_tokens + spec.reply_tokens
  unfolding history_tokens
  history_tokens-next turn =
      let next : turn + 1 ≡ suc turn = omega arith in
      let same : history_tokens (turn + 1) ≡ history_tokens (suc turn) = ap history_tokens next in
      same

  module _ (draws : Draws) where
    pub turn_loop-sized :
        (left session turn : ℕ) (history : Tokens) (next at : ℕ) (x : Request)
        → length history ≡ history_tokens turn
        → IsIn x (turn_loop spec draws left session turn history next at).0
        → (x.turn < turn + left) × (length x.tokens ≡ history_tokens x.turn + spec.user_tokens)
    unfolding IsIn turn_loop history_tokens
    turn_loop-sized zero session turn history next at x long h = absurd h
    turn_loop-sized (suc left) session turn history next at x long (inl e) =
        subst
          (λ (y : Request).
            (y.turn < turn + suc left)
            × (length y.tokens ≡ history_tokens y.turn + spec.user_tokens))
          (sym e)
          (
            omega arith,
            omega (
              arith,
              long,
              length-append history (range_from next spec.user_tokens),
              length-range_from next spec.user_tokens,
            ),
          )
    turn_loop-sized (suc left) session turn history next at x long (inr h) =
        let said = range_from next spec.user_tokens in
        let reply = range_from (next + spec.user_tokens) spec.reply_tokens in
        let (bound, sized) =
          turn_loop-sized left session (turn + 1) ((history ++ said) ++ reply)
            (next + spec.user_tokens + spec.reply_tokens) (at + draws.think session turn) x
            (omega (
              arith,
              long,
              history_tokens-next turn,
              length-append (history ++ said) reply,
              length-append history said,
              length-range_from next spec.user_tokens,
              length-range_from (next + spec.user_tokens) spec.reply_tokens,
            ))
            h in
        (omega (arith, bound), sized)

    -- How many turns the sessions from one on have.
    unfoldable pub turns_of : ℕ → ℕ → ℕ
    turns_of zero session = 0
    turns_of (suc left) session = draw_turns spec draws session + turns_of left (session + 1)

    pub length-turn_loop :
        (left session turn : ℕ) (history : Tokens) (next at : ℕ)
        → length (turn_loop spec draws left session turn history next at).0 ≡ left
    unfolding turn_loop
    length-turn_loop zero session turn history next at = refl
    length-turn_loop (suc left) session turn history next at =
        omega (arith, length-turn_loop left session (turn + 1) _ _ _)

    -- Every turn of a session is there.
    pub turn_loop-has :
        (left session turn : ℕ) (history : Tokens) (next at k : ℕ)
        → k < left
        → (x : Request) × IsIn x (turn_loop spec draws left session turn history next at).0
          × (x.session_id ≡ session)
          × (x.turn ≡ turn + k)
    unfolding IsIn turn_loop
    turn_loop-has zero session turn history next at k h = absurd (omega (arith, h))
    turn_loop-has (suc left) session turn history next at zero h = (_, inl refl, refl, omega arith)
    turn_loop-has (suc left) session turn history next at (suc k) h =
        let (x, there, same, at_turn) =
          turn_loop-has left session (turn + 1) _ _ _ k (omega (arith, h)) in
        (x, inr there, same, omega (arith, at_turn))
