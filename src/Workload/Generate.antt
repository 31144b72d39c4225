-- ===== src/Workload/Generate.antt =====
-- `generate` of src/kv_aware_router/workload.py. The draws of numpy's generator are parameters: the
-- gap before each session, the index of its system prompt, its number of turns where these are drawn,
-- and the think time after each turn.
pub mod Turns
pub mod Repeats
pub mod Growth
use mathlib.Core.Option
use kv_aware_router.Prelude.{
  ℕ, zero, suc, ◌+◌, ◌*◌, List, [], ◌∷◌, ◌++◌, Option, none, some, ltb, leb, if◌then◌else◌,
  get_elem?, max,
}
use kv_aware_router.Radix.Node.{Tokens}
use kv_aware_router.Workload.{Request, by_arrival}

-- `turn_skew` is in thousandths. The other fields of the code only reach the generator.
pub record WorkloadSpec : Type 0 where
  pub n_sessions : ℕ
  pub turns_per_session : ℕ
  pub n_system_prompts : ℕ
  pub system_tokens : ℕ
  pub user_tokens : ℕ
  pub reply_tokens : ℕ
  pub turn_skew : ℕ

pub record Draws : Type 0 where
  pub gap : ℕ → ℕ
  pub index : ℕ → ℕ
  pub turns : ℕ → ℕ
  pub think : ℕ → ℕ → ℕ

-- `range(start, start + n)`
unfoldable pub range_from : ℕ → ℕ → Tokens
range_from start zero = []
range_from start (suc n) = start ∷ range_from (start + 1) n

-- `system_prompts`, from the prompt `i` on.
unfoldable pub prompts_from : ℕ → ℕ → ℕ → List Tokens
unfolding range_from
prompts_from system_tokens i zero = []
prompts_from system_tokens i (suc n) =
    range_from (i * system_tokens) system_tokens ∷ prompts_from system_tokens (i + 1) n

abbrev pub system_prompts : WorkloadSpec → List Tokens
system_prompts spec = prompts_from spec.system_tokens 0 spec.n_system_prompts

module _ (spec : WorkloadSpec) (draws : Draws) where
  abbrev pub draw_turns : ℕ → ℕ
  draw_turns session =
      if leb spec.turn_skew 0 then spec.turns_per_session else max 1 (draws.turns session)

  -- The turns of a session, and the next token that is free after them.
  unfoldable pub turn_loop : ℕ → ℕ → ℕ → Tokens → ℕ → ℕ → List Request × ℕ
  unfolding range_from
  turn_loop zero session turn history next at = ([], next)
  turn_loop (suc left) session turn history next at =
      let asked = history ++ range_from next spec.user_tokens in
      let replied = asked ++ range_from (next + spec.user_tokens) spec.reply_tokens in
      let (later, after) =
        turn_loop left session (turn + 1) replied (next + spec.user_tokens + spec.reply_tokens)
          (at + draws.think session turn) in
      (record { session_id = session; turn = turn; arrival = at; tokens = asked } ∷ later, after)

  -- The sessions from one on; `none` is the `IndexError` of a prompt that is not there.
  unfoldable pub session_loop : ℕ → ℕ → ℕ → ℕ → Option (List Request)
  unfolding turn_loop prompts_from
  session_loop zero session next start = some []
  session_loop (suc left) session next start =
      elim (get_elem? (system_prompts spec) (draws.index session)) [
        | none ↦ none
        | some prompt ↦
            let (block, after) =
              turn_loop (draw_turns session) session 0 prompt next (start + draws.gap session) in
            elim (session_loop left (session + 1) after (start + draws.gap session)) [
              | none ↦ none
              | some later ↦ some (block ++ later)
            ]
      ]

  unfoldable pub generate : Option (List Request)
  unfolding session_loop by_arrival
  generate =
      Option.map by_arrival
        (session_loop spec.n_sessions 0 (spec.n_system_prompts * spec.system_tokens) 0)
