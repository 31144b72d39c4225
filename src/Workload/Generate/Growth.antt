-- ===== src/Workload/Generate/Growth.antt =====
-- The requests that `generate` of src/kv_aware_router/workload.py makes, over all
-- sessions.
use kv_aware_router.Prelude.{
  ◌⊎◌, length, length-append, ℕ, zero, suc, ◌+◌, ◌*◌, ◌≤◌, ◌<◌, ◌≡◌, ◌∙◌, ap, sym, refl, subst,
  List, [], ◌++◌, some, inl, inr, arith, get_elem?,
}
use kv_aware_router.Radix.Node.{Tokens}
use kv_aware_router.Workload.{Request, by_arrival}
use kv_aware_router.Workload.Generate.{
  WorkloadSpec, Draws, system_prompts, draw_turns, turn_loop, session_loop, generate,
}
use kv_aware_router.Workload.Generate.Turns.{
  turns_of, length-turn_loop, prompts_found, history_tokens, history_tokens_eq, turn_loop-sized,
  turn_loop-has,
}
use kv_aware_router.Workload.Arrivals.{
  length-by_arrival, IsIn-left, IsIn-right, by_arrival-IsIn, IsIn, IsIn-append, IsIn-by_arrival,
  IsOrdered, by_arrival-IsOrdered,
}
use kv_aware_router.Workload.Generate.Repeats.{Extends, turn_loop-IsTurn, turn_loop-Extends}

eq_or_later : (a b : ℕ) → a ≤ b → (a ≡ b) ⊎ (a + 1 ≤ b)
eq_or_later zero zero h = inl refl
eq_or_later zero (suc b) h = inr (omega arith)
eq_or_later (suc a) zero h = absurd (omega (arith, h))
eq_or_later (suc a) (suc b) h = elim (eq_or_later a b (omega (arith, h))) [
  | inl e ↦ inl (ap suc e)
  | inr l ↦ inr (omega (arith, l))
]

module _ (spec : WorkloadSpec) (draws : Draws) where
  -- A request is one of those that the sessions have, and is as long as its turn says.
  abbrev pub IsDrawn : ℕ → Request → Type 0
  IsDrawn sessions x =
      (x.session_id < sessions)
      × (x.turn < draw_turns spec draws x.session_id)
      × (length x.tokens
          ≡ spec.system_tokens + x.turn * (spec.user_tokens + spec.reply_tokens) + spec.user_tokens)

  -- The requests of the sessions from one on: their numbers, their lengths, and the growth of each.
  record Grows (session left : ℕ) (l : List Request) : Type 0 where
    from_one : (x : Request) → IsIn x l → session ≤ x.session_id
    grow :
        (x y : Request)
        → IsIn x l
        → IsIn y l
        → x.session_id ≡ y.session_id
        → x.turn ≤ y.turn
        → Extends x.tokens y.tokens
    number : length l ≡ turns_of spec draws left session
    drawn : (x : Request) → IsIn x l → IsDrawn (session + left) x
    complete :
        (s t : ℕ)
        → session ≤ s
        → s < session + left
        → t < draw_turns spec draws s
        → (x : Request) × IsIn x l × (x.session_id ≡ s) × (x.turn ≡ t)

  -- A block of turns before the later sessions.
  block-Grows :
      (left session next at : ℕ) (prompt : Tokens) (later : List Request)
      → length prompt ≡ spec.system_tokens
      → Grows (session + 1) left later
      → Grows session (suc left) (
          (turn_loop spec draws (draw_turns spec draws session) session 0 prompt next at).0
          ++ later)
  unfolding history_tokens turns_of
  block-Grows left session next at prompt later long g =
      let turns = draw_turns spec draws session in
      let block = (turn_loop spec draws turns session 0 prompt next at).0 in
      let here = λ (x : Request) (h : IsIn x block).
        (turn_loop-IsTurn spec draws turns session 0 prompt next at x h).same in
      record {
        from_one = λ x h. elim (IsIn-append x block later h) [
          | inl a ↦ omega (arith, here x a)
          | inr b ↦ omega (arith, g.from_one x b)
        ];
        grow = λ x y h k same le. elim (IsIn-append x block later h) [
          | inl a ↦ elim (IsIn-append y block later k) [
            | inl c ↦ turn_loop-Extends spec draws turns session 0 prompt next at x y a c le
            | inr d ↦ absurd (omega (arith, here x a, g.from_one y d, same))
          ]
          | inr b ↦ elim (IsIn-append y block later k) [
            | inl c ↦ absurd (omega (arith, here y c, g.from_one x b, same))
            | inr d ↦ g.grow x y b d same le
          ]
        ];
        number = omega (
          arith,
          length-append block later,
          length-turn_loop spec draws turns session 0 prompt next at,
          g.number,
        );
        drawn = λ x h. elim (IsIn-append x block later h) [
          | inl a ↦
              let (bound, sized) =
                turn_loop-sized spec draws turns session 0 prompt next at x long a in
              (
                omega (arith, here x a),
                subst (λ s. x.turn < draw_turns spec draws s) (sym (here x a))
                    (omega (arith, bound)),
                omega (arith, sized, history_tokens_eq spec x.turn),
              )
          | inr b ↦ let (below, bound, sized) = g.drawn x b in (omega (arith, below), bound, sized)
        ];
        complete = λ s t from below turn_below. elim (eq_or_later session s from) [
          | inl e ↦
              let (x, there, same, at_turn) =
                turn_loop-has spec draws turns session 0 prompt next at t
                  (subst (λ k. t < draw_turns spec draws k) (sym e) turn_below) in
              (x, IsIn-left x block later there, same ∙ e, omega (arith, at_turn))
          | inr after ↦
              let (x, there, same, at_turn) =
                g.complete s t after (omega (arith, below)) turn_below in
              (x, IsIn-right x block later there, same, at_turn)
        ];
      }

  session_loop_next :
      (left session next start : ℕ) (prompt : Tokens) (later : List Request)
      → get_elem? (system_prompts spec) (draws.index session) ≡ some prompt
      → session_loop spec draws left
          (session + 1)
          (turn_loop spec draws
            (draw_turns spec draws session)
            session
            0
            prompt
            next
            (start + draws.gap session)).1
          (start + draws.gap session)
        ≡ some later
      → session_loop spec draws (suc left) session next start
        ≡ some (
            (turn_loop spec draws
              (draw_turns spec draws session)
              session
              0
              prompt
              next
              (start + draws.gap session)).0
            ++ later)
  session_loop_next left session next start prompt later found rest =
      unfold session_loop in rw (found, rest, session_loop) refl

  session_loop-Grows :
      (left session next start : ℕ)
      → ((k : ℕ) → draws.index k < spec.n_system_prompts)
      → (l : List Request) × (session_loop spec draws left session next start ≡ some l)
        × Grows session left l
  unfolding session_loop IsIn turns_of
  session_loop-Grows zero session next start index = (
    [],
    refl,
    record {
      from_one = λ x h. absurd h;
      grow = λ x y h k same le. absurd h;
      number = refl;
      drawn = λ x h. absurd h;
      complete = λ s t from below turn_below. absurd (omega (arith, from, below));
    },
  )
  session_loop-Grows (suc left) session next start index =
      let (prompt, found, long) =
        prompts_found spec.system_tokens 0 spec.n_system_prompts (draws.index session)
          (index session) in
      let at = start + draws.gap session in
      let looped = turn_loop spec draws (draw_turns spec draws session) session 0 prompt next at in
      let (later, rest, g) = session_loop-Grows left (session + 1) looped.1 at index in
      (
        looped.0 ++ later,
        session_loop_next left session next start prompt later found rest,
        block-Grows left session next at prompt later long g,
      )

  -- Where the index that is drawn is one of a system prompt, `generate` returns; its requests are in
  -- the order of their arrivals, and a later turn of a session extends the prompt of each earlier one.
  -- Every session has a request for every turn that is drawn for it, there are no other requests and no
  -- more than there are turns, and the prompt of a turn is as long as the system prompt, the earlier
  -- questions and replies, and its own question.
  pub generate-grows :
      ((k : ℕ) → draws.index k < spec.n_system_prompts)
      → (l : List Request) × (generate spec draws ≡ some l)
        × IsOrdered l
        × ((x y : Request)
            → IsIn x l
            → IsIn y l
            → x.session_id ≡ y.session_id
            → x.turn ≤ y.turn
            → Extends x.tokens y.tokens)
        × (length l ≡ turns_of spec draws spec.n_sessions 0)
        × ((x : Request) → IsIn x l → IsDrawn spec.n_sessions x)
        × ((s t : ℕ)
            → s < spec.n_sessions
            → t < draw_turns spec draws s
            → (x : Request) × IsIn x l × (x.session_id ≡ s) × (x.turn ≡ t))
  generate-grows index =
      let (raw, looped, g) =
        session_loop-Grows spec.n_sessions 0 (spec.n_system_prompts * spec.system_tokens) 0 index in
      (
        by_arrival raw,
        unfold generate in rw (looped, generate) refl,
        by_arrival-IsOrdered raw,
        λ x y h k. g.grow x y (IsIn-by_arrival x raw h) (IsIn-by_arrival y raw k),
        length-by_arrival raw ∙ g.number,
        λ x h.
            let (below, bound, sized) = g.drawn x (IsIn-by_arrival x raw h) in
            (omega (arith, below), bound, sized),
        λ s t below turn_below.
            let (x, there, same, at_turn) =
              g.complete s t (omega arith) (omega (arith, below)) turn_below in
            (x, by_arrival-IsIn x raw there, same, at_turn),
      )
