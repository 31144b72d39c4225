-- ===== src/Radix/Match.antt =====
-- `PrefixTree.match` of src/kv_aware_router/radix.py.
use kv_aware_router.Prelude.{ℕ, ◌+◌, [], ◌∷◌, ltb, if◌then◌else◌, length, drop, round_down}
use kv_aware_router.Dict.{Dict, get_or, put}
use kv_aware_router.Radix.Node.{
  Tokens, Node, node, Children, nil, cons, edge, residents, at_key, shared,
}

-- The loop over `residents`: each replica is credited with `n` tokens, rounded to the unit.
unfoldable pub credit : ℕ → ℕ → Dict ℕ → Dict ℕ → Dict ℕ
credit unit n [] best = best
credit unit n ((r, seen) ∷ rs) best =
    let usable = round_down unit n in
    credit unit n rs (if ltb (get_or r 0 best) usable then put r usable best else best)

-- The `while True` loop: `i` is the tokens walked so far, `rest` is `tokens[i:]`.
unfoldable mutual
  unfolding credit

  pub match_at : ℕ → ℕ → Tokens → Node → Dict ℕ → Dict ℕ
  match_at unit i rest (node e d cs rs) best = match_below unit i rest cs (credit unit d rs best)

  pub match_below : ℕ → ℕ → Tokens → Children → Dict ℕ → Dict ℕ
  match_below unit i rest nil best = best
  match_below unit i rest (cons k c cs) best =
      let j = shared (edge c) rest in
      let partial = credit unit (i + j) (residents c) best in
      let deeper = match_at unit (i + j) (drop j rest) c best in
      let other = match_below unit i rest cs best in
      if at_key k rest then (if ltb j (length (edge c)) then partial else deeper) else other

-- `{r: n for r, n in best.items() if n > 0}`
unfoldable pub positive : Dict ℕ → Dict ℕ
positive [] = []
positive ((r, n) ∷ m) = if ltb 0 n then (r, n) ∷ positive m else positive m

unfoldable pub match_from : ℕ → Node → Tokens → Dict ℕ
unfolding match_at positive
match_from unit root tokens = positive (match_at unit 0 tokens root [])
