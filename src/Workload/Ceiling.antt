-- ===== src/Workload/Ceiling.antt =====
-- `reuse_ceiling` of src/kv_aware_router/workload.py, against a description of it on lists.
use kv_aware_router.Prelude.{
  ℕ, ◌+◌, ◌≡◌, ◌∙◌, ap, refl, List, [], ◌∷◌, none, some, arith, round_down, eq_iff,
}
use kv_aware_router.Dict.{get_or}
use kv_aware_router.Radix.Node.{Tokens}
use kv_aware_router.Radix.Tree.{PrefixTree, match_tokens, insert}
use kv_aware_router.Radix.Unit.{new_tree, made}
use kv_aware_router.Radix.Held.{longest}
use kv_aware_router.Radix.Invariant.{IsValid, cached}
use kv_aware_router.Radix.Effects.{insert-IsValid, cached-insert}
use kv_aware_router.Radix.Sessions.{new_tree-IsValid, new_tree-held}
use kv_aware_router.Radix.Refinement.{capacity-insert, unit-insert, no_capacity}
use kv_aware_router.Fleet.Estimates.{get_or-match_tokens}
use kv_aware_router.Workload.{Request, n_tokens, oracle_name, ceiling_loop, reuse_ceiling}

-- For each request the longest prefix that it shares with an earlier one, rounded to the unit.
unfoldable pub shared_before : ℕ → List Tokens → List Request → ℕ
shared_before unit earlier [] = 0
shared_before unit earlier (req ∷ requests) =
    round_down unit (longest earlier req.tokens)
    + shared_before unit (req.tokens ∷ earlier) requests

unfoldable pub all_tokens : List Request → ℕ
all_tokens [] = 0
all_tokens (req ∷ requests) = n_tokens req + all_tokens requests

-- The tree has no capacities, and holds the earlier prompts for the oracle.
record Holds (unit : ℕ) (earlier : List Tokens) (t : PrefixTree) : Type 0 where
  valid : IsValid t
  same_unit : t.prefix_match_unit ≡ unit
  unbounded : t.capacity_tokens ≡ []
  holds : (q : Tokens) → cached t oracle_name q ≡ longest earlier q

Holds-insert :
    (unit i : ℕ) (earlier : List Tokens) (t : PrefixTree) (q : Tokens)
    → Holds unit earlier t
    → Holds unit (q ∷ earlier) (insert q oracle_name i t)
unfolding longest
Holds-insert unit i earlier t q h = record {
  valid = insert-IsValid q oracle_name i t h.valid;
  same_unit = unit-insert q oracle_name i t ∙ h.same_unit;
  unbounded = capacity-insert q oracle_name i t h.unbounded;
  holds = λ p.
      cached-insert q oracle_name oracle_name i t p h.valid (no_capacity oracle_name t h.unbounded)
      ∙ ground (arith, eq_iff oracle_name oracle_name, h.holds p);
}

ceiling_loop_lem :
    (unit i : ℕ) (earlier : List Tokens) (t : PrefixTree) (requests : List Request)
    → Holds unit earlier t
    → ceiling_loop i t requests ≡ (shared_before unit earlier requests, all_tokens requests)
unfolding ceiling_loop shared_before all_tokens
ceiling_loop_lem unit i earlier t [] h = refl
ceiling_loop_lem unit i earlier t (req ∷ requests) h =
    let rest =
      ceiling_loop_lem unit (i + 1) (req.tokens ∷ earlier) (insert req.tokens oracle_name i t)
        requests (Holds-insert unit i earlier t req.tokens h) in
    ap (λ (p : ℕ × ℕ). (get_or oracle_name 0 (match_tokens t req.tokens) + p.0, n_tokens req + p.1))
      rest
    ∙ ap
        (λ n. (
          n + shared_before unit (req.tokens ∷ earlier) requests,
          n_tokens req + all_tokens requests,
        ))
        (get_or-match_tokens t oracle_name req.tokens (h.valid oracle_name)
          ∙ rw (h.same_unit, h.holds req.tokens) refl)

-- For a unit that the tree accepts, the reuse ceiling is the sum, over all requests, of the longest
-- prefix that the request shares with an earlier one, rounded down to the unit, over the tokens of
-- all requests.
pub reuse_ceiling-eq :
    (requests : List Request) (unit : ℕ) (t : PrefixTree)
    → new_tree unit [] none ≡ made t
    → reuse_ceiling requests unit ≡ some (shared_before unit [] requests, all_tokens requests)
unfolding reuse_ceiling
reuse_ceiling-eq requests unit t h =
    let (valid, same, tile, open_ended) = new_tree-IsValid unit [] none t h in
    rw (h, reuse_ceiling)
      (ap some (
        ceiling_loop_lem unit 0 [] t requests (record {
          valid = valid;
          same_unit = same;
          unbounded = open_ended;
          holds = new_tree-held unit [] none t h oracle_name;
        })))
