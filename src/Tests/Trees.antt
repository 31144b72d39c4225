-- ===== src/Tests/Trees.antt =====
-- The prefix tree of src/kv_aware_router/radix.py on small inputs.
use kv_aware_router.Prelude.{
  ℕ, zero, suc, ◌+◌, ◌≤◌, ◌<◌, ◌%◌, ◌≡◌, ◌≢◌, ◌↔◌, refl, List, [], ◌∷◌, ◌++◌, none, some, String,
  str_eq, eq_iff, if◌then◌else◌, ltb, max, round_down,
}
use mathlib.Core.Bool.{false≢true}
use kv_aware_router.Dict.{get, get_or, put, remove, has}
use kv_aware_router.Radix.Node.{Tokens, shared, is_tail_for, children, empty_root}
use kv_aware_router.Radix.Evict.{Ref, here, first, Candidate}
use kv_aware_router.Radix.EvictDrop.{Loses}
use kv_aware_router.Radix.Held.{longest, held_below}
use kv_aware_router.Radix.Unit.{
  made, new_tree, validate_match_unit, kernel_tile_tokens, not_multiple, above_cap,
}
use kv_aware_router.Radix.Tree.{PrefixTree, insert, touch, remove_replica, evict_one, match_tokens}
use kv_aware_router.Radix.Invariant.{IsValid, cached, held, get-match_tokens, load_below}
use kv_aware_router.Radix.Evictions.{evict_one-effect, evict_one-none}
use kv_aware_router.Radix.Effects.{
  cached-insert, cached-insert_ne, insert-within_capacity, match_tokens-touch, held-remove_replica,
}
use kv_aware_router.Radix.Sessions.{
  TreeCall, inserts, touches, run, run-IsValid, new_tree-IsValid, validate_match_unit-none_iff,
  Fits,
}
use kv_aware_router.Radix.Refinement.{prompts, match-run}

-- What a run of the model opens.
program : Unit {0}
unfolding insert touch remove_replica evict_one match_tokens new_tree shared is_tail_for get get_or
    put remove has round_down run
program = tt

-- A tree at unit 16, where replica "a" has room for 40 tokens.
abbrev empty : PrefixTree
empty = record {
  prefix_match_unit = 16;
  root = empty_root;
  capacity_tokens = ("a", 40) ∷ [];
  tokens_used = [];
  evictions = [];
}

abbrev unbounded : PrefixTree
unbounded = record empty { capacity_tokens = [] }

empty-made : new_tree 16 (("a", 40) ∷ []) none ≡ made empty
unfolding program
empty-made = refl

unbounded-made : new_tree 16 [] (some "triton") ≡ made unbounded
unfolding program
unbounded-made = refl

empty-IsValid : IsValid empty
empty-IsValid = (new_tree-IsValid 16 (("a", 40) ∷ []) none empty empty-made).0

unbounded-IsValid : IsValid unbounded
unbounded-IsValid = (new_tree-IsValid 16 [] (some "triton") unbounded unbounded-made).0

-- Token ids from `n` on.
abbrev ids : ℕ → ℕ → Tokens
ids zero n = []
ids (suc k) n = n ∷ ids k (n + 1)

abbrev prompt : Tokens
prompt = ids 20 0

-- It shares 17 tokens with `prompt`.
abbrev branch : Tokens
branch = ids 17 0 ++ ids 3 100

abbrev calls : List TreeCall
calls = inserts prompt "a" 1 ∷ inserts branch "b" 2 ∷ touches prompt "a" 3 ∷ []

abbrev filled : PrefixTree
filled = run calls empty

filled-IsValid : IsValid filled
filled-IsValid = run-IsValid calls empty empty-IsValid

-- The split edge credits "a" with the 17 shared tokens, that is, 16.
split_credits : match_tokens filled branch ≡ ("a", 16) ∷ ("b", 16) ∷ []
unfolding program
split_credits = refl

-- A second prompt of 30 tokens does not fit beside the first one: the older one is evicted.
evicts : match_tokens (insert (ids 30 200) "a" 9 filled) prompt ≡ ("b", 16) ∷ []
unfolding program
evicts = refl

match-run_example : get "a" (match_tokens (run calls unbounded) branch) ≡ (
    let n = round_down 16 (longest (prompts "a" calls []) branch) in
    if ltb 0 n then some n else none)
match-run_example = match-run 16 (some "triton") unbounded calls "a" branch unbounded-made

get-match_tokens_example :
    get "a" (match_tokens filled branch)
    ≡ (let n = round_down 16 (cached filled "a" branch) in if ltb 0 n then some n else none)
unfolding program
get-match_tokens_example = get-match_tokens filled "a" branch (filled-IsValid "a")

run-IsValid_example : IsValid (run calls empty)
run-IsValid_example = run-IsValid calls empty empty-IsValid

cached-insert_example : cached (insert branch "b" 4 filled) "a" prompt ≡ (
    if str_eq "b" "a"
    then max (cached filled "a" prompt) (shared branch prompt)
    else cached filled "a" prompt)
unfolding program
cached-insert_example = cached-insert branch "b" "a" 4 filled prompt filled-IsValid refl

b-ne-a : ◌≢◌ {A = String} "b" "a"
b-ne-a e = false≢true ((eq_iff "b" "a").1 e)

cached-insert_ne_example :
    cached (insert (ids 30 0) "b" 4 filled) "a" prompt ≡ cached filled "a" prompt
cached-insert_ne_example = cached-insert_ne (ids 30 0) "b" "a" 4 filled prompt filled-IsValid b-ne-a

insert-within_capacity_example :
    (get_or "a" 0 (insert (ids 60 200) "a" 9 filled).tokens_used ≤ 40)
    × (load_below "a" (children (insert (ids 60 200) "a" 9 filled).root) ≤ 40)
unfolding program
insert-within_capacity_example =
    insert-within_capacity 200 (ids 59 201) "a" 9 40 filled filled-IsValid refl

-- Where "a" can lose a node: the tail of its prompt, behind the split.
abbrev tail_ref : Ref
tail_ref = first (first here)

abbrev trimmed : PrefixTree
unfolding program
trimmed = elim (evict_one "a" filled) [ none ↦ filled | some t ↦ t ]

evict_one-filled : evict_one "a" filled ≡ some trimmed
unfolding program
evict_one-filled = refl

-- The tail-first order: the node of the shared 17 tokens stays.
tail_first : held "a" trimmed ≡ ids 17 0 ∷ []
unfolding program held_below
tail_first = refl

evict_one-effect_example :
    (if str_eq "a" "a"
      then Loses (held "a" filled) (held "a" trimmed)
      else (held "a" trimmed ≡ held "a" filled))
    × (get_or "a" 0 trimmed.tokens_used < get_or "a" 0 filled.tokens_used)
    × (get_or "a" 0 trimmed.evictions ≡ get_or "a" 0 filled.evictions + 1)
unfolding program
evict_one-effect_example = evict_one-effect "a" "a" filled trimmed filled-IsValid evict_one-filled

abbrev chosen : Candidate
chosen = record { ref = tail_ref; size = 3; stamp = 3 }

evict_one-none_example : (evict_one "c" filled ≡ none) ↔ (held "c" filled ≡ [])
evict_one-none_example = evict_one-none "c" filled filled-IsValid

match_tokens-touch_example :
    get "a" (match_tokens (touch prompt "a" 7 filled) branch) ≡ get "a" (match_tokens filled branch)
match_tokens-touch_example = match_tokens-touch prompt branch "a" "a" 7 filled filled-IsValid

held-remove_replica_example :
    held "b" (remove_replica "a" filled) ≡ (if str_eq "a" "b" then [] else held "b" filled)
held-remove_replica_example = held-remove_replica "a" "b" filled

validate_match_unit-none_iff_example :
    (validate_match_unit 64 (some "flashinfer") ≡ none)
    ↔ ((0 < 64) × (64 % kernel_tile_tokens ≡ 0) × Fits 64 (some "flashinfer"))
validate_match_unit-none_iff_example = validate_match_unit-none_iff 64 (some "flashinfer")

rejects :
    (validate_match_unit 100 none ≡ some not_multiple)
    × (validate_match_unit 128 (some "flashinfer") ≡ some above_cap)
unfolding program
rejects = (refl, refl)
