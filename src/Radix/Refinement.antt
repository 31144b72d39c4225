-- ===== src/Radix/Refinement.antt =====
-- The prefix tree of src/kv_aware_router/radix.py against its specification: for each replica, the
-- plain list of the prompts recorded for it. No capacity is set, so that nothing is evicted.
use kv_aware_router.Prelude.{
  ℕ, ◌≡◌, ◌∙◌, ap, refl, List, [], ◌∷◌, Option, none, some, String, str_eq, arith, ltb,
  if◌then◌else◌, round_down,
}
use kv_aware_router.Dict.{get}
use kv_aware_router.Radix.Node.{Tokens}
use kv_aware_router.Radix.Held.{longest}
use kv_aware_router.Radix.Tree.{
  PrefixTree, evict, insert, record_prefix, touch, remove_replica, match_tokens,
}
use kv_aware_router.Radix.Unit.{made, new_tree}
use kv_aware_router.Radix.Invariant.{IsValid, cached, get-match_tokens}
use kv_aware_router.Radix.Upkeep.{touch-IsValid, remove_replica-IsValid}
use kv_aware_router.Radix.Capacity.{enforce_capacity_inv}
use kv_aware_router.Radix.Effects.{
  cached-insert, held-touch, held-remove_replica, insert-IsValid, enforce_open,
}
use kv_aware_router.Radix.Sessions.{
  TreeCall, inserts, touches, removes, run, new_tree-IsValid, new_tree-held,
}

-- The prompts on record for a replica, after some calls: the latest first, none after its removal.
unfoldable pub prompts : String → List TreeCall → List Tokens → List Tokens
prompts s [] ps = ps
prompts s (inserts tokens r now ∷ cs) ps = prompts s cs (if str_eq r s then tokens ∷ ps else ps)
prompts s (touches tokens r now ∷ cs) ps = prompts s cs ps
prompts s (removes r ∷ cs) ps = prompts s cs (if str_eq r s then [] else ps)

-- The tree answers for the replica as the list of its prompts does.
record Answers (unit : ℕ) (s : String) (t : PrefixTree) (ps : List Tokens) : Type 0 where
  valid : IsValid t
  same_unit : t.prefix_match_unit ≡ unit
  unbounded : t.capacity_tokens ≡ []
  agree : (q : Tokens) → cached t s q ≡ longest ps q

pub capacity-insert :
    (tokens : Tokens) (r : String) (now : ℕ) (t : PrefixTree)
    → t.capacity_tokens ≡ []
    → (insert tokens r now t).capacity_tokens ≡ []
unfolding insert get
capacity-insert [] r now t h = h
capacity-insert (x ∷ tokens) r now t h =
    ap (λ p. p.capacity_tokens) (enforce_open r (record_prefix (x ∷ tokens) r now t) (rw h)) ∙ h

pub unit-insert :
    (tokens : Tokens) (r : String) (now : ℕ) (t : PrefixTree)
    → (insert tokens r now t).prefix_match_unit ≡ t.prefix_match_unit
unfolding insert
unit-insert [] r now t = refl
unit-insert (x ∷ tokens) r now t =
    enforce_capacity_inv (λ p. p.prefix_match_unit ≡ t.prefix_match_unit) r
      (λ p c found e. unfold evict in e) (record_prefix (x ∷ tokens) r now t) refl

pub no_capacity :
    (r : String) (t : PrefixTree) → t.capacity_tokens ≡ [] → get r t.capacity_tokens ≡ none
unfolding get
no_capacity r t h = rw h

Answers-insert :
    (unit : ℕ) (tokens : Tokens) (r s : String) (now : ℕ) (t : PrefixTree) (ps : List Tokens)
    → Answers unit s t ps
    → Answers unit s (insert tokens r now t) (if str_eq r s then tokens ∷ ps else ps)
unfolding longest
Answers-insert unit tokens r s now t ps a = record {
  valid = insert-IsValid tokens r now t a.valid;
  same_unit = unit-insert tokens r now t ∙ a.same_unit;
  unbounded = capacity-insert tokens r now t a.unbounded;
  agree = λ q.
      ground
        (arith, cached-insert tokens r s now t q a.valid (no_capacity r t a.unbounded), a.agree q);
}

Answers-touch :
    (unit : ℕ) (tokens : Tokens) (r s : String) (now : ℕ) (t : PrefixTree) (ps : List Tokens)
    → Answers unit s t ps
    → Answers unit s (touch tokens r now t) ps
Answers-touch unit tokens r s now t ps a = record {
  valid = touch-IsValid tokens r now t a.valid;
  same_unit = unfold touch in a.same_unit;
  unbounded = unfold touch in a.unbounded;
  agree = λ q. ap (λ l. longest l q) (held-touch tokens r s now t) ∙ a.agree q;
}

Answers-remove :
    (unit : ℕ) (r s : String) (t : PrefixTree) (ps : List Tokens)
    → Answers unit s t ps
    → Answers unit s (remove_replica r t) (if str_eq r s then [] else ps)
unfolding longest
Answers-remove unit r s t ps a = record {
  valid = remove_replica-IsValid r t a.valid;
  same_unit = unfold remove_replica in a.same_unit;
  unbounded = unfold remove_replica in a.unbounded;
  agree = λ q. ap (λ l. longest l q) (held-remove_replica r s t) ∙ ground (arith, a.agree q);
}

Answers-run :
    (unit : ℕ) (s : String) (cs : List TreeCall) (t : PrefixTree) (ps : List Tokens)
    → Answers unit s t ps
    → Answers unit s (run cs t) (prompts s cs ps)
unfolding run prompts
Answers-run unit s [] t ps a = a
Answers-run unit s (inserts tokens r now ∷ cs) t ps a =
    Answers-run unit s cs (insert tokens r now t) _ (Answers-insert unit tokens r s now t ps a)
Answers-run unit s (touches tokens r now ∷ cs) t ps a =
    Answers-run unit s cs (touch tokens r now t) _ (Answers-touch unit tokens r s now t ps a)
Answers-run unit s (removes r ∷ cs) t ps a =
    Answers-run unit s cs (remove_replica r t) _ (Answers-remove unit r s t ps a)

-- Whatever the calls on a new tree without capacities, `match` answers for each replica with the
-- longest prefix that the query shares with a prompt recorded for it since its last removal,
-- rounded down to the unit, and has no entry where that is 0.
pub match-run :
    (unit : ℕ) (backend : Option String) (t : PrefixTree) (cs : List TreeCall) (s : String)
    (q : Tokens)
    → new_tree unit [] backend ≡ made t
    → get s (match_tokens (run cs t) q)
      ≡ (let n = round_down unit (longest (prompts s cs []) q) in if ltb 0 n then some n else none)
match-run unit backend t cs s q h =
    let (valid, same_unit, tile, unbounded) = new_tree-IsValid unit [] backend t h in
    let a = Answers-run unit s cs t [] (record {
      valid = valid;
      same_unit = same_unit;
      unbounded = unbounded;
      agree = new_tree-held unit [] backend t h s;
    }) in
    rw (get-match_tokens (run cs t) s q (a.valid s), a.agree q, a.same_unit)
