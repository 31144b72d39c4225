-- ===== src/Fleet/Estimates.antt =====
-- The estimates of `Fleet` in src/kv_aware_router/fleet.py: what a replica can serve of a request,
-- and what it would have to prefill.
use kv_aware_router.Prelude.{
  ℕ, ◌+◌, ◌-◌, ◌≤◌, ◌≡◌, ◌≢◌, ◌∙◌, ap, sym, List, [], ◌∷◌, Option, none, some, String, eq_iff,
  arith, length, Option-cases, inl, inr, subst, round_down, round_down-le,
}
use kv_aware_router.Dict.{get, get_or, get_or-get, get-map_values}
use kv_aware_router.Radix.Node.{Tokens}
use kv_aware_router.Radix.Over.{shared-le_right, shared_self}
use kv_aware_router.Radix.Held.{longest}
use kv_aware_router.Radix.Tree.{PrefixTree, match_tokens, insert}
use kv_aware_router.Radix.Invariant.{IsValid, ValidFor, cached, held, get-match_tokens}
use kv_aware_router.Radix.Effects.{cached-insert, insert-IsValid}
use kv_aware_router.Fleet.{
  Fleet, ReplicaState, Dispatch, CostModel, cached_tokens, uncached_tokens, expected_ttft, ttft,
  dispatch, sent, handle,
}

longest-le : (ps : List Tokens) (q : Tokens) → longest ps q ≤ length q
unfolding longest
longest-le [] q = omega arith
longest-le (p ∷ ps) q = omega (arith, longest-le ps q, shared-le_right p q)

-- The tokens of a request that a replica serves from its cache.
pub get_or-match_tokens :
    (t : PrefixTree) (r : String) (q : Tokens)
    → ValidFor r t
    → get_or r 0 (match_tokens t q) ≡ round_down t.prefix_match_unit (cached t r q)
get_or-match_tokens t r q v =
    ground (arith, get_or-get r 0 (match_tokens t q), get-match_tokens t r q v)

pub match_tokens-le :
    (t : PrefixTree) (r : String) (q : Tokens)
    → ValidFor r t
    → get_or r 0 (match_tokens t q) ≤ length q
match_tokens-le t r q v = omega (
  arith,
  get_or-match_tokens t r q v,
  round_down-le t.prefix_match_unit (cached t r q),
  longest-le (held r t) q,
)

pub get-uncached_tokens :
    (f : Fleet) (r : String) (q : Tokens) (state : ReplicaState)
    → get r f.replicas ≡ some state
    → get r (uncached_tokens f q) ≡ some (length q - get_or r 0 (cached_tokens f q))
unfolding uncached_tokens
get-uncached_tokens f r q state h =
    get-map_values (λ s _. length q - get_or s 0 (match_tokens f.tree q)) r f.replicas ∙ rw h

-- For each replica of the fleet the cached and the uncached tokens of a request add up to it.
pub cached-add-uncached :
    (f : Fleet) (r : String) (q : Tokens) (state : ReplicaState)
    → IsValid f.tree
    → get r f.replicas ≡ some state
    → get_or r 0 (cached_tokens f q) + get_or r 0 (uncached_tokens f q) ≡ length q
cached-add-uncached f r q state v h = ground (
  arith,
  get_or-get r 0 (uncached_tokens f q),
  get-uncached_tokens f r q state h,
  match_tokens-le f.tree r q (v r),
)

-- The estimate for a replica of the fleet: its queue, and the part of the request that it does not
-- hold, at the price of a token.
pub get-expected_ttft :
    (f : Fleet) (r : String) (q : Tokens) (cost : CostModel) (state : ReplicaState)
    → get r f.replicas ≡ some state
    → get r (expected_ttft f q cost)
      ≡ some (ttft cost state (length q - get_or r 0 (cached_tokens f q)))
unfolding expected_ttft
get-expected_ttft f r q cost state h =
    get-map_values (λ s st. ttft cost st (get_or s 0 (uncached_tokens f q))) r f.replicas
    ∙ rw (h, get_or-get r 0 (uncached_tokens f q), get-uncached_tokens f r q state h)

pub dispatch_found :
    (f : Fleet) (r : String) (tokens : Tokens) (now : ℕ) (state : ReplicaState)
    → get r f.replicas ≡ some state
    → dispatch f r tokens now ≡ some (sent f r state tokens now, handle f r tokens)
dispatch_found f r tokens now state found = unfold dispatch in rw (found, dispatch)

dispatch_missing :
    (f : Fleet) (r : String) (tokens : Tokens) (now : ℕ)
    → get r f.replicas ≡ none
    → dispatch f r tokens now ≡ none
dispatch_missing f r tokens now missing = unfold dispatch in rw (missing, dispatch)

none-ne-some {ℓ} : {A : Type ℓ} {a : A} → none ≢ some a
none-ne-some h = cc

some_pair {ℓ} :
    {A B : Type ℓ} {a a' : A} {b b' : B}
    → ◌≡◌ {A = Option (A × B)} (some (a, b)) (some (a', b'))
    → (a ≡ a') × (b ≡ b')
some_pair h = ground arith

-- What a dispatch returns, for a replica of the fleet; it fails for no other reason.
pub dispatch_cases :
    (f f' : Fleet) (r : String) (tokens : Tokens) (now : ℕ) (d : Dispatch)
    → dispatch f r tokens now ≡ some (f', d)
    → (state : ReplicaState) × (get r f.replicas ≡ some state)
      × (sent f r state tokens now ≡ f')
      × (handle f r tokens ≡ d)
dispatch_cases f f' r tokens now d h = elim (Option-cases (get r f.replicas)) [
  | inl missing ↦ absurd (none-ne-some (sym (dispatch_missing f r tokens now missing) ∙ h))
  | inr (state, found) ↦
      let (same_fleet, same_handle) =
        some_pair (sym (dispatch_found f r tokens now state found) ∙ h) in
      (state, found, same_fleet, same_handle)
]

-- On a valid tree, once a request has been sent to a replica with no capacity set, the replica is
-- credited with the whole request, up to the unit, before the request is done.
pub cached-dispatch :
    (f f' : Fleet) (r : String) (q : Tokens) (now : ℕ) (d : Dispatch)
    → IsValid f.tree
    → get r f.tree.capacity_tokens ≡ none
    → dispatch f r q now ≡ some (f', d)
    → get_or r 0 (cached_tokens f' q) ≡ round_down f'.tree.prefix_match_unit (length q)
cached-dispatch f f' r q now d v open_ended h =
    let (state, found, same_fleet, same_handle) = dispatch_cases f f' r q now d h in
    subst
      (λ (g : Fleet).
        get_or r 0 (cached_tokens g q) ≡ round_down g.tree.prefix_match_unit (length q))
      same_fleet
      (get_or-match_tokens (insert q r now f.tree) r q (insert-IsValid q r now f.tree v r)
        ∙ ap (round_down (insert q r now f.tree).prefix_match_unit) whole)
  where
    whole : cached (insert q r now f.tree) r q ≡ length q
    whole = ground (
      arith,
      cached-insert q r r now f.tree q v open_ended,
      longest-le (held r f.tree) q,
      shared_self q,
      eq_iff r r,
    )
