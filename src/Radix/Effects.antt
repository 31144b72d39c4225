-- ===== src/Radix/Effects.antt =====
-- What the methods of `PrefixTree` in src/kv_aware_router/radix.py do to the prefixes that are held.
use kv_aware_router.Prelude.{
  ℕ, ◌≤◌, ◌≡◌, ◌≢◌, ◌∙◌, ap, refl, max, true, false, [], ◌∷◌, none, some, String, str_eq, eq_iff,
  arith, if◌then◌else◌,
}
use kv_aware_router.Dict.{get, get_or}
use kv_aware_router.Radix.Node.{Tokens, Node, node, children, shared}
use kv_aware_router.Radix.TouchHeld.{unless, held-touch_below, held-forget_below}
use kv_aware_router.Radix.Touch.{forget_at}
use kv_aware_router.Radix.Held.{held_below, longest, reach_below}
use kv_aware_router.Radix.InsertHeld.{gain, reach-insert_below}
use kv_aware_router.Radix.Tree.{
  PrefixTree, match_tokens, enforce_capacity, record_prefix, insert, touch, remove_replica,
}
use kv_aware_router.Radix.Invariant.{
  ValidFor, IsValid, held, cached, cached-eq-reach, get-match_tokens, load_below,
}
use kv_aware_router.Radix.Upkeep.{
  touch-IsValid, record_prefix-IsValid, evict-IsValid, children-with_children,
}
use kv_aware_router.Radix.Capacity.{enforce_capacity_inv, enforce_capacity-within, root_Shape}
use kv_aware_router.Radix.Evictions.{held-evict_ne}

reach-record_prefix :
    (tokens : Tokens) (r s : String) (now : ℕ) (t : PrefixTree) (q : Tokens)
    → ValidFor s t
    → reach_below s (children (record_prefix tokens r now t).root) q
      ≡ max (reach_below s (children t.root) q) (gain r s tokens q)
unfolding record_prefix
reach-record_prefix tokens r s now t q v = rw children-with_children (
    reach-insert_below r s now true 0 tokens (children t.root) t.tokens_used q
      (root_Shape s t.root v.shape))

cached-record_prefix :
    (tokens : Tokens) (r s : String) (now : ℕ) (t : PrefixTree) (q : Tokens)
    → IsValid t
    → cached (record_prefix tokens r now t) s q ≡ max (cached t s q) (gain r s tokens q)
cached-record_prefix tokens r s now t q v = ground (
  arith,
  cached-eq-reach t s q (v s),
  cached-eq-reach (record_prefix tokens r now t) s q (record_prefix-IsValid tokens r now t v s),
  reach-record_prefix tokens r s now t q (v s),
)

-- Every insertion keeps the invariant, with the evictions that it sets off.
pub insert-IsValid :
    (tokens : Tokens) (r : String) (now : ℕ) (t : PrefixTree)
    → IsValid t
    → IsValid (insert tokens r now t)
unfolding insert
insert-IsValid [] r now t v = v
insert-IsValid (x ∷ tokens) r now t v =
    enforce_capacity_inv IsValid r (λ t' c found. evict-IsValid r t' c found) _
      (record_prefix-IsValid (x ∷ tokens) r now t v)

shared-nil : (q : Tokens) → shared [] q ≡ 0
unfolding shared
shared-nil q = refl

capacity-record_prefix :
    (tokens : Tokens) (r : String) (now : ℕ) (t : PrefixTree)
    → get r (record_prefix tokens r now t).capacity_tokens ≡ get r t.capacity_tokens
unfolding record_prefix
capacity-record_prefix tokens r now t = refl

pub enforce_open :
    (r : String) (t : PrefixTree) → get r t.capacity_tokens ≡ none → enforce_capacity r t ≡ t
unfolding enforce_capacity
enforce_open r t e = rw (e, enforce_capacity)

-- With no capacity for `r` an insertion adds the tokens to what `r` holds, and to no other replica.
pub cached-insert :
    (tokens : Tokens) (r s : String) (now : ℕ) (t : PrefixTree) (q : Tokens)
    → IsValid t
    → get r t.capacity_tokens ≡ none
    → cached (insert tokens r now t) s q
      ≡ (if str_eq r s then max (cached t s q) (shared tokens q) else cached t s q)
unfolding insert
cached-insert [] r s now t q v open_ended = ground (arith, shared-nil q)
cached-insert (x ∷ tokens) r s now t q v open_ended = ground (
  arith,
  cached-record_prefix (x ∷ tokens) r s now t q v,
  enforce_open r (record_prefix (x ∷ tokens) r now t)
      (capacity-record_prefix (x ∷ tokens) r now t ∙ open_ended),
)

-- Whatever the capacity and the evictions, an insertion for one replica changes nothing of what
-- another one can serve.
pub cached-insert_ne :
    (tokens : Tokens) (r s : String) (now : ℕ) (t : PrefixTree) (q : Tokens)
    → IsValid t
    → r ≢ s
    → cached (insert tokens r now t) s q ≡ cached t s q
unfolding insert
cached-insert_ne [] r s now t q v ne = refl
cached-insert_ne (x ∷ tokens) r s now t q v ne =
    enforce_capacity_inv (λ p. cached p s q ≡ cached t s q) r
      (λ p c found e. ap (λ l. longest l q) (held-evict_ne r s c p other) ∙ e) _
      (ground (arith, cached-record_prefix (x ∷ tokens) r s now t q v, other))
  where
    other : str_eq r s ≡ false
    other = ground (arith, eq_iff r s)

-- After an insertion of at least a token, on a valid tree, a replica with a capacity is within it,
-- by its counter and by the tokens that the tree holds for it.
pub insert-within_capacity :
    (x : ℕ) (tokens : Tokens) (r : String) (now cap : ℕ) (t : PrefixTree)
    → IsValid t
    → get r t.capacity_tokens ≡ some cap
    → (get_or r 0 (insert (x ∷ tokens) r now t).tokens_used ≤ cap)
      × (load_below r (children (insert (x ∷ tokens) r now t).root) ≤ cap)
unfolding insert
insert-within_capacity x tokens r now cap t v h =
    let t' = record_prefix (x ∷ tokens) r now t in
    let v' : IsValid t' = record_prefix-IsValid (x ∷ tokens) r now t v in
    let within : get_or r 0 (enforce_capacity r t').tokens_used ≤ cap =
      enforce_capacity-within r cap t' v' (unfold record_prefix in h) in
    let after : IsValid (insert (x ∷ tokens) r now t) = insert-IsValid (x ∷ tokens) r now t v in
    (within, omega (arith, within, (after r).accounted))

-- A touch changes nothing of what a replica holds.
pub held-touch :
    (tokens : Tokens) (r s : String) (now : ℕ) (t : PrefixTree)
    → held s (touch tokens r now t) ≡ held s t
unfolding touch
held-touch tokens r s now t =
    rw children-with_children (held-touch_below r s now tokens (children t.root))

-- On a valid tree a touch changes no entry of the answers of `match`, for any replica and any query.
pub match_tokens-touch :
    (tokens q : Tokens) (r s : String) (now : ℕ) (t : PrefixTree)
    → IsValid t
    → get s (match_tokens (touch tokens r now t) q) ≡ get s (match_tokens t q)
match_tokens-touch tokens q r s now t v =
    let same : cached (touch tokens r now t) s q ≡ cached t s q =
      ap (λ l. longest l q) (held-touch tokens r s now t) in
    let unit : (touch tokens r now t).prefix_match_unit ≡ t.prefix_match_unit =
      unfold touch in refl in
    rw
      (
        get-match_tokens (touch tokens r now t) s q (touch-IsValid tokens r now t v s),
        get-match_tokens t s q (v s),
        same,
        unit,
      )
      refl

held-forget_root :
    (r s : String) (n : Node)
    → held_below s (children (forget_at r n)) ≡ unless (str_eq r s) (held_below s (children n))
unfolding forget_at
held-forget_root r s (node e d cs rs) = held-forget_below r s cs

-- A removed replica holds nothing, and the others hold what they held.
pub held-remove_replica :
    (r s : String) (t : PrefixTree)
    → held s (remove_replica r t) ≡ (if str_eq r s then [] else held s t)
unfolding remove_replica
held-remove_replica r s t = held-forget_root r s t.root
