-- ===== src/Fleet/Lifecycle.antt =====
-- Histories of a `Fleet` (src/kv_aware_router/fleet.py) from its constructor on.
use kv_aware_router.Prelude.{
  ℕ, ◌+◌, ◌-◌, ◌≡◌, ◌∙◌, inl, inr, ap, refl, sym, subst, List, [], ◌∷◌, Option, none, some, String,
  str_eq, eq_iff, arith, round_down-zero, Bool-cases,
}
use kv_aware_router.Dict.{Dict, get, put, get-put}
use kv_aware_router.Radix.Node.{Tokens}
use kv_aware_router.Radix.Held.{longest}
use kv_aware_router.Radix.Tree.{PrefixTree}
use kv_aware_router.Radix.Unit.{Made, made, refused, new_tree}
use kv_aware_router.Radix.Invariant.{get-match_tokens}
use kv_aware_router.Radix.Sessions.{new_tree-IsValid, new_tree-held}
use kv_aware_router.Fleet.{
  Fleet, ReplicaState, Dispatch, idle_state, idle_states, cached_tokens, uncached_for, sent, handle,
  dispatch, complete, new_fleet, fleet_with, started,
}
use kv_aware_router.Fleet.Estimates.{dispatch_cases}
use kv_aware_router.Fleet.Ledger.{count, owed, Balanced, complete_found}
use kv_aware_router.Fleet.Steps.{History, History-Balanced}

idle_states-idle :
    (rs : List String) (m : Dict ReplicaState)
    → ((s : String) (st : ReplicaState)
        → get s m ≡ some st
        → (st.in_flight ≡ 0) × (st.pending_prefill_tokens ≡ 0))
    → (s : String) (st : ReplicaState) → get s (idle_states rs m) ≡ some st
    → (st.in_flight ≡ 0) × (st.pending_prefill_tokens ≡ 0)
unfolding idle_states
idle_states-idle [] m idle s st h = idle s st h
idle_states-idle (r ∷ rs) m idle s st h =
    idle_states-idle rs (put r (idle_state r) m)
      (λ k new e. ground (arith, get-put r k (idle_state r) m, idle k new)) s st h

-- What a fleet starts with.
pub new_fleet_cases :
    (r : String) (rs : List String) (unit : ℕ) (capacity : Dict ℕ) (backend : Option String)
    (f : Fleet)
    → new_fleet (r ∷ rs) unit capacity backend ≡ started f
    → (t : PrefixTree) × (new_tree unit capacity backend ≡ made t) × (fleet_with t (r ∷ rs) ≡ f)
new_fleet_cases r rs unit capacity backend f h = with_tree (new_tree unit capacity backend) refl
  where
    with_tree :
        (m : Made PrefixTree)
        → new_tree unit capacity backend ≡ m
        → (t : PrefixTree) × (new_tree unit capacity backend ≡ made t) × (fleet_with t (r ∷ rs) ≡ f)
    with_tree (made t) e = (t, e, unfold new_fleet in ground (arith, e, h))
    with_tree (refused x) e = absurd (unfold new_fleet in ground (arith, e, h))

pub new_fleet-Balanced :
    (r : String) (rs : List String) (unit : ℕ) (capacity : Dict ℕ) (backend : Option String)
    (f : Fleet)
    → new_fleet (r ∷ rs) unit capacity backend ≡ started f
    → Balanced f []
new_fleet-Balanced r rs unit capacity backend f h =
    let (t, fresh, same) = new_fleet_cases r rs unit capacity backend f h in
    subst (λ g. Balanced g []) same
      (record {
        valid = (new_tree-IsValid unit capacity backend t fresh).0;
        in_flight = λ s st e. unfold count in (idle_states-idle (r ∷ rs) [] nobody s st e).0;
        pending = λ s st e. unfold owed in (idle_states-idle (r ∷ rs) [] nobody s st e).1;
        absent = λ s gone q. unfold longest in new_tree-held unit capacity backend t fresh s q;
      })
  where
    nobody :
        (s : String) (st : ReplicaState)
        → get s [] ≡ some st
        → (st.in_flight ≡ 0) × (st.pending_prefill_tokens ≡ 0)
    nobody s st e = unfold get in cc

-- From a new fleet on, whatever requests are sent and done in whatever order, and whatever replicas
-- join and leave, where no name that has left joins again while a handle is out for it:
-- each replica of the fleet is believed to have as many requests in flight as handles are out for it,
-- and as many tokens to prefill as these handles stand for.
pub History-counts :
    (r : String) (rs : List String) (unit : ℕ) (capacity : Dict ℕ) (backend : Option String)
    (f g : Fleet) (out : List Dispatch) (s : String) (state : ReplicaState)
    → new_fleet (r ∷ rs) unit capacity backend ≡ started f
    → History f [] g out
    → get s g.replicas ≡ some state
    → (state.in_flight ≡ count s out) × (state.pending_prefill_tokens ≡ owed s out)
History-counts r rs unit capacity backend f g out s state h hist e =
    let b = History-Balanced (new_fleet-Balanced r rs unit capacity backend f h) hist in
    (b.in_flight s state e, b.pending s state e)

-- After the same histories, in which no name joins again while a handle is out for it, a
-- replica that is not in the fleet has nothing cached.
pub History-absent :
    (r : String) (rs : List String) (unit : ℕ) (capacity : Dict ℕ) (backend : Option String)
    (f g : Fleet) (out : List Dispatch) (s : String) (q : Tokens)
    → new_fleet (r ∷ rs) unit capacity backend ≡ started f
    → History f [] g out
    → get s g.replicas ≡ none
    → get s (cached_tokens g q) ≡ none
History-absent r rs unit capacity backend f g out s q h hist gone =
    let b = History-Balanced (new_fleet-Balanced r rs unit capacity backend f h) hist in
    ground (
      arith,
      get-match_tokens g.tree s q (b.valid s),
      b.absent s gone q,
      round_down-zero g.tree.prefix_match_unit,
    )

add-sub_cancel : (a b : ℕ) → a + b - b ≡ a
add-sub_cancel a b = omega arith

settled_again :
    (f : Fleet) (r s : String) (tokens : Tokens) (now later : ℕ) (state : ReplicaState)
    → get r f.replicas ≡ some state
    → get s (complete (handle f r tokens) later (sent f r state tokens now)).replicas
      ≡ get s f.replicas
settled_again f r s tokens now later state found =
    let busy : ReplicaState = record state {
      in_flight = state.in_flight + 1;
      pending_prefill_tokens = state.pending_prefill_tokens + uncached_for f r tokens;
    } in
    let again : ReplicaState = record busy {
      in_flight = busy.in_flight - 1;
      pending_prefill_tokens = busy.pending_prefill_tokens - uncached_for f r tokens;
    } in
    let same : again ≡ state = λ i. record state {
      in_flight = add-sub_cancel state.in_flight 1 i;
      pending_prefill_tokens =
          add-sub_cancel state.pending_prefill_tokens (uncached_for f r tokens) i;
    } in
    let there : get r (put r busy f.replicas) ≡ some busy =
      ground (arith, get-put r r busy f.replicas, eq_iff r r) in
    rw (complete_found (handle f r tokens) later (sent f r state tokens now) busy there)
      (elim (Bool-cases (str_eq r s)) [
        | inl e ↦
            rw (get-put r s again (put r busy f.replicas), e, same)
              (sym found ∙ ap (λ k. get k f.replicas) ((eq_iff r s).0 e))
        | inr e ↦
            rw (get-put r s again (put r busy f.replicas), e, get-put r s busy f.replicas, e) refl
      ])

-- A request that is sent and done leaves every replica's counters as they were.
pub complete-dispatch :
    (f f' : Fleet) (r s : String) (tokens : Tokens) (now later : ℕ) (d : Dispatch)
    → dispatch f r tokens now ≡ some (f', d)
    → get s (complete d later f').replicas ≡ get s f.replicas
complete-dispatch f f' r s tokens now later d h =
    let (state, found, same_fleet, same_handle) = dispatch_cases f f' r tokens now d h in
    subst (λ g. get s (complete d later g).replicas ≡ get s f.replicas) same_fleet
      (subst (λ k. get s (complete k later (sent f r state tokens now)).replicas ≡ get s f.replicas)
        same_handle (settled_again f r s tokens now later state found))
