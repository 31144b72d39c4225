-- ===== src/Fleet/Names.antt =====
-- The keys of `Fleet.replicas` in src/kv_aware_router/fleet.py, which is a `dict`.
use kv_aware_router.Prelude.{
  ℕ, ◌≡◌, refl, subst, true, List, [], ◌∷◌, Option, String, Option-cases, inl, inr,
}
use kv_aware_router.Dict.{Dict, get}
use kv_aware_router.Dict.Distinct.{distinct, distinct-put, distinct-put_new, distinct-remove}
use kv_aware_router.Fleet.{
  Fleet, ReplicaState, Dispatch, started, idle_state, idle_states, new_fleet, complete, add_replica,
  remove_replica,
}
use kv_aware_router.Fleet.Estimates.{dispatch_cases}
use kv_aware_router.Fleet.Ledger.{
  Step, dispatched, completed, joined, left, complete_missing, complete_found,
}
use kv_aware_router.Fleet.Lifecycle.{new_fleet_cases}
use kv_aware_router.Fleet.Steps.{History, start, next}

distinct-idle_states :
    (rs : List String) (m : Dict ReplicaState)
    → distinct m ≡ true
    → distinct (idle_states rs m) ≡ true
unfolding idle_states
distinct-idle_states [] m h = h
distinct-idle_states (r ∷ rs) m h = distinct-idle_states rs _ (distinct-put r (idle_state r) m h)

pub distinct-complete :
    (f : Fleet) (d : Dispatch) (now : ℕ)
    → distinct f.replicas ≡ true
    → distinct (complete d now f).replicas ≡ true
distinct-complete f d now h = elim (Option-cases (get d.replica_id f.replicas)) [
  | inl missing ↦ rw (complete_missing d now f missing) h
  | inr (state, found) ↦ rw (complete_found d now f state found) (distinct-put d.replica_id _ _ h)
]

Step-distinct :
    (f f' : Fleet) (out out' : List Dispatch)
    → Step f out f' out'
    → distinct f.replicas ≡ true
    → distinct f'.replicas ≡ true
unfolding add_replica remove_replica
Step-distinct f f' out out' (dispatched r tokens now d h e) p =
    let (state, found, same_fleet, same_handle) = dispatch_cases f f' r tokens now d h in
    subst (λ g. distinct g.replicas ≡ true) same_fleet (distinct-put r _ f.replicas p)
Step-distinct f f' out out' (completed xs ys d now e g e') p = rw g (distinct-complete f d now p)
Step-distinct f f' out out' (joined r fresh g e) p = rw g (distinct-put_new r _ f.replicas p)
Step-distinct f f' out out' (left r g e) p = rw g (distinct-remove r f.replicas p)

pub new_fleet-distinct :
    (r : String) (rs : List String) (unit : ℕ) (capacity : Dict ℕ) (backend : Option String)
    (f : Fleet)
    → new_fleet (r ∷ rs) unit capacity backend ≡ started f
    → distinct f.replicas ≡ true
unfolding distinct
new_fleet-distinct r rs unit capacity backend f h =
    let (t, fresh, same) = new_fleet_cases r rs unit capacity backend f h in
    subst (λ g. distinct g.replicas ≡ true) same (distinct-idle_states (r ∷ rs) [] refl)

pub History-distinct :
    {f : Fleet} {out : List Dispatch} {g : Fleet} {mid : List Dispatch}
    → distinct f.replicas ≡ true
    → History f out g mid
    → distinct g.replicas ≡ true
History-distinct h start = h
History-distinct h (next hist step) = Step-distinct _ _ _ _ step (History-distinct h hist)
