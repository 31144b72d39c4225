-- ===== src/Fleet/Steps.antt =====
-- The lifecycle calls of `Fleet` in src/kv_aware_router/fleet.py, and histories of them, against the
-- handles that are out.
use kv_aware_router.Prelude.{
  ℕ, ◌≡◌, ◌∙◌, ◌⊎◌, inl, inr, ap, refl, subst, true, false, List, [], ◌∷◌, ◌++◌, some, String,
  str_eq, eq_iff, arith, Option-cases, Bool-cases,
}
use kv_aware_router.Dict.{Dict, get, has, put_new, get-put_new, get-remove}
use kv_aware_router.Radix.Held.{longest}
use kv_aware_router.Radix.Upkeep.{remove_replica-IsValid}
use kv_aware_router.Radix.Effects.{held-remove_replica}
use kv_aware_router.Fleet.{
  Fleet, ReplicaState, Dispatch, idle_state, handle, complete, add_replica, remove_replica,
}
use kv_aware_router.Fleet.Estimates.{dispatch_cases}
use kv_aware_router.Fleet.Ledger.{
  count, owed, Step, dispatched, completed, joined, left, Balanced, sent-Balanced, complete_missing,
  complete_found, missing-Balanced, settled-Balanced,
}

pub complete-Balanced :
    (f : Fleet) (d : Dispatch) (now : ℕ) (xs ys : List Dispatch)
    → Balanced f (xs ++ (d ∷ ys))
    → Balanced (complete d now f) (xs ++ ys)
complete-Balanced f d now xs ys b = elim (Option-cases (get d.replica_id f.replicas)) [
  | inl missing ↦ rw (complete_missing d now f missing) (missing-Balanced f d xs ys missing b)
  | inr (state, found) ↦
      rw (complete_found d now f state found) (settled-Balanced f d now xs ys state found b)
]

owed_of_no_count : (r : String) (out : List Dispatch) → count r out ≡ 0 → owed r out ≡ 0
unfolding count owed
owed_of_no_count r [] h = refl
owed_of_no_count r (d ∷ out) h = ground (arith, owed_of_no_count r out)

get-put_new_cases :
    (r s : String) (new state : ReplicaState) (m : Dict ReplicaState)
    → get s (put_new r new m) ≡ some state
    → ((r ≡ s) × (new ≡ state) × (has r m ≡ false)) ⊎ (get s m ≡ some state)
get-put_new_cases r s new state m h = ground (arith, get-put_new r s new m, eq_iff r s)

joined-Balanced :
    (f : Fleet) (r : String) (out : List Dispatch)
    → (has r f.replicas ≡ true) ⊎ (count r out ≡ 0)
    → Balanced f out
    → Balanced (add_replica r f) out
unfolding add_replica
joined-Balanced f r out fresh b = record {
  valid = b.valid;
  in_flight = λ s st h. elim (get-put_new_cases r s _ st f.replicas h) [
    | inl (same, new, absent) ↦ ground (arith, same, new, absent, fresh)
    | inr old ↦ b.in_flight s st old
  ];
  pending = λ s st h. elim (get-put_new_cases r s _ st f.replicas h) [
    | inl (same, new, absent) ↦ ground (arith, same, new, absent, fresh, owed_of_no_count r out)
    | inr old ↦ b.pending s st old
  ];
  absent =
      λ s gone q. b.absent s (ground (arith, get-put_new r s (idle_state r) f.replicas, gone)) q;
}

left-Balanced :
    (f : Fleet) (r : String) (out : List Dispatch)
    → Balanced f out
    → Balanced (remove_replica r f) out
unfolding remove_replica longest
left-Balanced f r out b = record {
  valid = remove_replica-IsValid r f.tree b.valid;
  in_flight = λ s st h. b.in_flight s st (ground (arith, get-remove r s f.replicas, h));
  pending = λ s st h. b.pending s st (ground (arith, get-remove r s f.replicas, h));
  absent = λ s gone q. elim (Bool-cases (str_eq r s)) [
    | inl same ↦ ap (λ l. longest l q) (held-remove_replica r s f.tree) ∙ rw same
    | inr other ↦
        ap (λ l. longest l q) (held-remove_replica r s f.tree)
        ∙ rw other (b.absent s (ground (arith, get-remove r s f.replicas, gone, other)) q)
  ];
}

-- Every call keeps the books balanced.
Step-Balanced :
    (f f' : Fleet) (out out' : List Dispatch)
    → Step f out f' out'
    → Balanced f out
    → Balanced f' out'
Step-Balanced f f' out out' (dispatched r tokens now d h e) b =
    let (state, found, same_fleet, same_handle) = dispatch_cases f f' r tokens now d h in
    rw e (
      subst (λ h'. Balanced f' (h' ∷ out)) same_handle
        (subst (λ g. Balanced g (handle f r tokens ∷ out)) same_fleet
          (sent-Balanced f r tokens now state out found b)))
Step-Balanced f f' out out' (completed xs ys d now e g e') b =
    rw (g, e') (complete-Balanced f d now xs ys (subst (Balanced f) e b))
Step-Balanced f f' out out' (joined r fresh g e) b = rw (g, e) (joined-Balanced f r out fresh b)
Step-Balanced f f' out out' (left r g e) b = rw (g, e) (left-Balanced f r out b)

pub data History (f : Fleet) (out : List Dispatch) : Fleet → List Dispatch → Type 0 where
  start : History f out f out
  next :
      {g h : Fleet} {mid end : List Dispatch}
      → History f out g mid
      → Step g mid h end
      → History f out h end

pub History-Balanced :
    {f : Fleet} {out : List Dispatch} {g : Fleet} {mid : List Dispatch}
    → Balanced f out
    → History f out g mid
    → Balanced g mid
History-Balanced b start = b
History-Balanced b (next hist step) = Step-Balanced _ _ _ _ step (History-Balanced b hist)
