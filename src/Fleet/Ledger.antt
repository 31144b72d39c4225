-- ===== src/Fleet/Ledger.antt =====
-- The lifecycle calls of `Fleet` in src/kv_aware_router/fleet.py, against the requests that are in
-- flight: `dispatch` hands a handle out, `complete` takes it back, and replicas come and go.
use kv_aware_router.Prelude.{
  ℕ, ◌+◌, ◌≡◌, ◌≢◌, ◌∙◌, ◌⊎◌, inl, inr, ap, subst, true, false, List, [], ◌∷◌, ◌++◌, none, some,
  String, str_eq, eq_iff, arith, if◌then◌else◌, Bool-cases,
}
use kv_aware_router.Dict.{Dict, get, put, has, get-put}
use kv_aware_router.Radix.Node.{Tokens}
use kv_aware_router.Radix.Held.{longest}
use kv_aware_router.Radix.Invariant.{IsValid, cached}
use kv_aware_router.Radix.Upkeep.{touch-IsValid}
use kv_aware_router.Radix.Effects.{insert-IsValid, cached-insert_ne, held-touch}
use kv_aware_router.Fleet.{
  Fleet, ReplicaState, Dispatch, sent, handle, settled, dispatch, complete, add_replica,
  remove_replica,
}

-- The handles of a replica among those that are out, and the tokens that they stand for.
unfoldable pub count : String → List Dispatch → ℕ
count r [] = 0
count r (d ∷ out) = (if str_eq d.replica_id r then 1 else 0) + count r out

unfoldable pub owed : String → List Dispatch → ℕ
owed r [] = 0
owed r (d ∷ out) = (if str_eq d.replica_id r then d.uncached_tokens else 0) + owed r out

pub count-append :
    (r : String) (xs ys : List Dispatch) → count r (xs ++ ys) ≡ count r xs + count r ys
unfolding count
count-append r [] ys = omega arith
count-append r (d ∷ xs) ys = omega (arith, count-append r xs ys)

pub owed-append : (r : String) (xs ys : List Dispatch) → owed r (xs ++ ys) ≡ owed r xs + owed r ys
unfolding owed
owed-append r [] ys = omega arith
owed-append r (d ∷ xs) ys = omega (arith, owed-append r xs ys)

-- One call, with the handles that are out before and after. A replica joins under a name that no
-- handle is out for, or that is in the fleet. It may leave at any time.
pub data Step (f : Fleet) (out : List Dispatch) (f' : Fleet) (out' : List Dispatch) : Type 0 where
  dispatched :
      (r : String) (tokens : Tokens) (now : ℕ) (d : Dispatch)
      → dispatch f r tokens now ≡ some (f', d)
      → out' ≡ d ∷ out
      → Step f out f' out'
  completed :
      (xs ys : List Dispatch) (d : Dispatch) (now : ℕ)
      → out ≡ xs ++ (d ∷ ys)
      → f' ≡ complete d now f
      → out' ≡ xs ++ ys
      → Step f out f' out'
  joined :
      (r : String)
      → (has r f.replicas ≡ true) ⊎ (count r out ≡ 0)
      → f' ≡ add_replica r f
      → out' ≡ out
      → Step f out f' out'
  left : (r : String) → f' ≡ remove_replica r f → out' ≡ out → Step f out f' out'

-- The books are balanced: what the fleet believes about each of its replicas is what the handles
-- that are out say, and a replica that it does not have holds nothing.
pub record Balanced (f : Fleet) (out : List Dispatch) : Type 0 where
  pub valid : IsValid f.tree
  pub in_flight :
      (r : String) (state : ReplicaState)
      → get r f.replicas ≡ some state
      → state.in_flight ≡ count r out
  pub pending :
      (r : String) (state : ReplicaState)
      → get r f.replicas ≡ some state
      → state.pending_prefill_tokens ≡ owed r out
  pub absent : (r : String) → get r f.replicas ≡ none → (q : Tokens) → cached f.tree r q ≡ 0

pub get-put_cases :
    (r s : String) (new state : ReplicaState) (m : Dict ReplicaState)
    → get s (put r new m) ≡ some state
    → ((r ≡ s) × (new ≡ state)) ⊎ ((str_eq r s ≡ false) × (get s m ≡ some state))
get-put_cases r s new state m h = ground (arith, get-put r s new m, eq_iff r s)

pub get-put-none :
    (r s : String) (new : ReplicaState) (m : Dict ReplicaState)
    → get s (put r new m) ≡ none
    → (r ≢ s) × (get s m ≡ none)
get-put-none r s new m h =
    (λ e. ground (arith, get-put r s new m, eq_iff r s, h), ground (arith, get-put r s new m, h))

-- A name that the fleet has is not one that it has not.
pub found_ne_missing :
    (r s : String) (m : Dict ReplicaState) (state : ReplicaState)
    → get r m ≡ none
    → get s m ≡ some state
    → str_eq r s ≡ false
found_ne_missing r s m state missing found = elim (Bool-cases (str_eq r s)) [
  | inl same ↦ absurd (clash (subst (λ k. get k m ≡ none) ((eq_iff r s).0 same) missing))
  | inr other ↦ other
]
  where
    clash : get s m ≡ none → ⊥
    clash e = cc (e, found)

pub sent-Balanced :
    (f : Fleet) (r : String) (tokens : Tokens) (now : ℕ) (state : ReplicaState)
    (out : List Dispatch)
    → get r f.replicas ≡ some state
    → Balanced f out
    → Balanced (sent f r state tokens now) (handle f r tokens ∷ out)
unfolding count owed
sent-Balanced f r tokens now state out found b = record {
  valid = insert-IsValid tokens r now f.tree b.valid;
  in_flight = λ s st h. elim (get-put_cases r s _ st f.replicas h) [
    | inl (same, new) ↦ ground (arith, b.in_flight r state found, same, new, eq_iff r s)
    | inr (other, old) ↦ ground (arith, b.in_flight s st old, other)
  ];
  pending = λ s st h. elim (get-put_cases r s _ st f.replicas h) [
    | inl (same, new) ↦ ground (arith, b.pending r state found, same, new, eq_iff r s)
    | inr (other, old) ↦ ground (arith, b.pending s st old, other)
  ];
  absent = λ s gone q.
      let (other, missing) = get-put-none r s _ f.replicas gone in
      cached-insert_ne tokens r s now f.tree q b.valid other ∙ b.absent s missing q;
}

pub complete_missing :
    (d : Dispatch) (now : ℕ) (f : Fleet) → get d.replica_id f.replicas ≡ none → complete d now f ≡ f
complete_missing d now f missing = unfold complete in rw (missing, complete)

pub complete_found :
    (d : Dispatch) (now : ℕ) (f : Fleet) (state : ReplicaState)
    → get d.replica_id f.replicas ≡ some state
    → complete d now f ≡ settled d now f state
complete_found d now f state found = unfold complete in rw (found, complete)

-- A handle of a replica that has left is taken back without effect.
pub missing-Balanced :
    (f : Fleet) (d : Dispatch) (xs ys : List Dispatch)
    → get d.replica_id f.replicas ≡ none
    → Balanced f (xs ++ (d ∷ ys))
    → Balanced f (xs ++ ys)
unfolding count owed
missing-Balanced f d xs ys missing b = record {
  valid = b.valid;
  in_flight = λ s st h. ground (
    arith,
    b.in_flight s st h,
    count-append s xs (d ∷ ys),
    count-append s xs ys,
    found_ne_missing d.replica_id s f.replicas st missing h,
  );
  pending = λ s st h. ground (
    arith,
    b.pending s st h,
    owed-append s xs (d ∷ ys),
    owed-append s xs ys,
    found_ne_missing d.replica_id s f.replicas st missing h,
  );
  absent = b.absent;
}

pub settled-Balanced :
    (f : Fleet) (d : Dispatch) (now : ℕ) (xs ys : List Dispatch) (state : ReplicaState)
    → get d.replica_id f.replicas ≡ some state
    → Balanced f (xs ++ (d ∷ ys))
    → Balanced (settled d now f state) (xs ++ ys)
unfolding count owed
settled-Balanced f d now xs ys state found b = record {
  valid = touch-IsValid d.tokens d.replica_id now f.tree b.valid;
  in_flight = λ s st h. elim (get-put_cases d.replica_id s _ st f.replicas h) [
    | inl (same, new) ↦ ground (
      arith,
      b.in_flight d.replica_id state found,
      same,
      new,
      eq_iff d.replica_id s,
      count-append s xs (d ∷ ys),
      count-append s xs ys,
    )
    | inr (other, old) ↦
        ground
          (arith, b.in_flight s st old, other, count-append s xs (d ∷ ys), count-append s xs ys)
  ];
  pending = λ s st h. elim (get-put_cases d.replica_id s _ st f.replicas h) [
    | inl (same, new) ↦ ground (
      arith,
      b.pending d.replica_id state found,
      same,
      new,
      eq_iff d.replica_id s,
      owed-append s xs (d ∷ ys),
      owed-append s xs ys,
    )
    | inr (other, old) ↦
        ground (arith, b.pending s st old, other, owed-append s xs (d ∷ ys), owed-append s xs ys)
  ];
  absent = λ s gone q.
      let (other, missing) = get-put-none d.replica_id s _ f.replicas gone in
      ap (λ l. longest l q) (held-touch d.tokens d.replica_id s now f.tree) ∙ b.absent s missing q;
}
