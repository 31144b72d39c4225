-- ===== src/Fleet/Sound.antt =====
-- What a driver of `Fleet` (src/kv_aware_router/fleet.py) relies on between its calls: the books are
-- balanced against the handles that are out, each name stands once, and a given replica is there.
use kv_aware_router.Prelude.{
  ℕ, ◌≡◌, ◌∙◌, ap, sym, refl, true, List, [], ◌∷◌, ◌++◌, some, String, arith, Option-cases, inl,
  inr,
}
use kv_aware_router.Dict.{value_of_has, get, has, has-put_of_has, has-get}
use kv_aware_router.Dict.Distinct.{distinct, distinct-put}
use kv_aware_router.Radix.Node.{Tokens}
use kv_aware_router.Radix.Tree.{insert}
use kv_aware_router.Radix.Effects.{insert-IsValid, cached-insert_ne}
use kv_aware_router.Fleet.{Fleet, Dispatch, dispatch, complete, sent, handle}
use kv_aware_router.Fleet.Estimates.{dispatch_found}
use kv_aware_router.Fleet.Ledger.{
  Balanced, count, owed, count-append, owed-append, sent-Balanced, complete_missing, complete_found,
}
use kv_aware_router.Fleet.Steps.{complete-Balanced}
use kv_aware_router.Fleet.Names.{distinct-complete}

pub record IsSound (r₀ : String) (f : Fleet) (out : List Dispatch) : Type 0 where
  pub balanced : Balanced f out
  pub once : distinct f.replicas ≡ true
  pub there : has r₀ f.replicas ≡ true

-- The books do not depend on the order of the handles.
pub same_books-Balanced :
    (f : Fleet) (out out' : List Dispatch)
    → ((r : String) → (count r out' ≡ count r out) × (owed r out' ≡ owed r out))
    → Balanced f out
    → Balanced f out'
same_books-Balanced f out out' same b = record {
  valid = b.valid;
  in_flight = λ r state h. b.in_flight r state h ∙ sym (same r).0;
  pending = λ r state h. b.pending r state h ∙ sym (same r).1;
  absent = b.absent;
}

pub last-Balanced :
    (f : Fleet) (d : Dispatch) (out : List Dispatch)
    → Balanced f (d ∷ out)
    → Balanced f (out ++ (d ∷ []))
unfolding count owed
last-Balanced f d out b =
    same_books-Balanced f (d ∷ out) (out ++ (d ∷ []))
      (λ r.
        (ground (arith, count-append r out (d ∷ [])), ground (arith, owed-append r out (d ∷ []))))
      b

-- A prompt that the replicas record by themselves, in the tree that the fleet shares with them.
pub insert-IsSound :
    (r₀ r : String) (f : Fleet) (out : List Dispatch) (tokens : Tokens) (now : ℕ)
    → has r f.replicas ≡ true
    → IsSound r₀ f out
    → IsSound r₀ (record f { tree = insert tokens r now f.tree }) out
insert-IsSound r₀ r f out tokens now h s = record {
  balanced = record {
    valid = insert-IsValid tokens r now f.tree s.balanced.valid;
    in_flight = s.balanced.in_flight;
    pending = s.balanced.pending;
    absent = λ k gone q.
        cached-insert_ne tokens r k now f.tree q s.balanced.valid
          (λ e. ground (arith, has-get k f.replicas, ap (λ x. has x f.replicas) e, h, gone))
        ∙ s.balanced.absent k gone q;
  };
  once = s.once;
  there = s.there;
}

-- A request to a replica of the fleet is sent.
pub dispatch-IsSound :
    (r₀ r : String) (f : Fleet) (out : List Dispatch) (tokens : Tokens) (now : ℕ)
    → has r f.replicas ≡ true
    → IsSound r₀ f out
    → (f' : Fleet) × (dispatch f r tokens now ≡ some (f', handle f r tokens))
      × IsSound r₀ f' (handle f r tokens ∷ out)
      × ((k : String) → has k f'.replicas ≡ has k f.replicas)
dispatch-IsSound r₀ r f out tokens now h s =
    let (state, found) = value_of_has r f.replicas h in
    (
      sent f r state tokens now,
      dispatch_found f r tokens now state found,
      record {
        balanced = sent-Balanced f r tokens now state out found s.balanced;
        once = distinct-put r _ f.replicas s.once;
        there = has-put_of_has r r₀ _ f.replicas h ∙ s.there;
      },
      λ k. has-put_of_has r k _ f.replicas h,
    )

has-complete :
    (f : Fleet) (d : Dispatch) (now : ℕ) (k : String)
    → has k (complete d now f).replicas ≡ has k f.replicas
has-complete f d now k = elim (Option-cases (get d.replica_id f.replicas)) [
  | inl missing ↦ rw (complete_missing d now f missing) refl
  | inr (state, found) ↦ rw (complete_found d now f state found) (
      has-put_of_has d.replica_id k _ f.replicas
        (ground (arith, has-get d.replica_id f.replicas, found)))
]

pub complete-IsSound :
    (r₀ : String) (f : Fleet) (d : Dispatch) (now : ℕ) (xs ys : List Dispatch)
    → IsSound r₀ f (xs ++ (d ∷ ys))
    → IsSound r₀ (complete d now f) (xs ++ ys)
      × ((k : String) → has k (complete d now f).replicas ≡ has k f.replicas)
complete-IsSound r₀ f d now xs ys s = (
  record {
    balanced = complete-Balanced f d now xs ys s.balanced;
    once = distinct-complete f d now s.once;
    there = has-complete f d now r₀ ∙ s.there;
  },
  λ k. has-complete f d now k,
)
