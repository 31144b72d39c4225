-- ===== src/Gateway/Endings.antt =====
-- How the requests of an application of src/kv_aware_router/gateway.py end, and the books of its
-- fleet.
use kv_aware_router.Gateway.Serving.{failures_of}
use kv_aware_router.Prelude.{
  ◌+◌, ℕ, ◌≡◌, ◌∙◌, ap, sym, refl, true, false, List, [], ◌∷◌, ◌++◌, String, arith, subst,
}
use kv_aware_router.Dict.{has}
use kv_aware_router.Fleet.{Dispatch, complete}
use kv_aware_router.Fleet.Ledger.{count, owed, count-append, owed-append}
use kv_aware_router.Fleet.Sound.{IsSound, complete-IsSound, same_books-Balanced}
use kv_aware_router.Gateway.{
  App, Ticket, Ending, answered, post_failed, cancelled, drained, stream_failed, hung_up,
  never_started, end_request, completed, with_failure, settles,
}
use kv_aware_router.Gateway.Keeps.{handles, IsOpen}

handles-append : (xs ys : List Ticket) → handles (xs ++ ys) ≡ handles xs ++ handles ys
unfolding handles
handles-append [] ys = refl
handles-append (t ∷ xs) ys = ap (t.dispatch ∷◌) (handles-append xs ys)

append_assoc : (xs ys zs : List Dispatch) → (xs ++ ys) ++ zs ≡ xs ++ (ys ++ zs)
append_assoc [] ys zs = refl
append_assoc (x ∷ xs) ys zs = ap (x ∷◌) (append_assoc xs ys zs)

-- The handles of the requests that wait, cut at one of them.
cut_at :
    (xs ys : List Ticket) (lost : List Dispatch)
    → handles (xs ++ ys) ++ lost ≡ handles xs ++ (handles ys ++ lost)
cut_at xs ys lost =
    ap (◌++ lost) (handles-append xs ys) ∙ append_assoc (handles xs) (handles ys) lost

-- A sum over the handles that are out, where one of them moves to those that are lost.
count-moved :
    (r : String) (xs ys : List Ticket) (t : Ticket) (lost : List Dispatch)
    → count r (handles (xs ++ ys) ++ (t.dispatch ∷ lost))
      ≡ count r (handles (xs ++ (t ∷ ys)) ++ lost)
unfolding handles count
count-moved r xs ys t lost = omega (
  arith,
  ap (count r) (cut_at xs ys (t.dispatch ∷ lost)),
  ap (count r) (cut_at xs (t ∷ ys) lost),
  count-append r (handles xs) (handles ys ++ (t.dispatch ∷ lost)),
  count-append r (handles ys) (t.dispatch ∷ lost),
  count-append r (handles xs) (t.dispatch ∷ (handles ys ++ lost)),
  count-append r (handles ys) lost,
)

owed-moved :
    (r : String) (xs ys : List Ticket) (t : Ticket) (lost : List Dispatch)
    → owed r (handles (xs ++ ys) ++ (t.dispatch ∷ lost)) ≡ owed r (handles (xs ++ (t ∷ ys)) ++ lost)
unfolding handles owed
owed-moved r xs ys t lost = omega (
  arith,
  ap (owed r) (cut_at xs ys (t.dispatch ∷ lost)),
  ap (owed r) (cut_at xs (t ∷ ys) lost),
  owed-append r (handles xs) (handles ys ++ (t.dispatch ∷ lost)),
  owed-append r (handles ys) (t.dispatch ∷ lost),
  owed-append r (handles xs) (t.dispatch ∷ (handles ys ++ lost)),
  owed-append r (handles ys) lost,
)

module _ (hash : String → ℕ) (r₀ : String) (a : App) (xs ys : List Ticket) (t : Ticket)
    (lost : List Dispatch) (log : List Ticket) (fails : ℕ) where
  taken_back :
      (now : ℕ)
      → IsOpen hash r₀ a (xs ++ (t ∷ ys)) lost log fails
      → IsSound r₀ (complete t.dispatch now a.fleet) (handles (xs ++ ys) ++ lost)
        × ((k : String) → has k (complete t.dispatch now a.fleet).replicas ≡ has k a.fleet.replicas)
  unfolding handles
  taken_back now i =
      let (sound, keeps) =
        complete-IsSound r₀ a.fleet t.dispatch now (handles xs) (handles ys ++ lost)
          (subst (IsSound r₀ a.fleet) (cut_at xs (t ∷ ys) lost) i.sound) in
      (subst (IsSound r₀ (complete t.dispatch now a.fleet)) (sym (cut_at xs ys lost)) sound, keeps)

  completed-IsOpen :
      (now : ℕ)
      → IsOpen hash r₀ a (xs ++ (t ∷ ys)) lost log fails
      → IsOpen hash r₀ (completed t.dispatch now a) (xs ++ ys) lost log fails
  unfolding handles
  completed-IsOpen now i =
      let (sound, keeps) = taken_back now i in
      record {
        sound = sound;
        ready = i.ready;
        reachable = λ k e. i.reachable k (sym (keeps k) ∙ e);
        counts = λ k e. i.counts k (sym (keeps k) ∙ e);
        tallied = i.tallied;
      }

  failed-IsOpen :
      (now : ℕ)
      → IsOpen hash r₀ a (xs ++ (t ∷ ys)) lost log fails
      → IsOpen hash r₀ (completed t.dispatch now (with_failure a)) (xs ++ ys) lost log (fails + 1)
  unfolding handles
  failed-IsOpen now i =
      let (sound, keeps) = taken_back now i in
      record {
        sound = sound;
        ready = i.ready;
        reachable = λ k e. i.reachable k (sym (keeps k) ∙ e);
        counts = λ k e. i.counts k (sym (keeps k) ∙ e);
        tallied = record {
          all_requests = i.tallied.all_requests;
          all_failures = omega (arith, i.tallied.all_failures);
          prompts = i.tallied.prompts;
          cached = i.tallied.cached;
          of_replica = i.tallied.of_replica;
          summed = i.tallied.summed;
        };
      }

  dropped-IsOpen :
      IsOpen hash r₀ a (xs ++ (t ∷ ys)) lost log fails
      → IsOpen hash r₀ a (xs ++ ys) (t.dispatch ∷ lost) log fails
  dropped-IsOpen i = record {
    sound = record {
      balanced =
          same_books-Balanced a.fleet (handles (xs ++ (t ∷ ys)) ++ lost)
            (handles (xs ++ ys) ++ (t.dispatch ∷ lost))
            (λ r. (count-moved r xs ys t lost, owed-moved r xs ys t lost)) i.sound.balanced;
      once = i.sound.once;
      there = i.sound.there;
    };
    ready = i.ready;
    reachable = i.reachable;
    counts = i.counts;
    tallied = i.tallied;
  }

  no_failure :
      {a' : App} {waiting : List Ticket}
      → IsOpen hash r₀ a' waiting lost log fails
      → IsOpen hash r₀ a' waiting lost log (fails + 0)
  no_failure {a'} {waiting} i = subst (IsOpen hash r₀ a' waiting lost log) (omega arith) i

  -- Every ending that takes the request back.
  pub end_request-IsOpen :
      (e : Ending) (now : ℕ)
      → settles e ≡ true
      → IsOpen hash r₀ a (xs ++ (t ∷ ys)) lost log fails
      → IsOpen hash r₀ (end_request e t.dispatch now a) (xs ++ ys) lost log (fails + failures_of e)
  unfolding settles end_request failures_of
  end_request-IsOpen answered now h i = no_failure (completed-IsOpen now i)
  end_request-IsOpen post_failed now h i = failed-IsOpen now i
  end_request-IsOpen cancelled now h i = absurd (ground (arith, h))
  end_request-IsOpen drained now h i = no_failure (completed-IsOpen now i)
  end_request-IsOpen stream_failed now h i = failed-IsOpen now i
  end_request-IsOpen hung_up now h i = no_failure (completed-IsOpen now i)
  end_request-IsOpen never_started now h i = absurd (ground (arith, h))

  -- Every ending that does not.
  pub end_request_dropped-IsOpen :
      (e : Ending) (now : ℕ)
      → settles e ≡ false
      → IsOpen hash r₀ a (xs ++ (t ∷ ys)) lost log fails
      → IsOpen hash r₀ (end_request e t.dispatch now a) (xs ++ ys) (t.dispatch ∷ lost) log fails
  unfolding settles end_request
  end_request_dropped-IsOpen answered now h i = absurd (ground (arith, h))
  end_request_dropped-IsOpen post_failed now h i = absurd (ground (arith, h))
  end_request_dropped-IsOpen cancelled now h i = dropped-IsOpen i
  end_request_dropped-IsOpen drained now h i = absurd (ground (arith, h))
  end_request_dropped-IsOpen stream_failed now h i = absurd (ground (arith, h))
  end_request_dropped-IsOpen hung_up now h i = absurd (ground (arith, h))
  end_request_dropped-IsOpen never_started now h i = dropped-IsOpen i
