-- ===== src/Tests/Rings.antt =====
-- `ConsistentHash` of src/kv_aware_router/policies.py on small inputs, with the length of a text and
-- its first character as a hash.
use Prim.Native.String.{len}
use kv_aware_router.Prelude.{
  ℕ, ◌≡◌, ◌≢◌, refl, true, [], ◌∷◌, none, some, String, str_eq, eq_iff, if◌then◌else◌, arith,
}
use kv_aware_router.Dict.{get, has, remove, keys, put}
use kv_aware_router.Fleet.{remove_replica, idle_states}
use kv_aware_router.Policies.{before}
use kv_aware_router.Policies.Hashing.{
  ConsistentHash, new_hash, ring_for, owner, choose, str, joined, key_hash, same_ids,
}
use kv_aware_router.Policies.Reassign.{IsBuilt, choose-fresh, choose-remove_replica, choose-has}
use kv_aware_router.Dict.Distinct.{distinct}
use kv_aware_router.Fleet.Lifecycle.{new_fleet-Balanced}
use kv_aware_router.Policies.Registry.{
  Policy, hashing, affinity, make_policy, choose_replica, choose_replica-has,
}
use kv_aware_router.Tests.Fleets.{two, two-started, prompt}

program : Unit {0}
unfolding str joined ring_for owner choose get has remove keys put idle_states remove_replica before
    same_ids
program = tt

texts : (str 0 ≡ "0") × (str 1_048_576 ≡ "1048576") × (joined (7 ∷ 10 ∷ []) ≡ "7,10")
unfolding program
texts = (refl, refl, refl)

-- A hash for the tests.
abbrev small_hash : String → ℕ
small_hash t =
    if str_eq t "a#0"
    then 40
    else if str_eq t "b#0"
    then 10
    else if str_eq t "a#1"
    then 70
    else if str_eq t "b#1"
    then 60
    else len t

abbrev fresh : ConsistentHash
fresh = new_hash 2 64

fresh-IsBuilt : IsBuilt small_hash fresh
unfolding program
fresh-IsBuilt = refl

ring :
    (ring_for small_hash 2 ("a" ∷ "b" ∷ []) ≡ (10, "b") ∷ (40, "a") ∷ (60, "b") ∷ (70, "a") ∷ [])
    × ((choose small_hash two prompt (some "session") fresh).0 ≡ some "b")
    × ((choose small_hash two prompt none fresh).0 ≡ some "b")
unfolding program
ring = (refl, refl, refl)

choose-fresh_example :
    ((choose small_hash two prompt none fresh).0
      ≡ owner (key_hash small_hash fresh prompt none) (ring_for small_hash 2 ("a" ∷ "b" ∷ [])))
    × IsBuilt small_hash (choose small_hash two prompt none fresh).1
unfolding program
choose-fresh_example = choose-fresh small_hash two prompt none fresh fresh-IsBuilt

b_not_a : ◌≢◌ {A = String} "b" "a"
b_not_a e = ground (arith, (eq_iff "b" "a").1 e)

choose-remove_replica_example :
    (choose small_hash
      (remove_replica "a" two)
      prompt
      (some "session")
      (choose small_hash two prompt (some "session") fresh).1).0
    ≡ some "b"
unfolding program
choose-remove_replica_example =
    choose-remove_replica small_hash two prompt (some "session") fresh "a" "b" fresh-IsBuilt refl
      b_not_a

choose-has_example :
    (pick : String) × ((choose small_hash two prompt none fresh).0 ≡ some pick)
    × (has pick two.replicas ≡ true)
unfolding program
choose-has_example =
    choose-has small_hash two prompt none fresh "a" fresh-IsBuilt (omega arith) refl

abbrev hashing_policy : Policy
hashing_policy = hashing fresh

named : (make_policy "pure_affinity" ≡ some affinity) × (make_policy "random" ≡ none)
unfolding make_policy
named = (refl, refl)

choose_replica-has_example :
    (pick : String) × ((choose_replica small_hash hashing_policy two prompt none).0 ≡ some pick)
    × (has pick two.replicas ≡ true)
unfolding program distinct
choose_replica-has_example =
    choose_replica-has small_hash hashing_policy two [] prompt none "a" (fresh-IsBuilt, omega arith)
      (new_fleet-Balanced "a" ("b" ∷ []) 16 [] none two two-started) refl refl
