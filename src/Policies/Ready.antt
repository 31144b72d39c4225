-- ===== src/Policies/Ready.antt =====
-- The state of a policy of src/kv_aware_router/policies.py between two calls.
use kv_aware_router.Prelude.{ℕ, ◌≡◌, refl, Option, String, Bool-cases, Option-cases, inl, inr}
use kv_aware_router.Radix.Node.{Tokens}
use kv_aware_router.Fleet.{Fleet, replica_ids}
use kv_aware_router.Policies.{round_robin}
use kv_aware_router.Policies.Hashing.{ConsistentHash, same_ids, choose}
use kv_aware_router.Policies.Reassign.{choose-fresh}
use kv_aware_router.Policies.Registry.{
  Policy, round_robin_from, fewest_connections, hashing, affinity, costs, choose_replica, IsReady,
}

module _ (hash : String → ℕ) where
  vnodes-choose :
      (f : Fleet) (tokens : Tokens) (session : Option String) (c : ConsistentHash)
      → (choose hash f tokens session c).1.vnodes ≡ c.vnodes
  unfolding choose
  vnodes-choose f tokens session c = elim (Bool-cases (same_ids (replica_ids f) c.built_for)) [
    | inl same ↦ rw same refl
    | inr other ↦ rw other refl
  ]

  pub choose_replica-IsReady :
      (p : Policy) (f : Fleet) (tokens : Tokens) (session : Option String)
      → IsReady hash p
      → IsReady hash (choose_replica hash p f tokens session).1
  choose_replica-IsReady (round_robin_from n) f tokens session ready =
      elim (Option-cases (round_robin f n)) [
        | inl e ↦ unfold choose_replica in rw (e, choose_replica) tt
        | inr ((pick, n'), e) ↦ unfold choose_replica in rw (e, choose_replica) tt
      ]
  choose_replica-IsReady fewest_connections f tokens session ready = unfold choose_replica in tt
  choose_replica-IsReady (hashing c) f tokens session (built, pos) =
      unfold choose_replica in
      ((choose-fresh hash f tokens session c built).1, rw (vnodes-choose f tokens session c) pos)
  choose_replica-IsReady affinity f tokens session ready = unfold choose_replica in tt
  choose_replica-IsReady (costs cost) f tokens session ready = unfold choose_replica in tt
