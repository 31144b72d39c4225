-- ===== src/Policies/Reassign.antt =====
-- What `ConsistentHash.choose` of src/kv_aware_router/policies.py returns, with the ring that it
-- keeps, and after a replica has left.
use kv_aware_router.Prelude.{
  ℕ, zero, suc, ◌+◌, ◌<◌, ◌≡◌, ◌≢◌, ◌∙◌, refl, sym, ap, Bool, true, false, List, [], ◌∷◌, ◌++◌,
  Option, none, some, String, if◌then◌else◌, str_eq, eq_iff, arith, inl, inr, take, Bool-cases,
  Option-cases,
}
use kv_aware_router.Dict.{Dict, keys, has, remove}
use kv_aware_router.Radix.Node.{Tokens}
use kv_aware_router.Fleet.{Fleet, replica_ids, remove_replica}
use kv_aware_router.Policies.Tiebreak.{elem}
use kv_aware_router.Policies.Candidates.{elem-keys}
use kv_aware_router.Policies.Hashing.{
  Point, point_before, Ring, place, sort, at_or_after, first_owner, owner, same_ids, ConsistentHash,
  points, all_points, ring_for, current, key_hash, choose, joined,
}
use kv_aware_router.Policies.Ring.{
  without, drop_name, without-sort, without-append, owner-without, owner_found, owner_wraps,
}

keys-remove {ℓ} : {V : Type ℓ} (r : String) (m : Dict V) → keys (remove r m) ≡ drop_name r (keys m)
unfolding keys remove drop_name
keys-remove r [] = refl
keys-remove r ((s, v) ∷ m) = ground (arith, keys-remove r m)

same_ids-eq : (rs ss : List String) → same_ids rs ss ≡ true → rs ≡ ss
unfolding same_ids
same_ids-eq [] [] h = refl
same_ids-eq [] (s ∷ ss) h = cc
same_ids-eq (r ∷ rs) [] h = cc
same_ids-eq (r ∷ rs) (s ∷ ss) h = ground (arith, eq_iff r s, same_ids-eq rs ss)

drop_name_missing : (r : String) (rs : List String) → elem r rs ≡ false → drop_name r rs ≡ rs
unfolding drop_name elem
drop_name_missing r [] h = refl
drop_name_missing r (s ∷ rs) h = ground (arith, h, drop_name_missing r rs)

at_or_after-missing : (c : String) (h : ℕ) (ring : Ring) → at_or_after h (without c ring) ≢ some c
unfolding at_or_after without
at_or_after-missing c h [] e = cc
at_or_after-missing c h ((n, s) ∷ ring) e =
    ground (arith, eq_iff s c, e, at_or_after-missing c h ring)

first_owner-missing : (c : String) (ring : Ring) → first_owner (without c ring) ≢ some c
unfolding first_owner without
first_owner-missing c [] e = cc
first_owner-missing c ((n, s) ∷ ring) e = ground (arith, eq_iff s c, e, first_owner-missing c ring)

owner-missing : (c : String) (h : ℕ) (ring : Ring) → owner h (without c ring) ≢ some c
owner-missing c h ring e = elim (Option-cases (at_or_after h (without c ring))) [
  | inl wraps ↦ first_owner-missing c ring (sym (owner_wraps h (without c ring) wraps) ∙ e)
  | inr (d, found) ↦
      at_or_after-missing c h ring (found ∙ sym (owner_found h (without c ring) d found) ∙ e)
]

-- The ring has a point.
abbrev NonEmpty : Ring → Type 0
NonEmpty [] = ◌≡◌ {A = Bool} true false
NonEmpty (x ∷ ring) = Unit

place-NonEmpty : (x : Point) (ring : Ring) → NonEmpty (place x ring)
unfolding place
place-NonEmpty x [] = tt
place-NonEmpty x (y ∷ ring) = elim (Bool-cases (point_before y x)) [
  | inl e ↦ rw e tt
  | inr e ↦ rw e tt
]

owner-NonEmpty : (h : ℕ) (ring : Ring) → NonEmpty ring → (c : String) × (owner h ring ≡ some c)
unfolding first_owner
owner-NonEmpty h [] n = cc
owner-NonEmpty h ((m, s) ∷ ring) n = elim (Option-cases (at_or_after h ((m, s) ∷ ring))) [
  | inl wraps ↦ (s, owner_wraps h ((m, s) ∷ ring) wraps)
  | inr (d, found) ↦ (d, owner_found h ((m, s) ∷ ring) d found)
]

module _ (hash : String → ℕ) where
  points-without :
      (r s : String) (v k : ℕ)
      → without r (points hash s v k) ≡ (if str_eq s r then [] else points hash s v k)
  unfolding points without
  points-without r s v zero = ground arith
  points-without r s v (suc k) = ground (arith, points-without r s (v + 1) k)

  all_points-without :
      (r : String) (vnodes : ℕ) (ids : List String)
      → without r (all_points hash vnodes ids) ≡ all_points hash vnodes (drop_name r ids)
  unfolding all_points drop_name without
  all_points-without r vnodes [] = refl
  all_points-without r vnodes (s ∷ ids) =
      without-append r (points hash s 0 vnodes) (all_points hash vnodes ids)
      ∙ elim (Bool-cases (str_eq s r)) [
        | inl e ↦ rw (points-without r s 0 vnodes, e) (all_points-without r vnodes ids)
        | inr e ↦
            rw (points-without r s 0 vnodes, e)
              (ap (points hash s 0 vnodes ++◌) (all_points-without r vnodes ids))
      ]

  pub ring_for-without :
      (r : String) (vnodes : ℕ) (ids : List String)
      → without r (ring_for hash vnodes ids) ≡ ring_for hash vnodes (drop_name r ids)
  unfolding ring_for
  ring_for-without r vnodes ids =
      without-sort r (all_points hash vnodes ids) ∙ ap sort (all_points-without r vnodes ids)

  -- The kept ring is the one for the names that it was built for.
  abbrev pub IsBuilt : ConsistentHash → Type 0
  IsBuilt c = c.ring ≡ ring_for hash c.vnodes c.built_for

  -- The ring is for these names, and the settings are those of `c`.
  record IsCurrent (ids : List String) (c c' : ConsistentHash) : Type 0 where
    ring : c'.ring ≡ ring_for hash c.vnodes ids
    built : IsBuilt c'
    vnodes : c'.vnodes ≡ c.vnodes
    key_tokens : c'.session_key_tokens ≡ c.session_key_tokens

  current-IsCurrent :
      (ids : List String) (c : ConsistentHash) → IsBuilt c → IsCurrent ids c (current hash ids c)
  current-IsCurrent ids c b = elim (Bool-cases (same_ids ids c.built_for)) [
    | inl same ↦ rw same (record {
      ring = b ∙ ap (ring_for hash c.vnodes) (sym (same_ids-eq ids c.built_for same));
      built = b;
      vnodes = refl;
      key_tokens = refl;
    })
    | inr other ↦ rw other (record { ring = refl; built = refl; vnodes = refl; key_tokens = refl })
  ]

  key_hash-eq :
      (c c' : ConsistentHash) (tokens : Tokens) (session : Option String)
      → c'.session_key_tokens ≡ c.session_key_tokens
      → key_hash hash c' tokens session ≡ key_hash hash c tokens session
  key_hash-eq c c' tokens none e = ap (λ n. hash (joined (take n tokens))) e
  key_hash-eq c c' tokens (some session) e = refl

  choose_eq :
      (f : Fleet) (tokens : Tokens) (session : Option String) (c : ConsistentHash)
      → choose hash f tokens session c ≡ (
          let c' = current hash (replica_ids f) c in
          (owner (key_hash hash c' tokens session) c'.ring, c'))
  unfolding choose
  choose_eq f tokens session c = refl

  -- With a ring that was built for the names it is kept with, the choice is the one of a ring built for the replicas that
  -- are there now, and the ring that is kept is again built for the names it is kept with.
  pub choose-fresh :
      (f : Fleet) (tokens : Tokens) (session : Option String) (c : ConsistentHash)
      → IsBuilt c
      → ((choose hash f tokens session c).0
          ≡ owner (key_hash hash c tokens session) (ring_for hash c.vnodes (replica_ids f)))
        × IsBuilt (choose hash f tokens session c).1
  choose-fresh f tokens session c b =
      let c' = current hash (replica_ids f) c in
      let i = current-IsCurrent (replica_ids f) c b in
      rw (choose_eq f tokens session c) (
        ap (λ n. owner n c'.ring) (key_hash-eq c c' tokens session i.key_tokens)
            ∙ ap (owner (key_hash hash c tokens session)) i.ring,
        i.built,
      )

  -- A replica that leaves takes away only the keys that it owned: a request that another replica
  -- was chosen for goes to that replica again, with the ring that the first choice kept. The first
  -- choice starts from a ring that was built for the names it is kept with.
  pub choose-remove_replica :
      (f : Fleet) (tokens : Tokens) (session : Option String) (c : ConsistentHash) (r pick : String)
      → IsBuilt c
      → (choose hash f tokens session c).0 ≡ some pick
      → pick ≢ r
      → (choose hash (remove_replica r f) tokens session (choose hash f tokens session c).1).0
        ≡ some pick
  unfolding remove_replica
  choose-remove_replica f tokens session c r pick b h ne =
      let i = current-IsCurrent (replica_ids f) c b in
      let c' = current hash (replica_ids f) c in
      ap
        (λ (p : Option String × ConsistentHash).
          (choose hash (remove_replica r f) tokens session p.1).0)
        (choose_eq f tokens session c)
      ∙ (choose-fresh (remove_replica r f) tokens session c' i.built).0
      ∙ ap (λ n. owner n (ring_for hash c'.vnodes (keys (remove r f.replicas))))
          (key_hash-eq c c' tokens session i.key_tokens)
      ∙ ap
          (λ n.
            owner (key_hash hash c tokens session) (ring_for hash n (keys (remove r f.replicas))))
          i.vnodes
      ∙ ap (λ ids. owner (key_hash hash c tokens session) (ring_for hash c.vnodes ids))
          (keys-remove r f.replicas)
      ∙ ap (owner (key_hash hash c tokens session))
          (sym (ring_for-without r c.vnodes (replica_ids f)))
      ∙ owner-without r pick (key_hash hash c tokens session)
          (ring_for hash c.vnodes (replica_ids f)) ne
          (sym (choose-fresh f tokens session c b).0 ∙ h)

  owner-has :
      (h vnodes : ℕ) (ids : List String) (c : String)
      → owner h (ring_for hash vnodes ids) ≡ some c
      → elem c ids ≡ true
  owner-has h vnodes ids c e = elim (Bool-cases (elem c ids)) [
    | inl there ↦ there
    | inr gone ↦ absurd (
        owner-missing c h (ring_for hash vnodes ids) (
          ap (owner h) (
            ring_for-without c vnodes ids
            ∙ ap (ring_for hash vnodes) (drop_name_missing c ids gone))
          ∙ e))
  ]

  ring_for_cons :
      (vnodes : ℕ) (r : String) (ids : List String)
      → 0 < vnodes
      → NonEmpty (ring_for hash vnodes (r ∷ ids))
  unfolding ring_for all_points points sort
  ring_for_cons zero r ids pos = absurd (omega (arith, pos))
  ring_for_cons (suc k) r ids pos = place-NonEmpty _ _

  ring_for-NonEmpty :
      (vnodes : ℕ) (r : String) (ids : List String)
      → 0 < vnodes
      → elem r ids ≡ true
      → NonEmpty (ring_for hash vnodes ids)
  unfolding elem
  ring_for-NonEmpty vnodes r [] pos h = cc
  ring_for-NonEmpty vnodes r (s ∷ ids) pos h = ring_for_cons vnodes s ids pos

  -- With a positive number of virtual nodes and a replica in the fleet, the choice succeeds and is
  -- a replica of the fleet.
  pub choose-has :
      (f : Fleet) (tokens : Tokens) (session : Option String) (c : ConsistentHash) (r : String)
      → IsBuilt c
      → 0 < c.vnodes
      → has r f.replicas ≡ true
      → (pick : String) × ((choose hash f tokens session c).0 ≡ some pick)
        × (has pick f.replicas ≡ true)
  choose-has f tokens session c r b pos h =
      let (pick, found) =
        owner-NonEmpty (key_hash hash c tokens session) (ring_for hash c.vnodes (replica_ids f))
          (ring_for-NonEmpty c.vnodes r (replica_ids f) pos (elem-keys r f.replicas ∙ h)) in
      (
        pick,
        (choose-fresh f tokens session c b).0 ∙ found,
        sym (elem-keys pick f.replicas)
            ∙ owner-has (key_hash hash c tokens session) c.vnodes (replica_ids f) pick found,
      )
