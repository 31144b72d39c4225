-- ===== src/Policies/Hashing.antt =====
-- `ConsistentHash` of src/kv_aware_router/policies.py. The parameter `hash` is `_hash` on the UTF-8
-- bytes of a text: the first 8 bytes of BLAKE2b as a number, which comes from `hashlib`.
use Prim.Native.String.{◌++◌ as append}
use mathlib.Core.Option
use kv_aware_router.Prelude.{
  ℕ, zero, suc, ◌+◌, ◌/◌, ◌%◌, Bool, true, false, ◌&&◌, List, [], ◌∷◌, ◌++◌, Option, none, some,
  String, ltb, leb, if◌then◌else◌, take, str_eq, get_elem?,
}
use kv_aware_router.Radix.Node.{Tokens}
use kv_aware_router.Fleet.{Fleet, replica_ids}
use kv_aware_router.Policies.{before}

abbrev pub digit : ℕ → String
digit n =
    Option.get_or (get_elem? ("0" ∷ "1" ∷ "2" ∷ "3" ∷ "4" ∷ "5" ∷ "6" ∷ "7" ∷ "8" ∷ "9" ∷ []) n) ""

unfoldable pub digits : ℕ → ℕ → String
digits zero n = digit n
digits (suc fuel) n =
    let front = digits fuel (n / 10) in if ltb n 10 then digit n else append front (digit (n % 10))

-- `str(n)`: a number has fewer digits than it counts, so it is fuel enough.
unfoldable pub str : ℕ → String
unfolding digits
str n = digits n n

-- `b",".join(str(t).encode() for t in tokens)`
unfoldable pub joined : Tokens → String
unfolding str
joined [] = ""
joined (t ∷ []) = str t
joined (t ∷ u ∷ q) = append (str t) (append "," (joined (u ∷ q)))

abbrev pub Point : Type 0
Point = ℕ × String

abbrev pub Ring : Type 0
Ring = List Point

-- `x < y` on the tuples of the ring.
abbrev pub point_before : Point → Point → Bool
point_before (m, r) (n, s) = before m r n s

-- `ring.sort()`
unfoldable pub place : Point → Ring → Ring
place x [] = x ∷ []
place x (y ∷ ring) =
    let later = place x ring in if point_before y x then y ∷ later else x ∷ y ∷ ring

unfoldable pub sort : Ring → Ring
unfolding place
sort [] = []
sort (x ∷ ring) = place x (sort ring)

-- The loop over the ring: the first point at or after `h`.
unfoldable pub at_or_after : ℕ → Ring → Option String
at_or_after h [] = none
at_or_after h ((point, r) ∷ ring) = if leb h point then some r else at_or_after h ring

-- `self._ring[0][1]`; `none` is the `IndexError`.
unfoldable pub first_owner : Ring → Option String
first_owner [] = none
first_owner ((point, r) ∷ ring) = some r

unfoldable pub owner : ℕ → Ring → Option String
unfolding at_or_after first_owner
owner h ring = elim (at_or_after h ring) [ none ↦ first_owner ring | some r ↦ some r ]

-- `tuple(ids) == self._built_for`
unfoldable pub same_ids : List String → List String → Bool
same_ids [] [] = true
same_ids [] (s ∷ ss) = false
same_ids (r ∷ rs) [] = false
same_ids (r ∷ rs) (s ∷ ss) = str_eq r s && same_ids rs ss

pub record ConsistentHash : Type 0 where
  pub vnodes : ℕ
  pub session_key_tokens : ℕ
  pub ring : Ring
  pub built_for : List String

-- `__init__`
abbrev pub new_hash : ℕ → ℕ → ConsistentHash
new_hash vnodes session_key_tokens = record {
  vnodes = vnodes;
  session_key_tokens = session_key_tokens;
  ring = [];
  built_for = [];
}

module _ (hash : String → ℕ) where
  -- The points of a replica, for `k` values of `v` from a first one.
  unfoldable pub points : String → ℕ → ℕ → Ring
  unfolding str
  points r v zero = []
  points r v (suc k) = (hash (append r (append "#" (str v))), r) ∷ points r (v + 1) k

  unfoldable pub all_points : ℕ → List String → Ring
  unfolding points
  all_points vnodes [] = []
  all_points vnodes (r ∷ rs) = points r 0 vnodes ++ all_points vnodes rs

  unfoldable pub ring_for : ℕ → List String → Ring
  unfolding sort all_points
  ring_for vnodes ids = sort (all_points vnodes ids)

  -- `_rebuild`
  abbrev pub rebuild : List String → ConsistentHash → ConsistentHash
  rebuild ids c = record c { ring = ring_for c.vnodes ids; built_for = ids }

  abbrev pub current : List String → ConsistentHash → ConsistentHash
  current ids c = if same_ids ids c.built_for then c else rebuild ids c

  -- The hash of the session key, or of the first tokens of the request.
  abbrev pub key_hash : ConsistentHash → Tokens → Option String → ℕ
  key_hash c tokens none = hash (joined (take c.session_key_tokens tokens))
  key_hash c tokens (some session) = hash session

  -- `choose`: the choice, and the ring that is kept for the next one.
  unfoldable pub choose :
      Fleet → Tokens → Option String → ConsistentHash → Option String × ConsistentHash
  unfolding ring_for owner
  choose f tokens session c =
      let c' = current (replica_ids f) c in (owner (key_hash c' tokens session) c'.ring, c')
