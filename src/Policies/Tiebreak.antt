-- ===== src/Policies/Tiebreak.antt =====
-- `_tiebreak` of src/kv_aware_router/policies.py and the order by load and name.
use kv_aware_router.Prelude.{
  ℕ, ◌≡◌, ◌∙◌, refl, Bool, true, false, ◌||◌, List, [], ◌∷◌, some, String, str_eq, eq_iff,
  if◌then◌else◌, arith, text_lt_not_trans, text_lt_asym, Bool-cases, inl, inr, All,
}
use kv_aware_router.Fleet.{Fleet}
use kv_aware_router.Policies.{load, before, least_loaded, tiebreak}

-- `r in rs`
unfoldable pub elem : String → List String → Bool
elem r [] = false
elem r (s ∷ rs) = str_eq s r || elem r rs

-- A name that the fleet has.
abbrev pub Loaded : Fleet → String → Type 0
Loaded f r = (n : ℕ) × (load f r ≡ some n)

-- `r` stands in `rs`, and none of `rs` has less load, or the same load and a smaller name.
pub record IsLeast (f : Fleet) (r : String) (rs : List String) : Type 0 where
  pub amount : ℕ
  pub loaded : load f r ≡ some amount
  pub among : elem r rs ≡ true
  pub least :
      (s : String) (n : ℕ) → elem s rs ≡ true → load f s ≡ some n → before n s amount r ≡ false

pub before_not_trans :
    (m n k : ℕ) (r b c : String)
    → before m r n b ≡ false
    → before n b k c ≡ false
    → before m r k c ≡ false
unfolding before
before_not_trans m n k r b c p q = ground (arith, text_lt_not_trans r b c)

pub before_asym : (m n : ℕ) (r b : String) → before m r n b ≡ true → before n b m r ≡ false
unfolding before
before_asym m n r b p = ground (arith, text_lt_asym r b)

IsLeast-drop :
    (f : Fleet) (b r c : String) (n m : ℕ) (rs : List String)
    → load f b ≡ some n
    → load f r ≡ some m
    → before m r n b ≡ true
    → IsLeast f c (r ∷ rs)
    → IsLeast f c (b ∷ r ∷ rs)
unfolding elem
IsLeast-drop f b r c n m rs hb hr p i = record {
  amount = i.amount;
  loaded = i.loaded;
  among = ground (arith, i.among);
  least = λ s k among hs. elim (Bool-cases (str_eq b s)) [
    | inl same ↦ ground (
      arith,
      eq_iff b s,
      same,
      hs,
      hb,
      before_not_trans n m i.amount b r c,
      before_asym m n r b p,
      i.least r m (ground (arith, eq_iff r r)) hr,
    )
    | inr other ↦ i.least s k (ground (arith, among, other)) hs
  ];
}

IsLeast-keep :
    (f : Fleet) (b r c : String) (n m : ℕ) (rs : List String)
    → load f b ≡ some n
    → load f r ≡ some m
    → before m r n b ≡ false
    → IsLeast f c (b ∷ rs)
    → IsLeast f c (b ∷ r ∷ rs)
unfolding elem
IsLeast-keep f b r c n m rs hb hr p i = record {
  amount = i.amount;
  loaded = i.loaded;
  among = ground (arith, i.among);
  least = λ s k among hs. elim (Bool-cases (str_eq r s)) [
    | inl same ↦ ground (
      arith,
      eq_iff r s,
      same,
      hs,
      hr,
      before_not_trans m n i.amount r b c,
      p,
      i.least b n (ground (arith, eq_iff b b)) hb,
    )
    | inr other ↦ i.least s k (ground (arith, among, other)) hs
  ];
}

least_loaded_round :
    (f : Fleet) (b r : String) (n m : ℕ) (rs : List String)
    → load f r ≡ some m
    → least_loaded f b n (r ∷ rs)
      ≡ least_loaded f (if before m r n b then r else b) (if before m r n b then m else n) rs
least_loaded_round f b r n m rs hr = unfold least_loaded in rw (hr, least_loaded)

tiebreak_cons :
    (f : Fleet) (r : String) (n : ℕ) (rs : List String)
    → load f r ≡ some n
    → tiebreak f (r ∷ rs) ≡ least_loaded f r n rs
tiebreak_cons f r n rs hr = unfold tiebreak in rw (hr, tiebreak)

least_loaded_lem :
    (f : Fleet) (b : String) (n : ℕ) (rs : List String)
    → load f b ≡ some n
    → All (Loaded f) rs
    → (c : String) × (least_loaded f b n rs ≡ some c) × IsLeast f c (b ∷ rs)
unfolding least_loaded elem
least_loaded_lem f b n [] hb h = (
  b,
  refl,
  record {
    amount = n;
    loaded = hb;
    among = ground (arith, eq_iff b b);
    least = λ s k among hs.
        ground (arith, eq_iff b s, text_lt_asym b b, among, hs, hb, before_asym n n b b);
  },
)
least_loaded_lem f b n (r ∷ rs) hb ((m, hr), h) = elim (Bool-cases (before m r n b)) [
  | inl p ↦
      let (c, found, i) = least_loaded_lem f r m rs hr h in
      (c, least_loaded_round f b r n m rs hr ∙ rw p found, IsLeast-drop f b r c n m rs hb hr p i)
  | inr p ↦
      let (c, found, i) = least_loaded_lem f b n rs hb h in
      (c, least_loaded_round f b r n m rs hr ∙ rw p found, IsLeast-keep f b r c n m rs hb hr p i)
]

-- When the fleet has all candidates, and there is one, the tie break returns the candidate with the
-- fewest requests in flight, and of those the one with the least name.
pub tiebreak-IsLeast :
    (f : Fleet) (r : String) (rs : List String)
    → All (Loaded f) (r ∷ rs)
    → (c : String) × (tiebreak f (r ∷ rs) ≡ some c) × IsLeast f c (r ∷ rs)
unfolding tiebreak
tiebreak-IsLeast f r rs ((n, hr), h) =
    let (c, found, i) = least_loaded_lem f r n rs hr h in (c, tiebreak_cons f r n rs hr ∙ found, i)
