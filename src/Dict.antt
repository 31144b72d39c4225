-- ===== src/Dict.antt =====
-- Python's `dict` with text keys, as an association list in insertion order: an assignment to a
-- key that is there keeps its place, a new key goes to the end, `pop` takes the key out.
pub mod Distinct
use mathlib.Core.Option
use kv_aware_router.Prelude.{
  ◌≡◌, ◌∙◌, refl, sym, ap, String, str_eq, eq_iff, Bool, true, false, ◌&&◌, not, Option, none, some,
  List, [], ◌∷◌, arith, if◌then◌else◌, Bool-cases, Option-cases, inl, inr,
}

abbrev pub Dict {ℓ} : Type ℓ → Type ℓ
Dict V = List (String × V)

abbrev pub is_some {ℓ} : {A : Type ℓ} → Option A → Bool
is_some none = false
is_some (some a) = true

module _ {ℓ} {V : Type ℓ} where
  unfoldable pub get : String → Dict V → Option V
  get k [] = none
  get k ((j, v) ∷ m) = if str_eq j k then some v else get k m

  -- `k in m`
  unfoldable pub has : String → Dict V → Bool
  has k [] = false
  has k ((j, v) ∷ m) = if str_eq j k then true else has k m

  -- `m.get(k, d)`
  unfoldable pub get_or : String → V → Dict V → V
  get_or k d [] = d
  get_or k d ((j, v) ∷ m) = if str_eq j k then v else get_or k d m

  -- `m[k] = v`
  unfoldable pub put : String → V → Dict V → Dict V
  put k v [] = (k, v) ∷ []
  put k v ((j, w) ∷ m) = if str_eq j k then (j, v) ∷ m else (j, w) ∷ put k v m

  -- `m.pop(k, None)`, and `del m[k]` where the key is there
  unfoldable pub remove : String → Dict V → Dict V
  remove k [] = []
  remove k ((j, v) ∷ m) = if str_eq j k then remove k m else (j, v) ∷ remove k m

  -- `m.setdefault(k, v)`
  unfoldable pub put_new : String → V → Dict V → Dict V
  put_new k v [] = (k, v) ∷ []
  put_new k v ((j, w) ∷ m) = if str_eq j k then (j, w) ∷ m else (j, w) ∷ put_new k v m

  -- `list(m)`
  unfoldable pub keys : Dict V → List String
  keys [] = []
  keys ((j, v) ∷ m) = j ∷ keys m

  pub get-put :
      (k j : String) (v : V) (m : Dict V)
      → get j (put k v m) ≡ (if str_eq k j then some v else get j m)
  unfolding get put
  get-put k j v [] = refl
  get-put k j v ((i, w) ∷ m) = ground (arith, eq_iff k j, eq_iff i k, eq_iff i j, get-put k j v m)

  pub has-put :
      (k j : String) (v : V) (m : Dict V)
      → has j (put k v m) ≡ (if str_eq k j then true else has j m)
  unfolding has put
  has-put k j v [] = refl
  has-put k j v ((i, w) ∷ m) = ground (arith, eq_iff k j, eq_iff i k, eq_iff i j, has-put k j v m)

  -- A value put at a key that is there adds no key.
  pub has-put_of_has :
      (k j : String) (v : V) (m : Dict V) → has k m ≡ true → has j (put k v m) ≡ has j m
  has-put_of_has k j v m h = elim (Bool-cases (str_eq k j)) [
    | inl same ↦ has-put k j v m ∙ rw same (sym (ap (λ i. has i m) (sym ((eq_iff k j).0 same)) ∙ h))
    | inr other ↦ has-put k j v m ∙ rw other refl
  ]

  pub get_or-put :
      (k j : String) (d v : V) (m : Dict V)
      → get_or j d (put k v m) ≡ (if str_eq k j then v else get_or j d m)
  unfolding get_or put
  get_or-put k j d v [] = refl
  get_or-put k j d v ((i, w) ∷ m) =
      ground (arith, eq_iff k j, eq_iff i k, eq_iff i j, get_or-put k j d v m)

  pub get-remove :
      (k j : String) (m : Dict V) → get j (remove k m) ≡ (if str_eq k j then none else get j m)
  unfolding get remove
  get-remove k j [] = ground arith
  get-remove k j ((i, w) ∷ m) = ground (arith, eq_iff k j, eq_iff i k, eq_iff i j, get-remove k j m)

  pub has-remove :
      (k j : String) (m : Dict V) → has j (remove k m) ≡ (if str_eq k j then false else has j m)
  unfolding has remove
  has-remove k j [] = ground arith
  has-remove k j ((i, w) ∷ m) = ground (arith, eq_iff k j, eq_iff i k, eq_iff i j, has-remove k j m)

  pub get_or-remove :
      (k j : String) (d : V) (m : Dict V)
      → get_or j d (remove k m) ≡ (if str_eq k j then d else get_or j d m)
  unfolding get_or remove
  get_or-remove k j d [] = ground arith
  get_or-remove k j d ((i, w) ∷ m) =
      ground (arith, eq_iff k j, eq_iff i k, eq_iff i j, get_or-remove k j d m)

  pub get-put_new :
      (k j : String) (v : V) (m : Dict V)
      → get j (put_new k v m) ≡ (if str_eq k j && not (has k m) then some v else get j m)
  unfolding get put_new has
  get-put_new k j v [] = ground arith
  get-put_new k j v ((i, w) ∷ m) =
      ground (arith, eq_iff k j, eq_iff i k, eq_iff i j, get-put_new k j v m)

  pub has-get : (k : String) (m : Dict V) → has k m ≡ is_some (get k m)
  unfolding has get
  has-get k [] = refl
  has-get k ((j, v) ∷ m) = ground (arith, has-get k m)

  pub get_or-get : (k : String) (d : V) (m : Dict V) → get_or k d m ≡ Option.get_or (get k m) d
  unfolding get get_or
  get_or-get k d [] = refl
  get_or-get k d ((j, v) ∷ m) = ground (arith, get_or-get k d m)

module _ {ℓ κ} {V : Type ℓ} {W : Type κ} where
  -- `{k: f(k, v) for k, v in m.items()}`
  unfoldable pub map_values : (String → V → W) → Dict V → Dict W
  map_values f [] = []
  map_values f ((k, v) ∷ m) = (k, f k v) ∷ map_values f m

  pub get-map_values :
      (f : String → V → W) (k : String) (m : Dict V)
      → get k (map_values f m) ≡ Option.map (f k) (get k m)
  unfolding get map_values
  get-map_values f k [] = refl
  get-map_values f k ((j, v) ∷ m) = elim (Bool-cases (str_eq j k)) [
    | inl same ↦ rw same (ap (λ i. some (f i v)) ((eq_iff j k).0 same))
    | inr other ↦ rw other (get-map_values f k m)
  ]

  pub keys-map_values : (f : String → V → W) (m : Dict V) → keys (map_values f m) ≡ keys m
  unfolding keys map_values
  keys-map_values f [] = refl
  keys-map_values f ((j, v) ∷ m) = ap (◌∷◌ j) (keys-map_values f m)

-- A key that is there has a value, and a value put at a key is found there alone.
pub value_of_has {ℓ} :
    {V : Type ℓ} (r : String) (m : Dict V) → has r m ≡ true → (v : V) × (get r m ≡ some v)
value_of_has r m h = elim (Option-cases (get r m)) [
  | inl missing ↦ ground (arith, has-get r m, missing, h)
  | inr found ↦ found
]

pub has_of_get {ℓ} :
    {V : Type ℓ} (r : String) (v : V) (m : Dict V) → get r m ≡ some v → has r m ≡ true
has_of_get r v m h = ground (arith, has-get r m, h)

pub get_other {ℓ} :
    {V : Type ℓ} (r k : String) (v : V) (m : Dict V)
    → str_eq r k ≡ false
    → get k (put r v m) ≡ get k m
get_other r k v m h = get-put r k v m ∙ rw h refl

pub get_same {ℓ} : {V : Type ℓ} (r : String) (v : V) (m : Dict V) → get r (put r v m) ≡ some v
get_same r v m = ground (arith, get-put r r v m, eq_iff r r)
