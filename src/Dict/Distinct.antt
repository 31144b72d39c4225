-- ===== src/Dict/Distinct.antt =====
-- A `dict` has each key once.
use kv_aware_router.Prelude.{
  ◌≡◌, refl, String, str_eq, eq_iff, Bool, true, ◌&&◌, not, [], ◌∷◌, arith, if◌then◌else◌,
}
use kv_aware_router.Dict.{Dict, has, put, put_new, remove, map_values, has-put, has-remove}

module _ {ℓ} {V : Type ℓ} where
  unfoldable pub distinct : Dict V → Bool
  distinct [] = true
  distinct ((k, v) ∷ m) = not (has k m) && distinct m

  pub distinct-put :
      (k : String) (v : V) (m : Dict V) → distinct m ≡ true → distinct (put k v m) ≡ true
  unfolding distinct put has
  distinct-put k v [] h = refl
  distinct-put k v ((j, w) ∷ m) h =
      ground (arith, has-put k j v m, eq_iff j k, eq_iff k j, distinct-put k v m)

  has-put_new :
      (k j : String) (v : V) (m : Dict V)
      → has j (put_new k v m) ≡ (if str_eq k j then true else has j m)
  unfolding has put_new
  has-put_new k j v [] = refl
  has-put_new k j v ((i, w) ∷ m) =
      ground (arith, eq_iff k j, eq_iff i k, eq_iff i j, has-put_new k j v m)

  pub distinct-put_new :
      (k : String) (v : V) (m : Dict V) → distinct m ≡ true → distinct (put_new k v m) ≡ true
  unfolding distinct put_new has
  distinct-put_new k v [] h = refl
  distinct-put_new k v ((j, w) ∷ m) h =
      ground (arith, has-put_new k j v m, eq_iff j k, eq_iff k j, distinct-put_new k v m)

  pub distinct-remove : (k : String) (m : Dict V) → distinct m ≡ true → distinct (remove k m) ≡ true
  unfolding distinct remove
  distinct-remove k [] h = refl
  distinct-remove k ((j, w) ∷ m) h = ground (arith, has-remove k j m, distinct-remove k m)

module _ {ℓ κ} {V : Type ℓ} {W : Type κ} where
  pub has-map_values :
      (f : String → V → W) (k : String) (m : Dict V) → has k (map_values f m) ≡ has k m
  unfolding has map_values
  has-map_values f k [] = refl
  has-map_values f k ((j, v) ∷ m) = ground (arith, has-map_values f k m)

  pub distinct-map_values :
      (f : String → V → W) (m : Dict V) → distinct (map_values f m) ≡ distinct m
  unfolding distinct map_values
  distinct-map_values f [] = refl
  distinct-map_values f ((j, v) ∷ m) = ground (arith, has-map_values f j m, distinct-map_values f m)
