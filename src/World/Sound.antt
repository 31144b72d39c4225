-- ===== src/World/Sound.antt =====
-- What a driver in src/kv_aware_router/replay.py or src/kv_aware_router/simulate.py relies on
-- between its calls: the fleet with its handles, and the tree of the replicas.
use kv_aware_router.Prelude.{ℕ, ◌≡◌, ◌∙◌, refl, true, List, ◌∷◌, ◌++◌, Option, some, none, String}
use kv_aware_router.Dict.{has}
use kv_aware_router.Radix.Node.{Tokens}
use kv_aware_router.Radix.Tree.{PrefixTree}
use kv_aware_router.Radix.Invariant.{IsValid}
use kv_aware_router.Radix.Effects.{insert-IsValid}
use kv_aware_router.Fleet.{Fleet, Dispatch, handle, complete}
use kv_aware_router.Fleet.Sound.{IsSound, insert-IsSound, dispatch-IsSound, complete-IsSound}
use kv_aware_router.World.{World, truth, truth_of, insert_of, insert_truth, send, take_back}

pub record WorldIsSound (r₀ : String) (w : World) (out : List Dispatch) : Type 0 where
  pub fleet : IsSound r₀ w.fleet out
  pub held : IsValid (truth w)

-- The same replicas are there.
abbrev pub Keeps : World → World → Type 0
Keeps w w' = (k : String) → has k w'.fleet.replicas ≡ has k w.fleet.replicas

insert_of-Sound :
    (r₀ r : String) (f : Fleet) (separate : Option PrefixTree) (out : List Dispatch)
    (tokens : Tokens) (now : ℕ)
    → has r f.replicas ≡ true
    → IsSound r₀ f out
    → IsValid (truth_of f separate)
    → WorldIsSound r₀ (insert_of tokens r now f separate) out
      × Keeps (record { fleet = f; separate = separate }) (insert_of tokens r now f separate)
insert_of-Sound r₀ r f none out tokens now h s v = (
  record {
    fleet = insert-IsSound r₀ r f out tokens now h s;
    held = insert-IsValid tokens r now f.tree v;
  },
  λ k. refl,
)
insert_of-Sound r₀ r f (some t) out tokens now h s v =
    (record { fleet = s; held = insert-IsValid tokens r now t v }, λ k. refl)

pub insert_truth-Sound :
    (r₀ r : String) (w : World) (out : List Dispatch) (tokens : Tokens) (now : ℕ)
    → has r w.fleet.replicas ≡ true
    → WorldIsSound r₀ w out
    → WorldIsSound r₀ (insert_truth tokens r now w) out × Keeps w (insert_truth tokens r now w)
insert_truth-Sound r₀ r w out tokens now h s =
    insert_of-Sound r₀ r w.fleet w.separate out tokens now h s.fleet s.held

-- The tree of the replicas depends on the fleet through its tree alone.
held_after :
    (f f' : Fleet) (separate : Option PrefixTree)
    → IsValid f'.tree
    → IsValid (truth_of f separate)
    → IsValid (truth_of f' separate)
held_after f f' none v h = v
held_after f f' (some t) v h = h

pub send-Sound :
    (r₀ r : String) (w : World) (out : List Dispatch) (tokens : Tokens) (now : ℕ)
    → has r w.fleet.replicas ≡ true
    → WorldIsSound r₀ w out
    → (w' : World) × (d : Dispatch) × (send tokens r now w ≡ some (w', d))
      × (d.replica_id ≡ r)
      × WorldIsSound r₀ w' (d ∷ out)
      × Keeps w w'
send-Sound r₀ r w out tokens now h s =
    let (s₁, keeps₁) = insert_truth-Sound r₀ r w out tokens now h s in
    let w₁ = insert_truth tokens r now w in
    let (f, found, sound, keeps₂) =
      dispatch-IsSound r₀ r w₁.fleet out tokens now (keeps₁ r ∙ h) s₁.fleet in
    (
      record { fleet = f; separate = w₁.separate },
      handle w₁.fleet r tokens,
      unfold send in rw (found, send) refl,
      refl,
      record {
        fleet = sound;
        held = held_after w₁.fleet f w₁.separate sound.balanced.valid s₁.held;
      },
      λ k. keeps₂ k ∙ keeps₁ k,
    )

pub take_back-Sound :
    (r₀ : String) (w : World) (d : Dispatch) (now : ℕ) (xs ys : List Dispatch)
    → WorldIsSound r₀ w (xs ++ (d ∷ ys))
    → WorldIsSound r₀ (take_back d now w) (xs ++ ys) × Keeps w (take_back d now w)
take_back-Sound r₀ w d now xs ys s =
    let (sound, keeps) = complete-IsSound r₀ w.fleet d now xs ys s.fleet in
    (
      record {
        fleet = sound;
        held = held_after w.fleet (complete d now w.fleet) w.separate sound.balanced.valid s.held;
      },
      keeps,
    )
