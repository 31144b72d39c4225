-- ===== src/Replay/Counts.antt =====
-- The window of requests in flight in the loop of `replay` in src/kv_aware_router/replay.py.
use kv_aware_router.Prelude.{
  ℕ, suc, ◌+◌, ◌<◌, ◌⊎◌, ◌≡◌, ◌∙◌, ap, refl, true, false, List, [], ◌∷◌, ◌++◌, some, String, leb,
  arith, inl, inr, length, Bool-cases,
}
use kv_aware_router.Fleet.{Dispatch}
use kv_aware_router.World.{World, take_back}
use kv_aware_router.World.Sound.{WorldIsSound, Keeps, take_back-Sound}
use kv_aware_router.Replay.{make_room}

make_room_full :
    (concurrency now : ℕ) (w : World) (d : Dispatch) (inflight : List Dispatch)
    → leb concurrency (length (d ∷ inflight)) ≡ true
    → make_room concurrency now w (d ∷ inflight)
      ≡ make_room concurrency now (take_back d now w) inflight
make_room_full concurrency now w d inflight h = unfold make_room in rw h refl

make_room_free :
    (concurrency now : ℕ) (w : World) (d : Dispatch) (inflight : List Dispatch)
    → leb concurrency (length (d ∷ inflight)) ≡ false
    → make_room concurrency now w (d ∷ inflight) ≡ some (w, d ∷ inflight)
make_room_free concurrency now w d inflight h = unfold make_room in rw h refl

-- After the last handle that is taken back the window has just one free place.
last_one :
    (concurrency : ℕ) (inflight done rest : List Dispatch)
    → leb concurrency (suc (length inflight)) ≡ true
    → inflight ≡ done ++ rest
    → length rest < concurrency
    → (done ≡ []) ⊎ (length rest + 1 ≡ concurrency)
    → length rest + 1 ≡ concurrency
last_one concurrency inflight done rest full split free (inr e) = e
last_one concurrency inflight done rest full split free (inl e) =
    let same : inflight ≡ rest = split ∙ ap (◌++ rest) e in
    ground (arith, full, free, ap length same)

-- When requests may be in flight at all, and the world is sound, the loop that makes room ends with
-- a free place in the window, and takes back no more handles than that needs: none, or so many that
-- there is one free place. It takes back the oldest, keeps the others in order, and the world is sound
-- with those that are left and has the replicas it had.
pub make_room-Sound :
    (r₀ : String) (concurrency now : ℕ) (w : World) (inflight : List Dispatch)
    → 0 < concurrency
    → WorldIsSound r₀ w inflight
    → (w' : World) × (done : List Dispatch) × (rest : List Dispatch) × (make_room concurrency now w
          inflight
        ≡ some (w', rest))
      × (inflight ≡ done ++ rest)
      × (length rest < concurrency)
      × ((done ≡ []) ⊎ (length rest + 1 ≡ concurrency))
      × WorldIsSound r₀ w' rest
      × Keeps w w'
unfolding make_room
make_room-Sound r₀ concurrency now w [] pos b =
    (w, [], [], ground (arith, pos), refl, pos, inl refl, b, λ k. refl)
make_room-Sound r₀ concurrency now w (d ∷ inflight) pos b =
    elim (Bool-cases (leb concurrency (length (d ∷ inflight)))) [
      | inl full ↦
          let (sound, keeps) = take_back-Sound r₀ w d now [] inflight b in
          let (w', done, rest, found, split, free, needed, b', keeps') =
            make_room-Sound r₀ concurrency now (take_back d now w) inflight pos sound in
          (
            w',
            d ∷ done,
            rest,
            make_room_full concurrency now w d inflight full ∙ found,
            ap (◌∷◌ d) split,
            free,
            inr (last_one concurrency inflight done rest full split free needed),
            b',
            λ k. keeps' k ∙ keeps k,
          )
      | inr room ↦ (
        w,
        [],
        d ∷ inflight,
        make_room_free concurrency now w d inflight room,
        refl,
        ground (arith, room),
        inl refl,
        b,
        λ k. refl,
      )
    ]
