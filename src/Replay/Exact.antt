-- ===== src/Replay/Exact.antt =====
-- The parts of `replay` in src/kv_aware_router/replay.py where the fleet and the replicas share
-- their tree.
use kv_aware_router.Prelude.{
  ℕ, ◌+◌, ◌%◌, ◌<◌, ◌≡◌, ◌∙◌, ap, sym, refl, List, [], ◌∷◌, ◌++◌, Option, some, none, String, leb,
  arith, Option-cases, Bool-cases, inl, inr, length, get_elem?, subst,
}
use kv_aware_router.Dict.{get, get_or}
use kv_aware_router.Radix.Node.{Tokens}
use kv_aware_router.Radix.Tree.{PrefixTree, match_tokens}
use kv_aware_router.Fleet.{Fleet, Dispatch, dispatch}
use kv_aware_router.Policies.Hashing.{str}
use kv_aware_router.Policies.Registry.{choose_replica}
use kv_aware_router.Workload.{Request}
use kv_aware_router.World.{World, truth, truth_of, insert_of, insert_truth, send, take_back}
use kv_aware_router.Replay.{
  Replay, ReplayResult, background, make_room, counted, serve, route, replay_one, replay_all,
}

-- One tree, and nothing expected that was not there.
pub record IsExact (s : Replay) : Type 0 where
  pub shared : s.world.separate ≡ none
  pub believed : s.result.believed_cached_tokens ≡ s.result.cached_tokens
  pub over : s.result.overpredicted_tokens ≡ 0
  pub missed : s.result.mispredicted_requests ≡ 0

separate-insert_of :
    (tokens : Tokens) (r : String) (now : ℕ) (f : Fleet) (separate : Option PrefixTree)
    → separate ≡ none
    → (insert_of tokens r now f separate).separate ≡ none
separate-insert_of tokens r now f none h = refl
separate-insert_of tokens r now f (some t) h = ground (arith, h)

separate-send :
    (tokens : Tokens) (r : String) (now : ℕ) (w w' : World) (d : Dispatch)
    → send tokens r now w ≡ some (w', d)
    → w.separate ≡ none
    → w'.separate ≡ none
separate-send tokens r now w w' d sent h =
    let w₁ = insert_truth tokens r now w in
    let same = separate-insert_of tokens r now w.fleet w.separate h in
    elim (Option-cases (dispatch w₁.fleet r tokens now)) [
      | inl e ↦ absurd (unfold send in ground (arith, e, sent))
      | inr ((f, d'), e) ↦
          let result : record { fleet = f; separate = w₁.separate } ≡ w' =
            unfold send in ground (arith, e, sent) in
          ap (λ (x : World). x.separate) (sym result) ∙ same
    ]

separate-make_room :
    (concurrency now : ℕ) (w w' : World) (inflight rest : List Dispatch)
    → make_room concurrency now w inflight ≡ some (w', rest)
    → w.separate ≡ none
    → w'.separate ≡ none
unfolding make_room
separate-make_room concurrency now w w' [] rest room h = ground (arith, room, h)
separate-make_room concurrency now w w' (d ∷ inflight) rest room h =
    elim (Bool-cases (leb concurrency (length (d ∷ inflight)))) [
      | inl e ↦
          separate-make_room concurrency now (take_back d now w) w' inflight rest
            (ground (arith, e, room)) h
      | inr e ↦
          let same : w ≡ w' = ground (arith, e, room) in
          ap (λ (x : World). x.separate) (sym same) ∙ h
    ]

background-IsExact :
    (ids : List String) (now : ℕ) (bg : List Request) (s s' : Replay)
    → background ids now bg s ≡ some s'
    → IsExact s
    → IsExact s'
unfolding background
background-IsExact ids now [] s s' h i = subst IsExact (ground (arith, h)) i
background-IsExact ids now (other ∷ bg) s s' h i = elim (Bool-cases (leb other.arrival now)) [
  | inr e ↦ subst IsExact (ground (arith, e, h)) i
  | inl e ↦ elim (Option-cases (get_elem? ids (s.bg_next % length ids))) [
    | inl f ↦ absurd (ground (arith, e, f, h))
    | inr (r, f) ↦
        background-IsExact ids now bg
          (record s {
            world = insert_truth other.tokens r other.arrival s.world;
            bg = bg;
            bg_next = s.bg_next + 1;
          })
          s' (ground (arith, e, f, h))
          (record {
            shared =
                separate-insert_of other.tokens r other.arrival s.world.fleet s.world.separate
                  i.shared;
            believed = i.believed;
            over = i.over;
            missed = i.missed;
          })
  ]
]

-- A request of which as much is cached as was believed.
counted_exact :
    (unit : ℕ) (req : Request) (r : String) (actual believed n : ℕ) (result : ReplayResult)
    → 0 < unit
    → actual ≡ believed
    → ((counted unit req r actual believed n result).believed_cached_tokens
        ≡ result.believed_cached_tokens + actual)
      × ((counted unit req r actual believed n result).overpredicted_tokens
          ≡ result.overpredicted_tokens)
      × ((counted unit req r actual believed n result).mispredicted_requests
          ≡ result.mispredicted_requests)
counted_exact unit req r actual believed n result pos same =
    (ground (arith, pos, same), ground (arith, pos, same), ground (arith, pos, same))

module _ (unit : ℕ) (pos : 0 < unit) where
  serve-IsExact :
      (req : Request) (r : String) (s s' : Replay)
      → serve unit req r s ≡ some s'
      → IsExact s
      → IsExact s'
  serve-IsExact req r s s' h i =
      let actual = get_or r 0 (match_tokens (truth s.world) req.tokens) in
      let believed = get_or r 0 (match_tokens s.world.fleet.tree req.tokens) in
      let same : actual ≡ believed =
        ap (λ t. get_or r 0 (match_tokens (truth_of s.world.fleet t) req.tokens)) i.shared in
      elim (Option-cases (get r s.result.requests_per_replica)) [
        | inl e ↦ absurd (unfold serve in ground (arith, e, h))
        | inr (n, e) ↦ elim (Option-cases (send req.tokens r req.arrival s.world)) [
          | inl f ↦ absurd (unfold serve in ground (arith, e, f, h))
          | inr ((w, d), f) ↦
              let (c₁, c₂, c₃) = counted_exact unit req r actual believed n s.result pos same in
              let result : record s {
                world = w;
                inflight = s.inflight ++ (d ∷ []);
                result = counted unit req r actual believed n s.result;
              }
                  ≡ s' =
                unfold serve in ground (arith, e, f, h) in
              subst IsExact result (record {
                shared = separate-send req.tokens r req.arrival s.world w d f i.shared;
                believed = omega (arith, c₁, i.believed);
                over = c₂ ∙ i.over;
                missed = c₃ ∙ i.missed;
              })
        ]
      ]

  route-IsExact :
      (hash : String → ℕ) (req : Request) (s s' : Replay)
      → route hash unit req s ≡ some s'
      → IsExact s
      → IsExact s'
  route-IsExact hash req s s' h i =
      let p = choose_replica hash s.policy s.world.fleet req.tokens (some (str req.session_id)) in
      elim (Option-cases p.0) [
        | inl e ↦ absurd (unfold route in ground (arith, e, h))
        | inr (r, e) ↦
            serve-IsExact req r (record s { policy = p.1 }) s'
              (unfold route in ground (arith, e, h))
              (record {
                shared = i.shared;
                believed = i.believed;
                over = i.over;
                missed = i.missed;
              })
      ]

  replay_one-IsExact :
      (hash : String → ℕ) (ids : List String) (concurrency : ℕ) (req : Request) (s s' : Replay)
      → replay_one hash ids concurrency unit req s ≡ some s'
      → IsExact s
      → IsExact s'
  replay_one-IsExact hash ids concurrency req s s' h i =
      elim (Option-cases (background ids req.arrival s.bg s)) [
        | inl e ↦ absurd (unfold replay_one in ground (arith, e, h))
        | inr (s₁, e) ↦
            elim (Option-cases (make_room concurrency req.arrival s₁.world s₁.inflight)) [
              | inl f ↦ absurd (unfold replay_one in ground (arith, e, f, h))
              | inr ((w, rest), f) ↦
                  let i₁ = background-IsExact ids req.arrival s.bg s s₁ e i in
                  route-IsExact hash req (record s₁ { world = w; inflight = rest }) s'
                    (unfold replay_one in ground (arith, e, f, h))
                    (record {
                      shared =
                          separate-make_room concurrency req.arrival s₁.world w s₁.inflight rest f
                            i₁.shared;
                      believed = i₁.believed;
                      over = i₁.over;
                      missed = i₁.missed;
                    })
            ]
      ]

  pub replay_all-IsExact :
      (hash : String → ℕ) (ids : List String) (concurrency : ℕ) (requests : List Request)
      (s s' : Replay)
      → replay_all hash ids concurrency unit requests s ≡ some s'
      → IsExact s
      → IsExact s'
  unfolding replay_all
  replay_all-IsExact hash ids concurrency [] s s' h i = subst IsExact (ground (arith, h)) i
  replay_all-IsExact hash ids concurrency (req ∷ requests) s s' h i =
      elim (Option-cases (replay_one hash ids concurrency unit req s)) [
        | inl e ↦ absurd (ground (arith, e, h))
        | inr (s₁, e) ↦
            replay_all-IsExact hash ids concurrency requests s₁ s' (ground (arith, e, h))
              (replay_one-IsExact hash ids concurrency req s s₁ e i)
      ]
