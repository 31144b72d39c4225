-- ===== src/Gateway/Starts.antt =====
-- The application that `create_app` of src/kv_aware_router/gateway.py builds.
use kv_aware_router.Fleet.Ledger.{count}
use kv_aware_router.Dict.{get}
use kv_aware_router.Prelude.{
  ℕ, ◌≡◌, ◌≢◌, ◌∙◌, ap, sym, refl, List, [], ◌∷◌, Option, some, none, String, eq_iff, arith,
  Option-cases, List-cases, inl, inr, subst, ◌||◌,
}
use kv_aware_router.Dict.{Dict, has, keys}
use kv_aware_router.Radix.Node.{Tokens}
use kv_aware_router.Fleet.{Fleet, NewFleet, started, failed, new_fleet}
use kv_aware_router.Fleet.Lifecycle.{new_fleet-Balanced, new_fleet_cases}
use kv_aware_router.Fleet.Names.{new_fleet-distinct}
use kv_aware_router.Policies.Candidates.{elem-keys}
use kv_aware_router.Policies.Hashing.{new_hash, ring_for}
use kv_aware_router.Policies.Tiebreak.{elem}
use kv_aware_router.Policies.Registry.{
  Policy, hashing, round_robin_from, fewest_connections, affinity, costs, IsReady, make_policy,
}
use kv_aware_router.World.{sum_values, truth_capacity}
use kv_aware_router.World.Start.{get-same_for, or_false, has-idle_states, has-same_for}
use kv_aware_router.Replay.Conservation.{sum_values-same_for}
use kv_aware_router.Gateway.{
  App, Config, new_stats, created, create_app, with_fleet, build_tokenizer,
}
use kv_aware_router.Gateway.Keeps.{prompt_tokens_of, uncached_tokens_of, handles, IsOpen}

-- Every policy is ready when it is made.
pub make_policy-IsReady :
    (hash : String → ℕ) (name : String) (p : Policy) → make_policy name ≡ some p → IsReady hash p
make_policy-IsReady hash name (round_robin_from n) h = tt
make_policy-IsReady hash name fewest_connections h = tt
make_policy-IsReady hash name (hashing c) h =
    let same : new_hash 100 64 ≡ c = unfold make_policy in ground (arith, h) in
    subst (λ x. IsReady hash (hashing x)) same (unfold ring_for in (refl, omega arith))
make_policy-IsReady hash name affinity h = tt
make_policy-IsReady hash name (costs cost) h = tt

new_fleet_names :
    (r : String) (rs : List String) (unit : ℕ) (capacity : Dict ℕ) (f : Fleet)
    → new_fleet (r ∷ rs) unit capacity none ≡ started f
    → (k : String) → has k f.replicas ≡ elem k (r ∷ rs)
unfolding has
new_fleet_names r rs unit capacity f h k =
    let (t, fresh, same) = new_fleet_cases r rs unit capacity none f h in
    ap (λ (g : Fleet). has k g.replicas) (sym same)
    ∙ has-idle_states k (r ∷ rs) []
    ∙ or_false (elem k (r ∷ rs))

module _ (hf_tokenizer : String → Option (String → Tokens)) where
  -- What an application is made of.
  with_fleet_cases :
      (config : Config) (f : Fleet) (a : App)
      → with_fleet hf_tokenizer config f ≡ created a
      → (p : Policy) × (encode_text : String → Tokens) × (make_policy config.policy ≡ some p)
        × (record {
          backends = config.backends;
          fleet = f;
          policy = p;
          encode_text = encode_text;
          stats = new_stats (keys config.backends);
        }
            ≡ a)
  with_fleet_cases config f a h = elim (Option-cases (make_policy config.policy)) [
    | inl e ↦ absurd (ground (arith, e, h))
    | inr (p, e) ↦ elim (Option-cases (build_tokenizer hf_tokenizer config.tokenizer)) [
      | inl e' ↦ absurd (ground (arith, e, e', h))
      | inr (encode_text, e') ↦ (p, encode_text, e, ground (arith, e, e', h))
    ]
  ]

  pub with_fleet-IsOpen :
      (hash : String → ℕ) (r url : String) (backends : Dict String) (config : Config) (f : Fleet)
      (a : App)
      → config.backends ≡ (r, url) ∷ backends
      → new_fleet
          (keys config.backends)
          config.match_unit
          (truth_capacity config.capacity_tokens (keys config.backends))
          none
        ≡ started f
      → with_fleet hf_tokenizer config f ≡ created a
      → IsOpen hash r a [] [] [] 0
  with_fleet-IsOpen hash r url backends config f a first fleet_made h =
      let (p, encode_text, policy_made, same) = with_fleet_cases config f a h in
      let ids : keys config.backends ≡ r ∷ keys backends = unfold keys in ap keys first in
      let unit = config.match_unit in
      let capacity = truth_capacity config.capacity_tokens (keys config.backends) in
      let fleet_so : new_fleet (r ∷ keys backends) unit capacity none ≡ started f =
        subst (λ rs. new_fleet rs unit capacity none ≡ started f) ids fleet_made in
      let names = new_fleet_names r (keys backends) unit capacity f fleet_so in
      subst (λ x. IsOpen hash r x [] [] [] 0) same
        (record {
          sound = record {
            balanced =
                unfold handles in
                new_fleet-Balanced r (keys backends) unit capacity none f fleet_so;
            once = new_fleet-distinct r (keys backends) unit capacity none f fleet_so;
            there = names r ∙ (unfold elem in ground (arith, eq_iff r r));
          };
          ready = make_policy-IsReady hash config.policy p policy_made;
          reachable =
              λ k e. sym (elem-keys k config.backends) ∙ ap (elem k) ids ∙ sym (names k) ∙ e;
          counts = λ k e.
              has-same_for k 0 (keys config.backends) []
              ∙ ap (λ b. b || has {V = ℕ} k []) (ap (elem k) ids ∙ sym (names k) ∙ e);
          tallied = record {
            all_requests = refl;
            all_failures = refl;
            prompts = unfold prompt_tokens_of in refl;
            cached = unfold uncached_tokens_of in omega arith;
            of_replica = λ k n e.
                unfold count in
                unfold handles in
                unfold get in ground (arith, get-same_for {A = ℕ} k 0 (keys config.backends) [], e);
            summed = sum_values-same_for (keys config.backends) [] (unfold sum_values in refl);
          };
        })

  -- `create_app` with a backend, after its fleet was made or refused.
  created_with :
      (config : Config) (a : App) (r url : String) (backends : Dict String) (n : NewFleet)
      → config.backends ≡ (r, url) ∷ backends
      → new_fleet
          (keys config.backends)
          config.match_unit
          (truth_capacity config.capacity_tokens (keys config.backends))
          none
        ≡ n
      → create_app hf_tokenizer config ≡ created a
      → (f : Fleet) × (n ≡ started f) × (with_fleet hf_tokenizer config f ≡ created a)
  unfolding create_app
  created_with config a r url backends (started f) e same h = (f, refl, ground (arith, e, same, h))
  created_with config a r url backends (failed x) e same h = absurd (ground (arith, e, same, h))

  create_app_nonempty :
      (config : Config) (a : App)
      → create_app hf_tokenizer config ≡ created a
      → config.backends ≢ []
  unfolding create_app
  create_app_nonempty config a h e = ground (arith, e, h)

  pub create_app_cases :
      (config : Config) (a : App)
      → create_app hf_tokenizer config ≡ created a
      → (r : String) × (url : String) × (backends : Dict String) × (f : Fleet) × (config.backends
          ≡ (r, url) ∷ backends)
        × (new_fleet
              (keys config.backends)
              config.match_unit
              (truth_capacity config.capacity_tokens (keys config.backends))
              none
            ≡ started f)
        × (with_fleet hf_tokenizer config f ≡ created a)
  create_app_cases config a h = elim (List-cases config.backends) [
    | inl e ↦ absurd (create_app_nonempty config a h e)
    | inr ((r, url), backends, e) ↦
        let (f, fleet_made, app_made) = created_with config a r url backends _ e refl h in
        (r, url, backends, f, e, fleet_made, app_made)
  ]
