-- ===== src/Gateway/Books.antt =====
-- The application of src/kv_aware_router/gateway.py from `create_app` on: what it can be asked for,
-- and what its counters say at any time.
use Prim.Native.String.{◌++◌ as join}
use kv_aware_router.Prelude.{
  refl, Bool, ℕ, ◌+◌, ◌≡◌, ◌∙◌, sym, List, ◌∷◌, Option, some, String, arith, Option-cases, inl, inr,
  length, subst,
}
use kv_aware_router.Dict.{get}
use kv_aware_router.Radix.Node.{Tokens}
use kv_aware_router.Fleet.{Dispatch, ReplicaState}
use kv_aware_router.Fleet.Ledger.{count, owed, count-append, owed-append}
use kv_aware_router.Tokenize.{Message, render_messages}
use kv_aware_router.World.{sum_values}
use kv_aware_router.Policies.Registry.{
  Policy, hashing, round_robin_from, fewest_connections, affinity, costs,
}
use kv_aware_router.Gateway.{
  App, Config, Body, Ticket, forwarded, chat_completions, Key, no_key, key_text, key_other,
  session_key, choose_for, route_text, route_messages,
}
use kv_aware_router.Gateway.Serving.{Serving, begun, accepted, ended, dropped}
use kv_aware_router.Gateway.Keeps.{
  prompt_tokens_of, uncached_tokens_of, IsUsable, handles, IsOpen, chat_completions-IsOpen,
}
use kv_aware_router.Gateway.Endings.{end_request-IsOpen, end_request_dropped-IsOpen}
use kv_aware_router.Gateway.Starts.{with_fleet-IsOpen, create_app_cases}

IsUsable-no_key : (p : Policy) → IsUsable p no_key
IsUsable-no_key (round_robin_from n) = tt
IsUsable-no_key fewest_connections = tt
IsUsable-no_key (hashing c) = tt
IsUsable-no_key affinity = tt
IsUsable-no_key (costs cost) = tt

IsUsable-key_text : (p : Policy) (k : String) → IsUsable p (key_text k)
IsUsable-key_text (round_robin_from n) k = tt
IsUsable-key_text fewest_connections k = tt
IsUsable-key_text (hashing c) k = tt
IsUsable-key_text affinity k = tt
IsUsable-key_text (costs cost) k = tt

module _ (hf_tokenizer : String → Option (String → Tokens)) where
  -- A key that the policy cannot use raises.
  route_text-IsUsable :
      (hash : String → ℕ) (rendered : String) (key : Key) (stream : Bool) (now : ℕ) (a a' : App)
      (p : Policy) (t : Ticket)
      → a.policy ≡ p
      → route_text hash rendered key stream now a ≡ forwarded a' t
      → IsUsable p key
  route_text-IsUsable hash rendered no_key stream now a a' p t e h = IsUsable-no_key p
  route_text-IsUsable hash rendered (key_text k) stream now a a' p t e h = IsUsable-key_text p k
  route_text-IsUsable hash rendered key_other stream now a a' (hashing c) t e h =
      unfold route_text in unfold choose_for in ground (arith, e, h)
  route_text-IsUsable hash rendered key_other stream now a a' (round_robin_from n) t e h = tt
  route_text-IsUsable hash rendered key_other stream now a a' fewest_connections t e h = tt
  route_text-IsUsable hash rendered key_other stream now a a' affinity t e h = tt
  route_text-IsUsable hash rendered key_other stream now a a' (costs cost) t e h = tt

  -- What a request that was forwarded came with.
  forwarded_cases :
      (hash : String → ℕ) (header : Option String) (body : Body) (now : ℕ) (a a' : App) (t : Ticket)
      → chat_completions hash header body now a ≡ forwarded a' t
      → (messages : List Message) × (rendered : String) × (body.messages ≡ some messages)
        × (render_messages messages ≡ some rendered)
        × IsUsable a.policy (session_key header body.user)
  forwarded_cases hash header body now a a' t h = elim (Option-cases body.messages) [
    | inl e ↦ absurd (unfold chat_completions in ground (arith, e, h))
    | inr (messages, e) ↦ elim (Option-cases (render_messages messages)) [
      | inl k ↦ absurd (unfold chat_completions in unfold route_messages in ground (arith, e, k, h))
      | inr (rendered, k) ↦
          let routed : route_text hash rendered (session_key header body.user) body.stream now a
              ≡ forwarded a' t =
            unfold chat_completions in unfold route_messages in ground (arith, e, k, h) in
          (
            messages,
            rendered,
            e,
            k,
            route_text-IsUsable hash rendered (session_key header body.user) body.stream now a a'
                a.policy t refl routed,
          )
    ]
  ]

  accepted-IsOpen :
      (hash : String → ℕ) (r : String) {a a' : App} {waiting : List Ticket} {lost : List Dispatch}
      {log : List Ticket} {fails : ℕ} {t : Ticket} (header : Option String) (body : Body) (now : ℕ)
      → chat_completions hash header body now a ≡ forwarded a' t
      → IsOpen hash r a waiting lost log fails
      → IsOpen hash r a' (t ∷ waiting) lost (t ∷ log) fails
  accepted-IsOpen hash r {a} {a'} {waiting} {lost} {log} {fails} {t} header body now h i =
      let (messages, rendered, given, text, usable) =
        forwarded_cases hash header body now a a' t h in
      let fwd =
        chat_completions-IsOpen hash r waiting lost log fails header body now messages rendered a
          given text usable i in
      let same : forwarded fwd.after fwd.ticket ≡ forwarded a' t = sym fwd.same ∙ h in
      let same_app : fwd.after ≡ a' = cc same in
      let same_ticket : fwd.ticket ≡ t = cc same in
      subst (λ x. IsOpen hash r x (t ∷ waiting) lost (t ∷ log) fails) same_app
        (subst (λ y. IsOpen hash r fwd.after (y ∷ waiting) lost (y ∷ log) fails) same_ticket
          fwd.is_open)

  -- Whatever arrives and ends, the application stays open.
  Serving-IsOpen :
      (hash : String → ℕ) (config : Config) {a : App} {waiting : List Ticket} {lost : List Dispatch}
      {log : List Ticket} {fails : ℕ}
      → Serving hf_tokenizer hash config a waiting lost log fails
      → (r : String) × IsOpen hash r a waiting lost log fails
  Serving-IsOpen hash config (begun h) =
      let (r, url, backends, f, first, fleet_made, app_made) =
        create_app_cases hf_tokenizer config _ h in
      (r, with_fleet-IsOpen hf_tokenizer hash r url backends config f _ first fleet_made app_made)
  Serving-IsOpen hash config (accepted header body now before h) =
      let (r, i) = Serving-IsOpen hash config before in
      (r, accepted-IsOpen hash r header body now h i)
  Serving-IsOpen hash config (ended xs ys t e now before h) =
      let (r, i) = Serving-IsOpen hash config before in
      (r, end_request-IsOpen hash r _ xs ys t _ _ _ e now h i)
  Serving-IsOpen hash config (dropped xs ys t e now before h) =
      let (r, i) = Serving-IsOpen hash config before in
      (r, end_request_dropped-IsOpen hash r _ xs ys t _ _ _ e now h i)

-- Whatever requests arrive at the application and however they end, in any order: the fleet believes
-- that each replica has as many requests in flight as wait for it, and as many again as were cancelled
-- or dropped before their stream started, and the same holds of the tokens to prefill.
pub Serving-counts :
    (hf_tokenizer : String → Option (String → Tokens)) (hash : String → ℕ) (config : Config)
    (a : App) (waiting : List Ticket) (lost : List Dispatch) (log : List Ticket) (fails : ℕ)
    (k : String) (state : ReplicaState)
    → Serving hf_tokenizer hash config a waiting lost log fails
    → get k a.fleet.replicas ≡ some state
    → (state.in_flight ≡ count k (handles waiting) + count k lost)
      × (state.pending_prefill_tokens ≡ owed k (handles waiting) + owed k lost)
Serving-counts hf_tokenizer hash config a waiting lost log fails k state serving found =
    let (r, i) = Serving-IsOpen hf_tokenizer hash config serving in
    (
      i.sound.balanced.in_flight k state found ∙ count-append k (handles waiting) lost,
      i.sound.balanced.pending k state found ∙ owed-append k (handles waiting) lost,
    )

-- At any time the counters say what was forwarded and what failed, over the list of all requests that
-- were forwarded: their number, for each replica the number of those that it was sent, the tokens of
-- their prompts, and the tokens of them that the fleet had found cached, which with the uncached ones
-- are all the tokens. The failures are the requests that ended in an `Exception` of their backend. The
-- requests of all replicas add up to the requests.
pub Serving-stats :
    (hf_tokenizer : String → Option (String → Tokens)) (hash : String → ℕ) (config : Config)
    (a : App) (waiting : List Ticket) (lost : List Dispatch) (log : List Ticket) (fails : ℕ)
    → Serving hf_tokenizer hash config a waiting lost log fails
    → (a.stats.requests ≡ length log)
      × (a.stats.failures ≡ fails)
      × (a.stats.prompt_tokens ≡ prompt_tokens_of log)
      × (a.stats.cached_tokens + uncached_tokens_of log ≡ a.stats.prompt_tokens)
      × ((k : String) (n : ℕ) → get k a.stats.per_replica ≡ some n → n ≡ count k (handles log))
      × (sum_values a.stats.per_replica ≡ a.stats.requests)
Serving-stats hf_tokenizer hash config a waiting lost log fails serving =
    let (r, i) = Serving-IsOpen hf_tokenizer hash config serving in
    let c = i.tallied in
    (c.all_requests, c.all_failures, c.prompts, c.cached, c.of_replica, c.summed)

-- At any time a chat request is forwarded, where its messages are a list that is rendered without an
-- error and its session key is none or a text, or the policy is not consistent hashing: the handler
-- does not raise, the request goes to the backend of the replica that it was dispatched to, and its
-- tokens are those of the rendered messages.
pub Serving-forwards :
    (hf_tokenizer : String → Option (String → Tokens)) (hash : String → ℕ) (config : Config)
    (a : App) (waiting : List Ticket) (lost : List Dispatch) (log : List Ticket) (fails : ℕ)
    (header : Option String) (body : Body) (messages : List Message) (rendered : String) (now : ℕ)
    → Serving hf_tokenizer hash config a waiting lost log fails
    → body.messages ≡ some messages
    → render_messages messages ≡ some rendered
    → IsUsable a.policy (session_key header body.user)
    → (a' : App) × (t : Ticket) × (backend : String) × (chat_completions hash header body now a
        ≡ forwarded a' t)
      × (get t.dispatch.replica_id a.backends ≡ some backend)
      × (t.url ≡ join backend "/v1/chat/completions")
      × (t.dispatch.tokens ≡ a.encode_text rendered)
Serving-forwards hf_tokenizer hash config a waiting lost log fails header body messages rendered now
      serving given text usable =
    let (r, i) = Serving-IsOpen hf_tokenizer hash config serving in
    let fwd =
      chat_completions-IsOpen hash r waiting lost log fails header body now messages rendered a
        given text usable i in
    (fwd.after, fwd.ticket, fwd.backend, fwd.same, fwd.known, fwd.to_url, fwd.prompt)
