-- ===== src/Gateway/Keeps.antt =====
-- What an application of src/kv_aware_router/gateway.py keeps while requests arrive and end.
use Prim.Native.String.{◌++◌ as join}
use kv_aware_router.Dict.Distinct.{distinct}
use kv_aware_router.Fleet.Ledger.{Balanced, count}
use kv_aware_router.Dict.{get-put}
use kv_aware_router.Policies.Registry.{
  Policy, hashing, round_robin_from, fewest_connections, affinity, costs,
}
use kv_aware_router.Gateway.{Stats, Key, no_key, key_text, key_other, choose_for, route_text}
use kv_aware_router.Prelude.{
  none, eq_iff, ◌-◌, ℕ, ◌+◌, ◌≤◌, ◌≡◌, ◌∙◌, sym, refl, Bool, true, List, [], ◌∷◌, ◌++◌, Option,
  some, String, arith, length,
}
use kv_aware_router.Dict.{value_of_has, Dict, get, get_or, has, has-put_of_has}
use kv_aware_router.Radix.Node.{Tokens}
use kv_aware_router.Fleet.{Fleet, Dispatch, cached_tokens, dispatch, handle}
use kv_aware_router.Fleet.Estimates.{match_tokens-le}
use kv_aware_router.Fleet.Sound.{IsSound, dispatch-IsSound}
use kv_aware_router.Policies.Registry.{IsReady, choose_replica-has}
use kv_aware_router.Policies.Ready.{choose_replica-IsReady}
use kv_aware_router.Tokenize.{Message, render_messages}
use kv_aware_router.World.{sum_values}
use kv_aware_router.Replay.Rounds.{sum_values-put}
use kv_aware_router.Gateway.{
  App, Body, Ticket, ticket_of, Answer, forwarded, forward, route_messages, chat_completions,
  session_key, counted,
}

unfoldable pub handles : List Ticket → List Dispatch
handles [] = []
handles (t ∷ waiting) = t.dispatch ∷ handles waiting

-- The tokens of the requests, and those of them that were not cached.
unfoldable pub prompt_tokens_of : List Ticket → ℕ
prompt_tokens_of [] = 0
prompt_tokens_of (t ∷ log) = length t.dispatch.tokens + prompt_tokens_of log

unfoldable pub uncached_tokens_of : List Ticket → ℕ
uncached_tokens_of [] = 0
uncached_tokens_of (t ∷ log) = t.dispatch.uncached_tokens + uncached_tokens_of log

-- The counters say what was forwarded and what failed.
pub record IsCounted (stats : Stats) (log : List Ticket) (fails : ℕ) : Type 0 where
  pub all_requests : stats.requests ≡ length log
  pub all_failures : stats.failures ≡ fails
  pub prompts : stats.prompt_tokens ≡ prompt_tokens_of log
  pub cached : stats.cached_tokens + uncached_tokens_of log ≡ stats.prompt_tokens
  pub of_replica :
      (k : String) (n : ℕ) → get k stats.per_replica ≡ some n → n ≡ count k (handles log)
  pub summed : sum_values stats.per_replica ≡ stats.requests

-- The key is a text or none, or the policy does not read it.
abbrev pub IsUsable : Policy → Key → Type 0
IsUsable (hashing c) key_other = ⊥
IsUsable p key = Unit

-- The books are balanced against the requests that wait and those that were lost, the backends and
-- the counters have the replicas of the fleet, and the counters agree.
pub record IsOpen (hash : String → ℕ) (r₀ : String) (a : App) (waiting : List Ticket)
    (lost : List Dispatch) (log : List Ticket) (fails : ℕ) : Type 0 where
  pub sound : IsSound r₀ a.fleet (handles waiting ++ lost)
  pub ready : IsReady hash a.policy
  pub reachable : (k : String) → has k a.fleet.replicas ≡ true → has k a.backends ≡ true
  pub counts : (k : String) → has k a.fleet.replicas ≡ true → has k a.stats.per_replica ≡ true
  pub tallied : IsCounted a.stats log fails

-- A request that is forwarded, and a sound application after it.
pub record Forwards (hash : String → ℕ) (r₀ : String) (waiting : List Ticket) (lost : List Dispatch)
    (log : List Ticket) (fails : ℕ) (backends : Dict String) (tokens : Tokens) (answer : Answer)
    : Type 0 where
  pub after : App
  pub ticket : Ticket
  pub backend : String
  pub same : answer ≡ forwarded after ticket
  pub is_open : IsOpen hash r₀ after (ticket ∷ waiting) lost (ticket ∷ log) fails
  pub known : get ticket.dispatch.replica_id backends ≡ some backend
  pub to_url : ticket.url ≡ join backend "/v1/chat/completions"
  pub prompt : ticket.dispatch.tokens ≡ tokens

forward_next :
    (r : String) (tokens : Tokens) (stream : Bool) (now : ℕ) (a : App) (n : ℕ) (f : Fleet)
    (d : Dispatch) (backend : String)
    → get r a.stats.per_replica ≡ some n
    → dispatch a.fleet r tokens now ≡ some (f, d)
    → get r a.backends ≡ some backend
    → forward r tokens stream now a
      ≡ forwarded
          (record a {
            fleet = f;
            stats = counted r (length tokens) (get_or r 0 (cached_tokens a.fleet tokens)) n a.stats;
          })
          (ticket_of d backend (get_or r 0 (cached_tokens a.fleet tokens)) stream)
forward_next r tokens stream now a n f d backend counted_so sent url =
    unfold forward in rw (counted_so, sent, url, forward) refl

-- One request more in the counters.
counted-IsCounted :
    (r : String) (n : ℕ) (d : Dispatch) (found : ℕ) (backend : String) (stream : Bool)
    (stats : Stats) (log : List Ticket) (fails : ℕ)
    → d.replica_id ≡ r
    → found ≤ length d.tokens
    → d.uncached_tokens ≡ length d.tokens - found
    → get r stats.per_replica ≡ some n
    → IsCounted stats log fails
    → IsCounted
        (counted r (length d.tokens) found n stats)
        (ticket_of d backend found stream ∷ log)
        fails
unfolding prompt_tokens_of uncached_tokens_of handles count
counted-IsCounted r n d found backend stream stats log fails to_r fits rest had i = record {
  all_requests = omega (arith, i.all_requests);
  all_failures = i.all_failures;
  prompts = omega (arith, i.prompts);
  cached = omega (arith, i.cached, fits, rest);
  of_replica = λ k v e. ground (
    arith,
    to_r,
    e,
    get-put r k (n + 1) stats.per_replica,
    eq_iff r k,
    i.of_replica r n had,
    i.of_replica k v,
  );
  summed = omega (arith, sum_values-put r n stats.per_replica had, i.summed);
}

choose_for-has :
    (hash : String → ℕ) (p : Policy) (f : Fleet) (out : List Dispatch) (tokens : Tokens) (key : Key)
    (r : String)
    → IsUsable p key
    → IsReady hash p
    → Balanced f out
    → distinct f.replicas ≡ true
    → has r f.replicas ≡ true
    → (pick : String) × ((choose_for hash p f tokens key).0 ≡ some pick)
      × (has pick f.replicas ≡ true)
      × IsReady hash (choose_for hash p f tokens key).1
unfolding choose_for
choose_for-has hash p f out tokens no_key r u ready b once h =
    let (pick, found, there) = choose_replica-has hash p f out tokens none r ready b once h in
    (pick, found, there, choose_replica-IsReady hash p f tokens none ready)
choose_for-has hash p f out tokens (key_text k) r u ready b once h =
    let (pick, found, there) = choose_replica-has hash p f out tokens (some k) r ready b once h in
    (pick, found, there, choose_replica-IsReady hash p f tokens (some k) ready)
choose_for-has hash (hashing c) f out tokens key_other r u ready b once h = absurd u
choose_for-has hash (round_robin_from n) f out tokens key_other r u ready b once h =
    let (pick, found, there) =
      choose_replica-has hash (round_robin_from n) f out tokens none r ready b once h in
    (pick, found, there, choose_replica-IsReady hash (round_robin_from n) f tokens none ready)
choose_for-has hash fewest_connections f out tokens key_other r u ready b once h =
    let (pick, found, there) =
      choose_replica-has hash fewest_connections f out tokens none r ready b once h in
    (pick, found, there, choose_replica-IsReady hash fewest_connections f tokens none ready)
choose_for-has hash affinity f out tokens key_other r u ready b once h =
    let (pick, found, there) =
      choose_replica-has hash affinity f out tokens none r ready b once h in
    (pick, found, there, choose_replica-IsReady hash affinity f tokens none ready)
choose_for-has hash (costs cost) f out tokens key_other r u ready b once h =
    let (pick, found, there) =
      choose_replica-has hash (costs cost) f out tokens none r ready b once h in
    (pick, found, there, choose_replica-IsReady hash (costs cost) f tokens none ready)

module _ (hash : String → ℕ) (r₀ : String) (waiting : List Ticket) (lost : List Dispatch)
    (log : List Ticket) (fails : ℕ) where
  forward-IsOpen :
      (r : String) (tokens : Tokens) (stream : Bool) (now : ℕ) (a : App)
      → has r a.fleet.replicas ≡ true
      → IsOpen hash r₀ a waiting lost log fails
      → Forwards hash r₀ waiting lost log fails a.backends tokens (forward r tokens stream now a)
  unfolding handles
  forward-IsOpen r tokens stream now a h i =
      let (n, counted_so) = value_of_has r a.stats.per_replica (i.counts r h) in
      let (backend, url) = value_of_has r a.backends (i.reachable r h) in
      let (f, sent, sound, keeps) =
        dispatch-IsSound r₀ r a.fleet (handles waiting ++ lost) tokens now h i.sound in
      record {
        after = record a {
          fleet = f;
          stats = counted r (length tokens) (get_or r 0 (cached_tokens a.fleet tokens)) n a.stats;
        };
        backend = backend;
        known = url;
        to_url = refl;
        prompt = refl;
        ticket =
            ticket_of (handle a.fleet r tokens) backend (get_or r 0 (cached_tokens a.fleet tokens))
              stream;
        same =
            forward_next r tokens stream now a n f (handle a.fleet r tokens) backend counted_so sent
              url;
        is_open = record {
          sound = sound;
          ready = i.ready;
          reachable = λ k e. i.reachable k (sym (keeps k) ∙ e);
          counts = λ k e.
              has-put_of_has r k (n + 1) a.stats.per_replica (i.counts r h)
              ∙ i.counts k (sym (keeps k) ∙ e);
          tallied =
              counted-IsCounted r n (handle a.fleet r tokens)
                (get_or r 0 (cached_tokens a.fleet tokens)) backend stream a.stats log fails refl
                (match_tokens-le a.fleet.tree r tokens (i.sound.balanced.valid r)) refl counted_so
                i.tallied;
        };
      }

  route_text-IsOpen :
      (rendered : String) (key : Key) (stream : Bool) (now : ℕ) (a : App)
      → IsUsable a.policy key
      → IsOpen hash r₀ a waiting lost log fails
      → Forwards hash r₀ waiting lost log fails a.backends
          (a.encode_text rendered)
          (route_text hash rendered key stream now a)
  route_text-IsOpen rendered key stream now a usable i =
      let tokens = a.encode_text rendered in
      let (pick, found, there, ready) =
        choose_for-has hash a.policy a.fleet (handles waiting ++ lost) tokens key r₀ usable i.ready
          i.sound.balanced i.sound.once i.sound.there in
      let p = (choose_for hash a.policy a.fleet tokens key).1 in
      let fwd =
        forward-IsOpen pick tokens stream now (record a { policy = p }) there
          (record {
            sound = i.sound;
            ready = ready;
            reachable = i.reachable;
            counts = i.counts;
            tallied = i.tallied;
          }) in
      record {
        after = fwd.after;
        ticket = fwd.ticket;
        backend = fwd.backend;
        known = fwd.known;
        to_url = fwd.to_url;
        prompt = fwd.prompt;
        same = unfold route_text in rw (found, route_text) fwd.same;
        is_open = fwd.is_open;
      }

  -- A request with messages that are rendered and with a key that the policy can use is forwarded.
  pub chat_completions-IsOpen :
      (header : Option String) (body : Body) (now : ℕ) (messages : List Message) (rendered : String)
      (a : App)
      → body.messages ≡ some messages
      → render_messages messages ≡ some rendered
      → IsUsable a.policy (session_key header body.user)
      → IsOpen hash r₀ a waiting lost log fails
      → Forwards hash r₀ waiting lost log fails a.backends
          (a.encode_text rendered)
          (chat_completions hash header body now a)
  chat_completions-IsOpen header body now messages rendered a given text usable i =
      let fwd =
        route_text-IsOpen rendered (session_key header body.user) body.stream now a usable i in
      record {
        after = fwd.after;
        ticket = fwd.ticket;
        backend = fwd.backend;
        known = fwd.known;
        to_url = fwd.to_url;
        prompt = fwd.prompt;
        same =
            unfold chat_completions in
            unfold route_messages in rw (given, text, chat_completions, route_messages) fwd.same;
        is_open = fwd.is_open;
      }
