-- ===== src/Gateway.antt =====
-- src/kv_aware_router/gateway.py: the application that `create_app` builds, and what its handler of
-- chat requests does before the request is forwarded and after it ends. HTTP itself and the fields of
-- the answers are left out. `HFTokenizer` stands for a package, and is a parameter.
pub mod Serving
pub mod Keeps
pub mod Endings
pub mod Starts
pub mod Books
use mathlib.Core.Option
use Prim.Native.String.{◌++◌ as join}
use kv_aware_router.Prelude.{
  ℕ, ◌+◌, ◌≡◌, Bool, true, false, List, [], ◌∷◌, Option, none, some, String, str_eq, if◌then◌else◌,
  length,
}
use kv_aware_router.Dict.{Dict, get, get_or, put, keys}
use kv_aware_router.Radix.Node.{Tokens}
use kv_aware_router.Policies.Hashing.{current}
use kv_aware_router.Fleet.{
  replica_ids, Fleet, Dispatch, FleetError, NewFleet, started, failed, new_fleet, cached_tokens,
  dispatch, complete,
}
use kv_aware_router.Policies.Registry.{Policy, hashing, choose_replica, make_policy}
use kv_aware_router.Tokenize.{Message, render_messages, encode}
use kv_aware_router.World.{same_for, truth_capacity}

pub record Stats : Type 0 where
  pub requests : ℕ
  pub failures : ℕ
  pub prompt_tokens : ℕ
  pub cached_tokens : ℕ
  pub per_replica : Dict ℕ

pub record Config : Type 0 where
  pub backends : Dict String
  pub policy : String
  pub tokenizer : String
  pub match_unit : ℕ
  pub capacity_tokens : Option ℕ

-- What the handlers of an application share.
pub record App : Type 0 where
  pub backends : Dict String
  pub fleet : Fleet
  pub policy : Policy
  pub encode_text : String → Tokens
  pub stats : Stats

-- What `create_app` raises, or the application.
pub data Created : Type 0 where
  no_backends unknown_policy no_tokenizer : Created
  bad_fleet : FleetError → Created
  created : App → Created

abbrev pub new_stats : List String → Stats
new_stats ids = record {
  requests = 0;
  failures = 0;
  prompt_tokens = 0;
  cached_tokens = 0;
  per_replica = same_for 0 ids [];
}

module _ (hf_tokenizer : String → Option (String → Tokens)) where
  -- `_build_tokenizer`
  abbrev pub build_tokenizer : String → Option (String → Tokens)
  build_tokenizer name = if str_eq name "byte" then some encode else hf_tokenizer name

  abbrev pub with_fleet : Config → Fleet → Created
  with_fleet config f = elim (make_policy config.policy) [
    | none ↦ unknown_policy
    | some p ↦ elim (build_tokenizer config.tokenizer) [
      | none ↦ no_tokenizer
      | some tokenizer ↦ created (record {
        backends = config.backends;
        fleet = f;
        policy = p;
        encode_text = tokenizer;
        stats = new_stats (keys config.backends);
      })
    ]
  ]

  unfoldable pub create_app : Config → Created
  unfolding new_fleet make_policy same_for
  create_app config = elim config.backends [
    | [] ↦ no_backends
    | backend ∷ backends ↦
        elim (new_fleet (keys config.backends) config.match_unit
          (truth_capacity config.capacity_tokens (keys config.backends)) none) [
            | failed e ↦ bad_fleet e
            | started f ↦ with_fleet config f
          ]
  ]

-- A session key: none, a text, or the value of a `user` that is no text.
pub data Key : Type 0 where
  no_key key_other : Key
  key_text : String → Key

-- The fields that the handler reads of a chat request whose body is an object. `messages` is `none`
-- where it is no list.
pub record Body : Type 0 where
  pub messages : Option (List Message)
  pub user : Key
  pub stream : Bool

-- `request.headers.get("X-Session-Id") or body.get("user")`
abbrev pub session_key : Option String → Key → Key
session_key none user = user
session_key (some header) user = if str_eq header "" then user else key_text header

-- A request that is forwarded.
pub record Ticket : Type 0 where
  pub dispatch : Dispatch
  pub url : String
  pub cached : ℕ
  pub stream : Bool

abbrev pub ticket_of : Dispatch → String → ℕ → Bool → Ticket
ticket_of d backend cached stream = record {
  dispatch = d;
  url = join backend "/v1/chat/completions";
  cached = cached;
  stream = stream;
}

-- What the handler comes to before it waits for the backend: the 400, an exception, or the
-- application and the request that is forwarded.
pub data Answer : Type 0 where
  bad_request raised : Answer
  forwarded : App → Ticket → Answer

abbrev pub counted : String → ℕ → ℕ → ℕ → Stats → Stats
counted r n cached count stats = record stats {
  requests = stats.requests + 1;
  prompt_tokens = stats.prompt_tokens + n;
  cached_tokens = stats.cached_tokens + cached;
  per_replica = put r (count + 1) stats.per_replica;
}

-- A request is counted and sent to the replica that was chosen.
unfoldable pub forward : String → Tokens → Bool → ℕ → App → Answer
unfolding dispatch
forward r tokens stream now a = elim (get r a.stats.per_replica) [
  | none ↦ raised
  | some count ↦
      let cached = get_or r 0 (cached_tokens a.fleet tokens) in
      elim (dispatch a.fleet r tokens now) [
        | none ↦ raised
        | some (f, d) ↦ elim (get r a.backends) [
          | none ↦ raised
          | some backend ↦
              forwarded
                (record a { fleet = f; stats = counted r (length tokens) cached count a.stats })
                (ticket_of d backend cached stream)
        ]
      ]
]

module _ (hash : String → ℕ) where
  -- `policy.choose` with a key: consistent hashing alone reads it, and raises on one that is no text.
  unfoldable pub choose_for : Policy → Fleet → Tokens → Key → Option String × Policy
  unfolding choose_replica
  choose_for p f tokens no_key = choose_replica hash p f tokens none
  choose_for p f tokens (key_text key) = choose_replica hash p f tokens (some key)
  choose_for (hashing c) f tokens key_other = (none, hashing (current hash (replica_ids f) c))
  choose_for p f tokens key_other = choose_replica hash p f tokens none

  unfoldable pub route_text : String → Key → Bool → ℕ → App → Answer
  unfolding choose_for forward
  route_text rendered key stream now a =
      let tokens = a.encode_text rendered in
      let (pick, p) = choose_for a.policy a.fleet tokens key in
      elim pick [ none ↦ raised | some r ↦ forward r tokens stream now (record a { policy = p }) ]

  unfoldable pub route_messages : List Message → Key → Bool → ℕ → App → Answer
  unfolding route_text render_messages
  route_messages messages key stream now a = elim (render_messages messages) [
    | none ↦ raised
    | some rendered ↦ route_text rendered key stream now a
  ]

  -- `chat_completions` up to the request to the backend.
  unfoldable pub chat_completions : Option String → Body → ℕ → App → Answer
  unfolding route_messages
  chat_completions header body now a = elim body.messages [
    | none ↦ bad_request
    | some messages ↦ route_messages messages (session_key header body.user) body.stream now a
  ]

-- How a forwarded request ends. A request that is not streamed is answered, fails with an
-- `Exception`, or is cancelled while it waits. A stream is drained, breaks with an `Exception`, is
-- closed by the client while it runs, or is dropped before its first chunk is asked for.
pub data Ending : Type 0 where
  answered post_failed cancelled : Ending
  drained stream_failed hung_up never_started : Ending

abbrev pub completed : Dispatch → ℕ → App → App
completed d now a = record a { fleet = complete d now a.fleet }

abbrev pub with_failure : App → App
with_failure a = record a { stats = record a.stats { failures = a.stats.failures + 1 } }

-- The rest of `chat_completions`, and the generator `stream`. A cancellation is no `Exception`, and a
-- generator that never started runs no `finally`.
unfoldable pub end_request : Ending → Dispatch → ℕ → App → App
end_request answered d now a = completed d now a
end_request post_failed d now a = completed d now (with_failure a)
end_request cancelled d now a = a
end_request drained d now a = completed d now a
end_request stream_failed d now a = completed d now (with_failure a)
end_request hung_up d now a = completed d now a
end_request never_started d now a = a

-- The request is taken back from the fleet.
unfoldable pub settles : Ending → Bool
settles cancelled = false
settles never_started = false
settles _ = true
