-- ===== src/Tests/Gateways.antt =====
-- src/kv_aware_router/gateway.py on small inputs.
use kv_aware_router.Prelude.{
  ℕ, ◌≡◌, ◌+◌, refl, true, List, [], ◌∷◌, Option, none, some, String, round_down, text_lt,
}
use Prim.Native.String.{◌++◌ as join}
use kv_aware_router.Dict.{get, get_or, put, keys, map_values, has}
use kv_aware_router.Radix.Node.{Tokens, empty_root, shared, is_tail_for}
use kv_aware_router.Radix.Tree.{match_tokens, insert, touch}
use kv_aware_router.Radix.Unit.{new_tree, validate_match_unit}
use kv_aware_router.Fleet.{idle_state, handle, new_fleet, dispatch, complete, idle_states}
use kv_aware_router.Fleet.Ledger.{count, owed}
use kv_aware_router.Policies.Registry.{Policy, hashing, choose_replica, make_policy, affinity}
use kv_aware_router.Policies.Hashing.{new_hash}
use kv_aware_router.Policies.{load, before, tiebreak, pure_affinity, most_cached}
use kv_aware_router.Tokenize.{
  Message, not_a_dict, message, text, blocks, bad_text, render_messages, encode,
}
use kv_aware_router.World.{sum_values, same_for}
use kv_aware_router.Gateway.{
  choose_for, Key, raised, no_key, key_other, App, Config, Created, created, no_backends,
  unknown_policy, no_tokenizer, ticket_of, create_app, Body, Ticket, Answer, bad_request, forwarded,
  chat_completions, stream_failed, never_started, end_request, settles,
}
use kv_aware_router.Gateway.Serving.{Serving, begun, accepted, ended, failures_of}
use kv_aware_router.Gateway.Keeps.{handles, prompt_tokens_of, uncached_tokens_of}
use kv_aware_router.Gateway.Books.{Serving-counts, Serving-stats, Serving-forwards}
use kv_aware_router.Tests.Replays.{no_hash}

program : Unit {0}
unfolding choose_for insert touch match_tokens new_tree shared is_tail_for get get_or put keys has
    round_down map_values new_fleet dispatch complete idle_states choose_replica make_policy
    validate_match_unit load before tiebreak pure_affinity most_cached text_lt same_for sum_values
    render_messages encode create_app chat_completions end_request settles count owed handles
    failures_of prompt_tokens_of uncached_tokens_of
program = tt

abbrev no_package : String → Option (String → Tokens)
no_package name = none

abbrev two_backends : Config
two_backends = record {
  backends = ("a", "http://a") ∷ ("b", "http://b") ∷ [];
  policy = "pure_affinity";
  tokenizer = "byte";
  match_unit = 16;
  capacity_tokens = none;
}

abbrev greeting : String
greeting = "012345678901234567890123456789012345678901234567890123456789"

abbrev hello : Body
hello = record {
  messages = some (message (some "user") (text greeting) ∷ []);
  user = no_key;
  stream = true;
}

abbrev the_app : Created → Option App
the_app (created a) = some a
the_app _ = none

abbrev ask : App → Answer
ask a = chat_completions no_hash none hello 7 a

abbrev target : Answer → List (String × ℕ)
target (forwarded a t) = (t.url, t.cached) ∷ []
target _ = []

-- Replica, requests in flight and tokens to prefill.
abbrev states : App → List (ℕ × ℕ)
states a = elim (get "a" a.fleet.replicas) [
  | none ↦ []
  | some s ↦ (s.in_flight, s.pending_prefill_tokens) ∷ []
]

-- The application that `two_backends` gives.
abbrev first_app : App
first_app = record {
  backends = two_backends.backends;
  fleet = record {
    tree = record {
      prefix_match_unit = 16;
      root = empty_root;
      capacity_tokens = [];
      tokens_used = [];
      evictions = [];
    };
    replicas = ("a", idle_state "a") ∷ ("b", idle_state "b") ∷ [];
  };
  policy = affinity;
  encode_text = encode;
  stats = record {
    requests = 0;
    failures = 0;
    prompt_tokens = 0;
    cached_tokens = 0;
    per_replica = ("a", 0) ∷ ("b", 0) ∷ [];
  };
}

first_app_created : create_app no_package two_backends ≡ created first_app
unfolding program
first_app_created = refl

refused_configs :
    (create_app no_package (record two_backends { backends = [] }) ≡ no_backends)
    × (create_app no_package (record two_backends { policy = "fastest" }) ≡ unknown_policy)
    × (create_app no_package (record two_backends { tokenizer = "gpt" }) ≡ no_tokenizer)
unfolding program
refused_configs = (refl, refl, refl)

abbrev sent_on : Answer → App × List Ticket
sent_on (forwarded a t) = (a, t ∷ [])
sent_on _ = (first_app, [])

-- The prompt of 68 bytes is 17 tokens. The second request finds 16 of them, on the same replica.
asked_twice :
    (target (ask first_app) ≡ ("http://a/v1/chat/completions", 0) ∷ [])
    × (target (ask (sent_on (ask first_app)).0) ≡ ("http://a/v1/chat/completions", 16) ∷ [])
    × (states (sent_on (ask first_app)).0 ≡ (1, 17) ∷ [])
    × (chat_completions no_hash none (record hello { messages = none }) 7 first_app ≡ bad_request)
unfolding program
asked_twice = (refl, refl, refl, refl)

abbrev asked_app : App
asked_app = (sent_on (ask first_app)).0

abbrev asked_ticket : Ticket
asked_ticket =
    ticket_of (handle first_app.fleet "a" (encode (join "<|user|>" greeting))) "http://a" 0 true

asked-Serving :
    Serving no_package no_hash two_backends asked_app (asked_ticket ∷ []) [] (asked_ticket ∷ []) 0
unfolding program
asked-Serving = accepted none hello 7 (begun refl) refl

-- A stream that breaks gives the replica back; one that never started does not.
ended_states :
    (states (end_request stream_failed asked_ticket.dispatch 9 asked_app) ≡ (0, 0) ∷ [])
    × (states (end_request never_started asked_ticket.dispatch 9 asked_app) ≡ (1, 17) ∷ [])
unfolding program
ended_states = (refl, refl)

Serving-counts_example : (1 ≡ 1 + 0) × (17 ≡ 17 + 0)
unfolding program
Serving-counts_example =
    Serving-counts no_package no_hash two_backends asked_app (asked_ticket ∷ []) []
      (asked_ticket ∷ []) 0 "a"
      (record { replica_id = "a"; in_flight = 1; pending_prefill_tokens = 17 }) asked-Serving refl

-- A stream that breaks is a failure.
abbrev failed_app : App
failed_app = end_request stream_failed asked_ticket.dispatch 9 asked_app

failed-Serving : Serving no_package no_hash two_backends failed_app [] [] (asked_ticket ∷ []) 1
unfolding program
failed-Serving = ended [] [] asked_ticket stream_failed 9 asked-Serving refl

Serving-stats_example :
    (failed_app.stats.requests ≡ 1)
    × (failed_app.stats.failures ≡ 1)
    × (failed_app.stats.prompt_tokens ≡ 17)
    × (failed_app.stats.cached_tokens + 17 ≡ failed_app.stats.prompt_tokens)
    × ((k : String) (n : ℕ)
        → get k failed_app.stats.per_replica ≡ some n
        → n ≡ count k (handles (asked_ticket ∷ [])))
    × (sum_values failed_app.stats.per_replica ≡ failed_app.stats.requests)
unfolding program
Serving-stats_example =
    Serving-stats no_package no_hash two_backends failed_app [] [] (asked_ticket ∷ []) 1
      failed-Serving

-- A message that is no object and a block whose text is no text raise, and so does a user that is no
-- text under consistent hashing only.
abbrev with_messages : List Message → Answer
with_messages ms = chat_completions no_hash none (record hello { messages = some ms }) 7 first_app

abbrev with_user : Policy → Key → List (String × ℕ)
with_user p key = target (
    chat_completions no_hash none (record hello { user = key }) 7 (record first_app { policy = p }))

errors :
    (with_messages (not_a_dict ∷ []) ≡ raised)
    × (with_messages (message none (blocks (bad_text ∷ [])) ∷ []) ≡ raised)
    × (with_user (hashing (new_hash 100 64)) key_other ≡ [])
    × (with_user affinity key_other ≡ ("http://a/v1/chat/completions", 0) ∷ [])
unfolding program
errors = (refl, refl, refl, refl)

Serving-forwards_example :
    (a' : App) × (t : Ticket) × (backend : String) × (ask asked_app ≡ forwarded a' t)
    × (get t.dispatch.replica_id two_backends.backends ≡ some backend)
    × (t.url ≡ join backend "/v1/chat/completions")
    × (t.dispatch.tokens ≡ encode (join "<|user|>" greeting))
unfolding program
Serving-forwards_example =
    Serving-forwards no_package no_hash two_backends asked_app (asked_ticket ∷ []) []
      (asked_ticket ∷ []) 0 none hello (message (some "user") (text greeting) ∷ [])
      (join "<|user|>" greeting) 7 asked-Serving refl refl tt
