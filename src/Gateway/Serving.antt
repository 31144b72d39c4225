-- ===== src/Gateway/Serving.antt =====
-- The histories of an application of src/kv_aware_router/gateway.py: requests arrive and end in any
-- order, between the calls of its event loop. A request that comes to an error before it is forwarded
-- is no step of a history.
use kv_aware_router.Prelude.{ℕ, ◌+◌, ◌≡◌, true, false, List, [], ◌∷◌, ◌++◌, Option, String}
use kv_aware_router.Radix.Node.{Tokens}
use kv_aware_router.Fleet.{Dispatch}
use kv_aware_router.Gateway.{
  App, Config, created, create_app, Body, Ticket, forwarded, chat_completions, Ending, post_failed,
  stream_failed, end_request, settles,
}

-- The failures that an ending stands for: an `Exception` of the backend.
unfoldable pub failures_of : Ending → ℕ
failures_of post_failed = 1
failures_of stream_failed = 1
failures_of _ = 0

-- The application with the requests that wait for their backend, the handles of those that ended
-- without being taken back, all requests that were forwarded so far, and the number of failures.
pub data Serving (hf_tokenizer : String → Option (String → Tokens)) (hash : String → ℕ)
    (config : Config) : App → List Ticket → List Dispatch → List Ticket → ℕ → Type 0 where
  begun :
      {a : App}
      → create_app hf_tokenizer config ≡ created a
      → Serving hf_tokenizer hash config a [] [] [] 0
  accepted :
      {a a' : App} {waiting : List Ticket} {lost : List Dispatch} {log : List Ticket} {fails : ℕ}
      {t : Ticket} (header : Option String) (body : Body) (now : ℕ)
      → Serving hf_tokenizer hash config a waiting lost log fails
      → chat_completions hash header body now a ≡ forwarded a' t
      → Serving hf_tokenizer hash config a' (t ∷ waiting) lost (t ∷ log) fails
  ended :
      {a : App} {lost : List Dispatch} {log : List Ticket} {fails : ℕ} (xs ys : List Ticket)
      (t : Ticket) (e : Ending) (now : ℕ)
      → Serving hf_tokenizer hash config a (xs ++ (t ∷ ys)) lost log fails
      → settles e ≡ true
      → Serving hf_tokenizer hash config
          (end_request e t.dispatch now a)
          (xs ++ ys)
          lost
          log
          (fails + failures_of e)
  dropped :
      {a : App} {lost : List Dispatch} {log : List Ticket} {fails : ℕ} (xs ys : List Ticket)
      (t : Ticket) (e : Ending) (now : ℕ)
      → Serving hf_tokenizer hash config a (xs ++ (t ∷ ys)) lost log fails
      → settles e ≡ false
      → Serving hf_tokenizer hash config
          (end_request e t.dispatch now a)
          (xs ++ ys)
          (t.dispatch ∷ lost)
          log
          fails
