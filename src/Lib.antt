-- ===== src/Lib.antt =====
-- A model of kv-aware-router, a router for LLM serving replicas that knows which replica caches
-- which prefix of a prompt.
--
-- The parts. A request is a sequence of tokens. The prefix tree (src/kv_aware_router/radix.py)
-- records which replica caches which prefix; the fleet (src/kv_aware_router/fleet.py) keeps that
-- tree in step with the requests that it sends out and takes back; a policy
-- (src/kv_aware_router/policies.py) reads the fleet and chooses the replica for a request. Three
-- programs drive them: `replay` (src/kv_aware_router/replay.py) and `simulate`
-- (src/kv_aware_router/simulate.py) on the traffic of src/kv_aware_router/workload.py, and the
-- gateway (src/kv_aware_router/gateway.py) on chat requests, which src/kv_aware_router/tokenize.py
-- renders and encodes.
--
-- Prelude, Dict: tests, lists, rounding, and Python's `dict` with text keys, in insertion order.
-- Radix: radix.py. Node has `Node` as a tree that owns its children; a parent pointer is the way
--   back of a recursion. Match, Insert (`_descend`, `_split`, `insert`), Touch (`touch`,
--   `remove_replica`) and Evict (`_evict_one`) work on nodes, Tree has the methods of `PrefixTree`,
--   Unit has `validate_match_unit` and the constructor. Held says what prefixes a tree stands for;
--   Over, Queries, InsertHeld, InsertKeeps, InsertLoad, EvictScan, EvictDrop, EvictLru, Evictions,
--   TouchHeld, Answers, Invariant, Upkeep, Capacity, Effects, Sessions and Refinement hold the proofs.
-- Fleet: fleet.py. Estimates has the lemmas on what a replica can serve, Ledger the handles that
--   are out, Steps and Lifecycle the histories of calls, Names the keys of `replicas`, Sound what a
--   driver of the fleet relies on.
-- Policies: policies.py. Tiebreak, Candidates, Choices, Costs and Rounds say what the policies
--   choose; Hashing has `ConsistentHash`, over a parameter for BLAKE2b, Ring and Reassign its
--   proofs; Registry has `Policy` and `make_policy`, Ready the state between two
--   calls. A policy that raises returns `none`.
-- Workload: workload.py. Ceiling has the proof on `reuse_ceiling`, Arrivals the sort by arrival,
--   Generate the generator over the draws of numpy's, Turns, Repeats and Growth its proofs.
-- World: what `replay` and `simulate` have in common, the fleet and the tree of what the replicas
--   hold; Sound and Start hold the proofs.
-- Replay: replay.py, the loop of `replay`; Counts has its window, Rounds and Conservation its
--   counters, Exact and Oracle the case of one tree.
-- Simulate: simulate.py. State has the records, the heap of events and `start_next`, Churn the
--   replicas that join or leave, Loop the handlers and `simulate`. Cases says what the handlers have
--   done, Totals has the sums over events and jobs in line, Starts what they are at first, Ends the
--   end of the loop. Handles has the handles that are out, Lines the line of each replica and
--   `start_next`, Serves and Arrives the handlers, Counts the counters, Running the loop without
--   churn, and Completes what `simulate` returns then.
-- Gateway: gateway.py, `create_app`, the handler of chat requests and the endings of a request.
--   Serving has the histories of an application, Starts what it begins with, Keeps and Endings what
--   each call keeps, Books what the counters say.
-- Tokenize: the byte tokenizer and the rendering of messages in tokenize.py.
-- Tests: runs on small inputs, and the theorems with hypotheses at concrete inputs.
--
-- Choices. Replica names are texts and tokens are numbers. Time stamps are numbers too: outside
-- of simulate.py and the workload, the code only compares them. Prices in the cost model are
-- whole nanoseconds, in place of floats: where two estimates are equal but the floats that the
-- code adds up are not, `cost_model` takes the tie that the code does not see. A text holds no
-- lone surrogates, and the body of a chat request is an object. A loop over a stack of nodes is
-- the recursion that visits the nodes in the same order. The loop of `_enforce_capacity` runs on
-- fuel: as many rounds as there are tokens in use, since each eviction frees a token at least.
--
-- The loop of `simulate` has three rounds of fuel for a request, which arrives, is prefilled and
-- decoded, and one for a change of the fleet. Its heap is a list in the order in which the events
-- are taken out. Simulated times are whole nanoseconds: a scaled arrival and a slowed prefill are
-- rounded down. The load scale and the capacity ratio are fractions with positive denominators. A
-- load scale of 0 raises, where there is anything to scale.
--
-- Not modelled: HTTP and the fields of the gateway's answers, its parser of environment variables,
-- the tokenizer that calls the `tokenizers` package, the weights and means that the workload hands
-- to numpy, the coefficients of variation, the percentiles of simulate.py (their index is a float
-- that is rounded), and the fractions of simulate.py and gateway.py. The experiments only call the
-- library.
pub mod Prelude
pub mod Dict
pub mod Radix
pub mod Fleet
mod Tests
pub mod Policies
pub mod Workload
pub mod World
pub mod Simulate
pub mod Gateway
pub mod Replay
pub mod Tokenize
