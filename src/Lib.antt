-- ===== src/Lib.antt =====
-- Verification of two gateway policies: the Aggregate Risk Gate (aggregate-risk-gate/) and the Approval
-- Execution Binding (approval-execution-binding/).
--
-- The Aggregate Risk Gate prices each MCP request, reserves the price on the ledger record of the
-- caller's scope before it forwards the request, and settles the reservation when the response comes: a
-- success is committed, a failure released. A reservation that no response settles expires. The ledger
-- keeps for each scope what is committed in the current window period and what is reserved.
--
--   Scope, Scope/*     the record of one scope, aggregate-risk-gate/src/ledger.rs: `ScopeState` with
--                      check, hold, settle, roll, reclaim, idle_at; a HashMap is an association list.
--                      Scope/Types has the values that go in and out.
--   Ledger, Ledger/*   the worker ledger of the same file: `Inner`, `Ledger`, the `LedgerStore` methods. The
--                      mutex makes a call one step, so a method is a function of the inner state.
--                      Ledger/Stats has the counters, Ledger/Index the idle index (a BTreeSet, as a
--                      sorted list), Ledger/Run the histories of calls.
--   Gate/*             aggregate-risk-gate/src/lib.rs: Gate/Json the parsed document, Gate/Policy the
--                      settings, Gate/Price the price, Gate/Rpc and Gate/Reason the refusal and its
--                      texts, Gate/Identity the canonical identity, Gate/Store the ledger that a gate
--                      uses, Gate/Decide the decision and the settlement of the response.
--   Node, Node/*       aggregate-risk-gate/src/node_ledger.rs, the ledger that the workers of a node share.
--                      A worker's code is a `Program`, the tree of its calls on the store with a branch
--                      for every answer (Node/Store), over its own state (Node/Worker). Node/Marker
--                      has the commit markers, Node/Claim and Node/Commit who writes them, Node/Slots
--                      the counts, Node/Sweep and Node/Keys the scan, Node/Touch `mutate_core`,
--                      Node/Settle and Node/Drain the settlements and the queue, Node/Methods the calls. Node/Logic is a logic over all answers,
--                      Node/Evolve the protocol of the store, Node/Upkeep what a touch does around its
--                      operation, Node/Safe/* that each program keeps to the protocol, Node/World any
--                      number of workers on one store.
--   Binding/*          approval-execution-binding/src/lib.rs: Binding/Predicates the required set,
--                      Binding/Request the JSON-RPC message, Binding/Freshness P4, Binding/Evaluate
--                      P1, P2, P5, P6 and the verdict, Binding/Nonce the reservation of a nonce,
--                      again a tree of calls on the host's store, and Binding/Nonce/World any number
--                      of reservations on one store, each with an expiry of its own, Binding/Nonce/Key the storage key.
--   Prelude, Prelude/* lists, words, results and association lists that the others share.
--   Tests, Tests/*     concrete inputs, and the theorems applied to them.
--
-- A `u64`, `u128` or `usize` is a natural number. Saturating, checked and wrapping operations are written
-- out with their bounds; a plain `+` on a `u64` wraps, as in a release build. The id counter wraps at 2^128,
-- so that the theorems on histories bound the number of calls. All recursion is on data; showing a
-- `u64` takes at most 20 digits.
--
-- Parameters stand for code outside the repository: `serde_json::from_slice`, the SHA-256 and HMAC of the
-- displayed scope, the verification of an attestation's HMAC, chrono's date parser and its last
-- instant. The digest of the arguments is a parameter too: only equality is asked of it. A string's
-- `trim` is the standard library's. A JSON object is the list of its members as the document has them, so that a
-- duplicate member is visible to the check that refuses it. A second of an `i64` counts from `i64::MIN`.
--
-- The shared store is the host's. Assumed of its answers is that a version names what was written under it,
-- that a value that is read is the one that its key holds, and that a write lands only under the mode that
-- it was sent with. A read may fail, or answer that there is no value where there is one, and the answer to
-- a write may be a failure although it landed. A stored value is the value that it decodes to, or unreadable.
-- The retries and the budget of a sweep are those of the code, as fuel of its bounded loops. The hash of a
-- scope is a setting of the ledger, as are the fingerprint and the prefix of its ids.
--
-- Not modelled: the adapter of the node ledger onto the proxy's store, where an identity is read from
-- and the inspection checks, most of the configuration, the canonical form and the envelope removal.
-- The filters themselves are asynchronous calls of the proxy's kit; logging and test-only
-- code are left out.
pub mod Prelude
pub mod Scope
pub mod Ledger
pub mod Gate
pub mod Node
pub mod Binding
pub mod Tests
