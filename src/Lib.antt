-- ===== src/Lib.antt =====
-- A model of gitforgeops, the GitOps client of the Ferrum Edge gateway (Rust sources under src/),
-- and the properties of the parts that decide what a run may change.
--
-- A run assembles a desired document from the repository, reads the live document from the
-- gateway, and computes the operations between the two. In shared ownership, the ledger
-- `.state/<env>.json` is the fence: only what it lists may be deleted. Before the first request the
-- run journals the resources it is about to create; after each one it records what was done. Slots
-- of credentials are generated, written to the GitHub Environment in shards, and recorded.
--
-- The files, and the code they follow:
--
--   StateKey          src/diff/resource_diff.rs: the key `prefix:namespace:Kind:id` of a resource,
--                     with `%` and `:` escaped.
--   Config            src/config/schema.rs, src/config/mod.rs: documents, the selection by
--                     namespace. A resource is its identity, its spec tag, the members that serde
--                     writes for its other modelled fields, and its unmodelled members.
--   Config/Identity   src/config/mod.rs, src/state.rs: the check of unique keys, and `ResourceKeys`.
--   Json              the JSON values that serde builds. The functions that parse and print text
--                     are a parameter, the record `Serde` of Diff/Redact.
--   Change            src/diff/resource_diff.rs, src/apply/api_target.rs: operations.
--   Diff              src/diff/resource_diff.rs: the diff of the four collections, in the order of
--                     the code, with the three buckets of its result. `shared` carries the keys
--                     managed before, and `exclusive` none.
--   Diff/Fields       the field comparison of two serialized resources.
--   Diff/Redact       the redaction of discovery tokens and of userinfo in addresses
--                     (src/secrets/service_discovery.rs).
--   Diff/Collection, Diff/Safety, Diff/SpecOwned
--                     proofs about one collection and about the whole diff.
--   Ledger            src/state.rs: the ledger and the operations that record an apply.
--   Ledger/Journal    the journal of pending creates, its reconciliation, and the collection of
--                     rows that are gone everywhere.
--   Ledger/Allocation the metadata of credentials, and the apply an allocation is bound to.
--   Ledger/Allocation/Pending
--                     src/secrets/resolver.rs: `ConsumerLedger::from_state`.
--   Ledger/Disjoint   the steps of an incremental apply on the ledger, as a relation, and a proof
--                     about all their sequences.
--   Ledger/Ownership, Ledger/Replacement, Ledger/Journal/Laws, Ledger/Allocation/Laws,
--   Ledger/Allocation/Retry
--                     proofs about these operations.
--   Ledger/Recording  src/main.rs: the ledger after an incremental apply.
--   Reconcile         src/reconcile.rs: the namespaces of a run, and the keys that it may delete.
--   Apply/Index       src/apply/api_target.rs: `ResourceIndex`, and the fields of proxies and plugin
--                     configs that the apply reads.
--   Apply/Order       src/apply/api_target.rs: the order of the entries, the cycles of new proxies and
--                     plugin configs (Cycles), and the configs that renames wait for (Renames).
--   Apply/Groups      src/http_client.rs: `batch_dependency_groups`, by union-find on fuel.
--   Apply/Groups/Split, Apply/Groups/Blocks, Apply/Groups/Packing
--                     src/http_client.rs: `split_batch`, with the length of a JSON text as a
--                     parameter, and what its requests hold.
--   Apply/Withhold    src/apply/api_target.rs: what waits for plugin configs that failed.
--   Apply/Outcome, Apply/Run, Apply/Incremental
--                     src/error.rs, src/apply/api_target.rs: the errors and the result, the state of
--                     the loop of `apply_incremental`, and the loop.
--   Apply/Compare, Apply/Adopt, Apply/Claim
--                     src/apply/api_target.rs: rows with the desired content, the candidates of an
--                     adoption, and `adopt_matching_rows`.
--   Apply/Namespace   src/apply/api_target.rs: `apply_incremental` from the diff to the adoption.
--   Apply/Prune       src/apply/api_target.rs: the guard against large prunes.
--   Apply/Order/{Laws, Keys, Deletes}, Apply/Incremental/{Sent, Failures} and below,
--   Apply/Claim/{Laws, Requests}, Apply/Namespace/{Planned, Fence}, and the other Laws
--                     proofs about these parts.
--   Slots             src/secrets/allocator.rs, delivery.rs, placeholder.rs: credential slots.
--   Bundle            src/secrets/bundle.rs: shards of credentials, their names and their capacity.
--   Bundle/Names, Bundle/Capacity, Bundle/Merge
--                     proofs about the names, the placement and the merge of shards.
--   Allocate          src/secrets/allocator.rs: the plan of an allocation and its writes.
--   Allocate/Commit   a proof that the shards and the reported outcome agree.
--   Placeholder       src/secrets/placeholder.rs: the parser of placeholders, and the bounds of
--                     the length that one asks for.
--   Samples           concrete documents and ledgers, and the theorems at them.
--   Base              texts as code points, maps and sets in key order, hash maps, results.
--
-- Method calls with `&mut self` are functions that return the new state; an error is a value of
-- `Result`, beside the state that the code leaves. The clock and `git rev-parse` are arguments.
-- Texts of errors and warnings are constructors. A hash map is an association list without
-- repeated keys, since the code never relies on its order. A 32-bit count that the code adds to
-- with saturation saturates here too. The printer of 32-bit numbers has fuel for ten digits, and the
-- loop of `reserve_shard` for 16 rounds: its count is one at least, grows by one in every round, and
-- ends the loop at 16.
--
-- A union-find root has fuel for as many steps as there are nodes: a chain of parents visits each
-- node at most once. The percentages of the prune guard are computed modulo 2 ^ 128, as in the code.
--
-- The admin client is two records of answers, `Gateway` and `Confirmation`, each answer a function
-- of the requests before it. They stand for the network, and also for code around it: the reads of
-- `Preconditions`, `create_with_reconciliation` and `try_batch_create`. A theorem that takes them as
-- they come holds for whatever they answer.
--
-- Not modelled: HTTP, files, locks and subprocesses, the parsing of YAML and of arguments, the
-- rendering of reports, cryptography and random values. SHA-256, the length of a JSON text, and the
-- calls of an allocation that leave it are the records `Sizing` and `Remote`.
pub mod Base
pub mod StateKey
pub mod Json
pub mod Config
pub mod Change
pub mod Slots
pub mod Bundle
pub mod Placeholder
pub mod Allocate
pub mod Ledger
pub mod Diff
pub mod Reconcile
pub mod Apply
mod Samples
