-- ===== src/Lib.antt =====
-- A model of the core of db-cluster: the commands that change the cluster and their lifecycle, the queue
-- that keeps them on disk, the store of the entities with all their versions, the store of the artifacts
-- with their bytes, the index, the ledger of what was done, with its chain of hashes, the policy engine
-- that decides who may do what, the kernel over all of them and the one that asks the policies first,
-- the redactor that strips what leaves the cluster, and the URIs by which all of them name objects.
--
-- How the parts interact. A change is a command. The kernel (src/kernel/cluster-kernel.ts) proposes it,
-- validates it, keeps it in the queue between two processes, and commits it. The policy engine is asked
-- before each operation, about a request that names the principal, the capability, and the resource by
-- its URI; records are read out through the redactor, with the rules that the decision carries.
--
-- The files.
--   Json      values of type `unknown` and records with string keys; the text of template literals;
--             Reload what JSON.stringify and JSON.parse make of a value
--   Errors    src/kernel/errors.ts: the errors as constructors, their messages, assertActor; a function
--             that throws returns a Result
--   Commands  src/kernel/commands.ts and src/types/command.ts: proposeCommand, validateCommand,
--             assertValidPayload, approveCommand, rejectCommand, markCommitted, markRejected,
--             markCompensated, validTransitions, isValidTransition, each under its name in snake case;
--             Types the data, Payload the checks by verb, Validation, Accepted and Lifecycle the theorems
--   Queue     src/kernel/command-queue.ts: load, persist, save, remove, get, list, listByStatus
--   Canonical src/adapters/local/local-canonical-store.ts: get (as latest), list, exists, create, update,
--             listVersions, getVersion, importSnapshot, load, persist; the others hold theorems
--   StoreErrors  src/adapters/local/errors.ts: what the local stores throw, and assertContentMatch
--   Integrity src/types/integrity.ts: canonicalSerialize and computeIntegrityHash; Text the text of a
--             string literal and the order of keys
--   Ledger    src/adapters/local/local-ledger-store.ts, src/types/provenance-event.ts and
--             src/types/receipt.ts: append, appendReceipt, getEvent, getReceipt, listEvents, listReceipts,
--             countEvents, importEvent, importReceipt; Types the records, Log what both chains share
--             (loadArray, appendOneEvent, the stamps), Trace trace, Open the constructor, Rotate rotate
--             and its recovery; the others hold theorems
--   Ops       src/ops: Chain checkIntegrityChain, ChainCheck checkLedgerIntegrityChain, Bijection
--             checkCommandReceiptBijection and References the two checks of references, all of
--             integrity-checks.ts, Health src/types/health.ts and health.ts; the others hold theorems
--   Uri       src/uri/cluster-uri.ts: parseClusterUri, formatClusterUri, isClusterUri, uriForObject
--   Policy    src/policy/policy-engine.ts, src/types/policy.ts and src/policy/default-policies.ts: Types
--             the data, Matching the match* functions, Defaults the default policies, trust zones and
--             visibility rules; the others hold theorems
--   Keyed     the map by id and the file that src/adapters/local/local-artifact-store.ts and
--             src/adapters/local/local-index-store.ts both have; Laws the lemmas
--   ArtifactStore  src/adapters/local/local-artifact-store.ts: the artifacts and the files of their bytes;
--             Kept, Content, Paths and Numbering hold theorems
--   IndexStore  src/adapters/local/local-index-store.ts: the records of the index, their search and its
--             pages; Search and Durable hold theorems
--   Redactor  src/policy/redactor.ts and the markers of src/types/redaction.ts: Allowlist the fields that
--             pass, and redactArtifact to redactIndexRecord; Blind the theorems
--   Stores    src/contracts: the calls of the stores that the kernel makes, a record of parameters
--   Kernel    src/kernel/cluster-kernel.ts, src/kernel/provenance.ts and src/kernel/receipts.ts: Stored
--             getCommand, saveCommand, inspectCommand, listCommands; Validating validateMutation; Action
--             the methods as functions of the state; Recording recordProvenance, emitReceipt,
--             recordOrphanMutation; Arms the switch of commitMutation and performIndexRebuild; Commit
--             commitMutation; Lifecycle proposeMutation, approveMutation, rejectMutation,
--             compensateMutation; Direct ingestArtifact, createEntity, linkEvidence, rebuildIndex; Reads the
--             reads, with the reports on the index of Reports; the others hold rules and theorems
--   Enforced  src/kernel/policy-enforced-kernel.ts: the root the gate (enforce, assertOwnerStore,
--             collectRedactionRules, hasAnyPerResourceRule), Views the records as objects for the redactor,
--             Writes the mutations, Reads the reads of entities, versions, commands, receipts and events,
--             Searches findSources, explainIndex, listStaleRecords and indexStatus; the others hold theorems
--   Prelude   the array methods of the source, Boolean tests, library names
--
-- Parameters. The clock and the random ids are arguments (`now`, `id`). `localeCompare`, by which the
-- sort of the policies breaks its last tie, is an argument of the policy engine. The file system of the
-- queue is the record `Disk`: the content of the queue file, whether the marker stands, and the outcome
-- of every write, which may fail at any point; any content that is no JSON is `corrupt` with the parser's
-- text. Json.Reload says what `JSON.parse` gives back of what `JSON.stringify` wrote: a Buffer becomes an
-- object, and a number that is not finite becomes null. The canonical store and the index store pass what
-- they write through it, and their theorems on files ask for values that come back. The queue and the
-- ledger hold the value as it was written, so their files are the program's for payloads and details
-- without such values. The canonical store has its file in the record
-- `Store` in the same way; `toLowerCase`, and the text that `JSON.stringify` gives for an entity, are
-- arguments of the operations that use them.
--
-- The SHA-256 of node:crypto is the argument `digest` of the ledger, and `cause` what JSON.parse says of a
-- text with more behind its end. The files of the ledger are lines: what JSON.parse makes of each. A write
-- may fail with nothing, a part or all but the newline of a line in the file (`Fault`); a rotation is the
-- list of its writes, and a crash cuts it off behind any of them. What `rotate` removes by
-- removeFileBestEffort may stay (`Stuck`); the removal of the marker by a recovery is taken to succeed,
-- and where it does not, the next start recovers again.
--
-- The walk of `trace` runs on fuel, two rounds more than there are events; each round visits an event that
-- was not visited, so that is enough, which Ledger.Tracing shows. All other loops of the source are over a
-- list or a text, and are structural.
--
-- A method of the kernel is a function of the state of the stores and of the commands, which gives a
-- result or an error and the new state; what a call that throws has changed stays changed. The stores,
-- node:crypto, node:fs and the clock are the record Host, so that the theorems hold for any adapter; a
-- value of a payload where the code takes a string is turned into one by the field `to_text`.
-- The map of the artifacts and that of the index stand in the record `Table` with their file and the
-- outcome of every write; the hash of the bytes is an argument, of which a theorem asks at most that
-- its texts have the right shape.
--
-- Not modelled. The retrieval of bundles, the traces as graphs and their texts, and with them the methods
-- retrieveBundle, explainRetrieval, traceObject, traceBundle, why and explainTrace of both kernels; the
-- operator's other checks and backup; the SQL adapters;
-- explainPolicyDecision, which writes a text for people; the redaction of graphs and warnings, and the
-- expression that finds the paths in the text of an error; the cleanup of stale temporary files, which is
-- best effort; codes and remediation hints of the errors.
mod Prelude
pub mod Json
pub mod Keyed
pub mod Errors
pub mod StoreErrors
pub mod Integrity
pub mod Commands
pub mod Uri
pub mod Policy
pub mod Queue
pub mod Canonical
pub mod Ledger
pub mod Ops
pub mod Redactor
pub mod Stores
pub mod ArtifactStore
pub mod IndexStore
pub mod Kernel
pub mod Enforced
