-- ===== src/Errors.antt =====
-- src/kernel/errors.ts: the typed errors that the kernel throws, with the text of their `message`,
-- and the actor check that every mutator makes first.
use db_cluster.Prelude.{
  ◌≡◌, String, Bool, true, false, Option, none, some, [], ◌∷◌, ◌==◌, if◌then◌else◌,
}
use db_cluster.Json.{Value, null, bool, num, str, template, is_blank}

pub data Error : Type 0 where
  not_found : String → String → Error
  provenance_missing : String → Error
  command_not_validated : String → Error
  command_rejected : String → String → Error
  command_not_found : String → Error
  command_already_terminal : String → String → Error
  invalid_state_transition : String → String → String → Error
  command_validation_failed : String → Error
  invalid_content_shape : String → Error
  invalid_actor : String → Option Value → Error
  content_hash_mismatch : String → String → Error
  staged_content_tampered : String → String → String → Error
  receipt_failed : String → String → Error → Error
  command_queue_corrupt : String → String → Error
  command_queue_persistence_lost : String → String → Error
  cluster_uri_error : String → Error
  -- an error of the standard library or of a store, by its message
  host_error : String → Error

pub data Result {ℓ} (A : Type ℓ) : Type ℓ where
  err : Error → Result A
  ok : A → Result A

-- what follows a call that may throw
infixl 5 ◌>>=◌ ◌>>◌
abbrev pub ◌>>=◌ {ℓ κ} : {A : Type ℓ} {B : Type κ} (r : Result A) (next : A → Result B) → Result B
(err e) >>= next = err e
(ok a) >>= next = next a

abbrev pub ◌>>◌ {ℓ} : {B : Type ℓ} (r : Result (Unit {0})) (next : Result B) → Result B
(err e) >> next = err e
(ok _) >> next = next

abbrev pub is_ok {ℓ} : {A : Type ℓ} → Result A → Bool
is_ok (ok a) = true
is_ok (err e) = false

pub ok-injective {ℓ} : {A : Type ℓ} {a b : A} → ok a ≡ ok b → a ≡ b
ok-injective h = cc

-- what an actor error says that it received
received : Option Value → String
received none = "undefined"
received (some null) = "null"
received (some (str s)) = "blank"
received (some (bool b)) = "boolean"
received (some (num n)) = "number"
received (some _) = "object"

-- `err.message`
unfoldable pub message : Error → String
unfolding received
message (not_found store id) = template ("Not found in " ∷ store ∷ " store: " ∷ id ∷ [])
message (provenance_missing id) =
    template ("Cannot resolve provenance for: " ∷ id ∷ ". No lineage exists." ∷ [])
message (command_not_validated id) =
    template ("Command " ∷ id ∷ " has not been validated. Cannot commit." ∷ [])
message (command_rejected id reason) = template ("Command " ∷ id ∷ " rejected: " ∷ reason ∷ [])
message (command_not_found id) =
    template ("Command " ∷ id ∷ " not found in queue. Cannot operate on it." ∷ [])
message (command_already_terminal id status) = template (
    "Command " ∷ id ∷ " is already in terminal status '" ∷ status
    ∷ "'. Further lifecycle operations are not permitted." ∷ [])
message (invalid_state_transition from to id) = template (
    "Cannot transition command"
    ∷ (if id == "" then "" else template (" " ∷ id ∷ []))
    ∷ " from status '"
    ∷ from
    ∷ "' to '"
    ∷ to
    ∷ "'. Call validTransitions('"
    ∷ from
    ∷ "') to enumerate legal moves."
    ∷ [])
message (command_validation_failed failures) = template ("Validation failed: " ∷ failures ∷ [])
message (invalid_content_shape shape) = template (
    "ingest_artifact payload.content has unsupported shape: " ∷ shape
    ∷ ". Accepted shapes are: Buffer instance, string (contentHash reference). "
    ∷ "The post-JSON-roundtrip object form {type:'Buffer', data:[byte,...]} "
    ∷ "is rejected at validate-time to prevent silent content corruption." ∷ [])
message (invalid_actor name value) =
    template
      (name ∷ " must name the actor as a non-empty string; received " ∷ received value ∷ "." ∷ [])
message (content_hash_mismatch claimed actual) = template (
    "Content hash mismatch on propose: caller claimed " ∷ claimed ∷ " but sha256(content)=" ∷ actual
    ∷ ". The ingest_artifact propose-time validator "
    ∷ "requires a contentHash that matches the supplied buffer." ∷ [])
message (staged_content_tampered hash path actual) = template (
    "Staged content tampered between propose and commit: command claims contentHash=" ∷ hash
    ∷ " but the staged file at " ∷ path ∷ " now hashes to " ∷ actual
    ∷ ". Staging file preserved for forensics." ∷ [])
message (receipt_failed subject id cause) =
    let why = message cause in
    template (
      "Mutation succeeded but receipt/provenance emission failed for subject "
      ∷ subject
      ∷ (if id == "" then "" else template (" (command " ∷ id ∷ ")" ∷ []))
      ∷ ": "
      ∷ why
      ∷ [])
message (command_queue_corrupt path cause) = template (
    "Command queue file is unreadable or corrupt: " ∷ path ∷ " (" ∷ cause
    ∷ "). Pending commands cannot be loaded safely. Recovery: restore from a backup, "
    ∷ "delete the file to start fresh (pending commands will be lost), "
    ∷ "or inspect the file by hand." ∷ [])
message (command_queue_persistence_lost path marker) = template (
    "Command queue persistence lost: marker file present (" ∷ marker
    ∷ ") but pending-commands file is missing (" ∷ path
    ∷ "). The queue previously held persisted state. "
    ∷ "Recovery: restore from a backup that includes both files, "
    ∷ "or delete the marker file to re-cold-start (this loses any pending commands)." ∷ [])
message (cluster_uri_error text) = text
message (host_error text) = text

-- `err.name`; `name_of` gives it for an error of the standard library or of a store
unfoldable pub name : (name_of : String → String) → Error → String
name name_of (not_found store id) = "NotFoundError"
name name_of (provenance_missing id) = "ProvenanceMissingError"
name name_of (command_not_validated id) = "CommandNotValidatedError"
name name_of (command_rejected id reason) = "CommandRejectedError"
name name_of (command_not_found id) = "CommandNotFoundError"
name name_of (command_already_terminal id status) = "CommandAlreadyTerminalError"
name name_of (invalid_state_transition from to id) = "InvalidStateTransitionError"
name name_of (command_validation_failed failures) = "CommandValidationFailedError"
name name_of (invalid_content_shape shape) = "InvalidContentShapeError"
name name_of (invalid_actor role value) = "InvalidActorError"
name name_of (content_hash_mismatch claimed actual) = "ContentHashMismatchError"
name name_of (staged_content_tampered hash path actual) = "StagedContentTamperedError"
name name_of (receipt_failed subject id cause) = "ReceiptFailedError"
name name_of (command_queue_corrupt path cause) = "CommandQueueCorruptError"
name name_of (command_queue_persistence_lost path marker) = "CommandQueuePersistenceLostError"
name name_of (cluster_uri_error text) = "ClusterUriError"
name name_of (host_error text) = name_of text

-- `assertActor(field, value)`
unfoldable pub assert_actor : String → Option Value → Result (Unit {0})
unfolding is_blank
assert_actor name (some (str s)) =
    if is_blank s then err (invalid_actor name (some (str s))) else ok tt
assert_actor name value = err (invalid_actor name value)
