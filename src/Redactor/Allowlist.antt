-- ===== src/Redactor/Allowlist.antt =====
-- The allowlists of src/policy/redactor.ts, and the markers of src/types/redaction.ts.
use db_cluster.Prelude.{
  String, true, false, Bool, Option, none, some, List, [], ◌∷◌, includes, if◌then◌else◌,
}
use db_cluster.Json.{Value, null, bool, num, str, buffer, arr, obj, Fields, end, field, get_field}

-- `PRESERVED_FIELDS_ARTIFACT`
abbrev pub preserved_fields_artifact : List String
preserved_fields_artifact =
    "id" ∷ "filename" ∷ "contentHash" ∷ "mimeType" ∷ "sizeBytes" ∷ "version" ∷ "storagePath"
    ∷ "ingestedAt" ∷ "owner" ∷ []

-- `PRESERVED_FIELDS_ENTITY`
abbrev pub preserved_fields_entity : List String
preserved_fields_entity =
    "id" ∷ "kind" ∷ "name" ∷ "attributes" ∷ "version" ∷ "createdAt" ∷ "updatedAt" ∷ "owner" ∷ []

-- `PRESERVED_FIELDS_COMMAND`
abbrev pub preserved_fields_command : List String
preserved_fields_command =
    "id" ∷ "verb" ∷ "targetStore" ∷ "payload" ∷ "proposedAt" ∷ "proposedBy" ∷ "status"
    ∷ "validation" ∷ "rejectionReason" ∷ "rejectedBy" ∷ "rejectedAt" ∷ "approvedBy" ∷ "approvedAt"
    ∷ "approvalNote" ∷ "committedAt" ∷ "committedBy" ∷ "compensatedBy" ∷ "compensatedAt"
    ∷ "compensatingCommandId" ∷ []

-- `PRESERVED_FIELDS_RECEIPT`
abbrev pub preserved_fields_receipt : List String
preserved_fields_receipt =
    "id" ∷ "commandId" ∷ "committedAt" ∷ "resultSummary" ∷ "affectedIds" ∷ "provenanceEventId"
    ∷ "integrityHash" ∷ "prevHash" ∷ []

-- `PRESERVED_FIELDS_PROVENANCE_EVENT`
abbrev pub preserved_fields_provenance_event : List String
preserved_fields_provenance_event =
    "id" ∷ "timestamp" ∷ "action" ∷ "actorId" ∷ "subjectId" ∷ "subjectStore" ∷ "detail"
    ∷ "parentEventId" ∷ "owner" ∷ "integrityHash" ∷ "prevHash" ∷ []

-- `PRESERVED_FIELDS_INDEX_RECORD`
abbrev pub preserved_fields_index_record : List String
preserved_fields_index_record =
    "id" ∷ "sourceId" ∷ "sourceStore" ∷ "text" ∷ "metadata" ∷ "embedding" ∷ "indexedAt" ∷ "owner"
    ∷ []

-- `inferMarkerKind`
unfoldable pub infer_marker_kind : Value → String
infer_marker_kind (str s) = "string"
infer_marker_kind (num n) = "number"
infer_marker_kind (buffer b) = "buffer"
infer_marker_kind (arr xs) = "array"
infer_marker_kind (obj f) = "object"
infer_marker_kind null = "unknown"
infer_marker_kind (bool b) = "unknown"

abbrev with_capability : Option String → Fields
with_capability none = end
with_capability (some c) = field "capability" (str c) end

-- `redactedMarker`
unfoldable pub redacted_marker : (kind reason : String) → Option String → Value
redacted_marker kind reason capability = obj (
    field "_redacted" (bool true)
      (field "kind" (str kind) (field "reason" (str reason) (with_capability capability))))

-- `isRedactedMarker`
unfoldable pub is_redacted_marker : Value → Bool
unfolding get_field
is_redacted_marker (obj f) = elim (get_field f "_redacted") [ some (bool b) ↦ b | _ ↦ false ]
is_redacted_marker _ = false

-- the marker of a field that the allowlist does not name
abbrev pub unknown_field : Value → Value
unknown_field v = redacted_marker (infer_marker_kind v) "unknown_field" none

-- `applyAllowlist`
unfoldable pub apply_allowlist : List String → Fields → Fields
unfolding infer_marker_kind redacted_marker
apply_allowlist allowed end = end
apply_allowlist allowed (field key v rest) =
    field key (if includes allowed key then v else unknown_field v) (apply_allowlist allowed rest)
