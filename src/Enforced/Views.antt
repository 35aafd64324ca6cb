-- ===== src/Enforced/Views.antt =====
-- The records as the objects that the redactor walks, and `redact…` where there are rules.
use db_cluster.Prelude.{String, Option, none, some, List, [], ◌∷◌}
use db_cluster.Json.{bool, num, str, arr, obj, Items, nil, cons, Fields, end, field, decimal}
use db_cluster.Commands.{Command, ValidationCheck, ValidationResult, verb_name, status_name}
use db_cluster.Canonical.{Entity}
use db_cluster.Stores.{Artifact}
use db_cluster.Policy.{RedactionRule}

-- a key that is there where its value is
abbrev key : String → Option String → Fields → Fields
key name none rest = rest
key name (some s) rest = field name (str s) rest

unfoldable pub entity_fields : Entity → Fields
entity_fields e = field "id" (str e.id) (
    field "kind" (str e.kind) (
      field "name" (str e.name) (
        field "attributes" (obj e.attributes) (
          field "version" (num (decimal e.version)) (
            field "createdAt" (str e.created_at)
              (field "updatedAt" (str e.updated_at) (field "owner" (str "canonical") end)))))))

unfoldable pub artifact_fields : Artifact → Fields
artifact_fields a = field "id" (str a.id) (
    field "filename" (str a.filename) (
      field "contentHash" (str a.content_hash) (
        field "mimeType" (str a.mime_type) (
          field "sizeBytes" (num (decimal a.size_bytes)) (
            field "version" (num (decimal a.version)) (
              field "storagePath" (str a.storage_path)
                (field "ingestedAt" (str a.ingested_at) (field "owner" (str "artifact") end))))))))

abbrev check_fields : ValidationCheck → Fields
check_fields c =
    field "name" (str c.name) (field "passed" (bool c.passed) (key "message" c.message end))

abbrev check_items : List ValidationCheck → Items
check_items [] = nil
check_items (c ∷ cs) = cons (obj (check_fields c)) (check_items cs)

abbrev validation_field : Option ValidationResult → Fields → Fields
validation_field none rest = rest
validation_field (some v) rest =
    field "validation"
      (obj (
        field "valid" (bool v.valid) (
          field "checks" (arr (check_items v.checks))
            (field "validatedAt" (str v.validated_at) end))))
      rest

unfoldable pub command_fields : Command → Fields
unfolding verb_name status_name
command_fields c = field "id" (str c.id) (
    field "verb" (str (verb_name c.verb)) (
      field "targetStore" (str c.target_store) (
        field "payload" (obj c.payload) (
          field "proposedAt" (str c.proposed_at) (
            field "proposedBy" (str c.proposed_by) (
              field "status" (str (status_name c.status)) (
                validation_field c.validation (
                  key "rejectionReason" c.rejection_reason (
                    key "rejectedBy" c.rejected_by (
                      key "rejectedAt" c.rejected_at (
                        key "approvedBy" c.approved_by (
                          key "approvedAt" c.approved_at (
                            key "approvalNote" c.approval_note (
                              key "committedAt" c.committed_at (
                                key "committedBy" c.committed_by (
                                  key "compensatedBy" c.compensated_by (
                                    key "compensatedAt" c.compensated_at (
                                      key "compensatingCommandId" c.compensating_command_id
                                        end))))))))))))))))))

-- `rules.length > 0 ? redact(record, rules) : record`
unfoldable pub shown : (Fields → List RedactionRule → Fields) → List RedactionRule → Fields → Fields
shown redact [] fields = fields
shown redact (rule ∷ rules) fields = redact fields (rule ∷ rules)
