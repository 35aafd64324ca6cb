-- ===== src/Ledger/Types.antt =====
-- src/types/provenance-event.ts and src/types/receipt.ts, and what the two chains of the ledger share.
use db_cluster.Prelude.{String, Option, none, some, List, [], ◌∷◌, ◌≡◌, refl}
use db_cluster.Json.{str, arr, obj, Items, nil, cons, Fields, end, field, delete_field}

-- `ProvenanceEvent`; its owner is always `ledger`
pub record Event : Type 0 where
  pub id : String
  pub timestamp : String
  pub action : String
  pub actor_id : String
  pub subject_id : String
  pub subject_store : String
  pub detail : Fields
  pub parent_event_id : Option String
  pub prev_hash : Option String
  pub integrity_hash : String

-- `Receipt`
pub record Receipt : Type 0 where
  pub id : String
  pub command_id : String
  pub committed_at : String
  pub result_summary : String
  pub affected_ids : List String
  pub provenance_event_id : String
  pub prev_hash : Option String
  pub integrity_hash : String

-- a key that is there where its value is
abbrev optional : String → Option String → Fields → Fields
optional key none rest = rest
optional key (some s) rest = field key (str s) rest

abbrev texts : List String → Items
texts [] = nil
texts (s ∷ rest) = cons (str s) (texts rest)

unfoldable pub event_fields : Event → Fields
event_fields e = field "id" (str e.id) (
    field "timestamp" (str e.timestamp) (
      field "action" (str e.action) (
        field "actorId" (str e.actor_id) (
          field "subjectId" (str e.subject_id) (
            field "subjectStore" (str e.subject_store) (
              field "detail" (obj e.detail) (
                optional "parentEventId" e.parent_event_id (
                  field "owner" (str "ledger") (
                    optional "prevHash" e.prev_hash
                      (field "integrityHash" (str e.integrity_hash) end))))))))))

unfoldable pub receipt_fields : Receipt → Fields
receipt_fields r = field "id" (str r.id) (
    field "commandId" (str r.command_id) (
      field "committedAt" (str r.committed_at) (
        field "resultSummary" (str r.result_summary) (
          field "affectedIds" (arr (texts r.affected_ids)) (
            field "provenanceEventId" (str r.provenance_event_id) (
              optional "prevHash" r.prev_hash
                (field "integrityHash" (str r.integrity_hash) end)))))))

-- A kind of record with an id, a time, and the two fields of tamper evidence. The source writes each
-- operation for events and again for receipts; here an operation is written once for such records.
pub record Sealed (A : Type 0) : Type 0 where
  pub kind_name : String
  pub id_of : A → String
  pub time_of : A → String
  pub prev_of : A → Option String
  pub hash_of : A → String
  pub seal : (prev : Option String) (hash : String) → A → A
  pub fields_of : A → Fields
  pub hash_of-seal : (p : Option String) (h : String) (a : A) → hash_of (seal p h a) ≡ h
  pub prev_of-seal : (p : Option String) (h : String) (a : A) → prev_of (seal p h a) ≡ p
  pub id_of-seal : (p : Option String) (h : String) (a : A) → id_of (seal p h a) ≡ id_of a
  pub content-seal :
      (p : Option String) (h g : String) (a : A)
      → delete_field (fields_of (seal p h a)) "integrityHash"
        ≡ delete_field (fields_of (seal p g a)) "integrityHash"

pub event_content-seal :
    (p q : Option String) (h g : String) (e : Event)
    → q ≡ e.parent_event_id
    → delete_field
        (event_fields (record e { parent_event_id = q; prev_hash = p; integrity_hash = h }))
        "integrityHash"
      ≡ delete_field
          (event_fields (record e { parent_event_id = q; prev_hash = p; integrity_hash = g }))
          "integrityHash"
unfolding delete_field event_fields
event_content-seal none none h g e s = refl
event_content-seal none (some q) h g e s = refl
event_content-seal (some p) none h g e s = refl
event_content-seal (some p) (some q) h g e s = refl

pub receipt_content-seal :
    (p : Option String) (h g : String) (r : Receipt)
    → delete_field (receipt_fields (record r { prev_hash = p; integrity_hash = h })) "integrityHash"
      ≡ delete_field
          (receipt_fields (record r { prev_hash = p; integrity_hash = g }))
          "integrityHash"
unfolding delete_field receipt_fields
receipt_content-seal none h g r = refl
receipt_content-seal (some p) h g r = refl

instance abbrev pub event_sealed : Sealed Event
event_sealed = record {
  kind_name = "event";
  id_of = λ e. e.id;
  time_of = λ e. e.timestamp;
  prev_of = λ e. e.prev_hash;
  hash_of = λ e. e.integrity_hash;
  seal = λ p h e. record e { prev_hash = p; integrity_hash = h };
  fields_of = event_fields;
  hash_of-seal = λ p h e. refl;
  prev_of-seal = λ p h e. refl;
  id_of-seal = λ p h e. refl;
  content-seal = λ p h g e. event_content-seal p e.parent_event_id h g e refl;
}

instance abbrev pub receipt_sealed : Sealed Receipt
receipt_sealed = record {
  kind_name = "receipt";
  id_of = λ r. r.id;
  time_of = λ r. r.committed_at;
  prev_of = λ r. r.prev_hash;
  hash_of = λ r. r.integrity_hash;
  seal = λ p h r. record r { prev_hash = p; integrity_hash = h };
  fields_of = receipt_fields;
  hash_of-seal = λ p h r. refl;
  prev_of-seal = λ p h r. refl;
  id_of-seal = λ p h r. refl;
  content-seal = receipt_content-seal;
}
