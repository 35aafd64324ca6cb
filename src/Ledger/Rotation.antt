-- ===== src/Ledger/Rotation.antt =====
-- A rotation that crashes or fails loses no record.
use db_cluster.Prelude.{
  ℕ, zero, suc, String, none, some, [], ◌≡◌, ◌⊎◌, inl, inr, refl, sym, ap, ap₂, ◌∙◌, subst,
}
use db_cluster.Ledger.Types.{event_sealed, receipt_sealed}
use db_cluster.Ledger.Recovery.{HasIds}
use db_cluster.Ledger.Rotate.{
  Folder, Chains, serialize_ndjson, archived_before, retained_since, lines_at,
  dedup_active_against_archive, put_archive, perform, rotation_writes, crash_after, recover_at,
  recover_interrupted_rotation,
}
use db_cluster.Ledger.Dedup.{IsDistinct, dedup-retained, lines_at-put_archive}

-- Both active files hold the chains, with ids and no id twice, there is no marker, and the two paths of
-- the archives are new.
pub record IsReady (events_path receipts_path : String) (c : Chains) (f : Folder) : Type 0 where
  pub events_held : f.events_lines ≡ some (serialize_ndjson c.events)
  pub receipts_held : f.receipts_lines ≡ some (serialize_ndjson c.receipts)
  pub unmarked : f.marker ≡ none
  pub events_path_new : lines_at events_path f.events_archives ≡ []
  pub receipts_path_new : lines_at receipts_path f.receipts_archives ≡ []
  pub events_named : HasIds c.events
  pub receipts_named : HasIds c.receipts
  pub events_distinct : IsDistinct c.events
  pub receipts_distinct : IsDistinct c.receipts

-- No rotation: both active files hold everything.
abbrev pub IsUnrotated : Chains → Folder → Type 0
IsUnrotated c f =
    (f.events_lines ≡ some (serialize_ndjson c.events))
    × (f.receipts_lines ≡ some (serialize_ndjson c.receipts))
    × (f.marker ≡ none)

-- A whole rotation: both active files hold the records since the boundary, and the two archives the
-- ones before it.
abbrev pub IsRotated : (events_path receipts_path before : String) → Chains → Folder → Type 0
IsRotated events_path receipts_path before c f =
    (f.events_lines ≡ some (serialize_ndjson (retained_since before c.events)))
    × (f.receipts_lines ≡ some (serialize_ndjson (retained_since before c.receipts)))
    × (lines_at events_path f.events_archives ≡ serialize_ndjson (archived_before before c.events))
    × (lines_at receipts_path f.receipts_archives
        ≡ serialize_ndjson (archived_before before c.receipts))
    × (f.marker ≡ none)

module _ (events_path receipts_path before : String) (c : Chains) (f : Folder)
    (h : IsReady events_path receipts_path c f) where
  abbrev after : ℕ → Folder
  after n =
      recover_interrupted_rotation
        (crash_after n (rotation_writes events_path receipts_path before c) f)

  pub events_archived :
      lines_at events_path
        (put_archive events_path (archived_before before c.events) f.events_archives)
      ≡ serialize_ndjson (archived_before before c.events)
  events_archived =
      lines_at-put_archive events_path (archived_before before c.events) f.events_archives
        h.events_path_new

  pub receipts_archived :
      lines_at receipts_path
        (put_archive receipts_path (archived_before before c.receipts) f.receipts_archives)
      ≡ serialize_ndjson (archived_before before c.receipts)
  receipts_archived =
      lines_at-put_archive receipts_path (archived_before before c.receipts) f.receipts_archives
        h.receipts_path_new

  -- what recovery makes of an active file that was not yet renamed, and of one that was
  pub events_before_rename :
      dedup_active_against_archive f.events_lines (
        lines_at events_path
          (put_archive events_path (archived_before before c.events) f.events_archives))
      ≡ some (serialize_ndjson (retained_since before c.events))
  events_before_rename =
      ap₂ dedup_active_against_archive h.events_held events_archived
      ∙ (dedup-retained before c.events h.events_named h.events_distinct).0

  pub events_after_rename :
      dedup_active_against_archive (some (serialize_ndjson (retained_since before c.events))) (
        lines_at events_path
          (put_archive events_path (archived_before before c.events) f.events_archives))
      ≡ some (serialize_ndjson (retained_since before c.events))
  events_after_rename =
      ap (dedup_active_against_archive _) events_archived
      ∙ (dedup-retained before c.events h.events_named h.events_distinct).1

  pub receipts_before_rename :
      dedup_active_against_archive f.receipts_lines (
        lines_at receipts_path
          (put_archive receipts_path (archived_before before c.receipts) f.receipts_archives))
      ≡ some (serialize_ndjson (retained_since before c.receipts))
  receipts_before_rename =
      ap₂ dedup_active_against_archive h.receipts_held receipts_archived
      ∙ (dedup-retained before c.receipts h.receipts_named h.receipts_distinct).0

  pub receipts_after_rename :
      dedup_active_against_archive (some (serialize_ndjson (retained_since before c.receipts))) (
        lines_at receipts_path
          (put_archive receipts_path (archived_before before c.receipts) f.receipts_archives))
      ≡ some (serialize_ndjson (retained_since before c.receipts))
  receipts_after_rename =
      ap (dedup_active_against_archive _) receipts_archived
      ∙ (dedup-retained before c.receipts h.receipts_named h.receipts_distinct).1

  pub recover-unmarked : (g : Folder) → g.marker ≡ none → recover_interrupted_rotation g ≡ g
  unfolding recover_interrupted_rotation recover_at
  recover-unmarked g e = ap (λ m. recover_at m g) e

  still-IsUnrotated :
      (g : Folder)
      → g.events_lines ≡ f.events_lines
      → g.receipts_lines ≡ f.receipts_lines
      → g.marker ≡ f.marker
      → IsUnrotated c (recover_interrupted_rotation g)
  still-IsUnrotated g es rs m =
      subst (IsUnrotated c) (sym (recover-unmarked g (m ∙ h.unmarked)))
        (es ∙ h.events_held, rs ∙ h.receipts_held, m ∙ h.unmarked)

  -- Wherever the process dies between the writes of a rotation, the recovery at the next start leaves
  -- the data directory as if no record had been rotated, or as if all had been: both active files hold
  -- every record, or both hold exactly the records since the boundary and the archives exactly the
  -- ones before it; and the marker is gone.
  pub recover-crash_after :
      (n : ℕ) → IsUnrotated c (after n) ⊎ IsRotated events_path receipts_path before c (after n)
  unfolding recover_interrupted_rotation recover_at crash_after perform rotation_writes
  recover-crash_after zero = inl (still-IsUnrotated _ refl refl refl)
  recover-crash_after (suc zero) = inl (still-IsUnrotated _ refl refl refl)
  recover-crash_after (suc (suc zero)) = inl (still-IsUnrotated _ refl refl refl)
  recover-crash_after (suc (suc (suc zero))) = inl (still-IsUnrotated _ refl refl refl)
  recover-crash_after (suc (suc (suc (suc zero)))) = inl (still-IsUnrotated _ refl refl refl)
  recover-crash_after (suc (suc (suc (suc (suc zero))))) =
      inr (events_before_rename, receipts_before_rename, events_archived, receipts_archived, refl)
  recover-crash_after (suc (suc (suc (suc (suc (suc zero)))))) =
      inr (events_after_rename, receipts_before_rename, events_archived, receipts_archived, refl)
  recover-crash_after (suc (suc (suc (suc (suc (suc (suc zero))))))) =
      inr (events_after_rename, receipts_after_rename, events_archived, receipts_archived, refl)
  recover-crash_after (suc (suc (suc (suc (suc (suc (suc (suc n)))))))) =
      inr (refl, refl, events_archived, receipts_archived, refl)
