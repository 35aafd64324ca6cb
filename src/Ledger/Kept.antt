-- ===== src/Ledger/Kept.antt =====
-- What `rotate` of src/adapters/local/local-ledger-store.ts leaves where a write fails or a file is stuck.
use db_cluster.Prelude.{
  ℕ, zero, suc, ◌<◌, ltb, arith, true, false, String, Bool, ◌&&◌, none, some, ◌≡◌, ◌⊎◌, inl, inr,
  refl, sym, ap, ◌∙◌, subst, is_empty, Bool-cases,
}
use db_cluster.Ledger.Types.{event_sealed, receipt_sealed}
use db_cluster.Ledger.Log.{earlier}
use db_cluster.Ledger.Rotate.{
  Folder, Chains, Failure, serialize_ndjson, archived_before, retained_since, lines_at, perform,
  rotation_writes, crash_after, roll_back, failed_at, complete_rotation, remove_best_effort, Stuck,
  cleared, Marker, rotate_marker, commit_rotation, rotate, recover_at, recover_interrupted_rotation,
}
use db_cluster.Ledger.Rotation.{
  IsReady, events_archived, receipts_archived, events_before_rename, events_after_rename,
  receipts_before_rename, receipts_after_rename, recover-unmarked,
}

-- Each active file holds all of its records, or exactly those since the boundary, with the ones before
-- it in the archive.
abbrev pub KeepsAll : (events_path receipts_path before : String) → Chains → Folder → Type 0
KeepsAll events_path receipts_path before c f =
    ((f.events_lines ≡ some (serialize_ndjson c.events))
      ⊎ ((f.events_lines ≡ some (serialize_ndjson (retained_since before c.events)))
          × (lines_at events_path f.events_archives
              ≡ serialize_ndjson (archived_before before c.events))))
    × ((f.receipts_lines ≡ some (serialize_ndjson c.receipts))
        ⊎ ((f.receipts_lines ≡ some (serialize_ndjson (retained_since before c.receipts)))
            × (lines_at receipts_path f.receipts_archives
                ≡ serialize_ndjson (archived_before before c.receipts))))

-- No record is lost, now and behind the recovery of the next start, and a marker stands only where it
-- could not be removed.
abbrev pub IsKept : (events_path receipts_path before : String) → Stuck → Chains → Folder → Type 0
IsKept events_path receipts_path before stuck c f =
    KeepsAll events_path receipts_path before c f
    × KeepsAll events_path receipts_path before c (recover_interrupted_rotation f)
    × ((f.marker ≡ none) ⊎ (stuck.marker ≡ true))

module _ (events_path receipts_path before : String) (c : Chains) (f : Folder)
    (h : IsReady events_path receipts_path c f) where
  -- where there is no marker, the recovery does nothing
  unmarked-IsKept :
      (stuck : Stuck) (g : Folder)
      → KeepsAll events_path receipts_path before c g
      → g.marker ≡ none
      → IsKept events_path receipts_path before stuck c g
  unmarked-IsKept stuck g kept e = (
    kept,
    subst (KeepsAll events_path receipts_path before c)
        (sym (recover-unmarked events_path receipts_path before c f h g e)) kept,
    inl e,
  )

  -- before the first rename both active files hold everything
  early-IsKept :
      (stuck : Stuck) (g : Folder)
      → g.events_lines ≡ f.events_lines
      → g.receipts_lines ≡ f.receipts_lines
      → g.marker ≡ none
      → IsKept events_path receipts_path before stuck c g
  early-IsKept stuck g es rs e =
      unmarked-IsKept stuck g (inl (es ∙ h.events_held), inl (rs ∙ h.receipts_held)) e

  remove-unmarked : (b : Bool) → remove_best_effort b f.marker ≡ none
  unfolding remove_best_effort
  remove-unmarked true = h.unmarked
  remove-unmarked false = refl

  abbrev named : Marker
  named = rotate_marker events_path receipts_path

  -- behind the marker, which may be stuck: the recovery either has nothing to do or has all of it
  marked-IsKept :
      (stuck : Stuck) (g : Folder)
      → g.marker ≡ remove_best_effort stuck.marker (some named)
      → KeepsAll events_path receipts_path before c g
      → KeepsAll events_path receipts_path before c (recover_at (some named) g)
      → IsKept events_path receipts_path before stuck c g
  unfolding recover_interrupted_rotation remove_best_effort
  marked-IsKept stuck g e kept recovered = elim (Bool-cases stuck.marker) [
    | inr free ↦ unmarked-IsKept stuck g kept (e ∙ ap (λ b. remove_best_effort b (some named)) free)
    | inl held ↦ (
      kept,
      subst (λ m. KeepsAll events_path receipts_path before c (recover_at m g))
          (sym (e ∙ ap (λ b. remove_best_effort b (some named)) held)) recovered,
      inr held,
    )
  ]

  -- what stands behind the first `n` writes
  abbrev written : ℕ → Folder
  written n = crash_after n (rotation_writes events_path receipts_path before c) f

  failed_at-IsKept :
      (stuck : Stuck) (n : ℕ)
      → n < 7
      → IsKept events_path receipts_path before stuck c (failed_at stuck n (written n))
  unfolding crash_after perform rotation_writes roll_back recover_at
  failed_at-IsKept stuck zero lt = early-IsKept stuck (written 0) refl refl h.unmarked
  failed_at-IsKept stuck (suc zero) lt = early-IsKept stuck (written 1) refl refl h.unmarked
  failed_at-IsKept stuck (suc (suc zero)) lt =
      early-IsKept stuck (roll_back stuck (written 2)) refl refl (remove-unmarked stuck.marker)
  failed_at-IsKept stuck (suc (suc (suc zero))) lt =
      early-IsKept stuck (roll_back stuck (written 3)) refl refl (remove-unmarked stuck.marker)
  failed_at-IsKept stuck (suc (suc (suc (suc zero)))) lt =
      early-IsKept stuck (roll_back stuck (written 4)) refl refl (remove-unmarked stuck.marker)
  failed_at-IsKept stuck (suc (suc (suc (suc (suc zero))))) lt =
      marked-IsKept stuck (roll_back stuck (written 5)) refl
        (inl h.events_held, inl h.receipts_held)
        (
          inr (
            (events_before_rename events_path receipts_path before c f h),
            (events_archived events_path receipts_path before c f h),
          ),
          inr (
            (receipts_before_rename events_path receipts_path before c f h),
            (receipts_archived events_path receipts_path before c f h),
          ),
        )
  failed_at-IsKept stuck (suc (suc (suc (suc (suc (suc zero)))))) lt =
      marked-IsKept stuck (roll_back stuck (written 6)) refl
        (inr (refl, (events_archived events_path receipts_path before c f h)), inl h.receipts_held)
        (
          inr (
            (events_after_rename events_path receipts_path before c f h),
            (events_archived events_path receipts_path before c f h),
          ),
          inr (
            (receipts_before_rename events_path receipts_path before c f h),
            (receipts_archived events_path receipts_path before c f h),
          ),
        )
  failed_at-IsKept stuck (suc (suc (suc (suc (suc (suc (suc n))))))) lt = absurd (omega arith)

  complete_rotation-IsKept :
      (stuck : Stuck)
      → IsKept events_path receipts_path before stuck c
          (complete_rotation events_path receipts_path before stuck c f).2
  unfolding complete_rotation crash_after perform rotation_writes recover_at
  complete_rotation-IsKept stuck =
      marked-IsKept stuck (cleared stuck (written 7)) refl
        (
          inr (refl, (events_archived events_path receipts_path before c f h)),
          inr (refl, (receipts_archived events_path receipts_path before c f h)),
        )
        (
          inr (
            (events_after_rename events_path receipts_path before c f h),
            (events_archived events_path receipts_path before c f h),
          ),
          inr (
            (receipts_after_rename events_path receipts_path before c f h),
            (receipts_archived events_path receipts_path before c f h),
          ),
        )

  commit_rotation-IsKept :
      (failure : Failure) (stuck : Stuck)
      → IsKept events_path receipts_path before stuck c
          (commit_rotation events_path receipts_path before failure stuck c f).2
  unfolding commit_rotation
  commit_rotation-IsKept none stuck = complete_rotation-IsKept stuck
  commit_rotation-IsKept (some (n, text)) stuck = elim (Bool-cases (ltb n 7)) [
    | inl e ↦ rw e (failed_at-IsKept stuck n (ground arith))
    | inr e ↦ rw e (complete_rotation-IsKept stuck)
  ]

  -- From a data directory whose active files hold the two chains, with ids that are there and differ, no
  -- marker, and two new archive paths: whether `rotate` returns, refuses the boundary, or throws at
  -- whichever of its writes, and whichever of the staged files and the marker it cannot remove, no
  -- record is lost. Each active file holds all of its records, or exactly those since the boundary with
  -- the ones before it in the archive, and so it is behind the recovery of the next start. A marker
  -- stays only where it cannot be removed.
  pub rotate-IsKept :
      (is_date : String → Bool) (now : String) (failure : Failure) (stuck : Stuck)
      → IsKept events_path receipts_path before stuck c
          (rotate is_date now events_path receipts_path before failure stuck c f).2
  unfolding rotate
  rotate-IsKept is_date now failure stuck =
      let same : IsKept events_path receipts_path before stuck c f =
        early-IsKept stuck f refl refl h.unmarked in
      elim (Bool-cases (is_date before)) [
        | inr e ↦ rw e same
        | inl e ↦ elim (Bool-cases (earlier now before)) [
          | inl l ↦ rw (e, l) same
          | inr l ↦
              elim (Bool-cases (
                is_empty (archived_before before c.events)
                && is_empty (archived_before before c.receipts))) [
                  | inl none_old ↦ rw (e, l, none_old) same
                  | inr some_old ↦ rw (e, l, some_old) (commit_rotation-IsKept failure stuck)
                ]
        ]
      ]
