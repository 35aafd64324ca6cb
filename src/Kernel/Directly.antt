-- ===== src/Kernel/Directly.antt =====
-- What the mutations that need no proposal leave behind.
use db_cluster.Prelude.{String, none, List, ◌≡◌, ◌⊎◌, refl, sym, subst, inl, inr}
use db_cluster.Json.{Fields}
use db_cluster.Errors.{Error, ok}
use db_cluster.Commands.{Command, CommandVerb, committed, mark_committed}
use db_cluster.Queue.{set_command}
use db_cluster.Stores.{Host}
use db_cluster.Kernel.Stored.{in_memory}
use db_cluster.Kernel.Action.{State, Action, draw, pure, ◌>>=◌}
use db_cluster.Kernel.Rules.{
  Holds, OnlyValue, IsQuiet, bind-Holds, catch-Holds, weaken-Holds, call-IsQuiet, draw-IsQuiet,
  check-IsQuiet, bind-IsQuiet,
}
use db_cluster.Kernel.Recording.{assert_actor_text}
use db_cluster.Kernel.Quiet.{
  record_provenance-IsQuiet, must_exist-IsQuiet, perform_index_rebuild-IsQuiet,
}
use db_cluster.Kernel.Direct.{
  Recorded, IngestArtifactInput, CreateEntityInput, LinkEvidenceInput, check_payload,
  committed_command, record_direct, ingest_artifact, create_entity, link_evidence, rebuild_index,
}
use db_cluster.Kernel.Outcomes.{
  IsReceiptFailed, IsEchoing, mark_committed-kept, quiet-Holds, save_command-Holds, orphaned-Holds,
  emit_receipt-Holds, check-step, quiet-step,
}

module _ {W : Type 0} (host : Host W) where
  -- A mutation that returns: a committed command of its own is stored, and the receipt names it.
  abbrev pub IsRecorded : List Command → Recorded → State W → Type 0
  IsRecorded cs r t =
      (c : Command) × (c.status ≡ committed)
      × (r.receipt.command_id ≡ c.id)
      × (t.commands ≡ in_memory (set_command cs c))

  -- A mutation that throws: no command is stored, or the error is a `ReceiptFailedError`.
  abbrev pub IsUnrecorded : List Command → Error → State W → Type 0
  IsUnrecorded cs e t = (t.commands ≡ in_memory cs) ⊎ ((done : Command) × IsReceiptFailed done.id e)

  kept :
      (cs : List Command) (e : Error) (t : State W)
      → t.commands ≡ in_memory cs
      → IsUnrecorded cs e t
  kept cs e t h = inl h

  check_payload-IsQuiet :
      (verb : CommandVerb) (store : String) (payload : Fields) (actor : String)
      → IsQuiet (check_payload host verb store payload actor)
  unfolding check_payload
  check_payload-IsQuiet verb store payload actor =
      bind-IsQuiet (draw-IsQuiet _) (λ id. bind-IsQuiet (draw-IsQuiet _) (λ now. check-IsQuiet _))

  assert_actor_text-IsQuiet : (role actor : String) → IsQuiet (assert_actor_text host role actor)
  unfolding assert_actor_text
  assert_actor_text-IsQuiet role actor = check-IsQuiet _

  committed_command-Holds :
      (verb : CommandVerb) (store : String) (payload : Fields) (actor : String) (cs : List Command)
      (s : State W)
      → s.commands ≡ in_memory cs
      → Holds
          (λ c t. (c.status ≡ committed) × (t.commands ≡ in_memory cs))
          (IsUnrecorded cs)
          (committed_command host verb store payload actor s)
  unfolding committed_command draw
  committed_command-Holds verb store payload actor cs s h =
      let same = in_memory cs in
      let E = IsUnrecorded cs in
      bind-Holds (OnlyValue same) _ E _ _ s h (λ id t q.
        bind-Holds (OnlyValue same) _ E _ _ t q (λ proposed_at u r.
          bind-Holds (OnlyValue same) _ E _ _ u r (λ validated_at v x.
            bind-Holds (OnlyValue same) _ E _ _ v
              (quiet-step host same E v (kept cs) (check-IsQuiet _) x)
              (λ validated w y. bind-Holds (OnlyValue same) _ E _ _ w y (λ now z k.
                weaken-Holds
                  (λ d t. (mark_committed now validated none ≡ ok d) × (t.commands ≡ same))
                  (λ c t. (c.status ≡ committed) × (t.commands ≡ same)) E E _
                  (check-step host (mark_committed now validated none) same E z (kept cs) k)
                  (λ d t l. ((mark_committed-kept now validated d none l.0).1, l.1))
                  (λ e t l. l))))))

  record_direct-Holds :
      IsEchoing host
      → (action subject store actor : String) (detail orphan : Fields) (summary : String)
        (affected : List String) (c : Command) (cs : List Command) (s : State W)
      → c.status ≡ committed
      → s.commands ≡ in_memory cs
      → Holds
          (IsRecorded cs)
          (IsUnrecorded cs)
          (record_direct host action subject store actor detail orphan summary affected c s)
  unfolding record_direct pure
  record_direct-Holds law action subject store actor detail orphan summary affected c cs s d h =
      let P = IsRecorded cs in
      let new = in_memory (set_command cs c) in
      catch-Holds P (λ e t. Unit) (IsUnrecorded cs) _ _ s
        (bind-Holds (OnlyValue (in_memory cs)) P (λ e t. Unit) _ _ s
          (quiet-Holds host (in_memory cs) s (record_provenance-IsQuiet host _ _ _ _ _ _) h)
          (λ p t q.
            bind-Holds (OnlyValue new) P (λ e t. Unit) _ _ t
              (save_command-Holds host cs c (λ e t. Unit) t q)
              (λ u v r.
                bind-Holds (λ x t. (x.command_id ≡ c.id) × (t.commands ≡ new)) P (λ e t. Unit) _ _ v
                  (emit_receipt-Holds host law new c _ _ _ v r) (λ x w y. (c, d, y.0, y.1)))))
        (λ e t q.
          weaken-Holds P P (λ e t. IsReceiptFailed c.id e) (IsUnrecorded cs) _
            (orphaned-Holds host P subject store c.id orphan e t) (λ a t x. x)
            (λ e t x. inr (c, x)))

  -- An action that records a mutation: `read` gives the event and the receipt of what it returns.
  record IsRecording {A : Type 0} (cs : List Command) (read : A → Recorded) (m : Action W A)
      : Type 0 where
    outcome :
        (s : State W)
        → s.commands ≡ in_memory cs
        → Holds (λ r t. IsRecorded cs (read r) t) (IsUnrecorded cs) (m s)

  quiet-IsRecording :
      {A B : Type 0} {cs : List Command} {read : B → Recorded} {m : Action W A} {f : A → Action W B}
      → IsQuiet m
      → ((a : A) → IsRecording cs read (f a))
      → IsRecording cs read (m >>= f)
  quiet-IsRecording {A} {B} {cs} {read} {m} {f} q k = record {
    outcome = λ s h.
        bind-Holds (OnlyValue (in_memory cs)) (λ r t. IsRecorded cs (read r) t) (IsUnrecorded cs) m
          f s (quiet-step host (in_memory cs) (IsUnrecorded cs) s (kept cs) q h)
          (λ a t x. (k a).outcome t x);
  }

  committed_command-IsRecording :
      {B : Type 0} {cs : List Command} {read : B → Recorded} {f : Command → Action W B}
      (verb : CommandVerb) (store : String) (payload : Fields) (actor : String)
      → ((c : Command) → c.status ≡ committed → IsRecording cs read (f c))
      → IsRecording cs read (committed_command host verb store payload actor >>= f)
  committed_command-IsRecording {B} {cs} {read} {f} verb store payload actor k = record {
    outcome = λ s h.
        bind-Holds (λ c t. (c.status ≡ committed) × (t.commands ≡ in_memory cs))
          (λ r t. IsRecorded cs (read r) t) (IsUnrecorded cs) _ f s
          (committed_command-Holds verb store payload actor cs s h)
          (λ c t x. (k c x.0).outcome t x.1);
  }

  record_direct-IsRecording :
      {cs : List Command} (action subject store actor : String) (detail orphan : Fields)
      (summary : String) (affected : List String) (c : Command)
      → IsEchoing host
      → c.status ≡ committed
      → IsRecording cs
          (λ r. r)
          (record_direct host action subject store actor detail orphan summary affected c)
  record_direct-IsRecording {cs} action subject store actor detail orphan summary affected c law d =
      record {
        outcome = λ s h.
            record_direct-Holds law action subject store actor detail orphan summary affected c cs s
              d h;
      }

  pure-IsRecording :
      {B : Type 0} {cs : List Command} {read : B → Recorded} {m : Action W Recorded}
      (g : Recorded → B)
      → IsRecording cs (λ r. r) m
      → ((r : Recorded) → read (g r) ≡ r)
      → IsRecording cs read (m >>= λ r. pure (g r))
  unfolding pure
  pure-IsRecording {B} {cs} {read} {m} g k e = record {
    outcome = λ s h.
        bind-Holds (λ r t. IsRecorded cs r t) (λ r t. IsRecorded cs (read r) t) (IsUnrecorded cs) m
          _ s (k.outcome s h) (λ r t x. subst (λ y. IsRecorded cs y t) (sym (e r)) x);
  }

  link_evidence-IsRecording :
      IsEchoing host
      → (i : LinkEvidenceInput) (cs : List Command) → IsRecording cs (λ r. r) (link_evidence host i)
  unfolding link_evidence
  link_evidence-IsRecording law i cs = quiet-IsRecording (assert_actor_text-IsQuiet _ _) (λ u.
      quiet-IsRecording (call-IsQuiet _) (λ a.
        quiet-IsRecording (must_exist-IsQuiet host _ _ a) (λ o.
          quiet-IsRecording (call-IsQuiet _) (λ b.
            quiet-IsRecording (must_exist-IsQuiet host _ _ b) (λ o'.
              committed_command-IsRecording _ _ _ _
                (λ c d. record_direct-IsRecording _ _ _ _ _ _ _ _ c law d))))))

  rebuild_index-IsRecording :
      IsEchoing host
      → (actor : String) (cs : List Command) → IsRecording cs (λ r. r.1) (rebuild_index host actor)
  unfolding rebuild_index
  rebuild_index-IsRecording law actor cs = quiet-IsRecording (assert_actor_text-IsQuiet _ _) (λ u.
      quiet-IsRecording (perform_index_rebuild-IsQuiet host) (λ n.
        committed_command-IsRecording _ _ _ _ (λ c d.
          pure-IsRecording _ (record_direct-IsRecording _ _ _ _ _ _ _ _ c law d) (λ r. refl))))

  create_entity-IsRecording :
      IsEchoing host
      → (i : CreateEntityInput) (cs : List Command)
      → IsRecording cs (λ r. r.recorded) (create_entity host i)
  unfolding create_entity
  create_entity-IsRecording law i cs = quiet-IsRecording (assert_actor_text-IsQuiet _ _) (λ u.
      quiet-IsRecording (check_payload-IsQuiet _ _ _ _) (λ v.
        quiet-IsRecording (call-IsQuiet _) (λ entity. quiet-IsRecording (call-IsQuiet _) (λ r.
          committed_command-IsRecording _ _ _ _ (λ c d.
            pure-IsRecording _ (record_direct-IsRecording _ _ _ _ _ _ _ _ c law d) (λ r. refl))))))

  ingest_artifact-IsRecording :
      IsEchoing host
      → (i : IngestArtifactInput) (cs : List Command)
      → IsRecording cs (λ r. r.recorded) (ingest_artifact host i)
  unfolding ingest_artifact
  ingest_artifact-IsRecording law i cs = quiet-IsRecording (assert_actor_text-IsQuiet _ _) (λ u.
      quiet-IsRecording (check_payload-IsQuiet _ _ _ _) (λ v.
        quiet-IsRecording (call-IsQuiet _) (λ artifact. quiet-IsRecording (call-IsQuiet _) (λ r.
          committed_command-IsRecording _ _ _ _ (λ c d.
            pure-IsRecording _ (record_direct-IsRecording _ _ _ _ _ _ _ _ c law d) (λ r. refl))))))

  -- Over commands in memory, and with a ledger whose receipts name the command they are for, each of
  -- `ingestArtifact`, `createEntity`, `linkEvidence` and `rebuildIndex` either returns, and then a command
  -- that is committed is stored and the receipt names it; or throws, and then no command is stored or
  -- the error is a `ReceiptFailedError`.
  pub direct-Holds :
      IsEchoing host
      → (i : IngestArtifactInput) (e : CreateEntityInput) (l : LinkEvidenceInput) (actor : String)
        (cs : List Command) (s : State W)
      → s.commands ≡ in_memory cs
      → Holds (λ r t. IsRecorded cs r.recorded t) (IsUnrecorded cs) (ingest_artifact host i s)
        × Holds (λ r t. IsRecorded cs r.recorded t) (IsUnrecorded cs) (create_entity host e s)
        × Holds (λ r t. IsRecorded cs r t) (IsUnrecorded cs) (link_evidence host l s)
        × Holds (λ r t. IsRecorded cs r.1 t) (IsUnrecorded cs) (rebuild_index host actor s)
  direct-Holds law i e l actor cs s h = (
    (ingest_artifact-IsRecording law i cs).outcome s h,
    (create_entity-IsRecording law e cs).outcome s h,
    (link_evidence-IsRecording law l cs).outcome s h,
    (rebuild_index-IsRecording law actor cs).outcome s h,
  )
