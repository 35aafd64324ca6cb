-- ===== src/Kernel/Committing.antt =====
-- What `commitMutation` leaves behind, whether it returns or throws.
use db_cluster.Prelude.{
  String, Bool, true, false, some, List, [], ◌∷◌, ◌≡◌, ◌⊎◌, refl, sym, ap, ◌∙◌, subst, inl, inr,
}
use db_cluster.Json.{str}
use db_cluster.Errors.{Error, ok, command_rejected, assert_actor}
use db_cluster.Commands.{
  Command, CommandVerb, update_entity, create_entity, ingest_artifact, link_evidence, reindex,
  propose_mutation, compensate, unknown, committed, rejected, compensated, is_committed,
  is_committable, mark_committed, mark_rejected, valid_transitions,
}
use db_cluster.Queue.{set_command, get_command}
use db_cluster.Stores.{Host}
use db_cluster.Kernel.Stored.{in_memory}
use db_cluster.Kernel.Action.{State, Action, draw, pure, throw_error}
use db_cluster.Kernel.Rules.{
  Holds, OnlyError, OnlyValue, IsQuiet, bind-Holds, catch-Holds, weaken-Holds, check-IsQuiet,
}
use db_cluster.Kernel.Recording.{assert_actor_text}
use db_cluster.Kernel.Arms.{Mutated, mutate_by, reject_verb}
use db_cluster.Kernel.Commit.{
  CommitMutationResult, orphan_detail, guard_committed, record_commit, conclude_commit,
  commit_ready, commit_found, commit_mutation,
}
use db_cluster.Kernel.Quiet.{
  record_provenance-IsQuiet, commit_update_entity-IsQuiet, commit_create_entity-IsQuiet,
  commit_ingest_artifact-IsQuiet, commit_link_evidence-IsQuiet, commit_reindex-IsQuiet,
}
use db_cluster.Kernel.Outcomes.{
  IsReceiptFailed, mark_committed-kept, IsEchoing, quiet-Holds, save_command-Holds, orphaned-Holds,
  emit_receipt-Holds, check-Holds, get_stored-found, either_way,
}

module _ {W : Type 0} (host : Host W) where
  -- the five verbs that `commitMutation` carries out
  abbrev pub is_mutation : CommandVerb → Bool
  is_mutation update_entity = true
  is_mutation create_entity = true
  is_mutation ingest_artifact = true
  is_mutation link_evidence = true
  is_mutation reindex = true
  is_mutation _ = false

  -- The verb is none of the five, and the command is stored as rejected.
  abbrev pub IsRejected : String → Command → List Command → Error → State W → Type 0
  IsRejected id c cs e t =
      (is_mutation c.verb ≡ false)
      × (d : Command) × (reason : String) × (d.id ≡ c.id)
      × (d.status ≡ rejected)
      × (e ≡ command_rejected id reason)
      × (t.commands ≡ in_memory (set_command cs d))

  -- The commands are as they were, or the verb is none of the five and the command is rejected.
  abbrev MutationError : String → Command → List Command → Error → State W → Type 0
  MutationError id c cs e t = (t.commands ≡ in_memory cs) ⊎ IsRejected id c cs e t

  reject_verb-Holds :
      (id actor : String) (c : Command) (cs : List Command) (s : State W)
      → is_mutation c.verb ≡ false
      → s.commands ≡ in_memory cs
      → Holds (OnlyValue (in_memory cs)) (MutationError id c cs) (reject_verb host id actor c s)
  unfolding reject_verb mark_rejected throw_error draw
  reject_verb-Holds id actor c cs s other h =
      bind-Holds (OnlyValue (in_memory cs)) (OnlyValue (in_memory cs)) (MutationError id c cs) _ _ s
        h
        (λ now t q.
          bind-Holds (OnlyValue (in_memory (set_command cs (mark_rejected now c actor _))))
            (OnlyValue (in_memory cs)) (MutationError id c cs) _ _ t
            (save_command-Holds host cs (mark_rejected now c actor _) (MutationError id c cs) t q)
            (λ u v r. inr (other, mark_rejected now c actor _, _, refl, refl, refl, r)))

  loud-Holds :
      {m : Action W Mutated} (id : String) (c : Command) (cs : List Command) (s : State W)
      → IsQuiet m
      → s.commands ≡ in_memory cs
      → Holds (OnlyValue (in_memory cs)) (MutationError id c cs) (m s)
  loud-Holds {m} id c cs s q h =
      weaken-Holds (OnlyValue (in_memory cs)) (OnlyValue (in_memory cs)) (OnlyError (in_memory cs))
        (MutationError id c cs) (m s) (q.quiet (in_memory cs) s h) (λ a t p. p) (λ e t p. inl p)

  mutate_by-Holds :
      (id actor : String) (c : Command) (verb : CommandVerb) (cs : List Command) (s : State W)
      → c.verb ≡ verb
      → s.commands ≡ in_memory cs
      → Holds (OnlyValue (in_memory cs)) (MutationError id c cs) (mutate_by host id actor c verb s)
  unfolding mutate_by
  mutate_by-Holds id actor c update_entity cs s e h =
      loud-Holds id c cs s (commit_update_entity-IsQuiet host c.payload) h
  mutate_by-Holds id actor c create_entity cs s e h =
      loud-Holds id c cs s (commit_create_entity-IsQuiet host c.payload) h
  mutate_by-Holds id actor c ingest_artifact cs s e h =
      loud-Holds id c cs s (commit_ingest_artifact-IsQuiet host c.payload) h
  mutate_by-Holds id actor c link_evidence cs s e h =
      loud-Holds id c cs s (commit_link_evidence-IsQuiet host actor c.payload) h
  mutate_by-Holds id actor c reindex cs s e h = loud-Holds id c cs s (commit_reindex-IsQuiet host) h
  mutate_by-Holds id actor c propose_mutation cs s e h =
      reject_verb-Holds id actor c cs s (ap is_mutation e) h
  mutate_by-Holds id actor c compensate cs s e h =
      reject_verb-Holds id actor c cs s (ap is_mutation e) h
  mutate_by-Holds id actor c (unknown text) cs s e h =
      reject_verb-Holds id actor c cs s (ap is_mutation e) h

  -- the result of a commit whose writes all landed
  abbrev Recorded : Command → List Command → CommitMutationResult → State W → Type 0
  Recorded done cs r t =
      (r.command ≡ done)
      × (r.receipt.command_id ≡ done.id)
      × (r.next_valid_actions ≡ compensated ∷ [])
      × (t.commands ≡ in_memory (set_command cs done))

  record_commit-Holds :
      IsEchoing host
      → (id actor : String) (c done : Command) (m : Mutated) (cs : List Command) (s : State W)
      → done.status ≡ committed
      → s.commands ≡ in_memory cs
      → Holds (Recorded done cs) (λ e t. Unit) (record_commit host id actor c done m s)
  unfolding record_commit guard_committed pure valid_transitions
  record_commit-Holds law id actor c done m cs s d h =
      let new = in_memory (set_command cs done) in
      bind-Holds (OnlyValue (in_memory cs)) (Recorded done cs) (λ e t. Unit) _ _ s
        (quiet-Holds host (in_memory cs) s (record_provenance-IsQuiet host _ _ _ _ _ _) h)
        (λ p t q.
          bind-Holds (OnlyValue new) (Recorded done cs) (λ e t. Unit) _ _ t
            (save_command-Holds host cs done (λ e t. Unit) t q)
            (λ u v r.
              bind-Holds (OnlyValue new) (Recorded done cs) (λ e t. Unit) _ _ v
                (rw (ap is_committed d) r)
                (λ u' v' r'.
                  bind-Holds (λ x t. (x.command_id ≡ done.id) × (t.commands ≡ new))
                    (Recorded done cs) (λ e t. Unit) _ _ v'
                    (emit_receipt-Holds host law new done _ _ _ v' r')
                    (λ x w y. (refl, y.0, ap valid_transitions d, y.1)))))

  -- A commit that returns: the command is committed by the actor and stored so, and the receipt is for
  -- it.
  abbrev pub IsCommitted : String → Command → List Command → CommitMutationResult → State W → Type 0
  IsCommitted actor c cs r t =
      ((now : String) × (mark_committed now c (some actor) ≡ ok r.command))
      × (r.receipt.command_id ≡ c.id)
      × (r.next_valid_actions ≡ compensated ∷ [])
      × (t.commands ≡ in_memory (set_command cs r.command))

  -- A commit that throws: `ReceiptFailedError` of the command, or no command is changed, or the verb is
  -- none of the five and the command is stored as rejected.
  abbrev pub IsFailed : String → Command → List Command → Error → State W → Type 0
  IsFailed id c cs e t =
      (t.commands ≡ in_memory cs) ⊎ (IsRejected id c cs e t ⊎ IsReceiptFailed id e)

  IsFailed-mutation :
      (id : String) (c : Command) (cs : List Command) (e : Error) (t : State W)
      → MutationError id c cs e t
      → IsFailed id c cs e t
  IsFailed-mutation id c cs e t (inl h) = inl h
  IsFailed-mutation id c cs e t (inr h) = inr (inl h)

  conclude_commit-Holds :
      IsEchoing host
      → (id actor now : String) (c done : Command) (m : Mutated) (cs : List Command) (s : State W)
      → mark_committed now c (some actor) ≡ ok done
      → s.commands ≡ in_memory cs
      → Holds (IsCommitted actor c cs) (IsFailed id c cs) (conclude_commit host id actor c done m s)
  unfolding conclude_commit
  conclude_commit-Holds law id actor now c done m cs s d h =
      let (same, status) = mark_committed-kept now c done (some actor) d in
      weaken-Holds (Recorded done cs) (IsCommitted actor c cs) (λ e t. IsReceiptFailed id e)
        (IsFailed id c cs) _
        (catch-Holds (Recorded done cs) (λ e t. Unit) (λ e t. IsReceiptFailed id e) _ _ s
          (record_commit-Holds law id actor c done m cs s status h)
          (λ e t q. orphaned-Holds host (Recorded done cs) _ _ id (orphan_detail actor c) e t))
        (λ r t (is_done, receipt, next, stored). (
          (now, d ∙ ap ok (sym is_done)),
          receipt ∙ same,
          next,
          stored ∙ ap (λ x. in_memory (set_command cs x)) (sym is_done),
        ))
        (λ e t q. inr (inr q))

  commit_ready-Holds :
      IsEchoing host
      → (id actor : String) (c : Command) (cs : List Command) (s : State W)
      → s.commands ≡ in_memory cs
      → Holds (IsCommitted actor c cs) (IsFailed id c cs) (commit_ready host id actor c s)
  unfolding commit_ready draw
  commit_ready-Holds law id actor c cs s h =
      let P = IsCommitted actor c cs in
      let E = IsFailed id c cs in
      bind-Holds (OnlyValue (in_memory cs)) P E _ _ s
        (weaken-Holds (OnlyValue (in_memory cs)) (OnlyValue (in_memory cs)) (MutationError id c cs)
          E _ (mutate_by-Holds id actor c c.verb cs s refl h) (λ m t q. q)
          (IsFailed-mutation id c cs))
        (λ m t q. bind-Holds (OnlyValue (in_memory cs)) P E _ _ t q (λ now u v.
          bind-Holds
            (λ d w. (mark_committed now c (some actor) ≡ ok d) × (w.commands ≡ in_memory cs)) P E _
            _ u
            (weaken-Holds
              (λ d w. (mark_committed now c (some actor) ≡ ok d) × (w.commands ≡ in_memory cs))
              (λ d w. (mark_committed now c (some actor) ≡ ok d) × (w.commands ≡ in_memory cs))
              (OnlyError (in_memory cs)) E _
              (check-Holds host (mark_committed now c (some actor)) (in_memory cs) u v) (λ d w x. x)
              (λ e w x. inl x))
            (λ d w x. conclude_commit-Holds law id actor now c d m cs w x.0 x.1)))

  commit_found-Holds :
      IsEchoing host
      → (id actor : String) (c : Command) (cs : List Command) (s : State W)
      → s.commands ≡ in_memory cs
      → Holds (IsCommitted actor c cs) (IsFailed id c cs) (commit_found host id actor (some c) s)
  unfolding commit_found throw_error
  commit_found-Holds law id actor c cs s h =
      either_way host (IsCommitted actor c cs) (IsFailed id c cs) (is_committable c.status) _ _ s
        (commit_ready-Holds law id actor c cs s h) (inl h)

  -- Over commands in memory, and with a ledger whose receipts name the command they are for,
  -- `commitMutation` of a command that is there either returns, and then the command was committable, is
  -- stored as committed by the actor and the receipt names it; or it throws, and then no command is
  -- changed, or the error is the `ReceiptFailedError` of the command, or the verb is not one of the five
  -- and the command is stored as rejected.
  pub commit_mutation-Holds :
      IsEchoing host
      → (id actor : String) (c : Command) (cs : List Command) (s : State W)
      → get_command cs id ≡ some c
      → s.commands ≡ in_memory cs
      → Holds (IsCommitted actor c cs) (IsFailed id c cs) (commit_mutation host id actor s)
  unfolding commit_mutation assert_actor_text
  commit_mutation-Holds law id actor c cs s e h =
      let P = IsCommitted actor c cs in
      let E = IsFailed id c cs in
      bind-Holds (OnlyValue (in_memory cs)) P E _ _ s
        (weaken-Holds (OnlyValue (in_memory cs)) (OnlyValue (in_memory cs))
          (OnlyError (in_memory cs)) E _
          ((check-IsQuiet (assert_actor "actorId" (some (str actor)))).quiet (in_memory cs) s h)
          (λ u t q. q) (λ x t q. inl q))
        (λ u t q.
          bind-Holds (λ found v. (found ≡ some c) × (v.commands ≡ in_memory cs)) P E _ _ t
            (get_stored-found host id cs c E t e q)
            (λ found v x.
              subst (λ o. Holds P E (commit_found host id actor o v)) (sym x.0)
                (commit_found-Holds law id actor c cs v x.1)))
