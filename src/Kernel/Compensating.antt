-- ===== src/Kernel/Compensating.antt =====
-- What `compensateMutation` leaves behind, whether it returns or throws.
use db_cluster.Prelude.{
  String, Bool, true, false, Option, none, some, List, ◌==◌, ◌≡◌, ◌⊎◌, refl, sym, subst, inl, inr,
  if◌then◌else◌,
}
use db_cluster.Json.{Value, null, bool, num, str, buffer, arr, obj, Fields}
use db_cluster.Errors.{Error, ok, assert_actor}
use db_cluster.Commands.{Command, committed, is_committed, mark_committed, mark_compensated}
use db_cluster.Queue.{set_command, get_command}
use db_cluster.Stores.{Host}
use db_cluster.Kernel.Stored.{in_memory, get_stored, inspect_command}
use db_cluster.Kernel.Action.{State, Action, on_commands, draw, pure, throw_error, catch}
use db_cluster.Kernel.Rules.{
  Holds, OnlyValue, IsQuiet, bind-Holds, catch-Holds, weaken-Holds, check-IsQuiet, pure-IsQuiet,
  bind-IsQuiet, call-IsQuiet, catch-IsQuiet,
}
use db_cluster.Kernel.Recording.{
  orphaned, inspect_stored, assert_actor_text, sweep_staged, sweep_hash, delete_staging_file,
}
use db_cluster.Kernel.Lifecycle.{
  Compensation, compensation_detail, record_compensation, compensate_committed, compensate_found,
  compensate_mutation,
}
use db_cluster.Kernel.Quiet.{record_provenance-IsQuiet, staging-IsQuiet}
use db_cluster.Kernel.Outcomes.{
  IsReceiptFailed, IsEchoing, mark_committed-kept, quiet-Holds, save_command-Holds, orphaned-Holds,
  emit_receipt-Holds, check-step, quiet-step, either_way,
}

module _ {W : Type 0} (host : Host W) where
  either-IsQuiet :
      {A : Type 0} (b : Bool) {m n : Action W A}
      → IsQuiet m
      → IsQuiet n
      → IsQuiet (if b then m else n)
  either-IsQuiet true h k = h
  either-IsQuiet false h k = k

  sweep_hash-IsQuiet : (there : Bool) (hash : Option Value) → IsQuiet (sweep_hash host there hash)
  unfolding sweep_hash sweep_staged
  sweep_hash-IsQuiet false hash = pure-IsQuiet tt
  sweep_hash-IsQuiet true none = pure-IsQuiet tt
  sweep_hash-IsQuiet true (some null) = pure-IsQuiet tt
  sweep_hash-IsQuiet true (some (bool b)) = pure-IsQuiet tt
  sweep_hash-IsQuiet true (some (num n)) = pure-IsQuiet tt
  sweep_hash-IsQuiet true (some (buffer bs)) = pure-IsQuiet tt
  sweep_hash-IsQuiet true (some (arr xs)) = pure-IsQuiet tt
  sweep_hash-IsQuiet true (some (obj f)) = pure-IsQuiet tt
  sweep_hash-IsQuiet true (some (str hash)) =
      either-IsQuiet (hash == "") (pure-IsQuiet tt)
        (catch-IsQuiet (call-IsQuiet _) (λ e. pure-IsQuiet tt))

  delete_staging_file-IsQuiet : (c : Command) → IsQuiet (delete_staging_file host c)
  unfolding delete_staging_file
  delete_staging_file-IsQuiet c =
      either-IsQuiet _ (bind-IsQuiet (staging-IsQuiet host) (λ there. sweep_hash-IsQuiet there _))
        (pure-IsQuiet tt)

  -- A compensation that returns: the original is stored as compensated, by the actor and with the id of
  -- the compensating command, which is stored as committed, and the receipt names the latter.
  abbrev pub IsCompensated : String → Command → List Command → Compensation → State W → Type 0
  IsCompensated by original cs r t =
      ((now : String) × (mark_compensated now original r.compensating_command.id by
          ≡ ok r.original_command))
      × (r.compensating_command.status ≡ committed)
      × (r.receipt.command_id ≡ r.compensating_command.id)
      × (t.commands
          ≡ in_memory (set_command (set_command cs r.compensating_command) r.original_command))

  -- A compensation that throws: no command is changed, or the error is a `ReceiptFailedError`.
  abbrev pub IsUncompensated : List Command → Error → State W → Type 0
  IsUncompensated cs e t =
      (t.commands ≡ in_memory cs) ⊎ ((done : Command) × IsReceiptFailed done.id e)

  record_compensation-Holds :
      IsEchoing host
      → (id by reason : String) (original done : Command) (cs : List Command) (s : State W)
      → done.status ≡ committed
      → s.commands ≡ in_memory cs
      → Holds
          (IsCompensated by original cs)
          (λ e t. Unit)
          (record_compensation host id by reason original done s)
  unfolding record_compensation draw pure
  record_compensation-Holds law id by reason original done cs s d h =
      let P = IsCompensated by original cs in
      let E = λ (e : Error) (t : State W). Unit in
      let first = in_memory (set_command cs done) in
      bind-Holds (OnlyValue first) P E _ _ s (save_command-Holds host cs done E s h) (λ u t q.
        bind-Holds (OnlyValue first) P E _ _ t q (λ now v r.
          bind-Holds
            (λ c w. (mark_compensated now original done.id by ≡ ok c) × (w.commands ≡ first)) P E _
            _ v
            (check-step host (mark_compensated now original done.id by) first E v (λ e w x. tt) r)
            (λ c w x.
              let second = in_memory (set_command (set_command cs done) c) in
              bind-Holds (OnlyValue second) P E _ _ w
                (save_command-Holds host (set_command cs done) c E w x.1)
                (λ u' w' y.
                  bind-Holds (OnlyValue second) P E _ _ w'
                    (quiet-Holds host second w' (record_provenance-IsQuiet host _ _ _ _ _ _) y)
                    (λ p z k.
                      bind-Holds (λ a t. (a.command_id ≡ done.id) × (t.commands ≡ second)) P E _ _ z
                        (emit_receipt-Holds host law second done _ _ _ z k)
                        (λ a t b. ((now, x.0), d, b.0, b.1)))))))

  conclude_compensation :
      IsEchoing host
      → (id by reason : String) (original done : Command) (cs : List Command) (s : State W)
      → done.status ≡ committed
      → s.commands ≡ in_memory cs
      → Holds (IsCompensated by original cs) (IsUncompensated cs) (
          catch
            (record_compensation host id by reason original done)
            (orphaned host id "ledger" done.id (compensation_detail id by reason done.id))
            s)
  conclude_compensation law id by reason original done cs s d h =
      catch-Holds (IsCompensated by original cs) (λ e t. Unit) (IsUncompensated cs) _ _ s
        (record_compensation-Holds law id by reason original done cs s d h)
        (λ e t q.
          weaken-Holds (IsCompensated by original cs) (IsCompensated by original cs)
            (λ e t. IsReceiptFailed done.id e) (IsUncompensated cs) _
            (orphaned-Holds host (IsCompensated by original cs) id "ledger" done.id
              (compensation_detail id by reason done.id) e t)
            (λ a t x. x) (λ e t x. inr (done, x)))

  compensate_committed-Holds :
      IsEchoing host
      → (id by reason : String) (payload : Option Fields) (original : Command) (cs : List Command)
        (s : State W)
      → s.commands ≡ in_memory cs
      → Holds
          (IsCompensated by original cs)
          (IsUncompensated cs)
          (compensate_committed host id by reason payload original s)
  unfolding compensate_committed draw
  compensate_committed-Holds law id by reason payload original cs s h =
      let P = IsCompensated by original cs in
      let E = IsUncompensated cs in
      let same = in_memory cs in
      let kept = λ (e : Error) (t : State W) (y : t.commands ≡ same). inl y in
      bind-Holds (OnlyValue same) P E _ _ s h (λ new_id t q.
        bind-Holds (OnlyValue same) P E _ _ t q (λ proposed_at u r.
          bind-Holds (OnlyValue same) P E _ _ u r (λ validated_at v x.
            bind-Holds (OnlyValue same) P E _ _ v
              (quiet-step host same E v kept (check-IsQuiet _) x)
              (λ validated w y.
                bind-Holds (OnlyValue same) P E _ _ w
                  (quiet-step host same E w kept (delete_staging_file-IsQuiet original) y)
                  (λ o z k. bind-Holds (OnlyValue same) P E _ _ z k (λ committed_at z' k'.
                    bind-Holds
                      (λ d t.
                        (mark_committed committed_at validated (some by) ≡ ok d)
                        × (t.commands ≡ same))
                      P E _ _ z'
                      (check-step host (mark_committed committed_at validated (some by)) same E z'
                        kept k')
                      (λ d t' l.
                        conclude_compensation law id by reason original d cs t'
                          (mark_committed-kept committed_at validated d (some by) l.0).1 l.1)))))))

  compensate_found-Holds :
      IsEchoing host
      → (id by reason : String) (payload : Option Fields) (original : Command) (cs : List Command)
        (s : State W)
      → s.commands ≡ in_memory cs
      → Holds
          (IsCompensated by original cs)
          (IsUncompensated cs)
          (compensate_found host id by reason payload original s)
  unfolding compensate_found throw_error
  compensate_found-Holds law id by reason payload original cs s h =
      either_way host (IsCompensated by original cs) (IsUncompensated cs)
        (is_committed original.status) _ _ s
        (compensate_committed-Holds law id by reason payload original cs s h) (inl h)

  inspect_stored-found :
      (id : String) (cs : List Command) (c : Command) (E : Error → State W → Type 0) (s : State W)
      → get_command cs id ≡ some c
      → s.commands ≡ in_memory cs
      → Holds (λ d t. (d ≡ c) × (t.commands ≡ in_memory cs)) E (inspect_stored host id s)
  unfolding inspect_stored on_commands inspect_command get_stored
  inspect_stored-found id cs c E s e h = rw (h, e) (refl, refl)

  -- Over commands in memory, and with a ledger whose receipts name the command they are for,
  -- `compensateMutation` of a command that is there either returns, and then the command was committed and
  -- is stored as compensated, by the actor and with the id of the compensating command, which is stored
  -- as committed and is the one that the receipt names; or it throws, and then no command is changed or
  -- the error is a `ReceiptFailedError`.
  pub compensate_mutation-Holds :
      IsEchoing host
      → (id by reason : String) (payload : Option Fields) (original : Command) (cs : List Command)
        (s : State W)
      → get_command cs id ≡ some original
      → s.commands ≡ in_memory cs
      → Holds
          (IsCompensated by original cs)
          (IsUncompensated cs)
          (compensate_mutation host id by reason payload s)
  unfolding compensate_mutation assert_actor_text
  compensate_mutation-Holds law id by reason payload original cs s e h =
      let P = IsCompensated by original cs in
      let E = IsUncompensated cs in
      bind-Holds (OnlyValue (in_memory cs)) P E _ _ s
        (quiet-step host (in_memory cs) E s (λ x t y. inl y)
          (check-IsQuiet (assert_actor "compensatedBy" (some (str by)))) h)
        (λ u t q.
          bind-Holds (λ d v. (d ≡ original) × (v.commands ≡ in_memory cs)) P E _ _ t
            (inspect_stored-found id cs original E t e q)
            (λ d v x.
              subst (λ c. Holds P E (compensate_found host id by reason payload c v)) (sym x.0)
                (compensate_found-Holds law id by reason payload original cs v x.1)))
