-- ===== src/Kernel/Outcomes.antt =====
-- What the steps that the mutators share leave behind.
use db_cluster.Prelude.{
  String, Bool, true, false, Option, some, List, ◌≡◌, refl, arith, if◌then◌else◌,
}
use db_cluster.Json.{Fields}
use db_cluster.Errors.{Error, Result, ok, err, receipt_failed}
use db_cluster.Commands.{Command, committed, mark_committed}
use db_cluster.Queue.{set_command, get_command}
use db_cluster.Ledger.{ReceiptInput}
use db_cluster.Ledger.Types.{Receipt}
use db_cluster.Stores.{Host}
use db_cluster.Kernel.Stored.{CommandStore, in_memory, get_stored, save_stored}
use db_cluster.Kernel.Action.{
  State, Action, in_commands, call, draw, on_commands, check, pure, throw_error, catch, ◌>>=◌,
}
use db_cluster.Kernel.Rules.{
  Holds, OnlyError, OnlyValue, IsQuiet, bind-Holds, catch-Holds, weaken-Holds,
}
use db_cluster.Kernel.Recording.{record_orphan_mutation, orphaned, emit_receipt, save_command}

-- `ReceiptFailedError` of the command
abbrev pub IsReceiptFailed : String → Error → Type 0
IsReceiptFailed id e = (subject : String) × (cause : Error) × (e ≡ receipt_failed subject id cause)

-- A receipt names the command that it was asked for.
abbrev pub Echoes : ReceiptInput → {W : Type 0} → Result Receipt × W → Type 0
Echoes i (ok r, w) = r.command_id ≡ i.command_id
Echoes i (err e, w) = Unit

pub mark_committed-kept :
    (now : String) (c d : Command) (by : Option String)
    → mark_committed now c by ≡ ok d
    → (d.id ≡ c.id) × (d.status ≡ committed)
unfolding mark_committed
mark_committed-kept now c d by h = (ground arith, ground arith)

module _ {W : Type 0} (host : Host W) where
  -- the law of the ledger that the kernel relies on
  abbrev pub IsEchoing : Type 0
  IsEchoing = (i : ReceiptInput) (w : W) → Echoes i (host.ledger_append_receipt i w)

  pub any-Holds : {A : Type 0} (r : Result A × State W) → Holds (λ a t. Unit) (λ e t. Unit) r
  any-Holds (ok a, t) = tt
  any-Holds (err e, t) = tt

  -- the outcome of a quiet action on the commands in memory
  pub quiet-Holds :
      {A : Type 0} {m : Action W A} (cs : CommandStore) (s : State W)
      → IsQuiet m
      → s.commands ≡ cs
      → Holds (OnlyValue cs) (λ e t. Unit) (m s)
  quiet-Holds {A} {m} cs s q h =
      weaken-Holds (OnlyValue cs) (OnlyValue cs) (OnlyError cs) (λ e t. Unit) (m s) (q.quiet cs s h)
        (λ a t p. p) (λ e t p. tt)

  pub save_command-Holds :
      (cs : List Command) (c : Command) (E : Error → State W → Type 0) (s : State W)
      → s.commands ≡ in_memory cs
      → Holds (OnlyValue (in_memory (set_command cs c))) E (save_command host c s)
  unfolding save_command on_commands save_stored
  save_command-Holds cs c E s h = rw h refl

  -- the `catch` throws `ReceiptFailedError`, whatever becomes of the orphan event
  pub orphaned-Holds :
      {A : Type 0} (P : A → State W → Type 0) (subject store id : String) (detail : Fields)
      (cause : Error) (s : State W)
      → Holds P (λ e t. IsReceiptFailed id e) (orphaned host subject store id detail cause s)
  unfolding orphaned record_orphan_mutation pure throw_error
  orphaned-Holds P subject store id detail cause s =
      bind-Holds (λ a t. Unit) P (λ e t. IsReceiptFailed id e) _ _ s
        (catch-Holds (λ a t. Unit) (λ e t. Unit) (λ e t. IsReceiptFailed id e) _ _ s (any-Holds _)
          (λ e t q. tt))
        (λ a t q. (subject, cause, refl))

  pub echoed :
      (cs : CommandStore) (i : ReceiptInput) (r : Result Receipt × W) (d : CommandStore)
      → d ≡ cs
      → Echoes i r
      → Holds
          (λ x t. (x.command_id ≡ i.command_id) × (t.commands ≡ cs))
          (λ e t. Unit)
          (db_cluster.Kernel.Action.in_world d r)
  echoed cs i (ok x, w) d h e = (e, h)
  echoed cs i (err x, w) d h e = tt

  pub emit_receipt-Holds :
      IsEchoing
      → (cs : CommandStore) (c : Command) (summary : String) (affected : List String) (id : String)
        (s : State W)
      → s.commands ≡ cs
      → Holds
          (λ x t. (x.command_id ≡ c.id) × (t.commands ≡ cs))
          (λ e t. Unit)
          (emit_receipt host c summary affected id s)
  unfolding emit_receipt call
  emit_receipt-Holds law cs c summary affected id s h =
      let i : ReceiptInput = record {
        command_id = c.id;
        result_summary = summary;
        affected_ids = affected;
        provenance_event_id = id;
      } in
      echoed cs i (host.ledger_append_receipt i s.world) s.commands h (law i s.world)

  pub check-Holds :
      {A : Type 0} (r : Result A) (cs : CommandStore) (s : State W)
      → s.commands ≡ cs
      → Holds (λ a t. (r ≡ ok a) × (t.commands ≡ cs)) (OnlyError cs) (check r s)
  unfolding check
  check-Holds (ok a) cs s h = (refl, h)
  check-Holds (err e) cs s h = h

  pub get_stored-found :
      (id : String) (cs : List Command) (c : Command) (E : Error → State W → Type 0) (s : State W)
      → get_command cs id ≡ some c
      → s.commands ≡ in_memory cs
      → Holds
          (λ found t. (found ≡ some c) × (t.commands ≡ in_memory cs))
          E
          (on_commands (get_stored id) s)
  unfolding on_commands get_stored
  get_stored-found id cs c E s e h = rw h (e, refl)

  pub either_way :
      {A : Type 0} (P : A → State W → Type 0) (E : Error → State W → Type 0) (b : Bool)
      (m n : Action W A) (s : State W)
      → Holds P E (m s)
      → Holds P E (n s)
      → Holds P E ((if b then m else n) s)
  either_way P E true m n s h k = h
  either_way P E false m n s h k = k

  -- the outcome of a quiet action, for any `E` that holds where the commands are as they were
  pub quiet-step :
      {A : Type 0} {m : Action W A} (cs : CommandStore) (E : Error → State W → Type 0) (s : State W)
      → ((e : Error) (t : State W) → t.commands ≡ cs → E e t)
      → IsQuiet m
      → s.commands ≡ cs
      → Holds (OnlyValue cs) E (m s)
  quiet-step {A} {m} cs E s k q h =
      weaken-Holds (OnlyValue cs) (OnlyValue cs) (OnlyError cs) E (m s) (q.quiet cs s h)
        (λ a t p. p) k

  pub check-step :
      {A : Type 0} (r : Result A) (cs : CommandStore) (E : Error → State W → Type 0) (s : State W)
      → ((e : Error) (t : State W) → t.commands ≡ cs → E e t)
      → s.commands ≡ cs
      → Holds (λ a t. (r ≡ ok a) × (t.commands ≡ cs)) E (check r s)
  check-step r cs E s k h =
      weaken-Holds (λ a t. (r ≡ ok a) × (t.commands ≡ cs)) (λ a t. (r ≡ ok a) × (t.commands ≡ cs))
        (OnlyError cs) E (check r s) (check-Holds r cs s h) (λ a t p. p) k
