-- ===== src/Kernel/Returning.antt =====
-- A commit returns where no store fails.
use db_cluster.Prelude.{
  String, Bool, true, false, some, List, ◌≡◌, refl, sym, ap, subst, arith, if◌then◌else◌,
}
use db_cluster.Json.{Value, Fields, str}
use db_cluster.Errors.{Error, Result, ok, err, is_ok, assert_actor}
use db_cluster.Commands.{
  Command, create_entity, committed, is_committable, is_committed, mark_committed,
}
use db_cluster.Queue.{get_command, set_command}
use db_cluster.Ledger.{EventInput, ReceiptInput}
use db_cluster.Stores.{Host, Call, IndexInput}
use db_cluster.Kernel.Stored.{CommandStore, in_memory}
use db_cluster.Kernel.Action.{State, Action, in_world, call, draw, check, pure}
use db_cluster.Kernel.Rules.{Holds, OnlyValue, bind-Holds, catch-Holds}
use db_cluster.Kernel.Recording.{record_provenance, emit_receipt, assert_actor_text}
use db_cluster.Kernel.Arms.{Mutated, commit_create_entity, mutate_by}
use db_cluster.Kernel.Commit.{
  guard_committed, record_commit, conclude_commit, commit_ready, commit_found, commit_mutation,
}
use db_cluster.Kernel.Outcomes.{
  IsEchoing, mark_committed-kept, save_command-Holds, get_stored-found,
}
use db_cluster.Kernel.Committing.{IsCommitted, IsFailed, commit_mutation-Holds}

abbrev pub Returns : {A W : Type 0} → Result A × W → Type 0
Returns (r, w) = is_ok r ≡ true

-- The calls of a commit that creates an entity do not throw.
pub record IsCalm {W : Type 0} (host : Host W) : Type 0 where
  pub creates :
      (kind name : String) (attributes : Value) (w : W)
      → Returns (host.canonical_create kind name attributes w)
  pub indexes : (i : IndexInput) (w : W) → Returns (host.index_add i w)
  pub appends : (i : EventInput) (w : W) → Returns (host.ledger_append i w)
  pub receipts : (i : ReceiptInput) (w : W) → Returns (host.ledger_append_receipt i w)

module _ {W : Type 0} (host : Host W) where
  -- no error is thrown
  abbrev pub Never : Error → State W → Type 0
  Never e t = true ≡ false

  calm_world :
      {A : Type 0} (cs ds : CommandStore) (r : Result A × W)
      → Returns r
      → ds ≡ cs
      → Holds (OnlyValue cs) Never (in_world ds r)
  calm_world cs ds (ok a, w) h e = e
  calm_world cs ds (err x, w) h e = sym h

  calm_call :
      {A : Type 0} (c : Call W A) (cs : CommandStore) (s : State W)
      → ((w : W) → Returns (c w))
      → s.commands ≡ cs
      → Holds (OnlyValue cs) Never (call c s)
  unfolding call
  calm_call c cs s h e = calm_world cs s.commands (c s.world) (h s.world) e

  impossible_throw :
      {A : Type 0} (P : A → State W → Type 0) (r : Result A × State W)
      → true ≡ false
      → Holds P Never r
  impossible_throw P r h = absurd (ground arith)

  both-Holds :
      {A : Type 0} (P Q : A → State W → Type 0) (E : Error → State W → Type 0)
      (r : Result A × State W)
      → Holds P E r
      → Holds Q Never r
      → Holds P Never r
  both-Holds P Q E (ok a, t) h k = h
  both-Holds P Q E (err e, t) h k = k

  commit_create_entity-Never :
      IsCalm host
      → (payload : Fields) (cs : CommandStore) (s : State W) → s.commands ≡ cs
      → Holds (OnlyValue cs) Never (commit_create_entity host payload s)
  unfolding commit_create_entity pure
  commit_create_entity-Never calm payload cs s h =
      bind-Holds (OnlyValue cs) (OnlyValue cs) Never _ _ s
        (calm_call (host.canonical_create _ _ _) cs s (λ w. calm.creates _ _ _ w) h)
        (λ entity t q.
          bind-Holds (OnlyValue cs) (OnlyValue cs) Never _ _ t
            (calm_call (host.index_add _) cs t (λ w. calm.indexes _ w) q) (λ i u r. r))

  -- any result
  abbrev Any : {A : Type 0} → A → State W → Type 0
  Any a t = Unit

  record_commit-Never :
      IsCalm host
      → (id actor : String) (c done : Command) (m : Mutated) (cs : List Command) (s : State W)
      → done.status ≡ committed
      → s.commands ≡ in_memory cs
      → Holds Any Never (record_commit host id actor c done m s)
  unfolding record_commit record_provenance guard_committed emit_receipt pure
  record_commit-Never calm id actor c done m cs s d h =
      let new = in_memory (set_command cs done) in
      bind-Holds (OnlyValue (in_memory cs)) Any Never _ _ s
        (calm_call (host.ledger_append _) (in_memory cs) s (λ w. calm.appends _ w) h)
        (λ p t q.
          bind-Holds (OnlyValue new) Any Never _ _ t (save_command-Holds host cs done Never t q)
            (λ u v r.
              bind-Holds (OnlyValue new) Any Never _ _ v (rw (ap is_committed d) r) (λ u' v' r'.
                bind-Holds (OnlyValue new) Any Never _ _ v'
                  (calm_call (host.ledger_append_receipt _) new v' (λ w. calm.receipts _ w) r')
                  (λ x w y. tt))))

  conclude_commit-Never :
      IsCalm host
      → (id actor : String) (c done : Command) (m : Mutated) (cs : List Command) (s : State W)
      → done.status ≡ committed
      → s.commands ≡ in_memory cs
      → Holds Any Never (conclude_commit host id actor c done m s)
  unfolding conclude_commit
  conclude_commit-Never calm id actor c done m cs s d h =
      catch-Holds Any Never Never _ _ s (record_commit-Never calm id actor c done m cs s d h)
        (λ e t q. impossible_throw Any _ q)

  mark_committed-Never :
      (now : String) (c : Command) (by : String) (cs : CommandStore) (s : State W)
      → is_committable c.status ≡ true
      → s.commands ≡ cs
      → Holds
          (λ d t. (mark_committed now c (some by) ≡ ok d) × (t.commands ≡ cs))
          Never
          (check (mark_committed now c (some by)) s)
  unfolding check mark_committed
  mark_committed-Never now c by cs s e h = rw e (refl, h)

  commit_ready-Never :
      IsCalm host
      → (id actor : String) (c : Command) (cs : List Command) (s : State W) → c.verb ≡ create_entity
      → is_committable c.status ≡ true
      → s.commands ≡ in_memory cs
      → Holds Any Never (commit_ready host id actor c s)
  unfolding commit_ready draw mutate_by
  commit_ready-Never calm id actor c cs s v e h =
      let same = in_memory cs in
      bind-Holds (OnlyValue same) Any Never _ _ s
        (subst (λ x. Holds (OnlyValue same) Never (mutate_by host id actor c x s)) (sym v)
          (commit_create_entity-Never calm c.payload same s h))
        (λ m t q. bind-Holds (OnlyValue same) Any Never _ _ t q (λ now u r.
          bind-Holds (λ d w. (mark_committed now c (some actor) ≡ ok d) × (w.commands ≡ same)) Any
            Never _ _ u (mark_committed-Never now c actor same u e r)
            (λ d w x.
              conclude_commit-Never calm id actor c d m cs w
                (mark_committed-kept now c d (some actor) x.0).1 x.1)))

  chosen :
      {A : Type 0} (b : Bool) (m n : Action W A) (s : State W)
      → b ≡ true
      → Holds Any Never (m s)
      → Holds Any Never ((if b then m else n) s)
  chosen b m n s e h = subst (λ x. Holds Any Never ((if x then m else n) s)) (sym e) h

  commit_found-Never :
      IsCalm host
      → (id actor : String) (c : Command) (cs : List Command) (s : State W) → c.verb ≡ create_entity
      → is_committable c.status ≡ true
      → s.commands ≡ in_memory cs
      → Holds Any Never (commit_found host id actor (some c) s)
  unfolding commit_found
  commit_found-Never calm id actor c cs s v e h =
      chosen (is_committable c.status) _ _ s e (commit_ready-Never calm id actor c cs s v e h)

  assert_actor-Never :
      (actor : String) (cs : CommandStore) (s : State W)
      → assert_actor "actorId" (some (str actor)) ≡ ok tt
      → s.commands ≡ cs
      → Holds (OnlyValue cs) Never (assert_actor_text host "actorId" actor s)
  unfolding assert_actor_text check
  assert_actor-Never actor cs s e h = subst (λ r. Holds (OnlyValue cs) Never (r, s)) (sym e) h

  -- A validated or approved command in memory that creates an entity is committed, by an actor that is
  -- named, where no call of the stores throws: `commitMutation` returns, the command is stored as
  -- committed by the actor, and the receipt names it.
  pub commit_mutation-create_entity :
      IsEchoing host
      → IsCalm host
      → (id actor : String) (c : Command) (cs : List Command) (s : State W)
      → assert_actor "actorId" (some (str actor)) ≡ ok tt
      → get_command cs id ≡ some c
      → c.verb ≡ create_entity
      → is_committable c.status ≡ true
      → s.commands ≡ in_memory cs
      → Holds (IsCommitted host actor c cs) Never (commit_mutation host id actor s)
  unfolding commit_mutation
  commit_mutation-create_entity law calm id actor c cs s named found v e h =
      both-Holds (IsCommitted host actor c cs) Any (IsFailed host id c cs) _
        (commit_mutation-Holds host law id actor c cs s found h)
        (bind-Holds (OnlyValue (in_memory cs)) Any Never _ _ s
          (assert_actor-Never actor (in_memory cs) s named h)
          (λ u t q.
            bind-Holds (λ o w. (o ≡ some c) × (w.commands ≡ in_memory cs)) Any Never _ _ t
              (get_stored-found host id cs c Never t found q)
              (λ o w x.
                subst (λ y. Holds Any Never (commit_found host id actor y w)) (sym x.0)
                  (commit_found-Never calm id actor c cs w v e x.1))))
