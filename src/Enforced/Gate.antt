-- ===== src/Enforced/Gate.antt =====
-- What the gates of the mutations decide.
use Prim.Native.Nat.{Ordering}
use db_cluster.Prelude.{String, some, List, ◌≡◌, ◌⊎◌, inl, inr, refl}
use db_cluster.Errors.{Error, Result, ok, err}
use db_cluster.Commands.{Command, verb_name}
use db_cluster.Queue.{get_command}
use db_cluster.Stores.{Host}
use db_cluster.Policy.{Capability, Effect, allow, deny, PolicyDecision, commit_command}
use db_cluster.Policy.Underspecified.{allow_or_deny}
use db_cluster.Kernel.Stored.{in_memory, inspect_command, get_stored}
use db_cluster.Kernel.Action.{State, Action, on_commands}
use db_cluster.Kernel.Rules.{Holds}
use db_cluster.Kernel.Outcomes.{IsEchoing}
use db_cluster.Kernel.Recording.{inspect_stored}
use db_cluster.Kernel.Commit
use db_cluster.Kernel.Commit.{CommitMutationResult}
use db_cluster.Kernel.Committing.{IsCommitted, IsFailed, commit_mutation-Holds}
use db_cluster.Enforced.{
  Gatekeeper, Resource, anything, Outcome, returned, denied, thrown, Guarded, lifted, delegate,
  attempt, decide, enforce, ◌>>=◌, refuse, pure,
}
use db_cluster.Enforced.Writes.{of_store, commit_within, commit_mutation}

-- what holds behind an operation that returns, is denied, or throws
abbrev pub Concludes :
    {W A : Type 0}
    → (A → State W → Type 0)
    → (PolicyDecision → State W → Type 0)
    → (Error → State W → Type 0)
    → Outcome A × State W
    → Type 0
Concludes P D E (returned a, s) = P a s
Concludes P D E (denied d, s) = D d s
Concludes P D E (thrown e, s) = E e s

module _ {W : Type 0} (locale : String → String → Ordering) (g : Gatekeeper) where
  -- An operation behind a gate: it is denied and has done nothing, or the policies allow it and it is done.
  abbrev pub Gated :
      {A : Type 0} → Capability → Resource → Guarded W A → State W → Outcome A × State W → Type 0
  Gated capability r m s out =
      (((decide locale g capability r).decision ≡ deny)
        × (out ≡ (denied (decide locale g capability r), s)))
      ⊎ (((decide locale g capability r).decision ≡ allow) × (out ≡ m s))

  pub enforce-Gated :
      {A : Type 0} (capability : Capability) (r : Resource) (m : PolicyDecision → Guarded W A)
      (s : State W)
      → Gated capability r
          (m (decide locale g capability r))
          s
          ((enforce locale g capability r >>= m) s)
  unfolding enforce ◌>>=◌ refuse pure
  enforce-Gated capability r m s = elim (allow_or_deny (decide locale g capability r).decision) [
    | inl yes' ↦ inr (yes', rw yes' refl)
    | inr no' ↦ inl (no', rw no' refl)
  ]

  pub enforce-denied :
      {A : Type 0} (capability : Capability) (r : Resource) (m : PolicyDecision → Guarded W A)
      (s : State W)
      → (decide locale g capability r).decision ≡ deny
      → (enforce locale g capability r >>= m) s ≡ (denied (decide locale g capability r), s)
  enforce-denied capability r m s h = elim (enforce-Gated capability r m s) [
    | inl (denies, e) ↦ e
    | inr (allows, e) ↦ absurd (cc)
  ]

  pub attempt-found :
      {A B : Type 0} (m : Action W A) (found : A → Guarded W B) (missing : Error → Guarded W B)
      (a : A) (s t : State W)
      → m s ≡ (ok a, t)
      → attempt m found missing s ≡ found a t
  unfolding attempt delegate
  attempt-found m found missing a s t e = rw e refl

  lifted-Concludes :
      {A : Type 0} (effect : Effect) (s : State W) (P : A → State W → Type 0)
      (E : Error → State W → Type 0) (r : Result A × State W)
      → effect ≡ allow
      → Holds P E r
      → Concludes
          (λ a t. (effect ≡ allow) × P a t)
          (λ d t. (d.decision ≡ deny) × (t ≡ s))
          (λ e t. (effect ≡ allow) × E e t)
          (lifted r)
  lifted-Concludes effect s P E (ok a, t) allows h = (allows, h)
  lifted-Concludes effect s P E (err x, t) allows h = (allows, h)

  pub Gated-Concludes :
      {A : Type 0} (capability : Capability) (r : Resource) (m : Action W A) (s : State W)
      (P : A → State W → Type 0) (E : Error → State W → Type 0) (out : Outcome A × State W)
      → Gated capability r (delegate m) s out
      → Holds P E (m s)
      → Concludes
          (λ a t. ((decide locale g capability r).decision ≡ allow) × P a t)
          (λ d t. (d.decision ≡ deny) × (t ≡ s))
          (λ e t. ((decide locale g capability r).decision ≡ allow) × E e t)
          out
  unfolding delegate
  Gated-Concludes capability r m s P E out (inl (denies, e)) h = rw e (denies, refl)
  Gated-Concludes capability r m s P E out (inr (allows, e)) h =
      rw e (lifted-Concludes (decide locale g capability r).decision s P E (m s) allows h)

module _ {W : Type 0} (host : Host W) where
  pub inspect_stored-found :
      (id : String) (c : Command) (cs : List Command) (s : State W)
      → get_command cs id ≡ some c
      → s.commands ≡ in_memory cs
      → inspect_stored host id s ≡ (ok c, s)
  unfolding inspect_stored on_commands inspect_command get_stored
  inspect_stored-found id c cs s e h = rw (h, e) refl

  module _ (locale : String → String → Ordering) (g : Gatekeeper) where
    -- The gate of a commit names the store and the verb of the command that is stored.
    pub commit_mutation-Gated :
        (id actor : String) (c : Command) (s t : State W)
        → inspect_stored host id s ≡ (ok c, t)
        → Gated locale g commit_command
            (of_store c.target_store (verb_name c.verb))
            (delegate (Commit.commit_mutation host id actor))
            t
            (commit_mutation locale host g id actor s)
    unfolding commit_mutation commit_within
    commit_mutation-Gated id actor c s t e =
        rw
          (attempt-found locale g (inspect_stored host id)
            (λ c. commit_within locale host g id actor (of_store c.target_store (verb_name c.verb)))
            (λ e. commit_within locale host g id actor anything) c s t e)
          (enforce-Gated locale g commit_command (of_store c.target_store (verb_name c.verb))
            (λ d. delegate (Commit.commit_mutation host id actor)) t)

    -- Over commands in memory, and with a ledger whose receipts name the command they are for, the guarded
    -- `commitMutation` of a command that is there returns only where the policies allow the principal to
    -- commit to the store of the command by its verb, and then the command is committed; it is denied
    -- with the stores and the commands as they were; and what else it throws, it throws behind an allow,
    -- with the commands as the kernel leaves them.
    pub commit_mutation-Decided :
        IsEchoing host
        → (id actor : String) (c : Command) (cs : List Command) (s : State W)
        → get_command cs id ≡ some c
        → s.commands ≡ in_memory cs
        → Concludes
            (λ r t.
              ((decide locale g commit_command
                  (of_store c.target_store (verb_name c.verb))).decision
                ≡ allow)
              × IsCommitted host actor c cs r t)
            (λ d t. (d.decision ≡ deny) × (t ≡ s))
            (λ e t.
              ((decide locale g commit_command
                  (of_store c.target_store (verb_name c.verb))).decision
                ≡ allow)
              × IsFailed host id c cs e t)
            (commit_mutation locale host g id actor s)
    unfolding delegate
    commit_mutation-Decided law id actor c cs s e h =
        let r = of_store c.target_store (verb_name c.verb) in
        Gated-Concludes locale g commit_command r (Commit.commit_mutation host id actor) s
          (IsCommitted host actor c cs) (IsFailed host id c cs) _
          (commit_mutation-Gated id actor c s s (inspect_stored-found id c cs s e h))
          (commit_mutation-Holds host law id actor c cs s e h)
