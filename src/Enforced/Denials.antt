-- ===== src/Enforced/Denials.antt =====
-- A mutation that is denied has changed nothing.
use Prim.Native.Nat.{Ordering}
use db_cluster.Prelude.{String, Option, ◌≡◌, ◌⊎◌, inl, inr, refl, ap, Bool-cases, includes}
use db_cluster.Json.{Fields}
use db_cluster.Errors.{Error, Result, ok, err}
use db_cluster.Commands.{Command, verb_name}
use db_cluster.Stores.{Host}
use db_cluster.Policy.{Capability, deny, PolicyDecision}
use db_cluster.Kernel.Stored.{inspect_command}
use db_cluster.Kernel.Action.{State, Action, on_commands}
use db_cluster.Kernel.Recording.{inspect_stored}
use db_cluster.Kernel.Lifecycle.{ProposeMutationInput}
use db_cluster.Kernel.Direct.{IngestArtifactInput, CreateEntityInput, LinkEvidenceInput}
use db_cluster.Enforced.{
  Gatekeeper, Resource, anything, Outcome, returned, denied, thrown, Guarded, lifted, continue,
  delegate, attempt, attempted, decide, enforce, assert_owner_store, owner_stores, is_not_found,
  ◌>>=◌, refuse, pure,
}
use db_cluster.Enforced.Gate.{Concludes, enforce-Gated}
use db_cluster.Enforced.Writes.{
  propose_mutation, validate_mutation, approve_mutation, reject_mutation, commit_within,
  commit_mutation, compensate_within, compensate_mutation, rebuild_index, link_evidence,
  ingest_artifact, create_entity, of_store, of_verb,
}

-- The mutations of the policy-enforced kernel, with what the caller gives.
pub data Mutation : Type 0 where
  propose : ProposeMutationInput → Mutation
  validate : (id : String) → Mutation
  approve : (id by : String) → Option String → Mutation
  reject : (id by reason : String) → Mutation
  commit : (id actor : String) → Mutation
  compensate : (id by reason : String) → Option Fields → Mutation
  rebuild : (actor : String) → Mutation
  link : LinkEvidenceInput → Mutation
  ingest : IngestArtifactInput → Mutation
  create : CreateEntityInput → Mutation

module _ {W : Type 0} where
  -- the outcome without the value that is returned
  abbrev pub forget : {A : Type 0} → Outcome A × State W → Outcome (Unit {0}) × State W
  forget (returned a, s) = (returned tt, s)
  forget (denied d, s) = (denied d, s)
  forget (thrown e, s) = (thrown e, s)

  -- where the outcome is a denial, it is one of a policy and the state is such
  abbrev pub Denies : {A : Type 0} → (State W → Type 0) → Outcome A × State W → Type 0
  Denies Q = Concludes (λ a t. Unit) (λ d t. (d.decision ≡ deny) × Q t) (λ e t. Unit)

  -- no denial
  abbrev Undenied : {A : Type 0} → Outcome A × State W → Type 0
  Undenied = Concludes (λ a t. Unit) (λ d t. ⊥) (λ e t. Unit)

  Denies-Undenied :
      {A : Type 0} (Q : State W → Type 0) (r : Outcome A × State W) → Undenied r → Denies Q r
  Denies-Undenied Q (returned a, t) h = tt
  Denies-Undenied Q (denied d, t) h = absurd h
  Denies-Undenied Q (thrown e, t) h = tt

  Denies-weaken :
      {A : Type 0} (Q R : State W → Type 0) (r : Outcome A × State W)
      → ((t : State W) → Q t → R t)
      → Denies Q r
      → Denies R r
  Denies-weaken Q R (returned a, t) w h = tt
  Denies-weaken Q R (denied d, t) w h = (h.0, w t h.1)
  Denies-weaken Q R (thrown e, t) w h = tt

  Denies-forget :
      {A : Type 0} (Q : State W → Type 0) (r : Outcome A × State W)
      → Denies Q r
      → Denies Q (forget r)
  Denies-forget Q (returned a, t) h = tt
  Denies-forget Q (denied d, t) h = h
  Denies-forget Q (thrown e, t) h = tt

  lifted-Undenied : {A : Type 0} (r : Result A × State W) → Undenied (lifted r)
  lifted-Undenied (ok a, t) = tt
  lifted-Undenied (err e, t) = tt

  delegate-Undenied : {A : Type 0} (m : Action W A) (s : State W) → Undenied (delegate m s)
  unfolding delegate
  delegate-Undenied m s = lifted-Undenied (m s)

  continue-Undenied :
      {A B : Type 0} (f : A → Guarded W B) (r : Outcome A × State W)
      → Undenied r
      → ((a : A) (t : State W) → Undenied (f a t))
      → Undenied (continue f r)
  continue-Undenied f (returned a, t) h k = k a t
  continue-Undenied f (denied d, t) h k = h
  continue-Undenied f (thrown e, t) h k = tt

  mapped-Undenied :
      {A B : Type 0} (m : Action W A) (f : A → B) (s : State W)
      → Undenied ((delegate m >>= λ a. pure (f a)) s)
  unfolding ◌>>=◌ pure
  mapped-Undenied m f s =
      continue-Undenied (λ a. pure (f a)) (delegate m s) (delegate-Undenied m s) (λ a t. tt)

  attempted-Denies :
      {A B : Type 0} (Q : State W → Type 0) (found : A → Guarded W B)
      (missing : Error → Guarded W B) (r : Result A) (t : State W)
      → ((a : A) → Denies Q (found a t))
      → ((e : Error) → Denies Q (missing e t))
      → Denies Q (attempted found missing (lifted (r, t)))
  attempted-Denies Q found missing (ok a) t f m = f a
  attempted-Denies Q found missing (err e) t f m = elim (Bool-cases (is_not_found e)) [
    | inl yes' ↦ rw yes' (m e)
    | inr no' ↦ rw no' tt
  ]

module _ {W : Type 0} (locale : String → String → Ordering) (host : Host W) (g : Gatekeeper) where
  unfoldable pub perform : Mutation → Guarded W (Unit {0})
  perform (propose i) s = forget (propose_mutation locale host g i s)
  perform (validate id) s = forget (validate_mutation locale host g id s)
  perform (approve id by text) s = forget (approve_mutation locale host g id by text s)
  perform (reject id by reason) s = forget (reject_mutation locale host g id by reason s)
  perform (commit id actor) s = forget (commit_mutation locale host g id actor s)
  perform (compensate id by reason payload) s =
      forget (compensate_mutation locale host g id by reason payload s)
  perform (rebuild actor) s = forget (rebuild_index locale host g actor s)
  perform (link i) s = forget (link_evidence locale host g i s)
  perform (ingest i) s = forget (ingest_artifact locale host g i s)
  perform (create i) s = forget (create_entity locale host g i s)

  -- The stores are as they were, and so are the commands, save for what reading one of them does.
  abbrev pub IsUntouched : State W → State W → Type 0
  IsUntouched s t =
      (t.world ≡ s.world)
      × ((t.commands ≡ s.commands)
          ⊎ ((id : String) × (t.commands ≡ (inspect_command id s.commands).1)))

  gate-Denies :
      {A : Type 0} (capability : Capability) (r : Resource) (m : PolicyDecision → Guarded W A)
      (s : State W)
      → Undenied (m (decide locale g capability r) s)
      → Denies (λ t. t ≡ s) ((enforce locale g capability r >>= m) s)
  gate-Denies capability r m s h = elim (enforce-Gated locale g capability r m s) [
    | inl (denies, e) ↦ rw e (denies, refl)
    | inr (allows, e) ↦ rw e (Denies-Undenied (λ t. t ≡ s) (m (decide locale g capability r) s) h)
  ]

  same-IsUntouched : (s t : State W) → t ≡ s → IsUntouched s t
  same-IsUntouched s t e = (ap (λ x. x.world) e, inl (ap (λ x. x.commands) e))

  -- behind a gate that does nothing else
  gate-harmless :
      {A : Type 0} (capability : Capability) (r : Resource) (m : PolicyDecision → Guarded W A)
      (s : State W)
      → Undenied (m (decide locale g capability r) s)
      → Denies (IsUntouched s) (forget ((enforce locale g capability r >>= m) s))
  gate-harmless capability r m s h =
      let out = (enforce locale g capability r >>= m) s in
      Denies-forget (IsUntouched s) out (
        Denies-weaken (λ t. t ≡ s) (IsUntouched s) out (same-IsUntouched s)
          (gate-Denies capability r m s h))

  -- behind a command that is read first
  read-harmless :
      {B : Type 0} (id : String) (found : Command → Guarded W B) (missing : Error → Guarded W B)
      (s : State W)
      → ((c : Command) (t : State W) → Denies (λ u. u ≡ t) (found c t))
      → ((e : Error) (t : State W) → Denies (λ u. u ≡ t) (missing e t))
      → Denies (IsUntouched s) (forget (attempt (inspect_stored host id) found missing s))
  unfolding attempt delegate inspect_stored on_commands
  read-harmless id found missing s f m =
      let x = inspect_command id s.commands in
      let t : State W = record { world = s.world; commands = x.1 } in
      let kept : (u : State W) → u ≡ t → IsUntouched s u =
        λ u e. (ap (λ y. y.world) e, inr (id, ap (λ y. y.commands) e)) in
      Denies-forget (IsUntouched s) _ (
        attempted-Denies (IsUntouched s) found missing x.0 t
          (λ c. Denies-weaken (λ u. u ≡ t) (IsUntouched s) _ kept (f c t))
          (λ e. Denies-weaken (λ u. u ≡ t) (IsUntouched s) _ kept (m e t)))

  propose-harmless :
      (i : ProposeMutationInput) (s : State W)
      → Denies (IsUntouched s) (forget (propose_mutation locale host g i s))
  unfolding propose_mutation assert_owner_store ◌>>=◌ refuse pure
  propose-harmless i s = elim (Bool-cases (includes owner_stores i.target_store)) [
    | inl known ↦ rw known (
        gate-harmless Capability.propose_mutation (of_store i.target_store (verb_name i.verb))
          (λ d. delegate _) s (delegate-Undenied _ s))
    | inr unknown ↦ rw unknown (refl, same-IsUntouched s s refl)
  ]

  -- Every mutation that is denied is denied by a decision to deny, leaves the stores as they were, and the
  -- commands too, save for what reading the command that a commit or a compensation names does.
  pub perform-Denies : (m : Mutation) (s : State W) → Denies (IsUntouched s) (perform m s)
  unfolding perform validate_mutation approve_mutation reject_mutation commit_mutation commit_within
      compensate_mutation compensate_within rebuild_index link_evidence ingest_artifact
      create_entity
  perform-Denies (propose i) s = propose-harmless i s
  perform-Denies (validate id) s =
      gate-harmless Capability.validate_command anything (λ d. delegate _) s (delegate-Undenied _ s)
  perform-Denies (approve id by text) s =
      gate-harmless Capability.approve_command anything (λ d. delegate _) s (delegate-Undenied _ s)
  perform-Denies (reject id by reason) s =
      gate-harmless Capability.reject_command anything (λ d. delegate _) s (delegate-Undenied _ s)
  perform-Denies (commit id actor) s =
      read-harmless id _ _ s
        (λ c t.
          gate-Denies Capability.commit_command (of_store c.target_store (verb_name c.verb))
            (λ d. delegate _) t (delegate-Undenied _ t))
        (λ e t.
          gate-Denies Capability.commit_command anything (λ d. delegate _) t
            (delegate-Undenied _ t))
  perform-Denies (compensate id by reason payload) s =
      read-harmless id _ _ s
        (λ c t.
          gate-Denies Capability.compensate_command (of_store c.target_store "compensate")
            (λ d. delegate _) t (delegate-Undenied _ t))
        (λ e t.
          gate-Denies Capability.compensate_command (of_verb "compensate") (λ d. delegate _) t
            (delegate-Undenied _ t))
  perform-Denies (rebuild actor) s =
      gate-harmless Capability.commit_command (of_verb "reindex") (λ d. delegate _) s
        (delegate-Undenied _ s)
  perform-Denies (link i) s =
      gate-harmless Capability.commit_command (of_store "canonical" "link_evidence")
        (λ d. delegate _) s (delegate-Undenied _ s)
  perform-Denies (ingest i) s =
      gate-harmless Capability.commit_command (of_store "artifact" "ingest_artifact") _ s
        (mapped-Undenied _ _ s)
  perform-Denies (create i) s =
      gate-harmless Capability.commit_command (of_store "canonical" "create_entity") _ s
        (mapped-Undenied _ _ s)
