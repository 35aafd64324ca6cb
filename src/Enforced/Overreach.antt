-- ===== src/Enforced/Overreach.antt =====
-- A policy that denies one entity, and what it does to the reads of all others.
use Prim.Native.Nat.{Ordering}
use db_cluster.Prelude.{
  String, Bool, true, ◌&&◌, Option, none, some, List, [], ◌∷◌, ◌≡◌, inl, inr, ◌≤◌, ◌<◌, refl, arith,
  All,
}
use db_cluster.Stores.{Host}
use db_cluster.Policy.{
  allow, deny, read_owner_truth, Policy, PolicyMatch, Request, unless_open, match_policy,
  match_principals, match_trust_zones, match_capabilities, match_stores, match_kinds,
  match_uri_patterns, match_command_verbs, derive_owner_store,
}
use db_cluster.Policy.Decisions.{In, evaluate_policy-allow}
use db_cluster.Policy.Underspecified.{All-In, allow_or_deny}
use db_cluster.Kernel.Action.{State}
use db_cluster.Enforced.{Gatekeeper, denied, decide, request, options}
use db_cluster.Enforced.Gate.{enforce-denied}
use db_cluster.Enforced.Reads.{in_store, inspect_entity}

unless_open-true :
    {A : Type 0} (c : Option (List A)) (test : List A → Bool)
    → ((xs : List A) → test xs ≡ true)
    → unless_open c test ≡ true
unless_open-true none test h = refl
unless_open-true (some []) test h = refl
unless_open-true (some (x ∷ xs)) test h = h (x ∷ xs)

-- the policy names the principal, the zone, the capability and the store of the request
abbrev pub Concerns : Request → Policy → Type 0
Concerns r p =
    (match_principals r p.match ≡ true)
    × (match_trust_zones r p.match ≡ true)
    × (match_capabilities r p.match ≡ true)
    × (match_stores r p.match deny ≡ true)

-- no policy that allows stands before it
abbrev pub Leads : Policy → List Policy → Type 0
Leads p ps = All (λ (q : Policy). q.decision ≡ allow → p.priority ≤ q.priority) ps

-- the first request of `inspectEntity`
abbrev pub first_request : Gatekeeper → Request
first_request g = request g read_owner_truth (in_store "canonical")

match_rest :
    (g : Gatekeeper) (m : PolicyMatch)
    → (match_kinds (first_request g) m deny
        && (match_uri_patterns (first_request g) m deny
            && match_command_verbs (first_request g) m deny))
      ≡ true
unfolding match_kinds match_uri_patterns match_command_verbs
match_rest g m =
    rw
      (
        unless_open-true m.kinds (λ xs. true) (λ xs. refl),
        unless_open-true m.uri_patterns (λ xs. true) (λ xs. refl),
        unless_open-true m.command_verbs (λ xs. true) (λ xs. refl),
      )
      refl

match_denied :
    (g : Gatekeeper) (p : Policy)
    → p.decision ≡ deny
    → Concerns (first_request g) p
    → match_policy (first_request g) p ≡ true
unfolding match_policy
match_denied g p d (a, b, c, e) = rw (d, a, b, c, e) (match_rest g p.match)

module _ {W : Type 0} (locale : String → String → Ordering) (host : Host W) (g : Gatekeeper) where
  first_denied :
      (p : Policy)
      → In p g.policies
      → p.decision ≡ deny
      → Concerns (first_request g) p
      → Leads p g.policies
      → (decide locale g read_owner_truth (in_store "canonical")).decision ≡ deny
  unfolding decide derive_owner_store
  first_denied p member d c leads =
      elim (allow_or_deny (decide locale g read_owner_truth (in_store "canonical")).decision) [
        | inr denies ↦ denies
        | inl allows ↦
            let (q, there, matches, permits, named, ahead) =
              evaluate_policy-allow locale (first_request g) (options g) allows in
            let before =
              All-In
                (λ x.
                  match_policy (first_request g) x ≡ true
                  → x.decision ≡ deny
                  → q.priority < x.priority)
                g.policies ahead member (match_denied g p d c) d in
            let behind =
              All-In (λ (x : Policy). x.decision ≡ allow → p.priority ≤ x.priority) g.policies leads
                there permits in
            absurd (omega (arith, before, behind))
      ]

  -- A policy that denies the reading of owner truth by the kind, the URI or the verb, with no allow before it,
  -- denies `inspectEntity` of every id: the first gate names no entity, so the policy matches there whatever
  -- entity it means.
  pub inspect_entity-denied :
      (p : Policy)
      → In p g.policies
      → p.decision ≡ deny
      → Concerns (first_request g) p
      → Leads p g.policies
      → (id : String) (s : State W)
      → inspect_entity locale host g id s
        ≡ (denied (decide locale g read_owner_truth (in_store "canonical")), s)
  unfolding inspect_entity
  inspect_entity-denied p member d c leads id s =
      enforce-denied locale g read_owner_truth (in_store "canonical") _ s
        (first_denied p member d c leads)
