-- ===== src/Policy/DefaultDecisions.antt =====
-- What the default policies allow.
use Prim.Native.Nat.{Ordering}
use db_cluster.Prelude.{
  String, Bool, true, false, List, ◌∷◌, ◌≡◌, ◌↔◌, inl, inr, refl, sym, subst, ap, ◌∙◌, arith,
  includes, has,
}
use db_cluster.Policy.{
  Capability, capability_eq, commit_command, approve_command, compensate_command, allow, Policy,
  Request, PolicyDecision, PolicyEngineOptions, match_policy, match_principals, match_capabilities,
  match_trust_zones, match_stores, match_kinds, match_uri_patterns, match_command_verbs,
  derive_owner_store, evaluate_policy, unless_open,
}
use db_cluster.Policy.Defaults.{
  default_policies, admin_full_access, observer_read, proposer_propose,
}
use db_cluster.Policy.Order.{no_later}
use db_cluster.Policy.Decisions.{
  In, DecidedBy, effect_of, evaluate_policy-allow, evaluate_policy-DecidedBy,
  derive_owner_store-keep,
}

-- the principal's id and roles
abbrev pub identifiers : Request → List String
identifiers r = r.principal.id ∷ r.principal.roles

-- the capability test of a policy
abbrev match_cap : Policy → Capability → Bool
match_cap p c = unless_open p.match.capabilities (λ cs. has cs c)

-- the capabilities that write truth or open the way to it
abbrev pub gated : Capability → Bool
gated commit_command = true
gated approve_command = true
gated compensate_command = true
gated _ = false

not_read : (c : Capability) → gated c ≡ true → match_cap observer_read c ≡ false
not_read commit_command h = refl
not_read approve_command h = refl
not_read compensate_command h = refl
not_read _ h = cc

not_propose : (c : Capability) → gated c ≡ true → match_cap proposer_propose c ≡ false
not_propose commit_command h = refl
not_propose approve_command h = refl
not_propose compensate_command h = refl
not_propose _ h = cc

admin-match_policy :
    (r : Request) → match_policy r admin_full_access ≡ includes (identifiers r) "cluster-admin"
unfolding match_policy match_principals match_capabilities match_trust_zones match_stores
    match_kinds match_uri_patterns match_command_verbs
admin-match_policy r = ground arith

-- a policy that wants capabilities matches only those
match_policy-cap :
    (r : Request) (p : Policy) → match_cap p r.capability ≡ false → match_policy r p ≡ false
unfolding match_policy match_capabilities
match_policy-cap r p h = rw h (ground arith)

-- no default policy but the admin's lets a gated capability through
gated_needs_admin :
    (r : Request) (p : Policy)
    → In p default_policies
    → match_policy r p ≡ true
    → p.decision ≡ allow
    → gated r.capability ≡ true
    → includes (identifiers r) "cluster-admin" ≡ true
gated_needs_admin r p (inl e) m a g = sym (admin-match_policy r) ∙ (rw e at m)
gated_needs_admin r p (inr (inl e)) m a g =
    cc (match_policy-cap r observer_read (not_read r.capability g))
gated_needs_admin r p (inr (inr (inl e))) m a g =
    cc (match_policy-cap r proposer_propose (not_propose r.capability g))
gated_needs_admin r p (inr (inr (inr (inl e)))) m a g = absurd (cc (rw e at a))
gated_needs_admin r p (inr (inr (inr (inr n)))) m a g = absurd n

-- only the admin policy has precedence over the admin policy
precedes_admin :
    (p : Policy) → In p default_policies → no_later p admin_full_access ≡ true → p.decision ≡ allow
precedes_admin p (inl e) h = rw e refl
precedes_admin p (inr (inl e)) h = absurd (cc (rw e at h))
precedes_admin p (inr (inr (inl e))) h = absurd (cc (rw e at h))
precedes_admin p (inr (inr (inr (inl e)))) h = absurd (cc (rw e at h))
precedes_admin p (inr (inr (inr (inr n)))) h = absurd n

admin_decides :
    (r : Request) (d : PolicyDecision)
    → DecidedBy r default_policies d
    → includes (identifiers r) "cluster-admin" ≡ true
    → d.decision ≡ allow
admin_decides r d (inr ((no_admin, _), e)) h = absurd (cc (admin-match_policy r))
admin_decides r d (inl (p, g, e)) h =
    effect_of r p d e ∙ precedes_admin p g.member (g.precedes.0 (admin-match_policy r ∙ h))

-- Under the default policies a commit, an approval or a compensation is allowed exactly for who is
-- `cluster-admin`, by id or by a role, whatever else the request and the trust zones say.
pub gated_iff_admin :
    (locale : String → String → Ordering) (request : Request) (options : PolicyEngineOptions)
    → options.policies ≡ default_policies
    → gated request.capability ≡ true
    → ((evaluate_policy locale request options).decision ≡ allow)
      ↔ (includes (identifiers request) "cluster-admin" ≡ true)
gated_iff_admin locale request options defaults g =
    let r = derive_owner_store request in
    let same = derive_owner_store-keep request in
    let ids = ap (λ (x : Request). includes (identifiers x) "cluster-admin") same in
    (
      λ a.
          let (p, member, matches, permits, named, ahead) =
            evaluate_policy-allow locale request options a in
          sym ids
          ∙ gated_needs_admin r p (subst (In p) defaults member) matches permits
              (ap (λ (x : Request). gated x.capability) same ∙ g),
      λ h.
          admin_decides r (evaluate_policy locale request options)
            (subst (λ ps. DecidedBy r ps (evaluate_policy locale request options)) defaults
              (evaluate_policy-DecidedBy locale request options))
            (ids ∙ h),
    )
