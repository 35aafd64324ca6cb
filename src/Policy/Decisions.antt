-- ===== src/Policy/Decisions.antt =====
-- What `evaluatePolicy` decides, against the policies as they were given, in any order.
use Prim.Native.Nat.{Ordering}
use db_cluster.Prelude.{
  ◌<◌, String, Bool, true, false, not, ◌&&◌, ◌==◌, Option, none, some, List, [], ◌∷◌, ◌≡◌, ◌⊎◌, inl,
  inr, refl, sym, subst, ap, ◌∙◌, arith, All, find, Bool-cases,
}
use db_cluster.Policy.{
  allow, deny, Policy, PolicyDecision, Request, TrustZone, PolicyEngineOptions, is_deny, zone_of,
  match_policy, insert_policy, compare_policies, is_before, sort_policies_by_priority,
  is_write_action, asks_approval, default_deny, decide_by, decision_of, zones_of,
  apply_trust_zone_restrictions, derive_owner_store, evaluate_policy,
}
use db_cluster.Policy.Order.{no_later, IsOrdered, All-of_sort, sort-IsOrdered}

-- `p` is one of `ps`.
abbrev pub In : Policy → List Policy → Type 0
In p [] = ⊥
In p (q ∷ qs) = (p ≡ q) ⊎ In p qs

module _ (locale : String → String → Ordering) (p : Policy) where
  In-of_insert_policy :
      (q : Policy) (qs : List Policy) → In p (insert_policy locale q qs) → (p ≡ q) ⊎ In p qs
  unfolding insert_policy
  In-of_insert_policy q [] h = h
  In-of_insert_policy q (x ∷ xs) h = elim (Bool-cases (is_before (compare_policies locale x q))) [
    | inl e ↦ elim (rw e at h) [
      | inl same ↦ inr (inl same)
      | inr later ↦ elim (In-of_insert_policy q xs later) [
        | inl new ↦ inl new
        | inr old ↦ inr (inr old)
      ]
    ]
    | inr e ↦ rw e at h
  ]

  In-of_sort : (ps : List Policy) → In p (sort_policies_by_priority locale ps) → In p ps
  unfolding sort_policies_by_priority
  In-of_sort [] h = h
  In-of_sort (q ∷ qs) h = elim (In-of_insert_policy q (sort_policies_by_priority locale qs) h) [
    | inl new ↦ inl new
    | inr old ↦ inr (In-of_sort qs old)
  ]

no_later_refl : (p : Policy) → no_later p p ≡ true
no_later_refl p = ground arith

module _ (f : Policy → Bool) where
  find-none : (ps : List Policy) → find f ps ≡ none → All (λ q. f q ≡ false) ps
  find-none [] h = tt
  find-none (q ∷ qs) h = elim (Bool-cases (f q)) [
    | inl e ↦ absurd (cc (rw e at h))
    | inr e ↦ (e, find-none qs (rw e at h))
  ]

  find-holds : (ps : List Policy) {p : Policy} → find f ps ≡ some p → f p ≡ true
  find-holds [] h = cc
  find-holds (q ∷ qs) {p} h = elim (Bool-cases (f q)) [
    | inl e ↦ cc (rw e at h)
    | inr e ↦ find-holds qs (rw e at h)
  ]

  find-In : (ps : List Policy) {p : Policy} → find f ps ≡ some p → In p ps
  find-In [] h = cc
  find-In (q ∷ qs) {p} h = elim (Bool-cases (f q)) [
    | inl e ↦ inl (cc (rw e at h))
    | inr e ↦ inr (find-In qs (rw e at h))
  ]

  All-later :
      (p : Policy) (qs : List Policy)
      → All (λ q. no_later p q ≡ true) qs
      → All (λ q. f q ≡ true → no_later p q ≡ true) qs
  All-later p [] h = tt
  All-later p (q ∷ qs) (h, hs) = (λ _. h, All-later p qs hs)

  -- in an ordered list the first that matches has precedence over all that match
  find-first :
      (ps : List Policy) {p : Policy}
      → IsOrdered ps
      → find f ps ≡ some p
      → All (λ q. f q ≡ true → no_later p q ≡ true) ps
  find-first [] o h = cc
  find-first (q ∷ qs) {p} (first, rest) h = elim (Bool-cases (f q)) [
    | inl e ↦
        subst (λ x. All (λ y. f y ≡ true → no_later x y ≡ true) (q ∷ qs)) {x = q} {y = p}
          (cc (rw e at h)) (λ _. no_later_refl q, All-later q qs first)
    | inr e ↦ (λ k. absurd (cc), find-first qs rest (rw e at h))
  ]

-- `p` is one of the policies, it matches, and it takes precedence over every other that matches.
pub record Governs (r : Request) (ps : List Policy) (p : Policy) : Type 0 where
  pub member : In p ps
  pub matches : match_policy r p ≡ true
  pub precedes : All (λ q. match_policy r q ≡ true → no_later p q ≡ true) ps

-- the policy that decides
abbrev pub governing : (String → String → Ordering) → Request → List Policy → Option Policy
governing locale r ps = find (match_policy r) (sort_policies_by_priority locale ps)

governing-Governs :
    (locale : String → String → Ordering) (r : Request) (ps : List Policy) {p : Policy}
    → governing locale r ps ≡ some p
    → Governs r ps p
governing-Governs locale r ps {p} h = record {
  member =
      In-of_sort locale p ps (find-In (match_policy r) (sort_policies_by_priority locale ps) h);
  matches = find-holds (match_policy r) (sort_policies_by_priority locale ps) h;
  precedes =
      All-of_sort (λ q. match_policy r q ≡ true → no_later p q ≡ true) locale ps
        (find-first (match_policy r) (sort_policies_by_priority locale ps)
          (sort-IsOrdered locale ps) h);
}

-- what the trust zone does to a decision: it may ask for approval, and changes nothing else
restrictions-keep :
    (d : PolicyDecision) (r : Request) (zones : List TrustZone)
    → record (apply_trust_zone_restrictions d r zones) { requires_approval = false }
      ≡ record d { requires_approval = false }
unfolding apply_trust_zone_restrictions
restrictions-keep d r zones = ground arith

-- what decided `d`
abbrev pub DecidedBy : Request → List Policy → PolicyDecision → Type 0
DecidedBy r ps d =
    ((p : Policy) × Governs r ps p × (record d { requires_approval = false } ≡ decision_of r p))
    ⊎ (All (λ q. match_policy r q ≡ false) ps × (d ≡ default_deny r))

decide_by-DecidedBy :
    (locale : String → String → Ordering) (r : Request) (ps : List Policy) (zones : List TrustZone)
    (m : Option Policy)
    → governing locale r ps ≡ m
    → DecidedBy r ps (decide_by r zones m)
decide_by-DecidedBy locale r ps zones none h = inr (
  All-of_sort (λ q. match_policy r q ≡ false) locale ps
      (find-none (match_policy r) (sort_policies_by_priority locale ps) h),
  refl,
)
decide_by-DecidedBy locale r ps zones (some p) h =
    inl (p, governing-Governs locale r ps h, restrictions-keep (decision_of r p) r zones)

-- a decision that a policy made has that policy's effect
pub effect_of :
    (r : Request) (p : Policy) (d : PolicyDecision)
    → record d { requires_approval = false } ≡ decision_of r p
    → d.decision ≡ p.decision
effect_of r p d e = ap (λ (x : PolicyDecision). x.decision) e

-- `evaluatePolicy` is decided by the policy that governs the request, with the store of the resource's
-- URI filled in: the decision, the policy's id and name, the reason and the redaction are that
-- policy's. Where no policy matches, the decision is the default deny.
pub evaluate_policy-DecidedBy :
    (locale : String → String → Ordering) (request : Request) (options : PolicyEngineOptions)
    → DecidedBy
        (derive_owner_store request)
        options.policies
        (evaluate_policy locale request options)
unfolding evaluate_policy
evaluate_policy-DecidedBy locale request options =
    let r = derive_owner_store request in
    decide_by-DecidedBy locale r options.policies (zones_of options.trust_zones)
      (governing locale r options.policies) refl

later_deny :
    (p q : Policy)
    → p.decision ≡ allow
    → q.decision ≡ deny
    → no_later p q ≡ true
    → p.priority < q.priority
later_deny p q a d h = ground arith

-- every matching deny comes later than `p`
abbrev pub Outranks : Request → Policy → List Policy → Type 0
Outranks r p ps =
    All (λ q. match_policy r q ≡ true → q.decision ≡ deny → p.priority < q.priority) ps

Outranks-denies :
    (r : Request) (p : Policy) (ps : List Policy)
    → p.decision ≡ allow
    → All (λ q. match_policy r q ≡ true → no_later p q ≡ true) ps
    → Outranks r p ps
Outranks-denies r p [] a h = tt
Outranks-denies r p (q ∷ qs) a (h, hs) =
    ((λ m d. later_deny p q a d (h m)), Outranks-denies r p qs a hs)

allowed_by :
    (r : Request) (ps : List Policy) (d : PolicyDecision)
    → DecidedBy r ps d
    → d.decision ≡ allow
    → (p : Policy) × In p ps
      × (match_policy r p ≡ true)
      × (p.decision ≡ allow)
      × (d.matched_policy_id ≡ p.id)
      × Outranks r p ps
unfolding default_deny
allowed_by r ps d (inr (unmatched, e)) a = absurd (cc)
allowed_by r ps d (inl (p, g, e)) a =
    let permits : p.decision ≡ allow = sym (ap (λ (x : PolicyDecision). x.decision) e) ∙ a in
    (
      p,
      g.member,
      g.matches,
      permits,
      ap (λ (x : PolicyDecision). x.matched_policy_id) e,
      Outranks-denies r p ps permits g.precedes,
    )

-- What is allowed is allowed by a policy of the list that matches the request, whose priority is
-- strictly ahead of every matching deny; it is the policy that the decision names.
pub evaluate_policy-allow :
    (locale : String → String → Ordering) (request : Request) (options : PolicyEngineOptions)
    → (evaluate_policy locale request options).decision ≡ allow
    → (p : Policy) × In p options.policies
      × (match_policy (derive_owner_store request) p ≡ true)
      × (p.decision ≡ allow)
      × ((evaluate_policy locale request options).matched_policy_id ≡ p.id)
      × Outranks (derive_owner_store request) p options.policies
evaluate_policy-allow locale request options =
    allowed_by (derive_owner_store request) options.policies
      (evaluate_policy locale request options) (evaluate_policy-DecidedBy locale request options)

-- the zone of the request asks for approval of writes
abbrev pub zone_asks : List TrustZone → String → Bool
zone_asks zones id = elim (find (λ (z : TrustZone). z.id == id) zones) [
  | none ↦ false
  | some z ↦ asks_approval z.approval_mode
]

restrictions-approval :
    (r : Request) (p : Policy) (zones : List TrustZone)
    → (apply_trust_zone_restrictions (decision_of r p) r zones).requires_approval
      ≡ (not (is_deny p.decision) && is_write_action r.capability && zone_asks zones (zone_of r))
unfolding apply_trust_zone_restrictions
restrictions-approval r p zones = ground arith

decide_by-approval :
    (r : Request) (zones : List TrustZone) (m : Option Policy)
    → (decide_by r zones m).requires_approval ≡ (
        not (is_deny (decide_by r zones m).decision)
        && is_write_action r.capability
        && zone_asks zones (zone_of r))
unfolding default_deny
decide_by-approval r zones none = refl
decide_by-approval r zones (some p) =
    let same =
      ap (λ (d : PolicyDecision). d.decision) (restrictions-keep (decision_of r p) r zones) in
    rw same (restrictions-approval r p zones)

pub derive_owner_store-keep :
    (r : Request) → record (derive_owner_store r) { owner_store = r.owner_store } ≡ r
unfolding derive_owner_store
derive_owner_store-keep r = ground arith

-- Approval is asked for exactly when a commit or a compensation is allowed in a trust zone whose
-- approval mode is not `auto`; a zone that is not configured asks for none.
evaluate_policy-approval :
    (locale : String → String → Ordering) (request : Request) (options : PolicyEngineOptions)
    → (evaluate_policy locale request options).requires_approval ≡ (
        not (is_deny (evaluate_policy locale request options).decision)
        && is_write_action request.capability
        && zone_asks (zones_of options.trust_zones) (zone_of request))
unfolding evaluate_policy
evaluate_policy-approval locale request options =
    let r = derive_owner_store request in
    let zones = zones_of options.trust_zones in
    let same = derive_owner_store-keep request in
    let m = governing locale r options.policies in
    decide_by-approval r zones m
    ∙ ap
        (λ (x : Request).
          not (is_deny (decide_by r zones m).decision)
          && is_write_action x.capability
          && zone_asks zones (zone_of x))
        same
