-- ===== src/Policy/Underspecified.antt =====
-- A request that leaves its kind, URI, verb or derived store out is treated no better than one that
-- gives them, for the same principal, capability and trust zone.
use Prim.Native.Nat.{Ordering}
use text.Mathlib.Text.{starts_with}
use db_cluster.Prelude.{
  String, Bool, true, false, ◌&&◌, ◌||◌, Option, none, some, List, [], ◌∷◌, ◌≡◌, ◌⊎◌, inl, inr, ◌<◌,
  refl, sym, subst, All, ◌∙◌, arith, any, includes,
}
use db_cluster.Policy.{
  Effect, allow, deny, Policy, PolicyMatch, Request, given, matches_field, unless_open,
  match_policy, match_principals, match_trust_zones, match_capabilities, match_stores, match_kinds,
  match_uri_patterns, match_command_verbs, PolicyDecision, PolicyEngineOptions, derive_owner_store,
  evaluate_policy,
}
use db_cluster.Policy.Order.{no_later}
use db_cluster.Policy.Decisions.{
  In, Outranks, DecidedBy, effect_of, evaluate_policy-allow, evaluate_policy-DecidedBy,
}

-- `r` says at most what `s` says: a field is left out, or is the same.
abbrev Less : Option String → Option String → Type 0
Less x y = (given x ≡ none) ⊎ (given x ≡ given y)

pub record LessSpecific (r s : Request) : Type 0 where
  pub principal : r.principal ≡ s.principal
  pub capability : r.capability ≡ s.capability
  pub trust_zone : r.trust_zone ≡ s.trust_zone
  pub owner_store : Less r.owner_store s.owner_store
  pub entity_kind : Less r.entity_kind s.entity_kind
  pub resource_uri : Less r.resource_uri s.resource_uri
  pub command_verb : Less r.command_verb s.command_verb

-- of the Booleans `b` and `c`, the one that an effect must not gain
abbrev Guarded : Effect → Bool → Bool → Type 0
Guarded allow b c = b ≡ true → c ≡ true
Guarded deny b c = c ≡ true → b ≡ true

matches_field-Guarded :
    (effect : Effect) (x y : Option String) (test : String → Bool)
    → (x ≡ none) ⊎ (x ≡ y)
    → Guarded effect (matches_field effect x test) (matches_field effect y test)
matches_field-Guarded allow x y test (inl e) = λ h. absurd (cc (rw e at h))
matches_field-Guarded deny x y test (inl e) = λ h. rw e refl
matches_field-Guarded allow x y test (inr e) = λ h. rw e at h
matches_field-Guarded deny x y test (inr e) = λ h. rw e h

||-Guarded :
    (effect : Effect) (a b c : Bool) → Guarded effect b c → Guarded effect (a || b) (a || c)
||-Guarded allow a b c h = ground arith
||-Guarded deny a b c h = ground arith

Guarded-refl : (effect : Effect) (b : Bool) → Guarded effect b b
Guarded-refl allow b = λ h. h
Guarded-refl deny b = λ h. h

unless_open-Guarded :
    (effect : Effect) (c : Option (List String)) (f g : List String → Bool)
    → ((xs : List String) → Guarded effect (f xs) (g xs))
    → Guarded effect (unless_open c f) (unless_open c g)
unless_open-Guarded effect none f g h = Guarded-refl effect true
unless_open-Guarded effect (some []) f g h = Guarded-refl effect true
unless_open-Guarded effect (some (x ∷ xs)) f g h = h (x ∷ xs)

-- a field constraint, over a request that says less
field-Guarded :
    (effect : Effect) (c : Option (List String)) (x y : Option String)
    (test : List String → String → Bool)
    → Less x y
    → Guarded effect
        (unless_open c (λ xs. matches_field effect (given x) (test xs)))
        (unless_open c (λ xs. matches_field effect (given y) (test xs)))
field-Guarded effect c x y test less =
    unless_open-Guarded effect c (λ xs. matches_field effect (given x) (test xs))
      (λ xs. matches_field effect (given y) (test xs))
      (λ xs. matches_field-Guarded effect (given x) (given y) (test xs) less)

module _ (r s : Request) (m : PolicyMatch) (effect : Effect) (less : LessSpecific r s) where
  stores-Guarded : Guarded effect (match_stores r m effect) (match_stores s m effect)
  unfolding match_stores
  stores-Guarded =
      unless_open-Guarded effect m.stores
        (λ xs. includes xs "*" || matches_field effect (given r.owner_store) (includes xs))
        (λ xs. includes xs "*" || matches_field effect (given s.owner_store) (includes xs))
        (λ xs.
          ||-Guarded effect (includes xs "*")
            (matches_field effect (given r.owner_store) (includes xs))
            (matches_field effect (given s.owner_store) (includes xs))
            (matches_field-Guarded effect (given r.owner_store) (given s.owner_store) (includes xs)
              less.owner_store))

  kinds-Guarded : Guarded effect (match_kinds r m effect) (match_kinds s m effect)
  unfolding match_kinds
  kinds-Guarded = field-Guarded effect m.kinds r.entity_kind s.entity_kind includes less.entity_kind

  uris-Guarded : Guarded effect (match_uri_patterns r m effect) (match_uri_patterns s m effect)
  unfolding match_uri_patterns
  uris-Guarded =
      field-Guarded effect m.uri_patterns r.resource_uri s.resource_uri
        (λ patterns uri. any (λ pattern. starts_with uri pattern) patterns) less.resource_uri

  verbs-Guarded : Guarded effect (match_command_verbs r m effect) (match_command_verbs s m effect)
  unfolding match_command_verbs
  verbs-Guarded =
      field-Guarded effect m.command_verbs r.command_verb s.command_verb includes less.command_verb

  principals-same : match_principals r m ≡ match_principals s m
  unfolding match_principals
  principals-same = rw less.principal

  zones-same : match_trust_zones r m ≡ match_trust_zones s m
  unfolding match_trust_zones
  zones-same = rw (less.principal, less.trust_zone)

  capabilities-same : match_capabilities r m ≡ match_capabilities s m
  unfolding match_capabilities
  capabilities-same = rw less.capability

-- the conjunction of the field tests of `matchPolicy`
conjunction-Guarded :
    (effect : Effect) (a b c s s' k k' u u' v v' : Bool)
    → Guarded effect s s'
    → Guarded effect k k'
    → Guarded effect u u'
    → Guarded effect v v'
    → Guarded effect
        (a && (b && (c && (s && (k && (u && v))))))
        (a && (b && (c && (s' && (k' && (u' && v'))))))
conjunction-Guarded allow a b c s s' k k' u u' v v' hs hk hu hv = ground arith
conjunction-Guarded deny a b c s s' k k' u u' v v' hs hk hu hv = ground arith

-- An allow that matches a request matches it when it says more; a deny that matches the fuller request
-- matches the one that says less.
match_policy-Guarded :
    (r s : Request) (p : Policy)
    → LessSpecific r s
    → Guarded p.decision (match_policy r p) (match_policy s p)
unfolding match_policy
match_policy-Guarded r s p less =
    let m = p.match in
    let effect = p.decision in
    rw
      (
        principals-same r s m effect less,
        zones-same r s m effect less,
        capabilities-same r s m effect less,
      )
      (conjunction-Guarded effect (match_principals s m) (match_trust_zones s m)
        (match_capabilities s m) (match_stores r m effect) (match_stores s m effect)
        (match_kinds r m effect) (match_kinds s m effect) (match_uri_patterns r m effect)
        (match_uri_patterns s m effect) (match_command_verbs r m effect)
        (match_command_verbs s m effect) (stores-Guarded r s m effect less)
        (kinds-Guarded r s m effect less) (uris-Guarded r s m effect less)
        (verbs-Guarded r s m effect less))

allow-matches :
    (effect : Effect) {b c : Bool} → effect ≡ allow → Guarded effect b c → b ≡ true → c ≡ true
allow-matches allow e g h = g h
allow-matches deny e g h = absurd (cc)

deny-matches :
    (effect : Effect) {b c : Bool} → effect ≡ deny → Guarded effect b c → c ≡ true → b ≡ true
deny-matches deny e g h = g h
deny-matches allow e g h = absurd (cc)

pub All-In {κ} : (P : Policy → Type κ) (ps : List Policy) {p : Policy} → All P ps → In p ps → P p
All-In P [] h m = absurd m
All-In P (q ∷ qs) (h, hs) (inl e) = subst P (sym e) h
All-In P (q ∷ qs) (h, hs) (inr m) = All-In P qs hs m

ranks_clash : (p q : Policy) → no_later q p ≡ true → ¬ (p.priority < q.priority)
ranks_clash p q h k = ground arith

pub allow_or_deny : (effect : Effect) → (effect ≡ allow) ⊎ (effect ≡ deny)
allow_or_deny allow = inl refl
allow_or_deny deny = inr refl

kept_allow :
    (r s : Request) (ps : List Policy) (p : Policy) (d : PolicyDecision)
    → LessSpecific r s
    → In p ps
    → match_policy r p ≡ true
    → p.decision ≡ allow
    → Outranks r p ps
    → DecidedBy s ps d
    → d.decision ≡ allow
kept_allow r s ps p d less member matches permits ahead (inr (unmatched, e)) = absurd (
    cc (
      All-In (λ q. match_policy s q ≡ false) ps unmatched member,
      allow-matches p.decision permits (match_policy-Guarded r s p less) matches,
    ))
kept_allow r s ps p d less member matches permits ahead (inl (q, g, e)) =
    elim (allow_or_deny q.decision) [
      | inl fine ↦ effect_of s q d e ∙ fine
      | inr denies ↦
          let clash = ranks_clash p q (
            All-In (λ x. match_policy s x ≡ true → no_later q x ≡ true) ps g.precedes member
              (allow-matches p.decision permits (match_policy-Guarded r s p less) matches)) in
          absurd (
            clash (
              All-In (λ x. match_policy r x ≡ true → x.decision ≡ deny → p.priority < x.priority) ps
                ahead g.member
                (deny-matches q.decision denies (match_policy-Guarded r s q less) g.matches)
                denies))
    ]

-- Of two requests of one principal, capability and trust zone, where the first leaves out some of the
-- kind, the URI and the verb of the second, and of its owner store as it is derived (the one that the
-- request names, or else the one that is read off its URI), and says the same of the rest: what
-- `evaluatePolicy` allows for the first, it allows for the second. Nothing is said of a trust zone that
-- is left out, or of a derived store that differs.
pub evaluate_policy-LessSpecific :
    (locale : String → String → Ordering) (r s : Request) (options : PolicyEngineOptions)
    → LessSpecific (derive_owner_store r) (derive_owner_store s)
    → (evaluate_policy locale r options).decision ≡ allow
    → (evaluate_policy locale s options).decision ≡ allow
evaluate_policy-LessSpecific locale r s options less h =
    let (p, member, matches, permits, named, ahead) = evaluate_policy-allow locale r options h in
    kept_allow (derive_owner_store r) (derive_owner_store s) options.policies p
      (evaluate_policy locale s options) less member matches permits ahead
      (evaluate_policy-DecidedBy locale s options)
