-- ===== src/Policy/Matching.antt =====
-- `matchPolicy` of src/policy/policy-engine.ts, field by field.
use text.Mathlib.Text.{starts_with}
use db_cluster.Prelude.{
  String, Bool, true, false, ◌&&◌, ◌||◌, Option, none, some, List, [], ◌∷◌, ◌==◌, any, includes,
  has, if◌then◌else◌,
}
use db_cluster.Policy.Types.{capability_eq, Effect, allow, deny, Policy, PolicyMatch, Request}

abbrev pub is_deny : Effect → Bool
is_deny deny = true
is_deny allow = false

-- a text that is truthy
abbrev pub given : Option String → Option String
given none = none
given (some s) = if s == "" then none else some s

-- `request.trustZone ?? request.principal.trustZone`
abbrev pub zone_of : Request → String
zone_of r = elim r.trust_zone [ none ↦ r.principal.trust_zone | some zone ↦ zone ]

-- A constraint that is left out or empty matches anything.
abbrev pub unless_open {ℓ} : {A : Type ℓ} → Option (List A) → (List A → Bool) → Bool
unless_open none test = true
unless_open (some []) test = true
unless_open (some (x ∷ xs)) test = test (x ∷ xs)

unfoldable pub match_principals : Request → PolicyMatch → Bool
match_principals r m =
    unless_open m.principals (λ ps. any (λ p. includes (r.principal.id ∷ r.principal.roles) p) ps)

unfoldable pub match_trust_zones : Request → PolicyMatch → Bool
match_trust_zones r m = unless_open m.trust_zones (λ zs. includes zs (zone_of r))

unfoldable pub match_capabilities : Request → PolicyMatch → Bool
match_capabilities r m = unless_open m.capabilities (λ cs. has cs r.capability)

-- A field that the request leaves out matches a `deny`, and no `allow`.
abbrev pub matches_field : Effect → Option String → (String → Bool) → Bool
matches_field effect none test = is_deny effect
matches_field effect (some value) test = test value

unfoldable pub match_stores : Request → PolicyMatch → Effect → Bool
match_stores r m effect =
    unless_open m.stores (λ stores.
      includes stores "*" || matches_field effect (given r.owner_store) (includes stores))

unfoldable pub match_kinds : Request → PolicyMatch → Effect → Bool
match_kinds r m effect =
    unless_open m.kinds (λ kinds. matches_field effect (given r.entity_kind) (includes kinds))

unfoldable pub match_uri_patterns : Request → PolicyMatch → Effect → Bool
match_uri_patterns r m effect = unless_open m.uri_patterns (λ patterns.
    matches_field effect (given r.resource_uri)
      (λ uri. any (λ pattern. starts_with uri pattern) patterns))

unfoldable pub match_command_verbs : Request → PolicyMatch → Effect → Bool
match_command_verbs r m effect =
    unless_open m.command_verbs
      (λ verbs. matches_field effect (given r.command_verb) (includes verbs))

-- `matchPolicy`
unfoldable pub match_policy : Request → Policy → Bool
match_policy r p =
    match_principals r p.match
    && (match_trust_zones r p.match
        && (match_capabilities r p.match
            && (match_stores r p.match p.decision
                && (match_kinds r p.match p.decision
                    && (match_uri_patterns r p.match p.decision
                        && match_command_verbs r p.match p.decision)))))
