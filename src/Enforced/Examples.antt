-- ===== src/Enforced/Examples.antt =====
-- The guarded kernel for one principal, over the ledger of the local adapter.
use Prim.Native.Nat.{Ordering}
use Prim.Native.String
use db_cluster.Prelude.{String, none, some, List, All, [], ◌∷◌, ◌≡◌, inl, inr, refl, arith}
use db_cluster.Commands.{verb_name}
use db_cluster.Policy.{
  allow, deny, Policy, PolicyMatch, commit_command, read_owner_truth, discover_existence,
  match_principals, match_trust_zones, match_capabilities, match_stores,
}
use db_cluster.Errors.{ok}
use db_cluster.Kernel.Reads
use db_cluster.Kernel.Reads.{FindSourcesInput, FindSourcesResult}
use db_cluster.Kernel.Committing.{IsCommitted, IsFailed}
use db_cluster.Kernel.Sample.{local_host, local_host-IsEchoing, ready, start}
use db_cluster.Enforced.{Gatekeeper, denied, decide}
use db_cluster.Enforced.Gate.{Concludes, commit_mutation-Decided}
use db_cluster.Enforced.Denials.{commit, Denies, IsUntouched, perform, perform-Denies}
use db_cluster.Enforced.Found.{IsReadable, find_sources-IsReadable}
use db_cluster.Enforced.OneGate.{inspect_once, inspect_entity-OneGate}
use db_cluster.Enforced.Overreach.{inspect_entity-denied}
use db_cluster.Enforced.Writes.{of_store, commit_mutation}
use db_cluster.Enforced.Reads.{in_store, inspect_entity}
use db_cluster.Enforced.Searches.{find_sources}

abbrev by_code : String → String → Ordering
by_code = String.compare

abbrev open_match : PolicyMatch
open_match = record {
  principals = none;
  trust_zones = none;
  capabilities = none;
  stores = none;
  kinds = none;
  uri_patterns = none;
  command_verbs = none;
}

abbrev allow_all : Policy
allow_all = record {
  id = "allow-all";
  name = "Allow all";
  priority = 10;
  match = open_match;
  decision = allow;
  reason = "trusted";
  redaction = none;
}

-- one entity is not to be read
abbrev hide_one : Policy
hide_one = record {
  id = "hide-one";
  name = "Hide one";
  priority = 5;
  match = record open_match { uri_patterns = some ("cluster://canonical/secret" ∷ []) };
  decision = deny;
  reason = "secret";
  redaction = none;
}

abbrev keeper : List Policy → Gatekeeper
keeper policies = record {
  principal = record {
    id = "user-1";
    name = "User";
    roles = [];
    trust_zone = "internal";
    metadata = none;
  };
  trust_zone = none;
  policies = policies;
  trust_zones = none;
  visibility_rules = [];
}

commit_mutation-Decided_example :
    Concludes
      (λ r t.
        ((decide by_code
            (keeper (allow_all ∷ []))
            commit_command
            (of_store "canonical" "create_entity")).decision
          ≡ allow)
        × IsCommitted local_host "ops:1" ready (ready ∷ []) r t)
      (λ d t. (d.decision ≡ deny) × (t ≡ start))
      (λ e t.
        ((decide by_code
            (keeper (allow_all ∷ []))
            commit_command
            (of_store "canonical" "create_entity")).decision
          ≡ allow)
        × IsFailed local_host "c1" ready (ready ∷ []) e t)
      (commit_mutation by_code local_host (keeper (allow_all ∷ [])) "c1" "ops:1" start)
unfolding ready verb_name
commit_mutation-Decided_example =
    commit_mutation-Decided local_host by_code (keeper (allow_all ∷ [])) local_host-IsEchoing "c1"
      "ops:1" ready (ready ∷ []) start refl refl

perform-Denies_example :
    Denies
      (IsUntouched by_code local_host (keeper []) start)
      (perform by_code local_host (keeper []) (commit "c1" "ops:1") start)
perform-Denies_example = perform-Denies by_code local_host (keeper []) (commit "c1" "ops:1") start

abbrev alice : FindSourcesInput
alice = record { query = "Alice"; limit = some 5; offset = none }

find_sources-IsReadable_example :
    Concludes
      (λ shown t.
        ((decide by_code (keeper (allow_all ∷ [])) discover_existence (in_store "index")).decision
          ≡ allow)
        × ((found : FindSourcesResult) × (Reads.find_sources local_host alice start ≡ (ok found, t))
            × All (IsReadable by_code (keeper (allow_all ∷ [])) found) shown.index_records))
      (λ d t. (d.decision ≡ deny) × (t ≡ start))
      (λ e t. Unit)
      (find_sources by_code local_host (keeper (allow_all ∷ [])) alice start)
find_sources-IsReadable_example =
    find_sources-IsReadable by_code (keeper (allow_all ∷ [])) local_host alice start

inspect_entity-denied_example :
    inspect_entity by_code local_host (keeper (allow_all ∷ hide_one ∷ [])) "n1" start ≡ (
      denied (
          decide by_code
            (keeper (allow_all ∷ hide_one ∷ []))
            read_owner_truth
            (in_store "canonical")),
      start,
    )
unfolding match_principals match_trust_zones match_capabilities match_stores
inspect_entity-denied_example =
    inspect_entity-denied by_code local_host (keeper (allow_all ∷ hide_one ∷ [])) hide_one
      (inr (inl refl)) refl (refl, refl, refl, refl) ((λ h. omega arith), ((λ h. omega arith), tt))
      "n1" start

inspect_entity-OneGate_example :
    inspect_entity by_code local_host (keeper (allow_all ∷ [])) "n1" start
    ≡ inspect_once by_code local_host (keeper (allow_all ∷ [])) "n1" start
inspect_entity-OneGate_example =
    inspect_entity-OneGate by_code local_host (keeper (allow_all ∷ [])) "n1" start
