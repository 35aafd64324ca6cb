-- ===== src/Ops/Chain.antt =====
-- `checkIntegrityChain` of src/ops/integrity-checks.ts.
use db_cluster.Prelude.{String, Bool, false, Option, none, some, List, [], ◌∷◌, ◌==◌, if◌then◌else◌}
use db_cluster.Json.{template}
use db_cluster.Ledger.Types.{Sealed}
use db_cluster.Ledger.Log.{recompute}

-- whether `prevHash` is the hash
abbrev pub links : Option String → String → Bool
links none hash = false
links (some p) hash = p == hash

module _ {A : Type 0} ⦃s : Sealed A⦄ where
  abbrev edited : String → A → String
  edited kind a = template (
      kind
      ∷ " "
      ∷ s.id_of a
      ∷ ": stored integrityHash does not match recomputed hash — "
      ∷ "the record content was edited after it was written."
      ∷ [])

  abbrev unlinked : String → A → String
  unlinked kind a = template (
      kind
      ∷ " "
      ∷ s.id_of a
      ∷ ": prevHash does not match the preceding record's integrityHash — "
      ∷ "the ledger was reordered, or a record was inserted/deleted."
      ∷ [])

  -- the issue of a record that hashes as it says, behind the hash of the stamped record before it
  abbrev pub link_issues : String → Option String → A → List String → List String
  link_issues kind none a rest = rest
  link_issues kind (some hash) a rest =
      if links (s.prev_of a) hash then rest else unlinked kind a ∷ rest

  -- The loop over the records, behind the hash of the last stamped one; a record without a hash has "".
  unfoldable pub chain_issues :
      (digest : String → String) → String → Option String → List A → List String
  unfolding recompute
  chain_issues digest kind before [] = []
  chain_issues digest kind before (a ∷ rest) =
      let missing = s.hash_of a == "" in
      let rest' = chain_issues digest kind (if missing then before else some (s.hash_of a)) rest in
      if missing
      then rest'
      else if recompute digest a == s.hash_of a
      then link_issues kind before a rest'
      else edited kind a ∷ rest'

  -- `checkIntegrityChain`
  unfoldable pub check_integrity_chain : (digest : String → String) → List A → String → List String
  unfolding chain_issues
  check_integrity_chain digest xs kind = chain_issues digest kind none xs
