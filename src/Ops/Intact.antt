-- ===== src/Ops/Intact.antt =====
-- What the writers of the ledger stamp is what its verifier accepts.
use db_cluster.Prelude.{
  String, true, false, Option, none, some, List, [], ◌∷◌, ◌++◌, ◌==◌, ◌≡◌, ◌↔◌, inl, inr, refl, sym,
  subst, ap, ◌∙◌, eq_iff, All, get_last?, Bool-cases,
}
use db_cluster.Ledger.Types.{Sealed}
use db_cluster.Ledger.Log.{recompute, stamp, stamp_with, hash_before}
use db_cluster.Json.{obj}
use db_cluster.Integrity.{canonical_serialize, compute_integrity_hash}
use db_cluster.Ops.Chain.{links, chain_issues, check_integrity_chain}

-- a hash is never the empty text
abbrev pub NeverEmpty : (String → String) → Type 0
NeverEmpty digest = (t : String) → (digest t == "") ≡ false

links-eq : (p : Option String) (hash : String) → links p hash ≡ true → p ≡ some hash
links-eq none hash h = cc
links-eq (some p) hash h = ap some ((eq_iff p hash).0 h)

module _ {A : Type 0} ⦃s : Sealed A⦄ (digest : String → String) where
  -- the record has a hash, and it is the hash of its content
  abbrev pub IsIntact : A → Type 0
  IsIntact a = ((s.hash_of a == "") ≡ false) × ((recompute digest a == s.hash_of a) ≡ true)

  -- the record says that it follows one with the hash
  abbrev pub Follows : Option String → A → Type 0
  Follows none a = Unit
  Follows (some hash) a = s.prev_of a ≡ some hash

  -- Every record is intact, and each follows the one before it.
  abbrev pub IsChain : Option String → List A → Type 0
  IsChain before [] = Unit
  IsChain before (a ∷ rest) = IsIntact a × Follows before a × IsChain (some (s.hash_of a)) rest

  abbrev pub IsStamped : List A → Type 0
  IsStamped xs = All (λ a. (s.hash_of a == "") ≡ false) xs

  pub IsChain-chain_issues :
      (kind : String) (before : Option String) (xs : List A)
      → IsChain before xs
      → chain_issues digest kind before xs ≡ []
  unfolding chain_issues
  IsChain-chain_issues kind before [] h = refl
  IsChain-chain_issues kind none (a ∷ rest) ((stamped, own), follows, h) =
      rw (stamped, own) (IsChain-chain_issues kind (some (s.hash_of a)) rest h)
  IsChain-chain_issues kind (some hash) (a ∷ rest) ((stamped, own), follows, h) =
      rw (stamped, own, follows, (eq_iff hash hash).1 refl)
        (IsChain-chain_issues kind (some (s.hash_of a)) rest h)

  chain_issues-IsChain :
      (kind : String) (before : Option String) (xs : List A)
      → IsStamped xs
      → chain_issues digest kind before xs ≡ []
      → IsChain before xs
  unfolding chain_issues
  chain_issues-IsChain kind before [] stamped h = tt
  chain_issues-IsChain kind none (a ∷ rest) (stamped, more) h =
      elim (Bool-cases (recompute digest a == s.hash_of a)) [
        | inl own ↦ (
          (stamped, own),
          tt,
          chain_issues-IsChain kind (some (s.hash_of a)) rest more (rw (stamped, own) at h),
        )
        | inr edited ↦ absurd (cc (rw (stamped, edited) at h))
      ]
  chain_issues-IsChain kind (some hash) (a ∷ rest) (stamped, more) h =
      elim (Bool-cases (recompute digest a == s.hash_of a)) [
        | inl own ↦ elim (Bool-cases (links (s.prev_of a) hash)) [
          | inl linked ↦ (
            (stamped, own),
            links-eq (s.prev_of a) hash linked,
            chain_issues-IsChain kind (some (s.hash_of a)) rest more
                (rw (stamped, own, linked) at h),
          )
          | inr broken ↦ absurd (cc (rw (stamped, own, broken) at h))
        ]
        | inr edited ↦ absurd (cc (rw (stamped, edited) at h))
      ]

  -- Over stamped records `checkIntegrityChain` finds no issue exactly where every record hashes as it
  -- says and each one behind the first carries the hash of the one before it.
  pub check_integrity_chain-IsChain :
      (kind : String) (xs : List A)
      → IsStamped xs
      → (check_integrity_chain digest xs kind ≡ []) ↔ IsChain none xs
  unfolding check_integrity_chain
  check_integrity_chain-IsChain kind xs stamped =
      (chain_issues-IsChain kind none xs stamped, IsChain-chain_issues kind none xs)

  -- the hash of the last record
  end_hash : Option String → List A → Option String
  end_hash before [] = before
  end_hash before (a ∷ rest) = end_hash (some (s.hash_of a)) rest

  IsChain-snoc :
      (before : Option String) (xs : List A) (b : A)
      → IsChain before xs
      → IsIntact b
      → Follows (end_hash before xs) b
      → IsChain before (xs ++ b ∷ [])
  unfolding end_hash
  IsChain-snoc before [] b h own follows = (own, follows, tt)
  IsChain-snoc before (a ∷ rest) b (intact, link, h) own follows =
      (intact, link, IsChain-snoc (some (s.hash_of a)) rest b h own follows)

  end_hash-last :
      (before : Option String) (a : A) (rest : List A)
      → IsChain before (a ∷ rest)
      → end_hash before (a ∷ rest) ≡ hash_before digest (get_last? (a ∷ rest))
  unfolding end_hash hash_before
  end_hash-last before a [] ((stamped, own), link, h) = rw stamped refl
  end_hash-last before a (b ∷ rest) (intact, link, h) = end_hash-last (some (s.hash_of a)) b rest h

  stamp_with-Follows : (prev : Option String) (a : A) → Follows prev (stamp_with digest prev a)
  unfolding stamp_with
  stamp_with-Follows none a = tt
  stamp_with-Follows (some p) a =
      s.prev_of-seal (some p) (recompute digest (s.seal (some p) "" a)) a

  stamp-Follows :
      (xs : List A) (a : A) → IsChain none xs → Follows (end_hash none xs) (stamp digest xs a)
  unfolding stamp hash_before end_hash
  stamp-Follows [] a h = tt
  stamp-Follows (x ∷ xs) a h =
      subst (λ p. Follows p (stamp_with digest (hash_before digest (get_last? (x ∷ xs))) a))
        (sym (end_hash-last none x xs h))
        (stamp_with-Follows (hash_before digest (get_last? (x ∷ xs))) a)

  pub stamp_with-recompute :
      (prev : Option String) (a : A)
      → recompute digest (stamp_with digest prev a) ≡ s.hash_of (stamp_with digest prev a)
  unfolding stamp_with recompute compute_integrity_hash
  stamp_with-recompute prev a =
      let hash = recompute digest (s.seal prev "" a) in
      ap (λ f. digest (canonical_serialize (obj f))) (s.content-seal prev hash "" a)
      ∙ sym (s.hash_of-seal prev hash a)

  stamp_with-stamped :
      NeverEmpty digest
      → (prev : Option String) (a : A) → (s.hash_of (stamp_with digest prev a) == "") ≡ false
  unfolding stamp_with recompute compute_integrity_hash
  stamp_with-stamped never prev a =
      ap (λ h. h == "") (s.hash_of-seal prev (recompute digest (s.seal prev "" a)) a) ∙ never _

  -- what is stamped behind a chain continues it
  pub stamp-IsChain :
      NeverEmpty digest
      → (xs : List A) (a : A) → IsChain none xs
      → IsChain none (xs ++ stamp digest xs a ∷ [])
  unfolding stamp
  stamp-IsChain never xs a h =
      let b = stamp digest xs a in
      let prev = hash_before digest (get_last? xs) in
      IsChain-snoc none xs b h
        (
          stamp_with-stamped never prev a,
          (eq_iff (recompute digest b) (s.hash_of b)).1 (stamp_with-recompute prev a),
        )
        (stamp-Follows xs a h)
