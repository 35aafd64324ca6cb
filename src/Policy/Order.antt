-- ===== src/Policy/Order.antt =====
-- The order of `sortPoliciesByPriority`: by priority, and at one priority a deny before an allow.
use Prim.Native.Nat.{Ordering}
use mathlib.Core.List.{Perm}
use mathlib.Core.List.Perm
use db_cluster.Prelude.{
  String, Bool, true, false, not, ◌&&◌, ◌||◌, List, [], ◌∷◌, ◌≡◌, inl, inr, arith, All, Bool-cases,
  ltb, nat_beq,
}
use db_cluster.Policy.{
  Policy, is_deny, is_before, compare_policies, insert_policy, sort_policies_by_priority,
}

-- `p` takes precedence over `q`, or they are level
abbrev pub no_later : Policy → Policy → Bool
no_later p q =
    ltb p.priority q.priority
    || (nat_beq p.priority q.priority && (is_deny p.decision || not (is_deny q.decision)))

pub no_later_trans :
    (p q r : Policy) → no_later p q ≡ true → no_later q r ≡ true → no_later p r ≡ true
no_later_trans p q r h k = ground arith

before-no_later :
    (locale : String → String → Ordering) (p q : Policy)
    → is_before (compare_policies locale p q) ≡ true
    → no_later p q ≡ true
unfolding compare_policies
before-no_later locale p q h = ground arith

not_before-no_later :
    (locale : String → String → Ordering) (p q : Policy)
    → is_before (compare_policies locale p q) ≡ false
    → no_later q p ≡ true
unfolding compare_policies
not_before-no_later locale p q h = ground arith

-- each policy takes precedence over all that follow it, or is level with them
abbrev pub IsOrdered : List Policy → Type 0
IsOrdered [] = Unit
IsOrdered (p ∷ ps) = All (λ q. no_later p q ≡ true) ps × IsOrdered ps

module _ {κ} (P : Policy → Type κ) (locale : String → String → Ordering) where
  All-insert_policy :
      (p : Policy) (qs : List Policy) → P p → All P qs → All P (insert_policy locale p qs)
  unfolding insert_policy
  All-insert_policy p [] h k = (h, tt)
  All-insert_policy p (q ∷ qs) h (kq, ks) =
      elim (Bool-cases (is_before (compare_policies locale q p))) [
        | inl e ↦ rw e (kq, All-insert_policy p qs h ks)
        | inr e ↦ rw e (h, (kq, ks))
      ]

  All-of_insert_policy :
      (p : Policy) (qs : List Policy) → All P (insert_policy locale p qs) → P p × All P qs
  unfolding insert_policy
  All-of_insert_policy p [] (h, _) = (h, tt)
  All-of_insert_policy p (q ∷ qs) h = elim (Bool-cases (is_before (compare_policies locale q p))) [
    | inl e ↦
        let (kq, k) = rw e at h in let (hp, ks) = All-of_insert_policy p qs k in (hp, (kq, ks))
    | inr e ↦ let (hp, k) = rw e at h in (hp, k)
  ]

  pub All-sort : (ps : List Policy) → All P ps → All P (sort_policies_by_priority locale ps)
  unfolding sort_policies_by_priority
  All-sort [] h = tt
  All-sort (p ∷ ps) (h, hs) =
      All-insert_policy p (sort_policies_by_priority locale ps) h (All-sort ps hs)

  pub All-of_sort : (ps : List Policy) → All P (sort_policies_by_priority locale ps) → All P ps
  unfolding sort_policies_by_priority
  All-of_sort [] h = tt
  All-of_sort (p ∷ ps) h =
      let (hp, k) = All-of_insert_policy p (sort_policies_by_priority locale ps) h in
      (hp, All-of_sort ps k)

All-imp {κ} :
    {A : Type 0} (P Q : A → Type κ) → ((a : A) → P a → Q a) → (xs : List A) → All P xs → All Q xs
All-imp P Q f [] h = tt
All-imp P Q f (x ∷ xs) (h, hs) = (f x h, All-imp P Q f xs hs)

module _ (locale : String → String → Ordering) where
  insert_policy-IsOrdered :
      (p : Policy) (qs : List Policy) → IsOrdered qs → IsOrdered (insert_policy locale p qs)
  unfolding insert_policy
  insert_policy-IsOrdered p [] h = (tt, tt)
  insert_policy-IsOrdered p (q ∷ qs) (first, rest) =
      elim (Bool-cases (is_before (compare_policies locale q p))) [
        | inl e ↦ rw e (
          All-insert_policy (λ x. no_later q x ≡ true) locale p qs (before-no_later locale q p e)
              first,
          insert_policy-IsOrdered p qs rest,
        )
        | inr e ↦
            let pq = not_before-no_later locale q p e in
            rw e (
              (
                pq,
                All-imp (λ x. no_later q x ≡ true) (λ x. no_later p x ≡ true)
                    (λ x h. no_later_trans p q x pq h) qs first,
              ),
              (first, rest),
            )
      ]

  -- The sorted policies stand in order of precedence: by priority, deny before allow at a tie.
  pub sort-IsOrdered : (ps : List Policy) → IsOrdered (sort_policies_by_priority locale ps)
  unfolding sort_policies_by_priority
  sort-IsOrdered [] = tt
  sort-IsOrdered (p ∷ ps) =
      insert_policy-IsOrdered p (sort_policies_by_priority locale ps) (sort-IsOrdered ps)

  insert_policy-perm : (p : Policy) (qs : List Policy) → Perm (insert_policy locale p qs) (p ∷ qs)
  unfolding insert_policy
  insert_policy-perm p [] = Perm.refl (p ∷ [])
  insert_policy-perm p (q ∷ qs) = elim (Bool-cases (is_before (compare_policies locale q p))) [
    | inl e ↦ rw e (Perm.trans (Perm.cons q (insert_policy-perm p qs)) (Perm.swap p q qs))
    | inr e ↦ rw e (Perm.refl (p ∷ q ∷ qs))
  ]

  pub sort-perm : (ps : List Policy) → Perm (sort_policies_by_priority locale ps) ps
  unfolding sort_policies_by_priority
  sort-perm [] = Perm.refl []
  sort-perm (p ∷ ps) =
      Perm.trans (insert_policy-perm p (sort_policies_by_priority locale ps))
        (Perm.cons p (sort-perm ps))

  -- `sortPoliciesByPriority` keeps the policies, and puts them in order of precedence: by priority,
  -- and a deny before an allow at the same priority.
  pub sort-perm-IsOrdered :
      (ps : List Policy)
      → Perm (sort_policies_by_priority locale ps) ps
        × IsOrdered (sort_policies_by_priority locale ps)
  sort-perm-IsOrdered ps = (sort-perm ps, sort-IsOrdered ps)
