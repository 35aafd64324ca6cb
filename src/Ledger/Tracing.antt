-- ===== src/Ledger/Tracing.antt =====
-- The walk along the parents ends, and gives a lineage or a cycle.
use db_cluster.Prelude.{
  ℕ, zero, suc, ◌≤◌, ◌<◌, String, true, false, Option, none, some, List, [], ◌∷◌, ◌++◌, ◌==◌, ◌≡◌,
  inl, inr, refl, ap, ◌∙◌, arith, eq_iff, length, Bool-cases, Option-cases, if◌then◌else◌,
}
use db_cluster.StoreErrors.{Reply, throw, return, ledger_cycle_detected}
use db_cluster.Ledger.Types.{Event, event_sealed}
use db_cluster.Ledger.Log.{find_record}
use db_cluster.Ledger.Trace.{ids, is_visited, parent_of, trace_loop, trace}

-- the number of events whose id is not in the chain
unvisited : List Event → List Event → ℕ
unvisited [] chain = 0
unvisited (e ∷ es) chain =
    let rest = unvisited es chain in if is_visited e.id chain then rest else suc rest

is_visited-append :
    (id : String) (chain : List Event) (e : Event)
    → is_visited id (chain ++ e ∷ []) ≡ (if is_visited id chain then true else e.id == id)
unfolding is_visited
is_visited-append id [] e = ground arith
is_visited-append id (c ∷ cs) e = ground (arith, is_visited-append id cs e)

unvisited_append-le :
    (es chain : List Event) (e : Event) → unvisited es (chain ++ e ∷ []) ≤ unvisited es chain
unfolding unvisited
unvisited_append-le [] chain e = ground arith
unvisited_append-le (d ∷ ds) chain e =
    ground (arith, is_visited-append d.id chain e, unvisited_append-le ds chain e)

unvisited_append-lt :
    (es chain : List Event) (p : String) (e : Event)
    → find_record p es ≡ some e
    → is_visited e.id chain ≡ false
    → unvisited es (chain ++ e ∷ []) < unvisited es chain
unfolding unvisited find_record
unvisited_append-lt [] chain p e h new = cc
unvisited_append-lt (d ∷ ds) chain p e h new = elim (Bool-cases (d.id == p)) [
  | inl same ↦
      ground
        (arith, is_visited-append d.id chain e, eq_iff e.id d.id, unvisited_append-le ds chain e)
  | inr other ↦
      ground (
        arith,
        is_visited-append d.id chain e,
        unvisited_append-lt ds chain p e (rw other at h) new,
      )
]

-- the event is one that `find` gives
abbrev IsFound : List Event → Option Event → Type 0
IsFound es none = Unit
IsFound es (some e) = (p : String) × (find_record p es ≡ some e)

find_record-IsFound : (es : List Event) (p : String) → IsFound es (find_record p es)
find_record-IsFound es p = elim (Option-cases (find_record p es)) [
  | inl e ↦ rw e tt
  | inr (a, e) ↦ rw e (p, e)
]

parent_of-IsFound : (es : List Event) (p : Option String) → IsFound es (parent_of es p)
unfolding parent_of
parent_of-IsFound es none = tt
parent_of-IsFound es (some p) = elim (Bool-cases (p == "")) [
  | inl e ↦ rw e tt
  | inr e ↦ rw e (find_record-IsFound es p)
]

-- Each event of the chain is followed by its parent, and the last one's parent is `current`.
abbrev pub IsPath : List Event → List Event → Option Event → Type 0
IsPath es [] current = Unit
IsPath es (e ∷ []) current = parent_of es e.parent_event_id ≡ current
IsPath es (e ∷ f ∷ rest) current =
    (parent_of es e.parent_event_id ≡ some f) × IsPath es (f ∷ rest) current

IsPath-append :
    (es chain : List Event) (e : Event)
    → IsPath es chain (some e)
    → IsPath es (chain ++ e ∷ []) (parent_of es e.parent_event_id)
IsPath-append es [] e h = refl
IsPath-append es (c ∷ []) e h = (h, refl)
IsPath-append es (c ∷ d ∷ rest) e (h, hs) = (h, IsPath-append es (d ∷ rest) e hs)

-- where the walk began
abbrev pub first_of : List Event → Option Event → Option Event
first_of [] current = current
first_of (e ∷ chain) current = some e

first_of-append :
    (chain : List Event) (e : Event) (next : Option Event)
    → first_of (chain ++ e ∷ []) next ≡ first_of chain (some e)
first_of-append [] e next = refl
first_of-append (c ∷ cs) e next = refl

-- A lineage from `start` to an event without a parent, or an error for a path that comes back to an
-- event that it has visited.
abbrev pub IsOutcome : List Event → Option Event → Reply (List Event) → Type 0
IsOutcome es start (return chain) = IsPath es chain none × (first_of chain none ≡ start)
IsOutcome es start (throw x) =
    (chain : List Event) × (e : Event) × IsPath es chain (some e)
    × (first_of chain (some e) ≡ start)
    × (is_visited e.id chain ≡ true)
    × (x ≡ ledger_cycle_detected (ids chain ++ e.id ∷ []))

-- With a round for each unvisited event and one more, the loop ends.
trace_loop-ends :
    (fuel : ℕ) (es chain : List Event) (current start : Option Event)
    → unvisited es chain < fuel
    → IsFound es current
    → IsPath es chain current
    → first_of chain current ≡ start
    → (r : Reply (List Event)) × (trace_loop (suc fuel) es chain current ≡ some r)
      × IsOutcome es start r
unfolding trace_loop
trace_loop-ends zero es chain current start h found path first = absurd (ground arith)
trace_loop-ends (suc n) es chain none start h found path first = (return chain, refl, (path, first))
trace_loop-ends (suc n) es chain (some e) start h (p, found) path first =
    elim (Bool-cases (is_visited e.id chain)) [
      | inl seen ↦ rw seen (
        throw (ledger_cycle_detected (ids chain ++ e.id ∷ [])),
        refl,
        (chain, e, path, first, seen, refl),
      )
      | inr new ↦ rw new (
          trace_loop-ends n es (chain ++ e ∷ []) (parent_of es e.parent_event_id) start
            (ground (arith, unvisited_append-lt es chain p e found new))
            (parent_of-IsFound es e.parent_event_id) (IsPath-append es chain e path)
            (first_of-append chain e (parent_of es e.parent_event_id) ∙ first))
    ]

unvisited-nil : (es : List Event) → unvisited es [] ≡ length es
unfolding unvisited is_visited
unvisited-nil [] = refl
unvisited-nil (e ∷ es) = ap suc (unvisited-nil es)

-- `trace` ends on every ledger, tampered ones included: it gives the lineage of the event, each event
-- followed by its parent up to one that has none, or the typed error for a walk along the parents that
-- comes back to an event it has visited.
pub trace-IsOutcome :
    (id : String) (es : List Event)
    → (r : Reply (List Event)) × (trace id es ≡ some r) × IsOutcome es (find_record id es) r
unfolding trace
trace-IsOutcome id es =
    trace_loop-ends (suc (length es)) es [] (find_record id es) (find_record id es)
      (rw unvisited-nil (omega arith)) (find_record-IsFound es id) tt refl
