-- ===== src/Ledger/Trace.antt =====
-- `trace` of src/adapters/local/local-ledger-store.ts: the walk along the parents of an event.
use db_cluster.Prelude.{
  ℕ, zero, suc, String, Bool, Option, none, some, List, [], ◌∷◌, ◌++◌, ◌==◌, map, any, length,
  if◌then◌else◌,
}
use db_cluster.StoreErrors.{Reply, throw, return, ledger_cycle_detected}
use db_cluster.Ledger.Types.{Event, event_sealed}
use db_cluster.Ledger.Log.{find_record}

abbrev pub ids : List Event → List String
ids es = map (λ (e : Event). e.id) es

-- `visited.has(id)`: the ids of the chain are the visited ones
unfoldable pub is_visited : String → List Event → Bool
is_visited id chain = any (λ (e : Event). e.id == id) chain

-- `this.events.find((e) => e.id === current.parentEventId)`, where the id is there and not ""
unfoldable pub parent_of : List Event → Option String → Option Event
unfolding find_record
parent_of es none = none
parent_of es (some p) = if p == "" then none else find_record p es

-- The loop of `trace`, over the chain so far; `none` is out of fuel.
unfoldable pub trace_loop :
    (fuel : ℕ) → List Event → (chain : List Event) → Option Event → Option (Reply (List Event))
unfolding is_visited parent_of
trace_loop zero es chain current = none
trace_loop (suc n) es chain none = some (return chain)
trace_loop (suc n) es chain (some e) =
    let rest = trace_loop n es (chain ++ e ∷ []) (parent_of es e.parent_event_id) in
    if is_visited e.id chain
    then some (throw (ledger_cycle_detected (ids chain ++ e.id ∷ [])))
    else rest

-- `trace`, with fuel for each event and one more round
unfoldable pub trace : String → List Event → Option (Reply (List Event))
unfolding trace_loop find_record
trace id es = trace_loop (suc (suc (length es))) es [] (find_record id es)
