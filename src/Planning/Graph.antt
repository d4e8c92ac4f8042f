-- ===== src/Planning/Graph.antt =====
-- local_first_orchestrator/decomposition.py: the search of `PlanValidator.validate` for a cycle among the
-- dependencies of a plan's tickets.
use local_first_orchestrator.Base.{
  ℕ, zero, suc, String, Bool, true, false, Option, none, some, List, [], ◌∷◌, str_eq, if◌then◌else◌,
  contains, count,
}
use local_first_orchestrator.Contract.{MicroTicket}

-- `dict[str, set[str]]`, in the order of its keys; a set is a list, in any order
abbrev pub Graph : Type 0
Graph = List (String × List String)

abbrev pub lookup : String → Graph → Option (List String)
lookup n [] = none
lookup n ((k, deps) ∷ g) = let rest = lookup n g in if str_eq k n then some deps else rest

-- A key that is written again keeps its place.
abbrev assign : String → List String → Graph → Graph
assign n deps [] = (n, deps) ∷ []
assign n deps ((k, old) ∷ g) =
    let rest = assign n deps g in if str_eq k n then (k, deps) ∷ g else (k, old) ∷ rest

abbrev graph_from : List MicroTicket → Graph → Graph
graph_from [] g = g
graph_from (t ∷ ts) g = graph_from ts (assign t.ticket_id t.dependencies g)

-- `{t.ticket_id: set(t.dependencies) for t in active.microtickets}`
abbrev pub graph_of : List MicroTicket → Graph
graph_of tickets = graph_from tickets []

abbrev pub keys : Graph → List String
keys [] = []
keys ((k, deps) ∷ g) = k ∷ keys g

-- `any(dfs(x) for x in xs)`, with the set `seen`; `none` where `dfs` ran out of fuel
abbrev pub any_of :
    (String → List String → Option (Bool × List String))
    → List String
    → List String
    → Option (Bool × List String)
any_of dfs [] seen = some (false, seen)
any_of dfs (x ∷ xs) seen = elim (dfs x seen) [
  | none ↦ none
  | some (true, seen') ↦ some (true, seen')
  | some (false, seen') ↦ any_of dfs xs seen'
]

-- `dfs`. What it adds to `visiting` it removes before it returns.
unfoldable pub dfs : ℕ → Graph → List String → String → List String → Option (Bool × List String)
dfs zero g visiting n seen = none
dfs (suc fuel) g visiting n seen =
    let search = dfs fuel g (n ∷ visiting) in
    elim (lookup n g) [
      | none ↦ some (false, seen)
      | some deps ↦
          if contains n visiting
          then some (true, seen)
          else (if contains n seen then some (false, seen) else any_of search deps (n ∷ seen))
    ]

-- `any(dfs(n) for n in graph)`
unfoldable pub has_cycle : Graph → Option Bool
unfolding dfs
has_cycle g = elim (any_of (dfs (suc (count g)) g []) (keys g) []) [
  | none ↦ none
  | some (bad, seen) ↦ some bad
]
