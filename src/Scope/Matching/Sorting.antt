-- ===== src/Scope/Matching/Sorting.antt =====
-- scope.py: `matching.sort(key=lambda c: c.priority, reverse=True)`, a stable sort in descending
-- order.
use agent_cdp.Prelude.{List, [], ◌∷◌, if◌then◌else◌, ltb_ℤ}
use agent_cdp.Connection.{Connection}

-- Puts a connection before the first one of no higher priority.
abbrev pub place : Connection → List Connection → List Connection
place c [] = c ∷ []
place c (d ∷ ds) = if ltb_ℤ c.priority d.priority then d ∷ place c ds else c ∷ d ∷ ds

unfoldable pub by_priority : List Connection → List Connection
by_priority [] = []
by_priority (c ∷ cs) = place c (by_priority cs)
