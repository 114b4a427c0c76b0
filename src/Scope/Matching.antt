-- ===== src/Scope/Matching.antt =====
-- src/agent_cdp/scope/scope.py: where a scope keeps its connections, and the two caches of
-- `_get_matching_connections`. A class is a number and `mro` gives its method resolution order. The
-- weak containers are read as plain ones: a class that is still emitted is not collected. The
-- `active` flag, the one mutable part of a connection, is kept apart, by connection id.
mod Sorting
pub mod Order
pub mod Coherence
pub mod Versions
pub mod History
unfoldable pub use Sorting.*
use agent_cdp.Prelude.{
  ℕ, ◌+◌, Bool, true, false, Option, none, some, List, [], ◌∷◌, ◌++◌, Dict, lookup, insert, has_key,
  select, contains, is_empty, any, if◌then◌else◌, ◌==◌, ℤ,
}
use agent_cdp.Connection.{Connection, ConnectionType}

pub record Matcher : Type 0 where
  pub connections_by_type : Dict (List Connection)
  pub catch_all_connections : List Connection
  pub match_cache : Dict (ℕ × List Connection)
  pub negative_cache : List ℕ
  pub connection_version : ℕ
  pub negative_cache_version : ℕ

abbrev pub no_connections : Matcher
no_connections = record {
  connections_by_type = [];
  catch_all_connections = [];
  match_cache = [];
  negative_cache = [];
  connection_version = 0;
  negative_cache_version = 0;
}

abbrev pub typed : ℕ → Dict (List Connection) → List Connection
typed cls by_type = elim (lookup cls by_type) [ none ↦ [] | some cs ↦ cs ]

-- The walk over the method resolution order.
unfoldable pub along : Dict (List Connection) → List ℕ → List Connection
along by_type [] = []
along by_type (cls ∷ classes) = typed cls by_type ++ along by_type classes

unfoldable pub matching : (ℕ → List ℕ) → ℕ → Matcher → List Connection
unfolding along
matching mro event_type m = along m.connections_by_type (mro event_type) ++ m.catch_all_connections

abbrev pub only_active : (ℕ → Bool) → List Connection → List Connection
only_active active cs = select (λ c. active c.id) cs

-- A cache miss: the walk, and the entry that it leaves in one of the caches.
unfoldable pub rebuild : (ℕ → List ℕ) → ℕ → Matcher → Matcher × List Connection
unfolding matching by_priority
rebuild mro event_type m =
    let found = matching mro event_type m in
    if is_empty found
    then (
      record m {
        negative_cache =
            if contains event_type m.negative_cache
            then m.negative_cache
            else event_type ∷ m.negative_cache;
      },
      [],
    )
    else (
      record m {
        match_cache = insert event_type (m.connection_version, by_priority found) m.match_cache;
      },
      by_priority found,
    )

-- The positive cache, which a stale or missing entry falls through.
unfoldable pub from_positive : (ℕ → List ℕ) → ℕ → Matcher → Matcher × List Connection
unfolding rebuild
from_positive mro event_type m = elim (lookup event_type m.match_cache) [
  | none ↦ rebuild mro event_type m
  | some (version, cs) ↦
      if version == m.connection_version then (m, cs) else rebuild mro event_type m
]

abbrev pub clear_negative : Matcher → Matcher
clear_negative m = record m { negative_cache = []; negative_cache_version = m.connection_version }

-- The two caches in the order in which they are asked; `active` is applied to every answer.
unfoldable pub find : (ℕ → List ℕ) → ℕ → Matcher → Matcher × List Connection
unfolding from_positive
find mro event_type m =
    if m.negative_cache_version == m.connection_version
    then (if contains event_type m.negative_cache then (m, []) else from_positive mro event_type m)
    else from_positive mro event_type (clear_negative m)

-- `_get_matching_connections`
unfoldable pub get_matching_connections :
    (ℕ → List ℕ) → (ℕ → Bool) → ℕ → Matcher → Matcher × List Connection
get_matching_connections mro active event_type m =
    let (m', cs) = find mro event_type m in (m', only_active active cs)

-- `_add_connection`
unfoldable pub add_connection : Connection → Matcher → Matcher
add_connection c m = record m {
  connections_by_type =
      insert c.event_type (typed c.event_type m.connections_by_type ++ c ∷ [])
        m.connections_by_type;
  connection_version = m.connection_version + 1;
}

-- The storage part of `connect_all`.
unfoldable pub add_catch_all : Connection → Matcher → Matcher
add_catch_all c m = record m {
  catch_all_connections = m.catch_all_connections ++ c ∷ [];
  connection_version = m.connection_version + 1;
}

-- `conn in conns` and `conns.remove(conn)`: connections are equal when their ids are.
abbrev pub holds : ℕ → List Connection → Bool
holds id cs = any (λ c. id == c.id) cs

abbrev pub remove : ℕ → List Connection → List Connection
remove id [] = []
remove id (c ∷ cs) = if id == c.id then cs else c ∷ remove id cs

-- `_remove_connection`
unfoldable pub remove_connection : Connection → Matcher → Matcher
remove_connection c m =
    if holds c.id (typed c.event_type m.connections_by_type)
    then record m {
      connections_by_type =
          insert c.event_type (remove c.id (typed c.event_type m.connections_by_type))
            m.connections_by_type;
      match_cache = [];
      connection_version = m.connection_version + 1;
    }
    else if holds c.id m.catch_all_connections
    then record m {
      catch_all_connections = remove c.id m.catch_all_connections;
      match_cache = [];
      connection_version = m.connection_version + 1;
    }
    else m

-- `_match_cache.clear()` and `_negative_cache.clear()`, at the end of `close`.
unfoldable pub clear_caches : Matcher → Matcher
clear_caches m = record m { match_cache = []; negative_cache = [] }
