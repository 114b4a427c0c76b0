-- ===== src/Scope/Matching/Versions.antt =====
-- The caches of `_get_matching_connections` after a change of the connections, which moves the version.
use agent_cdp.Prelude.{ℕ, ◌+◌, ◌≡◌, inl, inr, refl, Option, none, some, List, [], Bool-cases, arith}
use agent_cdp.Connection.{Connection}
use agent_cdp.Scope.Matching.{
  Matcher, no_connections, typed, matching, add_connection, add_catch_all, remove_connection, holds,
  clear_caches,
}
use agent_cdp.Scope.Matching.Coherence.{Coherent}

module _ (mro : ℕ → List ℕ) where
  -- A change of the connections moves the version past every entry of the caches.
  version_moves :
      (m m' : Matcher)
      → Coherent mro m
      → m'.match_cache ≡ m.match_cache
      → m'.negative_cache_version ≡ m.negative_cache_version
      → m'.connection_version ≡ m.connection_version + 1
      → Coherent mro m'
  version_moves m m' c same negative version = record {
    positive = λ t v cs h.
        let old = c.positive t v cs (rw same at h) in
        (omega (arith, old.0, version), λ e. absurd (omega (arith, old.0, version, e)));
    negative = λ t h e. absurd (omega (arith, c.behind, negative, version, e));
    behind = omega (arith, c.behind, negative, version);
  }

  caches_cleared :
      (m m' : Matcher)
      → Coherent mro m
      → m'.match_cache ≡ []
      → m'.negative_cache_version ≡ m.negative_cache_version
      → m'.connection_version ≡ m.connection_version + 1
      → Coherent mro m'
  caches_cleared m m' c cleared negative version = record {
    positive = λ t v cs h. absurd (no_entry t v cs (rw cleared at h));
    negative = λ t h e. absurd (omega (arith, c.behind, negative, version, e));
    behind = omega (arith, c.behind, negative, version);
  }
    where
      no_entry :
          (t v : ℕ) (cs : List Connection)
          → ¬ (◌≡◌ {A = Option (ℕ × List Connection)} none (some (v, cs)))
      no_entry t v cs h = cc

  pub add_connection-Coherent :
      (c : Connection) (m : Matcher) → Coherent mro m → Coherent mro (add_connection c m)
  unfolding add_connection
  add_connection-Coherent c m h = version_moves m _ h refl refl refl

  pub add_catch_all-Coherent :
      (c : Connection) (m : Matcher) → Coherent mro m → Coherent mro (add_catch_all c m)
  unfolding add_catch_all
  add_catch_all-Coherent c m h = version_moves m _ h refl refl refl

  pub remove_connection-Coherent :
      (c : Connection) (m : Matcher) → Coherent mro m → Coherent mro (remove_connection c m)
  unfolding remove_connection
  remove_connection-Coherent c m h =
      elim (Bool-cases (holds c.id (typed c.event_type m.connections_by_type))) [
        | inl e ↦ rw e (caches_cleared m _ h refl refl refl)
        | inr e ↦ elim (Bool-cases (holds c.id m.catch_all_connections)) [
          | inl k ↦ rw (e, k) (caches_cleared m _ h refl refl refl)
          | inr k ↦ rw (e, k) h
        ]
      ]

  pub clear_caches-Coherent : (m : Matcher) → Coherent mro m → Coherent mro (clear_caches m)
  unfolding clear_caches matching
  clear_caches-Coherent m c = record {
    positive = λ t v cs h. cc;
    negative = λ t h e. cc;
    behind = c.behind;
  }

  pub no_connections-Coherent : Coherent mro no_connections
  no_connections-Coherent = record {
    positive = λ t v cs h. cc;
    negative = λ t h e. cc;
    behind = omega arith;
  }
