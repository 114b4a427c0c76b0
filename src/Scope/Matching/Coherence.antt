-- ===== src/Scope/Matching/Coherence.antt =====
-- What the caches of `_get_matching_connections` may hold.
use agent_cdp.Prelude.{
  ℕ, ◌≤◌, ◌≡◌, inl, inr, refl, sym, ap, ◌∙◌, true, Option, some, List, [], ◌∷◌, lookup, insert,
  lookup-insert, contains, is_empty, if◌then◌else◌, ◌==◌, ==_iff, Bool-cases, Option-cases, arith,
}
use agent_cdp.Connection.{Connection}
use agent_cdp.Scope.Matching.{
  Matcher, matching, by_priority, rebuild, from_positive, clear_negative, find,
}

module _ (mro : ℕ → List ℕ) where
  -- The answer with no cache.
  abbrev pub reference : ℕ → Matcher → List Connection
  reference event_type m = by_priority (matching mro event_type m)

  pub record Coherent (m : Matcher) : Type 0 where
    pub positive :
        (event_type version : ℕ) (cs : List Connection)
        → lookup event_type m.match_cache ≡ some (version, cs)
        → (version ≤ m.connection_version)
          × (version ≡ m.connection_version → cs ≡ reference event_type m)
    pub negative :
        (event_type : ℕ)
        → contains event_type m.negative_cache ≡ true
        → m.negative_cache_version ≡ m.connection_version
        → matching mro event_type m ≡ []
    pub behind : m.negative_cache_version ≤ m.connection_version

  -- What a lookup gives back: the right answer, coherent caches, and the same connections.
  pub record Answer (event_type : ℕ) (m m' : Matcher) (cs : List Connection) : Type 0 where
    pub answer : cs ≡ reference event_type m
    pub coherent : Coherent m'
    pub same_typed : m'.connections_by_type ≡ m.connections_by_type
    pub same_catch_all : m'.catch_all_connections ≡ m.catch_all_connections

  empty_reference :
      (event_type : ℕ) (m : Matcher) → matching mro event_type m ≡ [] → [] ≡ reference event_type m
  unfolding by_priority
  empty_reference event_type m h = rw h

  is_empty-nil : (cs : List Connection) → is_empty cs ≡ true → cs ≡ []
  is_empty-nil [] h = refl
  is_empty-nil (c ∷ cs) h = cc

  same_answer :
      {version version' : ℕ} {cs cs' : List Connection}
      → ◌≡◌ {A = Option (ℕ × List Connection)} (some (version, cs)) (some (version', cs'))
      → (version ≡ version') × (cs ≡ cs')
  same_answer h = (cc, cc)

  positive_found :
      (event_type t version : ℕ) (m : Matcher) (cs : List Connection)
      → Coherent m
      → (if t == event_type
          then some (m.connection_version, reference event_type m)
          else lookup t m.match_cache)
        ≡ some (version, cs)
      → (version ≤ m.connection_version) × (version ≡ m.connection_version → cs ≡ reference t m)
  positive_found event_type t version m cs c h = elim (Bool-cases (t == event_type)) [
    | inl e ↦
        let (v, same) = same_answer (rw e at h) in
        (
          omega (arith, v),
          λ _. sym same ∙ ap (λ k. reference k m) (sym ((==_iff t event_type).0 e)),
        )
    | inr e ↦ c.positive t version cs (rw e at h)
  ]

  remember_found :
      (event_type : ℕ) (m : Matcher)
      → Coherent m
      → Coherent (record m {
        match_cache =
            insert event_type (m.connection_version, reference event_type m) m.match_cache;
      })
  unfolding matching
  remember_found event_type m c = record {
    positive = λ t version cs h.
        positive_found event_type t version m cs c
          (sym (lookup-insert event_type t _ m.match_cache) ∙ h);
    negative = c.negative;
    behind = c.behind;
  }

  remember_none :
      (event_type : ℕ) (m : Matcher)
      → Coherent m
      → matching mro event_type m ≡ []
      → Coherent (record m {
        negative_cache =
            if contains event_type m.negative_cache
            then m.negative_cache
            else event_type ∷ m.negative_cache;
      })
  unfolding matching
  remember_none event_type m c none_found = record {
    positive = c.positive;
    negative = λ t h v. elim (Bool-cases (contains event_type m.negative_cache)) [
      | inl known ↦ c.negative t (rw known at h) v
      | inr new ↦ elim (Bool-cases (t == event_type)) [
        | inl e ↦ ap (λ k. matching mro k m) ((==_iff t event_type).0 e) ∙ none_found
        | inr e ↦ c.negative t (rw (new, e) at h) v
      ]
    ];
    behind = c.behind;
  }

  rebuild-Answer :
      (event_type : ℕ) (m : Matcher)
      → Coherent m
      → Answer event_type m (rebuild mro event_type m).0 (rebuild mro event_type m).1
  unfolding rebuild
  rebuild-Answer event_type m c = elim (Bool-cases (is_empty (matching mro event_type m))) [
    | inl e ↦ rw e (record {
      answer = empty_reference event_type m (is_empty-nil (matching mro event_type m) e);
      coherent = remember_none event_type m c (is_empty-nil (matching mro event_type m) e);
      same_typed = refl;
      same_catch_all = refl;
    })
    | inr e ↦ rw e (record {
      answer = refl;
      coherent = remember_found event_type m c;
      same_typed = refl;
      same_catch_all = refl;
    })
  ]

  cached-Answer :
      (event_type version : ℕ) (m : Matcher) (cs : List Connection)
      → Coherent m
      → lookup event_type m.match_cache ≡ some (version, cs)
      → version ≡ m.connection_version
      → Answer event_type m m cs
  cached-Answer event_type version m cs c h v = record {
    answer = (c.positive event_type version cs h).1 v;
    coherent = c;
    same_typed = refl;
    same_catch_all = refl;
  }

  from_positive-Answer :
      (event_type : ℕ) (m : Matcher)
      → Coherent m
      → Answer event_type m (from_positive mro event_type m).0 (from_positive mro event_type m).1
  unfolding from_positive
  from_positive-Answer event_type m c = elim (Option-cases (lookup event_type m.match_cache)) [
    | inl e ↦ rw (e, from_positive) (rebuild-Answer event_type m c)
    | inr ((version, cs), e) ↦
        rw (e, from_positive)
          (elim (Bool-cases (version == m.connection_version)) [
            | inl v ↦ rw v (cached-Answer event_type version m cs c e ((==_iff _ _).0 v))
            | inr v ↦ rw v (rebuild-Answer event_type m c)
          ])
  ]

  clear_negative-Coherent : (m : Matcher) → Coherent m → Coherent (clear_negative m)
  unfolding matching
  clear_negative-Coherent m c = record {
    positive = c.positive;
    negative = λ t h v. cc;
    behind = omega arith;
  }

  absent-Answer :
      (event_type : ℕ) (m : Matcher)
      → Coherent m
      → contains event_type m.negative_cache ≡ true
      → m.negative_cache_version ≡ m.connection_version
      → Answer event_type m m []
  absent-Answer event_type m c h v = record {
    answer = empty_reference event_type m (c.negative event_type h v);
    coherent = c;
    same_typed = refl;
    same_catch_all = refl;
  }

  pub find-Answer :
      (event_type : ℕ) (m : Matcher)
      → Coherent m
      → Answer event_type m (find mro event_type m).0 (find mro event_type m).1
  unfolding find
  find-Answer event_type m c =
      elim (Bool-cases (m.negative_cache_version == m.connection_version)) [
        | inl v ↦ rw v (elim (Bool-cases (contains event_type m.negative_cache)) [
          | inl h ↦ rw h (absent-Answer event_type m c h ((==_iff _ _).0 v))
          | inr h ↦ rw h (from_positive-Answer event_type m c)
        ])
        | inr v ↦
            let a =
              from_positive-Answer event_type (clear_negative m) (clear_negative-Coherent m c) in
            rw v (record {
              answer = a.answer;
              coherent = a.coherent;
              same_typed = a.same_typed;
              same_catch_all = a.same_catch_all;
            })
      ]
