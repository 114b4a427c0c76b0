-- ===== src/Bridge/Routing/Hits.antt =====
-- `bridge` and the callbacks of a bridge keep what it, its client and its scope hold of one another
-- (`Tracking`).
use agent_cdp.Prelude.{
  contains-added, ℕ, ◌+◌, ◌<◌, ◌≡◌, refl, sym, ap, ◌∙◌, Bool, true, false, not, ◌&&◌, ◌||◌, Option,
  none, some, List, [], ◌∷◌, map, is_empty, any, All, inl, inr, ◌==◌, Dict, lookup, insert, has_key,
  is_some, lookup-insert, arith, Bool-cases, if_ind, All-snoc,
}
use agent_cdp.Events.Values.{Exc, Outcome, return, raise}
use agent_cdp.Bridge.Routing.{
  Registration, Bridge, Factory, bridge, hit, add_hit, is_foreign, build, deliver, callback,
}
use agent_cdp.Bridge.Routing.Tracking.{
  is_known, callbacks, IsTracked, callbacks-added, numbered-added, Distinct-added, hits_of-added,
  counted-added, set_default-has_key, count-set_default, callbacks-hit, hits_of-hit,
}

numbered_on : (n : ℕ) (ks : List ℕ) → All (λ k. k < n) ks → All (λ k. k < n + 1) ks
numbered_on n [] h = tt
numbered_on n (k ∷ ks) (h, hs) = (omega arith, numbered_on n ks hs)

some_of : (o p : Option ℕ) → p ≡ o → is_some o ≡ true → (n : ℕ) × (p ≡ some n)
some_of none p e h = cc
some_of (some n) p e h = (n, e)

module _ (method : ℕ) (b : Bridge) (tracked : IsTracked b) (opened : b.closed ≡ false) where
  known : b.in_scope ≡ true
  known = tracked.in_scope ∙ ap (λ c. not (c && is_empty b.registrations)) opened

  -- `bridge` where `on_event` raises.
  bridge_refused : (e : Exc) → IsTracked (bridge method (raise e) b).0
  unfolding bridge
  bridge_refused e =
      let c = tracked.open_counts opened in
      rw opened (record {
        listening = tracked.listening;
        in_scope = known;
        open_counts = λ _. record {
          numbered = numbered_on b.next_callback (callbacks b.registrations) c.numbered;
          distinct = c.distinct;
          counted = counted-added method b.hit_counts b.registrations c.counted;
          summed = λ m. count-set_default method m b.hit_counts ∙ c.summed m;
        };
      })

  bridge_added : IsTracked (bridge method (return tt) b).0
  unfolding bridge
  bridge_added =
      let c = tracked.open_counts opened in
      let k = b.next_callback in
      let r : Registration = record { method = method; callback = k; hits = 0 } in
      let added = callbacks-added b.registrations r in
      rw opened (record {
        listening = λ j h. ground (
          arith,
          added,
          contains-added j k b.listening,
          contains-added j k (callbacks b.registrations),
          tracked.listening j,
        );
        in_scope = known;
        open_counts = λ _. record {
          numbered = rw added (numbered-added k (callbacks b.registrations) c.numbered);
          distinct = rw added (Distinct-added k (callbacks b.registrations) c.numbered c.distinct);
          counted =
              All-snoc _ b.registrations r
                (counted-added method b.hit_counts b.registrations c.counted)
                (set_default-has_key method b.hit_counts);
          summed = λ m.
              count-set_default method m b.hit_counts
              ∙ c.summed m
              ∙ sym (hits_of-added m b.registrations r refl);
        };
      })

bridge_closed :
    (method : ℕ) (o : Outcome (Unit {0})) (b : Bridge) → b.closed ≡ true → (bridge method o b).0 ≡ b
unfolding bridge
bridge_closed method o b c = rw c

pub bridge-IsTracked :
    (method : ℕ) (o : Outcome (Unit {0})) (b : Bridge)
    → IsTracked b
    → IsTracked (bridge method o b).0
bridge-IsTracked method o b tracked = elim (Bool-cases b.closed) [
  | inl c ↦ rw (bridge_closed method o b c) tracked
  | inr opened ↦ elim o as (λ o. IsTracked (bridge method o b).0) [
    | raise e ↦ bridge_refused method b tracked opened e
    | return _ ↦ bridge_added method b tracked opened
  ]
]

counted-hit :
    (k method n : ℕ) (d : Dict ℕ) (rs : List Registration)
    → All (λ r. has_key r.method d ≡ true) rs
    → All (λ r. has_key r.method (insert method n d) ≡ true) (map (hit k) rs)
counted-hit k method n d [] h = tt
counted-hit k method n d (r ∷ rs) (h, hs) =
    (ground (arith, lookup-insert method r.method n d), counted-hit k method n d rs hs)

known_count :
    (method k : ℕ) (d : Dict ℕ) (rs : List Registration)
    → All (λ r. has_key r.method d ≡ true) rs
    → any (λ r. r.method == method && r.callback == k) rs ≡ true
    → has_key method d ≡ true
known_count method k d [] h g = cc
known_count method k d (r ∷ rs) (h, hs) g =
    ground (arith, known_count method k d rs hs, ap (λ m. has_key m d) {x = r.method} {y = method})

-- A callback of a registration is hit.
module _ (method k n : ℕ) (b : Bridge) (tracked : IsTracked b) (opened : b.closed ≡ false)
    (has : any (λ r. r.method == method && r.callback == k) b.registrations ≡ true)
    (counts : lookup method b.hit_counts ≡ some n) where
  hit-IsTracked : IsTracked (record b {
    registrations = map (hit k) b.registrations;
    hit_counts = insert method (n + 1) b.hit_counts;
  })
  hit-IsTracked =
      let c = tracked.open_counts opened in
      let same = callbacks-hit k b.registrations in
      record {
        listening = λ j h. rw same (tracked.listening j h);
        in_scope = ground (arith, tracked.in_scope);
        open_counts = λ _. record {
          numbered = rw same c.numbered;
          distinct = rw same c.distinct;
          counted = counted-hit k method (n + 1) b.hit_counts b.registrations c.counted;
          summed = λ m. ground (
            arith,
            lookup-insert method m (n + 1) b.hit_counts,
            c.summed m,
            counts,
            c.summed method,
            hits_of-hit method k m b.registrations c.distinct has,
          );
        };
      }

some_of_key :
    (method : ℕ) (d : Dict ℕ) → has_key method d ≡ true → (n : ℕ) × (lookup method d ≡ some n)
some_of_key method d h = some_of (lookup method d) (lookup method d) refl h

module _ {W : Type 0} (scope_closed : W → Bool) (emit : ℕ → W → W × Option Exc) (method k : ℕ)
    (factory : Factory W) (params : ℕ) (route : Option ℕ) (b : Bridge) (w : W) where
  abbrev pub called : Bridge × W × Outcome (Unit {0})
  called = callback scope_closed emit method k factory params route (b, w)

  neither_closed :
      (b.closed || scope_closed w || is_foreign b.session_id route) ≡ false → b.closed ≡ false
  neither_closed h = ground arith

  registered :
      is_known method k b ≡ true
      → b.closed ≡ false
      → any (λ r. r.method == method && r.callback == k) b.registrations ≡ true
  registered is opened = ground arith

  abbrev after_hit : Bridge × W × Outcome (Unit {0})
  after_hit =
      let registrations = map (hit k) b.registrations in
      elim (add_hit method (lookup method b.hit_counts) b.hit_counts) [
        | raise e ↦ (record b { registrations = registrations }, w, raise e)
        | return counts ↦ (
          record b { registrations = registrations; hit_counts = counts },
          deliver scope_closed emit (build factory params route w),
          return tt,
        )
      ]

  hit_cases :
      IsTracked b
      → b.closed ≡ false
      → any (λ r. r.method == method && r.callback == k) b.registrations ≡ true
      → IsTracked after_hit.0 × (after_hit.2 ≡ return tt)
  hit_cases tracked opened has =
      let c = tracked.open_counts opened in
      let (n, counts) =
        some_of_key method b.hit_counts
          (known_count method k b.hit_counts b.registrations c.counted has) in
      rw (counts, after_hit) (hit-IsTracked method k n b tracked opened has counts, refl)

  -- What a call of a callback does: nothing, or a hit.
  pub called_cases :
      IsTracked b → is_known method k b ≡ true → IsTracked called.0 × (called.2 ≡ return tt)
  unfolding callback
  called_cases tracked is =
      if_ind (λ (x : Bridge × W × Outcome (Unit {0})). IsTracked x.0 × (x.2 ≡ return tt))
        (b.closed || scope_closed w || is_foreign b.session_id route) _ _ (λ _. (tracked, refl))
        (λ live. hit_cases tracked (neither_closed live) (registered is (neither_closed live)))
