-- ===== src/Scope/Group/Copies.antt =====
-- `broadcast`: the copies, and what it leaves alone.
use mathlib.Core.Path.{subst}
use agent_cdp.Prelude.{
  ℕ, zero, suc, length, ◌+◌, ◌<◌, ◌≡◌, refl, ap, sym, ◌∙◌, false, not, Option, none, some, List, [],
  ◌∷◌, map, select, Dict, ◌==◌, if_ind, Bool-cases, inl, inr, arith,
}
use agent_cdp.Events.Values.{Exc, Outcome, return, raise}
use agent_cdp.Events.Event.{Event, deepcopy}
use agent_cdp.Scope.Emission.{World, Handled, put_event, emit}
use agent_cdp.Scope.Emission.Apart.{emit_apart}
use agent_cdp.Scope.Group.{is_excluded, with_copy, emit_copy, broadcast}

-- The scopes that get a copy.
abbrev pub included : Option (List ℕ) → Dict ℕ → List ℕ
included exclude scopes =
    map (λ (entry : ℕ × ℕ). entry.1)
      (select (λ (entry : ℕ × ℕ). not (is_excluded exclude entry.0)) scopes)

-- The numbers `n`, `n + 1`, ..., `m` of them.
abbrev pub numbers_from : ℕ → ℕ → List ℕ
numbers_from n zero = []
numbers_from n (suc m) = n ∷ numbers_from (n + 1) m

differ : (j k : ℕ) → j < k → (j == k) ≡ false
differ j k less = ground arith

module _ (handlers : ℕ → ℕ → World → World × Handled) (now later : ℕ) (mro : ℕ → List ℕ) where
  -- An event emitted to one scope after another, each time as a new object with the same contents.
  unfoldable pub emit_each : Event → List ℕ → (next : ℕ) → World → World × Outcome (List ℕ)
  emit_each ev [] next w = (w, return [])
  emit_each ev (at ∷ scopes) next w =
      let (w', error) = emit handlers now later at mro next (put_event next ev w) in
      let (w'', rest) = emit_each ev scopes (next + 1) w' in with_copy next (w', error) (w'', rest)

  -- No handler changes the event `j` on behalf of another event.
  abbrev pub LeavesAlone : ℕ → Type 0
  LeavesAlone j =
      (cid k : ℕ) (w : World) → (j == k) ≡ false → (handlers cid k w).0.events j ≡ w.events j

  module _ (exclude : Option (List ℕ)) (j : ℕ) (aloof : LeavesAlone j) where
    emit_copy_apart :
        (e at next : ℕ) (w : World)
        → j < next
        → (emit_copy handlers now later mro e at next w).0.events j ≡ w.events j
    unfolding emit_copy
    emit_copy_apart e at next w less =
        let other = differ j next less in
        emit_apart j next other handlers (λ cid v. aloof cid next v other) now later at mro
          (put_event next (deepcopy (w.events e)) w)
        ∙ rw other refl

    after_copy :
        (next : ℕ) (w : World) (x : World × Option Exc)
        → x.0.events j ≡ w.events j
        → (rest : World × Outcome (List ℕ)) → rest.0.events j ≡ w.events j
        → (with_copy next x rest).0.events j ≡ w.events j
    after_copy next w (w', some err) same rest more = same
    after_copy next w (w', none) same rest more = more

    -- An event that was there before is left alone.
    broadcast_apart :
        (e : ℕ) (scopes : Dict ℕ) (next : ℕ) (w : World)
        → j < next
        → (broadcast handlers now later mro exclude e scopes next w).0.events j ≡ w.events j
    unfolding broadcast
    broadcast_apart e [] next w less = refl
    broadcast_apart e ((id, at) ∷ scopes) next w less =
        let x = emit_copy handlers now later mro e at next w in
        let rest = broadcast handlers now later mro exclude e scopes (next + 1) x.0 in
        let first = emit_copy_apart e at next w less in
        if_ind (λ (y : World × Outcome (List ℕ)). y.0.events j ≡ w.events j)
          (is_excluded exclude id) _ _ (λ _. broadcast_apart e scopes next w less)
          (λ _.
            after_copy next w x first rest
              (broadcast_apart e scopes (next + 1) x.0 (omega arith) ∙ first))

  -- The references that are returned are those of the new copies.
  abbrev pub Numbered : ℕ → List ℕ → Outcome (List ℕ) → Type 0
  Numbered next scopes (raise x) = Unit
  Numbered next scopes (return copies) = copies ≡ numbers_from next (length scopes)

  emitted :
      (e at next : ℕ) (ev : Event) (w : World)
      → deepcopy (w.events e) ≡ ev
      → emit_copy handlers now later mro e at next w
        ≡ emit handlers now later at mro next (put_event next ev w)
  unfolding emit_copy
  emitted e at next ev w h =
      ap (λ copied. emit handlers now later at mro next (put_event next copied w)) h

  with_copy-Numbered :
      (next : ℕ) (scopes : List ℕ) (x : World × Option Exc) (rest : World × Outcome (List ℕ))
      → Numbered (next + 1) scopes rest.1
      → Numbered next (0 ∷ scopes) (with_copy next x rest).1
  with_copy-Numbered next scopes (w, some err) rest h = tt
  with_copy-Numbered next scopes (w, none) (w', raise err) h = tt
  with_copy-Numbered next scopes (w, none) (w', return copies) h = ap (λ ks. next ∷ ks) h

  module _ (exclude : Option (List ℕ)) (e : ℕ) (aloof : LeavesAlone e) where
    -- The copies are those of the event as it was at the start.
    broadcast-emit_each :
        (ev : Event) (scopes : Dict ℕ) (next : ℕ) (w : World)
        → e < next
        → deepcopy (w.events e) ≡ ev
        → broadcast handlers now later mro exclude e scopes next w
          ≡ emit_each ev (included exclude scopes) next w
    unfolding broadcast emit_each
    broadcast-emit_each ev [] next w less h = refl
    broadcast-emit_each ev ((id, at) ∷ scopes) next w less h =
        elim (Bool-cases (is_excluded exclude id)) [
          | inl out ↦ rw out (broadcast-emit_each ev scopes next w less h)
          | inr into ↦
              let x = emit_copy handlers now later mro e at next w in
              let kept = emit_copy_apart exclude e aloof e at next w less in
              rw into (
                ap (with_copy next x) (
                  broadcast-emit_each ev scopes (next + 1) x.0 (omega arith) (ap deepcopy kept ∙ h))
                ∙ ap
                    (λ (y : World × Option Exc).
                      with_copy next y (emit_each ev (included exclude scopes) (next + 1) y.0))
                    (emitted e at next ev w h))
        ]

  emit_each-Numbered :
      (ev : Event) (scopes : List ℕ) (next : ℕ) (w : World)
      → Numbered next scopes (emit_each ev scopes next w).1
  unfolding emit_each
  emit_each-Numbered ev [] next w = refl
  emit_each-Numbered ev (at ∷ scopes) next w =
      let x = emit handlers now later at mro next (put_event next ev w) in
      with_copy-Numbered next scopes x (emit_each ev scopes (next + 1) x.0)
        (emit_each-Numbered ev scopes (next + 1) x.0)

  -- `broadcast` emits to each scope that is not excluded a new object of its own, with the contents
  -- that a copy of the event had at the start, whatever the emissions before have done, and returns
  -- the new objects, one for each of these scopes, unless an emission raises. The event itself and
  -- every other one `j` that was there before is as it was. This needs handlers that change neither
  -- of these on behalf of another event.
  pub broadcast-Isolated :
      (exclude : Option (List ℕ)) (e j : ℕ) (scopes : Dict ℕ) (next : ℕ) (w : World)
      → LeavesAlone e
      → LeavesAlone j
      → e < next
      → j < next
      → let x = broadcast handlers now later mro exclude e scopes next w in
        (x ≡ emit_each (deepcopy (w.events e)) (included exclude scopes) next w)
        × Numbered next (included exclude scopes) x.1
        × (x.0.events e ≡ w.events e)
        × (x.0.events j ≡ w.events j)
  broadcast-Isolated exclude e j scopes next w aloof aloof_too less less_too =
      let ev = deepcopy (w.events e) in
      let same = broadcast-emit_each exclude e aloof ev scopes next w less refl in
      (
        same,
        subst (λ (x : World × Outcome (List ℕ)). Numbered next (included exclude scopes) x.1)
            (sym same) (emit_each-Numbered ev (included exclude scopes) next w),
        broadcast_apart exclude e aloof e scopes next w less,
        broadcast_apart exclude j aloof_too e scopes next w less_too,
      )
