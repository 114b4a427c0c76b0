-- ===== src/Bridge/Paused/Sound.antt =====
-- One attempt at a time, and success only by an acknowledgement: what holds of a target between the
-- steps of its callers (`Paused`).
use agent_cdp.Prelude.{
  ℕ, zero, suc, ◌+◌, ◌<◌, ◌≡◌, refl, sym, ap, ◌∙◌, true, false, Option, none, some, ◌==◌, is_some,
  ◌⊎◌, inl, inr, arith, if_ind,
}
use agent_cdp.Events.Values.{
  Exc, cancelled_error, assertion_error, resume_timeout_error, Outcome, return, raise,
}
use agent_cdp.Bridge.Paused.{
  Task, is_done, Attempt, PausedTarget, put_attempt, note_failure, cancel, Resumption, new_attempt,
  is_over, share, begin_resume, fail_with, cancel_with, settle_wait,
}
use agent_cdp.Bridge.Paused.Attempts.{
  put-Later, Later, IsFair, cancel-Later, cancel-IsFair, note_failure-Later, note_failure-IsFair,
}

abbrev pub latest : ℕ → Option ℕ
latest zero = none
latest (suc k) = some k

-- What holds of a target and its attempts at all times. Every attempt but the latest is over: its
-- task has ended, and it failed. Where the target is resumed, the task of the latest attempt was
-- acknowledged. No task is asked to end twice.
pub record IsSound (p : PausedTarget) : Type 0 where
  pub attempt : p.attempt ≡ latest p.started
  pub superseded : (k : ℕ) → k + 1 < p.started → is_over (p.attempts k) ≡ true
  pub acknowledged :
      p.resumed ≡ true → (k : ℕ) × (p.attempt ≡ some k) × ((p.attempts k).task ≡ Task.acknowledged)
  pub fair : (k : ℕ) → IsFair (p.attempts k)

pub over-Later : (a b : Attempt) → Later a b → is_over a ≡ true → is_over b ≡ true
over-Later a b later h = ground (arith, later.task, later.failure)

pub latest_or_before : (n j k : ℕ) → j < n → latest n ≡ some k → (j + 1 < n) ⊎ (j ≡ k)
latest_or_before zero j k h e = cc
latest_or_before (suc n) j k h e = ground arith

pub last_or_before : (n j : ℕ) → j < n → (j + 1 < n) ⊎ (latest n ≡ some j)
last_or_before zero j h = omega arith
last_or_before (suc n) j h = ground arith

pub none_started : (n j : ℕ) → j < n → latest n ≡ none → ⊥
none_started zero j h e = omega arith
none_started (suc n) j h e = cc

-- A change of one attempt.
module _ (p : PausedTarget) (sound : IsSound p) (k : ℕ) (b : Attempt) where
  pub put_attempt-acknowledged :
      Later (p.attempts k) b
      → (i : ℕ) × (p.attempt ≡ some i) × ((p.attempts i).task ≡ Task.acknowledged)
      → (i : ℕ) × (p.attempt ≡ some i) × (((put_attempt k b p).attempts i).task ≡ Task.acknowledged)
  put_attempt-acknowledged later (i, is_latest, done) =
      (i, is_latest, (put-Later p.attempts k b later i).task (ap is_done done) ∙ done)

  pub put_attempt-IsSound : Later (p.attempts k) b → IsFair b → IsSound (put_attempt k b p)
  put_attempt-IsSound later fair = record {
    attempt = sound.attempt;
    superseded = λ j h.
        over-Later (p.attempts j) _ (put-Later p.attempts k b later j) (sound.superseded j h);
    acknowledged = λ h. put_attempt-acknowledged later (sound.acknowledged h);
    fair = λ j. if_ind (λ a. IsFair a) (j == k) b (p.attempts j) (λ _. fair) (λ _. sound.fair j);
  }

-- A fresh attempt, where the latest one is over.
module _ (now : ℕ) (p : PausedTarget) (sound : IsSound p) (unresumed : p.resumed ≡ false) where
  pub new_attempt-IsSound :
      ((k : ℕ) → k < p.started → is_over (p.attempts k) ≡ true) → IsSound (new_attempt now p)
  unfolding new_attempt
  new_attempt-IsSound over = record {
    attempt = ground arith;
    superseded = λ j h. ground (arith, over j);
    acknowledged = λ h. absurd (cc);
    fair = λ j. ground (arith, sound.fair j);
  }

  pub all_over :
      (k : ℕ)
      → p.attempt ≡ some k
      → is_over (p.attempts k) ≡ true
      → (j : ℕ) → j < p.started
      → is_over (p.attempts j) ≡ true
  all_over k is_latest over j h =
      elim (latest_or_before p.started j k h (sym sound.attempt ∙ is_latest)) [
        | inl before ↦ sound.superseded j before
        | inr e ↦ rw e over
      ]

  pub share-IsSound : (a : Option ℕ) → p.attempt ≡ a → IsSound (share now a p).0
  share-IsSound none e =
      new_attempt-IsSound (λ k h. absurd (none_started p.started k h (sym sound.attempt ∙ e)))
  share-IsSound (some k) e =
      if_ind (λ (r : PausedTarget × Resumption). IsSound r.0) (is_over (p.attempts k)) _ _
        (λ over. new_attempt-IsSound (all_over k e over)) (λ _. sound)

pub begin_resume-IsSound : (now : ℕ) (p : PausedTarget) → IsSound p → IsSound (begin_resume now p).0
unfolding begin_resume
begin_resume-IsSound now p sound =
    if_ind (λ (r : PausedTarget × Resumption). IsSound r.0) p.resumed _ _ (λ _. sound)
      (λ e. share-IsSound now p sound e p.attempt refl)

pub over_failed : (a : Attempt) → is_over a ≡ true → a.failure ≡ none → ⊥
over_failed a h e = ground arith

pub unfailed_latest :
    (p : PausedTarget)
    → IsSound p
    → (k : ℕ) → k < p.started
    → (p.attempts k).failure ≡ none
    → p.attempt ≡ some k
unfailed_latest p sound k h e = elim (last_or_before p.started k h) [
  | inl before ↦ absurd (over_failed (p.attempts k) (sound.superseded k before) e)
  | inr last ↦ sound.attempt ∙ last
]

-- A caller that comes back with success: the attempt is the latest.
pub settle_acknowledged :
    (p : PausedTarget)
    → IsSound p
    → (k : ℕ) → k < p.started
    → (p.attempts k).task ≡ Task.acknowledged
    → (f : Option Exc) → (p.attempts k).failure ≡ f
    → IsSound
        (elim f as (λ _. PausedTarget × Outcome (Unit {0})) [
          | some e ↦ (p, raise e)
          | none ↦ (record p { resumed = true }, return tt)
        ]).0
settle_acknowledged p sound k h done none e = record {
  attempt = sound.attempt;
  superseded = sound.superseded;
  acknowledged = λ _. (k, unfailed_latest p sound k h e, done);
  fair = sound.fair;
}
settle_acknowledged p sound k h done (some x) e = sound

module _ (e : Exc) (p : PausedTarget) (sound : IsSound p) (k : ℕ) where
  pub fail_with-IsSound : IsSound (fail_with k e p).0
  fail_with-IsSound =
      let a = p.attempts k in
      put_attempt-IsSound p sound k (note_failure e a) (note_failure-Later e a)
        (note_failure-IsFair e a (sound.fair k))

  pub cancel_with-IsSound : IsSound (cancel_with k e p).0
  cancel_with-IsSound =
      let a = p.attempts k in
      put_attempt-IsSound p sound k (cancel e a) (cancel-Later e a)
        (cancel-IsFair e a (sound.fair k))

pub settle_wait-IsSound :
    (p : PausedTarget)
    → IsSound p
    → (k : ℕ) → k < p.started
    → (t : Task) → (p.attempts k).task ≡ t
    → IsSound (settle_wait k t p).0
settle_wait-IsSound p sound k h Task.running e =
    if_ind (λ (r : PausedTarget × Outcome (Unit {0})). IsSound r.0) (is_some p.resume_timeout) _ _
      (λ _. cancel_with-IsSound resume_timeout_error p sound k)
      (λ _. fail_with-IsSound assertion_error p sound k)
settle_wait-IsSound p sound k h (Task.failed x) e = fail_with-IsSound x p sound k
settle_wait-IsSound p sound k h Task.cancelled e = cancel_with-IsSound cancelled_error p sound k
settle_wait-IsSound p sound k h Task.acknowledged e =
    settle_acknowledged p sound k h e (p.attempts k).failure refl
