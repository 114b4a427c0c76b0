-- ===== src/Bridge/Paused/Attempts.antt =====
-- An attempt and what may become of it (`Paused`).
use mathlib.Core.Path.{subst}
use agent_cdp.Prelude.{
  ℕ, ◌≤◌, ◌≡◌, refl, sym, true, if◌then◌else◌, ◌==◌, is_some, arith, if_ind, ==_iff,
}
use agent_cdp.Events.Values.{Exc}
use agent_cdp.Bridge.Paused.{Task, is_done, Attempt, note_failure, cancel}
use agent_cdp.Bridge.Paused.Calls.{end_task}

-- An attempt later on: a task that ended stays as it is, and the first failure stands.
pub record Later (a b : Attempt) : Type 0 where
  pub task : is_done a.task ≡ true → b.task ≡ a.task
  pub failure : is_some a.failure ≡ true → b.failure ≡ a.failure

-- A task is asked to end by a failure, and once at most.
abbrev pub IsFair : Attempt → Type 0
IsFair a = a.cancel_requests ≤ (if is_some a.failure then 1 else 0)

pub cancel-Later : (e : Exc) (a : Attempt) → Later a (cancel e a)
unfolding cancel
cancel-Later e a = record { task = λ h. ground arith; failure = λ h. ground arith }

pub cancel-IsFair : (e : Exc) (a : Attempt) → IsFair a → IsFair (cancel e a)
unfolding cancel
cancel-IsFair e a fair = ground arith

pub note_failure-Later : (e : Exc) (a : Attempt) → Later a (note_failure e a)
note_failure-Later e a = record { task = λ h. refl; failure = λ h. ground arith }

pub note_failure-IsFair : (e : Exc) (a : Attempt) → IsFair a → IsFair (note_failure e a)
note_failure-IsFair e a fair = ground arith

pub end_task-Later : (t : Task) (a : Attempt) → Later a (end_task t a)
end_task-Later t a = record { task = λ h. rw h; failure = λ h. ground arith }

pub end_task-IsFair : (t : Task) (a : Attempt) → IsFair a → IsFair (end_task t a)
end_task-IsFair t a fair = ground arith

pub Later-refl : (a : Attempt) → Later a a
Later-refl a = record { task = λ _. refl; failure = λ _. refl }

module _ (f : ℕ → Attempt) (k : ℕ) (b : Attempt) (later : Later (f k) b) where
  pub put-Later : (j : ℕ) → Later (f j) (if j == k then b else f j)
  put-Later j =
      if_ind (λ a. Later (f j) a) (j == k) b (f j)
        (λ e. subst (λ i. Later (f i) b) (sym ((==_iff j k).0 e)) later) (λ _. Later-refl (f j))
