-- ===== src/Expect/Lifecycle.antt =====
-- The life of a waiter.
use mathlib.Core.Path.{subst}
use agent_cdp.Prelude.{
  ℕ, ◌≡◌, refl, ap, sym, ◌∙◌, Bool, true, false, not, Option, none, some, List, [], ◌∷◌, ◌⊎◌, inl,
  inr, ℤ, pos, negsuc, arith,
}
use agent_cdp.Events.Values.{timeout_error, Outcome, return, raise}
use agent_cdp.Expect.{
  Future, EventWaiter, is_pending, done, new_waiter, detach, matches, settle_match, receive, expire,
  close,
}

-- A waiter that still waits, with its connection and its callback in the scope.
pub record Armed (w : EventWaiter) : Type 0 where
  pub waits : is_pending w.future ≡ true
  pub closed : w.closed ≡ false
  pub connected : w.connected ≡ true
  pub registered : w.registered ≡ true

-- A waiter that has its outcome, and holds nothing any more.
pub record Released (w : EventWaiter) : Type 0 where
  pub settled : is_pending w.future ≡ false
  pub closed : w.closed ≡ true
  pub scope : w.scope ≡ none
  pub connection : w.connection ≡ none
  pub timer : w.timer ≡ none
  pub connected : w.connected ≡ false
  pub registered : w.registered ≡ false

-- What may happen to a waiter: an event comes, with what its predicates say of it, the timer goes
-- off, or it is closed.
pub data Step : Type 0 where
  receives : (include exclude : ℕ → Outcome Bool) → ℕ → Step
  expires closes : Step

unfoldable pub step : EventWaiter → Step → EventWaiter
unfolding receive expire close
step w (Step.receives include exclude e) = receive include exclude e w
step w Step.expires = expire w
step w Step.closes = close w

unfoldable pub steps : EventWaiter → List Step → EventWaiter
unfolding step
steps w [] = w
steps w (s ∷ ss) = steps (step w s) ss

pub detach-Released :
    (w : EventWaiter) → w.closed ≡ false → is_pending w.future ≡ false → Released (detach w)
unfolding detach
detach-Released w o s = ground arith

pub detach_closed : (w : EventWaiter) → w.closed ≡ true → detach w ≡ w
unfolding detach
detach_closed w c = rw c refl

-- The outcome of a waiter stands: nothing that comes later changes the waiter.
pub Released-stays : (w : EventWaiter) (s : Step) → Released w → step w s ≡ w
unfolding step
Released-stays w (Step.receives include exclude e) r = rw (r.settled, receive) refl
Released-stays w Step.expires r = rw (r.settled, expire) (detach_closed w r.closed)
Released-stays w Step.closes r = rw (r.settled, close) (detach_closed w r.closed)

-- An armed waiter with an outcome written into it lets go.
pub settled_detach-Released :
    (w : EventWaiter) (f : Future)
    → is_pending f ≡ false
    → Armed w
    → Released (detach (record w { future = f }))
settled_detach-Released w f s a = detach-Released (record w { future = f }) a.closed s

Armed-match :
    (e : ℕ) (o : Outcome Bool) (w : EventWaiter)
    → Armed w
    → Armed (settle_match e o w) ⊎ Released (settle_match e o w)
Armed-match e (return true) w a = inr (settled_detach-Released w (Future.received e) refl a)
Armed-match e (return false) w a = inl a
Armed-match e (raise x) w a = inl a

pub Armed-step : (w : EventWaiter) (s : Step) → Armed w → Armed (step w s) ⊎ Released (step w s)
unfolding step
Armed-step w (Step.receives include exclude e) a =
    rw (a.waits, receive) (Armed-match e (matches include exclude e) w a)
Armed-step w Step.expires a =
    inr (rw (a.waits, expire) (settled_detach-Released w (Future.failed timeout_error) refl a))
Armed-step w Step.closes a =
    inr (rw (a.waits, close) (settled_detach-Released w Future.cancelled refl a))

Released-steps : (w : EventWaiter) (ss : List Step) → Released w → steps w ss ≡ w
unfolding steps
Released-steps w [] r = refl
Released-steps w (s ∷ ss) r = ap (λ v. steps v ss) (Released-stays w s r) ∙ Released-steps w ss r

Armed-steps :
    (w : EventWaiter) (ss : List Step) → Armed w → Armed (steps w ss) ⊎ Released (steps w ss)
unfolding steps
Armed-steps w [] a = inl a
Armed-steps w (s ∷ ss) a = elim (Armed-step w s a) [
  | inl still ↦ Armed-steps (step w s) ss still
  | inr done ↦ inr (subst Released (sym (Released-steps (step w s) ss done)) done)
]

pub new_waiter-Armed :
    (now scope connection : ℕ) (scope_closed : Bool) (timeout : Option ℤ) (w : EventWaiter)
    → new_waiter now scope connection scope_closed timeout ≡ return w
    → Armed w
unfolding new_waiter
new_waiter-Armed now scope connection true none w h = cc
new_waiter-Armed now scope connection false none w h = ground arith
new_waiter-Armed now scope connection true (some (pos t)) w h = cc
new_waiter-Armed now scope connection false (some (pos t)) w h = ground arith
new_waiter-Armed now scope connection closed (some (negsuc t)) w h = cc

-- Under events, its timer and `close`, a waiter is armed or released.
steps_lifecycle :
    (now scope connection : ℕ) (scope_closed : Bool) (timeout : Option ℤ) (w : EventWaiter)
    (ss : List Step)
    → new_waiter now scope connection scope_closed timeout ≡ return w
    → Armed (steps w ss) ⊎ Released (steps w ss)
steps_lifecycle now scope connection scope_closed timeout w ss made =
    Armed-steps w ss (new_waiter-Armed now scope connection scope_closed timeout w made)

-- The first outcome of a waiter stands: once it does not wait any more, no event, timer or `close`
-- changes it.
pub steps_once :
    (now scope connection : ℕ) (scope_closed : Bool) (timeout : Option ℤ) (w : EventWaiter)
    (ss later : List Step)
    → new_waiter now scope connection scope_closed timeout ≡ return w
    → done (steps w ss) ≡ true
    → steps (steps w ss) later ≡ steps w ss
steps_once now scope connection scope_closed timeout w ss later made ended =
    elim (steps_lifecycle now scope connection scope_closed timeout w ss made) [
      | inl waits ↦ cc (ap not waits.waits, ended)
      | inr released ↦ Released-steps (steps w ss) later released
    ]
