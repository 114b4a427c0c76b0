-- ===== src/Expect/Cancelling.antt =====
-- The life of a waiter that tasks await, any of which may be cancelled.
use mathlib.Core.Path.{subst}
use agent_cdp.Prelude.{
  ℕ, ◌≡◌, refl, Bool, true, false, Option, List, [], ◌∷◌, ◌⊎◌, inl, inr, ap, sym, ◌∙◌, ℤ,
}
use agent_cdp.Events.Values.{return}
use agent_cdp.Expect.{
  Future, EventWaiter, is_pending, new_waiter, receive, expire, close, cancel_wait,
}
use agent_cdp.Expect.Lifecycle.{
  Armed, Released, Step, step, settled_detach-Released, detach-Released, Armed-step, Released-stays,
  new_waiter-Armed,
}

-- What may happen to a waiter: an event, its timer or `close`, or a cancellation of a task that
-- awaits it.
pub data Happening : Type 0 where
  stepped : Step → Happening
  cancels : Happening

unfoldable pub happen : EventWaiter → Happening → EventWaiter
unfolding step
happen w (Happening.stepped s) = step w s
happen w Happening.cancels = cancel_wait w

unfoldable pub happens : EventWaiter → List Happening → EventWaiter
unfolding happen
happens w [] = w
happens w (h ∷ hs) = happens (happen w h) hs

-- A waiter whose awaiting task was cancelled, and has not closed it yet: it has its outcome, and its
-- connection and its callback are still in the scope.
pub record Cancelling (w : EventWaiter) : Type 0 where
  pub future : w.future ≡ Future.cancelled
  pub closed : w.closed ≡ false
  pub connected : w.connected ≡ true
  pub registered : w.registered ≡ true

-- The three states of a waiter.
abbrev pub IsAccounted : EventWaiter → Type 0
IsAccounted w = Armed w ⊎ (Cancelling w ⊎ Released w)

unarmed : (w : EventWaiter) → Armed w ⊎ Released w → IsAccounted w
unarmed w (inl a) = inl a
unarmed w (inr r) = inr (inr r)

not_pending : (w : EventWaiter) → Cancelling w → is_pending w.future ≡ false
not_pending w c = ap is_pending c.future

Cancelling-step : (w : EventWaiter) (s : Step) → Cancelling w → IsAccounted (step w s)
unfolding step
Cancelling-step w (Step.receives include exclude e) c = rw (not_pending w c, receive) (inr (inl c))
Cancelling-step w Step.expires c =
    rw (not_pending w c, expire) (inr (inr (detach-Released w c.closed (not_pending w c))))
Cancelling-step w Step.closes c =
    rw (not_pending w c, close) (inr (inr (detach-Released w c.closed (not_pending w c))))

happen-IsAccounted : (w : EventWaiter) (h : Happening) → IsAccounted w → IsAccounted (happen w h)
unfolding happen
happen-IsAccounted w (Happening.stepped s) (inl a) = unarmed (step w s) (Armed-step w s a)
happen-IsAccounted w (Happening.stepped s) (inr (inl c)) = Cancelling-step w s c
happen-IsAccounted w (Happening.stepped s) (inr (inr r)) = rw (Released-stays w s r) (inr (inr r))
happen-IsAccounted w Happening.cancels (inl a) = rw a.waits (
    inr (
      inl (record {
        future = refl;
        closed = a.closed;
        connected = a.connected;
        registered = a.registered;
      })))
happen-IsAccounted w Happening.cancels (inr (inl c)) = rw (not_pending w c) (inr (inl c))
happen-IsAccounted w Happening.cancels (inr (inr r)) = rw r.settled (inr (inr r))

happens-IsAccounted :
    (w : EventWaiter) (hs : List Happening) → IsAccounted w → IsAccounted (happens w hs)
unfolding happens
happens-IsAccounted w [] a = a
happens-IsAccounted w (h ∷ hs) a = happens-IsAccounted (happen w h) hs (happen-IsAccounted w h a)

Released-happen : (w : EventWaiter) (h : Happening) → Released w → happen w h ≡ w
unfolding happen
Released-happen w (Happening.stepped s) r = Released-stays w s r
Released-happen w Happening.cancels r = rw r.settled refl

Released-happens : (w : EventWaiter) (hs : List Happening) → Released w → happens w hs ≡ w
unfolding happens
Released-happens w [] r = refl
Released-happens w (h ∷ hs) r =
    ap (λ v. happens v hs) (Released-happen w h r) ∙ Released-happens w hs r

close-Released : (w : EventWaiter) → IsAccounted w → Released (close w)
unfolding close step
close-Released w (inl a) = rw (a.waits, close) (settled_detach-Released w Future.cancelled refl a)
close-Released w (inr (inl c)) =
    rw (not_pending w c, close) (detach-Released w c.closed (not_pending w c))
close-Released w (inr (inr r)) = subst Released (sym (Released-stays w Step.closes r)) r

-- Whatever happens to a waiter after it was made, in any order, be it events, its timer, `close`, or
-- cancellations of tasks that await it, it is in one of three states: it waits, with its connection
-- and its close callback in the scope; its future was cancelled under its awaiting task and these
-- two are still in the scope; or it has its outcome and has let go of the scope, the connection,
-- the callback and the timer. And a `close`, as the end of the awaiting task or of the scope runs it,
-- takes it from each of them to the last one, in which it stays.
pub happens_lifecycle :
    (now scope connection : ℕ) (scope_closed : Bool) (timeout : Option ℤ) (w : EventWaiter)
    (hs later : List Happening)
    → new_waiter now scope connection scope_closed timeout ≡ return w
    → IsAccounted (happens w hs)
      × Released (close (happens w hs))
      × (happens (close (happens w hs)) later ≡ close (happens w hs))
happens_lifecycle now scope connection scope_closed timeout w hs later made =
    let now_on =
      happens-IsAccounted w hs
        (inl (new_waiter-Armed now scope connection scope_closed timeout w made)) in
    let released = close-Released (happens w hs) now_on in
    (now_on, released, Released-happens (close (happens w hs)) later released)
