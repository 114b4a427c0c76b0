-- ===== src/Scope/Queue/Flush.antt =====
-- event_loop.py: `flush`, up to its wait and after it. The result that `_finish` keeps of a delivery
-- is read from the event, whose settled records stay.
use agent_cdp.Prelude.{
  ℕ, Bool, false, not, ◌&&◌, Option, none, some, List, [], ◌∷◌, Dict, lookup, insert, keys, values,
  has_key, select, any, is_empty, is_key, leb, if◌then◌else◌, ℤ, is_negative,
}
use agent_cdp.Events.Values.{
  value_error, self_wait_error, event_timeout_error, Phase, Outcome, return, raise,
}
use agent_cdp.Events.Delivery.{EventResult, is_running}
use agent_cdp.Events.Event.{Event}
use agent_cdp.Events.Success.{sorted}
use agent_cdp.Events.Waiting.{Caller}
use agent_cdp.Scope.Queue.State.{DeliverySummary, summary, Delivery, Loop, System}
use agent_cdp.Scope.Queue.Reports.{ScopeStats, stats}

pub record FlushResult : Type 0 where
  pub results : List EventResult
  pub stats : ScopeStats
  pub deliveries : List DeliverySummary

-- What a flush keeps while it waits.
pub record Checkpoint : Type 0 where
  pub prefix : List Delivery
  pub sequence : ℕ
  pub settled : Dict DeliverySummary

-- A flush with nothing outstanding answers at once.
pub data Flush : Type 0 where
  answers : FlushResult → Flush
  waits : Checkpoint → Flush

-- The caller is a running handler. `current` is the event that it serves.
abbrev pub serves_running : Caller → Option Event → Bool
serves_running caller none = false
serves_running caller (some ev) = elim caller.connection [
  | none ↦ false
  | some cid ↦ elim (lookup cid ev.event_results) [ none ↦ false | some r ↦ is_running r.status ]
]

abbrev pub is_negative_timeout : Option ℤ → Bool
is_negative_timeout none = false
is_negative_timeout (some t) = is_negative t

unfoldable pub flush : Option ℤ → Caller → Option Event → Loop → Loop × Outcome Flush
unfolding stats
flush timeout caller current l =
    let prefix = values l.pending in
    if is_negative_timeout timeout
    then (l, raise value_error)
    else if not (is_empty prefix)
        && is_key l.scope_id caller.scope_token
        && serves_running caller current
    then (l, raise self_wait_error)
    else if is_empty prefix
    then (
      record l { settled_since_flush = [] },
      return (
          answers
            (record { results = []; stats = stats l; deliveries = values l.settled_since_flush })),
    )
    else (
      l,
      return (
          waits
            (record { prefix = prefix; sequence = l.sequence; settled = l.settled_since_flush })),
    )

-- The results of the prefix, and their facts beside the earlier ones.
unfoldable pub results_of : (ℕ → Event) → List Delivery → List EventResult
results_of events [] = []
results_of events (d ∷ ds) =
    let rest = results_of events ds in
    elim (lookup d.connection.id (events d.event).event_results) [ none ↦ rest | some r ↦ r ∷ rest ]

abbrev pub with_fact : ℕ → ℕ → Option EventResult → Dict DeliverySummary → Dict DeliverySummary
with_fact now n none facts = facts
with_fact now n (some r) facts = insert n (summary now r) facts

unfoldable pub facts_of :
    ℕ → (ℕ → Event) → List Delivery → Dict DeliverySummary → Dict DeliverySummary
unfolding summary
facts_of now events [] facts = facts
facts_of now events (d ∷ ds) facts =
    facts_of now events ds
      (with_fact now d.sequence (lookup d.connection.id (events d.event).event_results) facts)

-- `settled[number] for number in sorted(settled)`
unfoldable pub in_order : List ℕ → Dict DeliverySummary → List DeliverySummary
in_order [] facts = []
in_order (n ∷ ns) facts =
    let rest = in_order ns facts in elim (lookup n facts) [ none ↦ rest | some f ↦ f ∷ rest ]

-- The facts that no flush has reported yet.
unfoldable pub pruned : ℕ → Dict DeliverySummary → Dict DeliverySummary
pruned sequence d = select (λ e. not (leb e.0 sequence)) d

-- `flush` after its wait, which ended because the prefix is done or the time is up. A wait for a
-- delivery counts as over once the delivery is done.
unfoldable pub finish_flush : ℕ → Checkpoint → System → System × Outcome FlushResult
unfolding results_of facts_of in_order pruned stats
finish_flush now c s =
    let facts = facts_of now s.events c.prefix c.settled in
    if any (λ d. has_key d.sequence s.loop.pending) c.prefix
    then (s, raise (event_timeout_error Phase.flush))
    else (
      record s {
        loop = record (s.loop) {
          settled_since_flush = pruned c.sequence s.loop.settled_since_flush;
        };
      },
      return (record {
        results = results_of s.events c.prefix;
        stats = stats s.loop;
        deliveries = in_order (sorted (keys facts)) facts;
      }),
    )
