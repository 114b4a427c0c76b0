-- ===== src/EventLog/Written.antt =====
-- What the file holds after a number of writes, and what reading it gives (`Writer`).
use mathlib.Core.List.{append_assoc, append-nil}
use agent_cdp.Prelude.{
  ℕ, ◌≡◌, refl, sym, ap, ◌∙◌, true, false, Option, none, some, List, [], ◌∷◌, ◌++◌, is_empty, All,
}
use agent_cdp.Events.Values.{Outcome, return, raise, ◌>>=◌}
use agent_cdp.EventLog.Text.{strip_end, strip, lines_from}
use agent_cdp.EventLog.Lines.{
  starts_solid, IsLine, strip_end-append, strip_end-feed, strip_start-solid, starts_solid-append,
  solid-is_some, strip-solid, lines_from-boundary,
}
use agent_cdp.EventLog.Writer.{Codec, line_of, write, read_line, read_lines}

-- What the log relies on of orjson: a text that it made is read back, and a key that was set is
-- found.
pub record CodecLaws (codec : Codec) : Type 0 where
  pub loads-dumps : (json : codec.Json) → codec.loads (codec.dumps json) ≡ some json
  pub event_type-set :
      (key : ℕ) (json : codec.Json) → codec.event_type (codec.set_event_type key json) ≡ some key

-- The event is one line, its class is registered, and the class reads that line back.
pub record IsLogged (codec : Codec) (event : codec.Event) : Type 0 where
  pub line : IsLine (line_of codec event)
  pub event_class : codec.Class
  pub registered : codec.get (codec.registry_key event) ≡ return event_class
  pub validated : codec.model_validate_json event_class (line_of codec event) ≡ return event

module _ (codec : Codec) where
  open codec use {Event}

  -- `write` for each event in turn.
  abbrev pub write_all : List Event → Option (List ℕ) → Option (List ℕ)
  write_all [] file = file
  write_all (event ∷ events) file = write_all events (write codec event file)

  -- The lines of the events.
  pub written : List Event → List ℕ
  written [] = []
  written (event ∷ events) = (line_of codec event ++ 10 ∷ []) ++ written events

  write_all-some :
      (events : List Event) (content : List ℕ)
      → write_all events (some content) ≡ some (content ++ written events)
  unfolding write written
  write_all-some [] content = ap (λ c. some c) (sym (append-nil content))
  write_all-some (event ∷ events) content =
      write_all-some events _
      ∙ ap (λ c. some c) (append_assoc content (line_of codec event ++ 10 ∷ []) (written events))

  -- A last event after others.
  pub write_all-last :
      (events : List Event) (event : Event)
      → write codec event (write_all events none)
        ≡ some (written events ++ (line_of codec event ++ 10 ∷ []))
  unfolding write written
  write_all-last [] event = refl
  write_all-last (e ∷ events) event = rw (write_all-some events (line_of codec e ++ 10 ∷ []))

  pub write_all-append :
      (events : List Event) (event : Event) (file : Option (List ℕ))
      → write_all (events ++ event ∷ []) file ≡ write codec event (write_all events file)
  write_all-append [] event file = refl
  write_all-append (e ∷ events) event file = write_all-append events event (write codec e file)

  >>=-return : (m : Outcome (List Event)) → (m >>= λ events. return events) ≡ m
  >>=-return (return events) = refl
  >>=-return (raise e) = refl

  prepended :
      (m : Outcome (List Event)) (event : Event) (events : List Event)
      → (m >>= (λ others. return (events ++ others)) >>= λ all. return (event ∷ all))
        ≡ (m >>= λ others. return (event ∷ (events ++ others)))
  prepended (return others) event events = refl
  prepended (raise e) event events = refl

  module _ (laws : CodecLaws codec) where
    pub read_line-logged :
        {event : Event}
        → IsLogged codec event
        → read_line codec (line_of codec event) ≡ return event
    unfolding line_of read_line
    read_line-logged {event} logged =
        let json = codec.set_event_type (codec.registry_key event) (codec.dump event) in
        rw
          (
            read_line,
            laws.loads-dumps json,
            laws.event_type-set (codec.registry_key event) (codec.dump event),
            logged.registered,
          )
          logged.validated

    -- The lines of logged events are read before the rest of the text.
    pub read_lines-written :
        (events : List Event) (rest : List ℕ)
        → All (IsLogged codec) events
        → read_lines codec (lines_from false [] (written events ++ rest))
          ≡ (read_lines codec (lines_from false [] rest) >>= λ others. return (events ++ others))
    unfolding written read_lines
    read_lines-written [] rest logged =
        sym (>>=-return (read_lines codec (lines_from false [] rest)))
    read_lines-written (event ∷ events) rest (here, later) =
        let line = line_of codec event in
        let others = written events ++ rest in
        let feeds =
          append_assoc (line ++ 10 ∷ []) (written events) rest
          ∙ append_assoc line (10 ∷ []) others in
        rw
          (
            feeds,
            lines_from-boundary 10 others line [] refl here.line.single,
            strip-solid line here.line.starts,
            read_line-logged here,
            read_lines-written events rest later,
          )
          (prepended (read_lines codec (lines_from false [] rest)) event events)

  written-solid :
      (events : List Event) (last : List ℕ)
      → All (IsLogged codec) events
      → starts_solid last ≡ true
      → starts_solid (written events ++ last) ≡ true
  unfolding written
  written-solid [] last logged starts = starts
  written-solid (event ∷ events) last (here, later) starts =
      let line = line_of codec event in
      let feeds =
        append_assoc (line ++ 10 ∷ []) (written events) last
        ∙ append_assoc line (10 ∷ []) (written events ++ last) in
      rw feeds (starts_solid-append line (10 ∷ (written events ++ last)) here.line.starts)

  -- What `read_all` strips, where the first line starts solid and the last one ends so.
  pub strip-written :
      (events : List Event) (last : List ℕ)
      → All (IsLogged codec) events
      → starts_solid last ≡ true
      → strip_end last ≡ last
      → strip (written events ++ (last ++ 10 ∷ [])) ≡ written events ++ last
  unfolding strip
  strip-written events last logged starts ends =
      rw
        (
          sym (append_assoc (written events) last (10 ∷ [])),
          strip_end-feed,
          strip_end-append last (ap is_empty ends ∙ solid-is_some last starts) (written events),
          ends,
        )
        (strip_start-solid _ (written-solid events last logged starts))
