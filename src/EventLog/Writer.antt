-- ===== src/EventLog/Writer.antt =====
-- event_log.py: `write` and `read_all`.
use agent_cdp.Prelude.{ℕ, Option, none, some, List, [], ◌∷◌, ◌++◌, is_empty, if◌then◌else◌}
use agent_cdp.Events.Values.{value_error, key_error, Outcome, return, raise, ◌>>=◌}
use agent_cdp.EventLog.Text.{strip, split_lines}

-- What the log uses of orjson, of pydantic and of the registry of event classes.
pub record Codec : Type 1 where
  -- Events, JSON objects and event classes.
  pub Event : Type 0
  pub Json : Type 0
  pub Class : Type 0
  -- `orjson.loads(event.model_dump_json())` and `type(event).__registry_key__`
  pub dump : Event → Json
  pub registry_key : Event → ℕ
  -- `data['event_type'] = key` and `data['event_type']`
  pub set_event_type : ℕ → Json → Json
  pub event_type : Json → Option ℕ
  -- `orjson.dumps(data).decode()` and `orjson.loads(line)`
  pub dumps : Json → List ℕ
  pub loads : List ℕ → Option Json
  -- `EventRegistrar.get` and `model_validate_json`
  pub get : ℕ → Outcome Class
  pub model_validate_json : Class → List ℕ → Outcome Event

module _ (codec : Codec) where
  open codec use {
    Event, dump, registry_key, set_event_type, event_type, dumps, loads, get, model_validate_json,
  }

  -- The line of an event.
  unfoldable pub line_of : Event → List ℕ
  line_of event = dumps (set_event_type (registry_key event) (dump event))

  -- `write`: the file is opened for appending, which makes it where it is missing.
  unfoldable pub write : Event → Option (List ℕ) → Option (List ℕ)
  unfolding line_of
  write event none = some (line_of event ++ 10 ∷ [])
  write event (some content) = some (content ++ (line_of event ++ 10 ∷ []))

  -- One line of `read_all`. A text that is no JSON is a ValueError.
  unfoldable pub read_line : List ℕ → Outcome Event
  read_line line = elim (loads line) [
    | none ↦ raise value_error
    | some json ↦ elim (event_type json) [
      | none ↦ raise key_error
      | some name ↦ get name >>= λ event_class. model_validate_json event_class line
    ]
  ]

  unfoldable pub read_lines : List (List ℕ) → Outcome (List Event)
  unfolding read_line strip
  read_lines [] = return []
  read_lines (line ∷ lines) =
      let rest = read_lines lines in
      if is_empty (strip line)
      then rest
      else (read_line line >>= λ event. rest >>= λ events. return (event ∷ events))

  unfoldable pub read_all : Option (List ℕ) → Outcome (List Event)
  unfolding read_lines split_lines strip
  read_all none = return []
  read_all (some content) = read_lines (split_lines (strip content))
