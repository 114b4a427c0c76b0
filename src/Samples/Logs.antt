-- ===== src/Samples/Logs.antt =====
-- An event log whose events are texts. A JSON object is a brace, one code point for its event type,
-- its text and a brace.
use agent_cdp.Prelude.{
  ℕ, ◌≡◌, refl, Option, none, some, List, [], ◌∷◌, ◌++◌, is_empty, ◌==◌, if◌then◌else◌,
}
use agent_cdp.Events.Values.{Exc, value_error, Outcome, return, raise}
use agent_cdp.EventLog.{Codec, write, read_all, line_of}
use agent_cdp.EventLog.Text.{strip_end}
use agent_cdp.EventLog.Written.{CodecLaws, IsLogged, write_all}
use agent_cdp.EventLog.Roundtrip.{read_all-write_all, read_all-torn}

-- The text before the last brace.
abbrev until_brace : List ℕ → Option (List ℕ)
until_brace [] = none
until_brace (c ∷ cs) =
    let before = until_brace cs in
    if is_empty cs
    then (if c == 125 then some [] else none)
    else elim before [ none ↦ none | some text ↦ some (c ∷ text) ]

abbrev parse : List ℕ → Option (ℕ × List ℕ)
parse [] = none
parse (c ∷ []) = none
parse (c ∷ key ∷ cs) =
    if c == 123 then elim (until_brace cs) [ none ↦ none | some text ↦ some (key, text) ] else none

abbrev read_text : ℕ → List ℕ → Outcome (List ℕ)
read_text event_class line = elim (parse line) [
  | none ↦ raise value_error
  | some (key, text) ↦ if key == event_class then return text else raise value_error
]

-- One class is registered, under `A`.
abbrev texts : Codec
texts = record {
  Event = List ℕ;
  Json = ℕ × List ℕ;
  Class = ℕ;
  dump = λ text. (0, text);
  registry_key = λ text. 65;
  set_event_type = λ key json. (key, json.1);
  event_type = λ json. some json.0;
  dumps = λ json. 123 ∷ json.0 ∷ (json.1 ++ 125 ∷ []);
  loads = parse;
  get = λ key. if key == 65 then return 65 else raise Exc.key_error;
  model_validate_json = read_text;
}

until_brace-append : (text : List ℕ) → until_brace (text ++ 125 ∷ []) ≡ some text
until_brace-append [] = refl
until_brace-append (c ∷ []) = refl
until_brace-append (c ∷ d ∷ text) = rw (until_brace-append (d ∷ text))

texts_laws : CodecLaws texts
texts_laws = record {
  loads-dumps = λ json. rw (until_brace-append json.1);
  event_type-set = λ key json. refl;
}

abbrev greeting : List ℕ
greeting = 104 ∷ 105 ∷ []

greeting-IsLogged : IsLogged texts greeting
unfolding line_of strip_end
greeting-IsLogged = record {
  line = record { starts = refl; ends = refl; single = refl };
  event_class = 65;
  registered = refl;
  validated = refl;
}

read_all-write_all_example :
    read_all texts (write_all texts (greeting ∷ greeting ∷ []) none)
    ≡ return (greeting ∷ greeting ∷ [])
read_all-write_all_example =
    read_all-write_all texts texts_laws (greeting ∷ greeting ∷ [])
      (greeting-IsLogged, (greeting-IsLogged, tt))

-- U+2028 stands inside a text.
read_all-torn_example :
    read_all texts (write texts (104 ∷ 0x2028 ∷ 105 ∷ []) (write_all texts (greeting ∷ []) none))
    ≡ raise value_error
unfolding line_of strip_end
read_all-torn_example =
    read_all-torn texts texts_laws (greeting ∷ []) (104 ∷ 0x2028 ∷ 105 ∷ []) (123 ∷ 65 ∷ 104 ∷ [])
      (105 ∷ 125 ∷ []) 0x2028 (greeting-IsLogged, tt) refl refl refl refl refl refl
