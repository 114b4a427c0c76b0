-- ===== src/EventLog/Roundtrip.antt =====
-- Reading a log after its writes (`Writer`).
use mathlib.Core.List.{concat, eq-nil-or-concat}
use mathlib.Core.Path.{subst}
use agent_cdp.Prelude.{
  ℕ, ◌≡◌, refl, ap, inl, inr, ◌∙◌, true, false, none, List, [], ◌∷◌, ◌++◌, any, All,
}
use agent_cdp.Events.Values.{value_error, return, raise, ◌>>=◌}
use agent_cdp.EventLog.Text.{is_boundary, strip_end, lines_from, split_lines}
use agent_cdp.EventLog.Lines.{
  starts_solid, lines_from-boundary, lines_from-last, solid-is_some, strip-solid,
  starts_solid-append,
}
use agent_cdp.EventLog.Writer.{Codec, line_of, write, read_line, read_lines, read_all}
use agent_cdp.EventLog.Written.{
  CodecLaws, IsLogged, write_all, write_all-last, write_all-append, read_line-logged,
  read_lines-written, strip-written,
}

module _ (codec : Codec) (laws : CodecLaws codec) where
  open codec use {Event}

  -- Reading after a last line that starts and ends solid.
  read_all-last :
      (events : List Event) (last : Event)
      → All (IsLogged codec) events
      → starts_solid (line_of codec last) ≡ true
      → strip_end (line_of codec last) ≡ line_of codec last
      → read_all codec (write codec last (write_all codec events none)) ≡ (
          read_lines codec (lines_from false [] (line_of codec last)) >>= λ others.
          return (events ++ others))
  unfolding read_all split_lines
  read_all-last events last logged starts ends =
      rw
        (
          write_all-last codec events last,
          strip-written codec events (line_of codec last) logged starts ends,
        )
        (read_lines-written codec laws events (line_of codec last) logged)

  -- The last event is read like the others.
  read_lines-logged :
      (event : Event)
      → IsLogged codec event
      → read_lines codec (lines_from false [] (line_of codec event)) ≡ return (event ∷ [])
  unfolding read_lines
  read_lines-logged event logged =
      let line = line_of codec event in
      rw (
        lines_from-last line [] logged.line.single (solid-is_some line logged.line.starts),
        strip-solid line logged.line.starts,
        read_line-logged codec laws logged,
      )

  All-init :
      (events : List Event) (last : Event)
      → All (IsLogged codec) (events ++ last ∷ [])
      → All (IsLogged codec) events × IsLogged codec last
  All-init [] last (h, _) = (tt, h)
  All-init (e ∷ events) last (h, more) =
      let (rest, end) = All-init events last more in ((h, rest), end)

  logged_init :
      (events : List Event) (last : Event)
      → All (IsLogged codec) (events ++ last ∷ [])
      → read_all codec (write_all codec (events ++ last ∷ []) none) ≡ return (events ++ last ∷ [])
  logged_init events last logged =
      let (rest, end) = All-init events last logged in
      rw (
        write_all-append codec events last none,
        read_all-last events last rest end.line.starts end.line.ends,
        read_lines-logged last end,
      )

  concat-append : (events : List Event) (last : Event) → concat events last ≡ events ++ last ∷ []
  unfolding concat
  concat-append [] last = refl
  concat-append (e ∷ events) last = ap (λ l. e ∷ l) (concat-append events last)

  -- Round trip: events that are logged one after another to a file that was not there are read
  -- back, all of them and in their order. Each line has to be one line of text, and the class
  -- registered for it has to read it back.
  pub read_all-write_all :
      (events : List Event)
      → All (IsLogged codec) events
      → read_all codec (write_all codec events none) ≡ return events
  unfolding read_all
  read_all-write_all events logged = elim (eq-nil-or-concat events) [
    | inl empty ↦ rw empty
    | inr (front, last, e) ↦
        let snoc = e ∙ concat-append front last in
        rw snoc (logged_init front last (subst (λ es. All (IsLogged codec) es) snoc logged))
  ]

  -- An event whose line has a line boundary of `splitlines` inside, after a part that is no JSON of
  -- its own, makes the whole log unreadable: after any events that are logged, and then this one,
  -- reading raises ValueError.
  pub read_all-torn :
      (events : List Event) (torn : Event) (start rest : List ℕ) (b : ℕ)
      → All (IsLogged codec) events
      → line_of codec torn ≡ start ++ b ∷ rest
      → strip_end (line_of codec torn) ≡ line_of codec torn
      → starts_solid start ≡ true
      → any is_boundary start ≡ false
      → is_boundary b ≡ true
      → codec.loads start ≡ none
      → read_all codec (write codec torn (write_all codec events none)) ≡ raise value_error
  unfolding read_lines read_line
  read_all-torn events torn start rest b logged line ends starts single boundary no_json =
      let solid = ap starts_solid line ∙ starts_solid-append start (b ∷ rest) starts in
      rw (
        read_all-last events torn logged solid ends,
        line,
        lines_from-boundary b rest start [] boundary single,
        strip-solid start starts,
        read_line,
        no_json,
      )
