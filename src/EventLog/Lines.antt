-- ===== src/EventLog/Lines.antt =====
-- How `strip` and `splitlines` treat a text that is made of lines (`Text`).
use mathlib.Core.List.{append_assoc, append-nil}
use agent_cdp.Prelude.{
  ℕ, ◌≡◌, refl, sym, ap, ◌∙◌, Bool, true, false, not, ◌||◌, List, [], ◌∷◌, ◌++◌, any, is_empty,
  ◌==◌, arith,
}
use agent_cdp.EventLog.Text.{is_space, is_boundary, strip_start, strip_end, strip, lines_from}

-- The text starts with something else than white space.
abbrev pub starts_solid : List ℕ → Bool
starts_solid [] = false
starts_solid (c ∷ cs) = not (is_space c)

-- A text that is one line, and that `strip` leaves alone.
pub record IsLine (line : List ℕ) : Type 0 where
  pub starts : starts_solid line ≡ true
  pub ends : strip_end line ≡ line
  pub single : any is_boundary line ≡ false

or_neither : (a : Bool) {b : Bool} → (a || b) ≡ false → (a ≡ false) × (b ≡ false)
or_neither a h = ground arith

module _ (ys : List ℕ) (solid : is_empty (strip_end ys) ≡ false) where
  append-solid : (xs : List ℕ) → is_empty (xs ++ strip_end ys) ≡ false
  append-solid [] = solid
  append-solid (x ∷ xs) = refl

  pub strip_end-append : (xs : List ℕ) → strip_end (xs ++ ys) ≡ xs ++ strip_end ys
  unfolding strip_end
  strip_end-append [] = refl
  strip_end-append (x ∷ xs) = rw (strip_end-append xs, append-solid xs)

-- A line feed at the end is stripped.
pub strip_end-feed : (xs : List ℕ) → strip_end (xs ++ 10 ∷ []) ≡ strip_end xs
unfolding strip_end
strip_end-feed [] = refl
strip_end-feed (x ∷ xs) = rw (strip_end-feed xs)

pub strip_start-solid : (xs : List ℕ) → starts_solid xs ≡ true → strip_start xs ≡ xs
unfolding strip_start
strip_start-solid [] h = refl
strip_start-solid (x ∷ xs) h = ground arith

pub starts_solid-append : (xs ys : List ℕ) → starts_solid xs ≡ true → starts_solid (xs ++ ys) ≡ true
starts_solid-append [] ys h = cc
starts_solid-append (x ∷ xs) ys h = h

pub solid-is_some : (xs : List ℕ) → starts_solid xs ≡ true → is_empty xs ≡ false
solid-is_some [] h = cc
solid-is_some (x ∷ xs) h = refl

-- What starts solid is not blank.
pub strip-solid : (xs : List ℕ) → starts_solid xs ≡ true → is_empty (strip xs) ≡ false
unfolding strip strip_start strip_end
strip-solid [] h = cc
strip-solid (x ∷ xs) h = ground arith

-- The end of a line, at any boundary.
pub lines_from-boundary :
    (b : ℕ) (rest line read : List ℕ)
    → is_boundary b ≡ true
    → any is_boundary line ≡ false
    → lines_from false read (line ++ b ∷ rest) ≡ (read ++ line) ∷ lines_from (b == 13) [] rest
unfolding lines_from
lines_from-boundary b rest [] read h k = rw (h, append-nil read)
lines_from-boundary b rest (c ∷ cs) read h k =
    let (here, later) = or_neither (is_boundary c) k in
    rw here (
      lines_from-boundary b rest cs (read ++ c ∷ []) h later
      ∙ ap (λ l. l ∷ lines_from (b == 13) [] rest) (append_assoc read (c ∷ []) cs))

-- The last line needs no boundary.
pub lines_from-last :
    (line read : List ℕ)
    → any is_boundary line ≡ false
    → is_empty (read ++ line) ≡ false
    → lines_from false read line ≡ (read ++ line) ∷ []
unfolding lines_from
lines_from-last [] read k full =
    let unread = append-nil read in
    rw (sym (ap is_empty unread) ∙ full) (ap (λ l. l ∷ []) (sym unread))
lines_from-last (c ∷ cs) read k full =
    let (here, later) = or_neither (is_boundary c) k in
    let joined = append_assoc read (c ∷ []) cs in
    rw here (
      lines_from-last cs (read ++ c ∷ []) later (ap is_empty joined ∙ full)
      ∙ ap (λ l. l ∷ []) joined)
