-- ===== src/EventLog/Text.antt =====
-- Python's `str.strip` and `str.splitlines`, on the code points of a text.
use agent_cdp.Prelude.{
  ℕ, Bool, false, ◌&&◌, ◌||◌, List, [], ◌∷◌, ◌++◌, is_empty, leb, ◌==◌, if◌then◌else◌,
}

abbrev between : ℕ → ℕ → ℕ → Bool
between low high c = leb low c && leb c high

-- `str.isspace`
abbrev pub is_space : ℕ → Bool
is_space c =
    between 9 13 c
    || between 28 32 c
    || c == 0x85
    || c == 0xa0
    || c == 0x1680
    || between 0x2000 0x200a c
    || c == 0x2028
    || c == 0x2029
    || c == 0x202f
    || c == 0x205f
    || c == 0x3000

-- The code points at which `splitlines` ends a line.
abbrev pub is_boundary : ℕ → Bool
is_boundary c = between 10 13 c || between 28 30 c || c == 0x85 || c == 0x2028 || c == 0x2029

unfoldable pub strip_start : List ℕ → List ℕ
strip_start [] = []
strip_start (c ∷ cs) = let rest = strip_start cs in if is_space c then rest else c ∷ cs

unfoldable pub strip_end : List ℕ → List ℕ
strip_end [] = []
strip_end (c ∷ cs) = let rest = strip_end cs in if is_empty rest && is_space c then [] else c ∷ rest

unfoldable pub strip : List ℕ → List ℕ
unfolding strip_start strip_end
strip cs = strip_start (strip_end cs)

-- `line` is what has been read of the current line; a line feed right after a carriage return
-- belongs to the same end of line.
unfoldable pub lines_from : Bool → List ℕ → List ℕ → List (List ℕ)
lines_from after_return line [] = if is_empty line then [] else line ∷ []
lines_from after_return line (c ∷ cs) =
    let same = lines_from false line cs in
    let next = line ∷ lines_from (c == 13) [] cs in
    let more = lines_from false (line ++ c ∷ []) cs in
    if after_return && c == 10 then same else if is_boundary c then next else more

unfoldable pub split_lines : List ℕ → List (List ℕ)
unfolding lines_from
split_lines cs = lines_from false [] cs
