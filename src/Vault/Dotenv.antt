-- ===== src/Vault/Dotenv.antt =====
-- apps/control-plane/src/server/vault/dotenv.ts, with the name pattern of validation.ts. A text is the
-- list of its code units.
pub mod Laws
pub mod Quotes
use keevault.Base.{
  ℕ, zero, suc, ◌+◌, Bool, true, false, not, ◌&&◌, ◌||◌, Option, none, some, List, [], ◌∷◌, ◌++◌,
  map, length, all, is_empty, ltb, leb, ◌==◌, if◌then◌else◌,
}
use keevault.Crypto.Text.{Text, codes, index_of, starts_with, take, drop, same_text}
use keevault.Crypto.Text.Lines.{split}

pub record DotenvEntry : Type 0 where
  pub name : Text
  pub value : Text

pub data ProblemReason : Type 0 where
  malformed_line invalid_name unterminated_quote : ProblemReason

pub record DotenvProblem : Type 0 where
  pub line_number : ℕ
  pub reason : ProblemReason
  pub name : Option Text

pub record DotenvParseResult : Type 0 where
  pub entries : List DotenvEntry
  pub problems : List DotenvProblem

-- What `trim` removes and `\s` matches.
unfoldable pub is_space : ℕ → Bool
is_space c =
    (leb 9 c && leb c 13)
    || c == 32
    || c == 0xa0
    || c == 0x1680
    || (leb 0x2000 c && leb c 0x200a)
    || c == 0x2028
    || c == 0x2029
    || c == 0x202f
    || c == 0x205f
    || c == 0x3000
    || c == 0xfeff

unfoldable pub trim_start : Text → Text
unfolding is_space
trim_start [] = []
trim_start (c ∷ t) = elim (is_space c) [ true ↦ trim_start t | false ↦ c ∷ t ]

unfoldable pub trim_end : Text → Text
unfolding is_space
trim_end [] = []
trim_end (c ∷ t) = let rest = trim_end t in if is_empty rest && is_space c then [] else c ∷ rest

unfoldable pub trim : Text → Text
unfolding trim_start trim_end
trim t = trim_end (trim_start t)

-- `SECRET_NAME_PATTERN`.
abbrev pub is_upper : ℕ → Bool
is_upper c = leb b'A' c && leb c b'Z'

abbrev pub is_name_start : ℕ → Bool
is_name_start c = is_upper c || c == b'_'

abbrev pub is_name_part : ℕ → Bool
is_name_part c = is_name_start c || (leb b'0' c && leb c b'9')

unfoldable pub secret_name_pattern : Text → Bool
secret_name_pattern [] = false
secret_name_pattern (c ∷ t) = is_name_start c && all is_name_part t && leb (length t) 255

-- `DOUBLE_QUOTE_ESCAPES.get(next)`, or the backslash and the character that stand there.
unfoldable pub escaped : ℕ → Text
escaped next =
    if next == b'n'
    then 10 ∷ []
    else if next == b'r'
    then 13 ∷ []
    else if next == b't'
    then 9 ∷ []
    else if next == b'b'
    then 8 ∷ []
    else if next == b'f'
    then 12 ∷ []
    else if next == 34
    then 34 ∷ []
    else if next == 92
    then 92 ∷ []
    else if next == b'$'
    then b'$' ∷ []
    else 92 ∷ next ∷ []

unfoldable pub expand_double_quoted : Text → Text
unfolding escaped
expand_double_quoted [] = []
expand_double_quoted (c ∷ []) = c ∷ []
expand_double_quoted (c ∷ next ∷ t) = elim (c == 92) [
  | true ↦ escaped next ++ expand_double_quoted t
  | false ↦ c ∷ expand_double_quoted (next ∷ t)
]

unfoldable pub strip_trailing_comment : Text → Text
unfolding is_space
strip_trailing_comment [] = []
strip_trailing_comment (c ∷ []) = c ∷ []
strip_trailing_comment (c ∷ d ∷ t) = elim (is_space c && d == b'#') [
  | true ↦ []
  | false ↦ c ∷ strip_trailing_comment (d ∷ t)
]

-- `trimmed.endsWith(opener)` and `trimmed.slice(1, -1)`, of the text after the opener.
unfoldable pub ends_with : ℕ → Text → Bool
ends_with opener [] = false
ends_with opener (c ∷ []) = c == opener
ends_with opener (c ∷ d ∷ t) = ends_with opener (d ∷ t)

unfoldable pub without_last : Text → Text
without_last [] = []
without_last (c ∷ []) = []
without_last (c ∷ d ∷ t) = c ∷ without_last (d ∷ t)

-- A value whose quote is not closed is `none`.
unfoldable pub read_quoted : ℕ → Text → Option Text
unfolding ends_with without_last expand_double_quoted
read_quoted opener after =
    if not (ends_with opener after)
    then none
    else if opener == 34
    then some (expand_double_quoted (without_last after))
    else some (without_last after)

unfoldable pub read_trimmed : Text → Option Text
unfolding read_quoted strip_trailing_comment trim_end
read_trimmed [] = some []
read_trimmed (opener ∷ after) =
    if opener == 34 || opener == 39
    then read_quoted opener after
    else some (trim_end (strip_trailing_comment (opener ∷ after)))

unfoldable pub read_value : Text → Option Text
unfolding trim read_trimmed
read_value raw = read_trimmed (trim raw)

-- What one line gives.
pub data LineResult : Type 0 where
  skipped : LineResult
  problem : ProblemReason → Option Text → LineResult
  assigned : Text → Text → LineResult

unfoldable pub read_assignment : Text → Text → LineResult
unfolding secret_name_pattern read_value
read_assignment name raw =
    if not (secret_name_pattern name)
    then problem invalid_name (some (take 64 name))
    else elim (read_value raw) [
      | none ↦ problem unterminated_quote (some name)
      | some value ↦ assigned name value
    ]

unfoldable pub at_separator : Option ℕ → Text → LineResult
unfolding trim read_assignment
at_separator none assignment = problem malformed_line none
at_separator (some zero) assignment = problem malformed_line none
at_separator (some (suc before)) assignment =
    read_assignment (trim (take (suc before) assignment)) (drop (suc (suc before)) assignment)

unfoldable pub without_export : Text → Text
unfolding starts_with
without_export trimmed = if starts_with (codes "export ") trimmed then drop 7 trimmed else trimmed

unfoldable pub read_trimmed_line : Text → LineResult
unfolding index_of starts_with without_export at_separator
read_trimmed_line trimmed =
    if is_empty trimmed || starts_with (codes "#") trimmed
    then skipped
    else at_separator (index_of (without_export trimmed) b'=') (without_export trimmed)

unfoldable pub read_line : Text → LineResult
unfolding trim read_trimmed_line
read_line line = read_trimmed_line (trim line)

-- `byName.set(name, value)`: a name that is there keeps its place.
unfoldable pub set_entry : Text → Text → List DotenvEntry → List DotenvEntry
unfolding same_text
set_entry name value [] = record { name = name; value = value } ∷ []
set_entry name value (entry ∷ entries) =
    let rest = set_entry name value entries in
    if same_text entry.name name
    then record { name = name; value = value } ∷ entries
    else entry ∷ rest

abbrev pub after_line : ℕ → LineResult → DotenvParseResult → DotenvParseResult
after_line line_number skipped so_far = so_far
after_line line_number (problem reason name) so_far = record so_far {
  problems =
      so_far.problems ++ record { line_number = line_number; reason = reason; name = name } ∷ [];
}
after_line line_number (assigned name value) so_far = record so_far {
  entries = set_entry name value so_far.entries;
}

unfoldable pub parse_lines : ℕ → List Text → DotenvParseResult → DotenvParseResult
unfolding read_line set_entry
parse_lines index [] so_far = so_far
parse_lines index (line ∷ lines) so_far =
    parse_lines (suc index) lines (after_line (index + 1) (read_line line) so_far)

-- `text.replace` of a byte order mark at the start.
unfoldable pub strip_mark : Text → Text
strip_mark [] = []
strip_mark (c ∷ t) = if c == 0xfeff then t else c ∷ t

-- A carriage return that stands before a line feed goes with it.
unfoldable pub strip_return : Text → Text
strip_return [] = []
strip_return (c ∷ []) = if c == 13 then [] else c ∷ []
strip_return (c ∷ d ∷ t) = c ∷ strip_return (d ∷ t)

unfoldable pub strip_returns : List Text → List Text
unfolding strip_return
strip_returns [] = []
strip_returns (line ∷ []) = line ∷ []
strip_returns (line ∷ next ∷ lines) = strip_return line ∷ strip_returns (next ∷ lines)

-- `split(/\r?\n/)`, after the mark.
unfoldable pub lines_of : Text → List Text
unfolding split strip_mark strip_returns
lines_of text = strip_returns (split 10 (strip_mark text))

unfoldable pub parse_dotenv : Text → DotenvParseResult
unfolding lines_of parse_lines
parse_dotenv text = parse_lines 0 (lines_of text) (record { entries = []; problems = [] })
