-- ===== src/Vault/Tests.antt =====
-- apps/control-plane/src/server/vault at concrete inputs.
mod Rotating
use keevault.Base.{Option, some, [], ◌∷◌, ◌++◌, ◌≡◌, refl}
use keevault.Crypto.Text.{Text, codes, index_of, starts_with, same_text}
use keevault.Crypto.Text.Lines.{split}
use keevault.Vault.Dotenv.{
  ProblemReason, lines_of, parse_dotenv, parse_lines, read_line, read_trimmed_line, without_export,
  at_separator, read_assignment, secret_name_pattern, read_value, read_trimmed, read_quoted,
  ends_with, without_last, expand_double_quoted, escaped, strip_trailing_comment, trim, trim_start,
  trim_end, is_space, set_entry, strip_mark, strip_returns, strip_return,
}
use keevault.Vault.Dotenv.Laws.{
  WellFormed, lookup, last_assigned, parse_dotenv-WellFormed, lookup-parse_dotenv,
}
use keevault.Vault.Dotenv.Quotes.{quote, read_value-quoted}

-- A file with a comment, two assignments of one name, quotes and a line that is none.
abbrev file : Text
file =
    codes
      "# local\r\nexport PORT=80 # web\r\n\nTOKEN='a # b'\nPORT = \"8\\t0\"\nnot a line\nlower=1"

parsed : parse_dotenv file ≡ record {
  entries =
      record { name = codes "PORT"; value = codes "8\t0" }
      ∷ record { name = codes "TOKEN"; value = codes "a # b" }
      ∷ [];
  problems =
      record { line_number = 6; reason = ProblemReason.malformed_line; name = Option.none }
      ∷ record { line_number = 7; reason = ProblemReason.invalid_name; name = some (codes "lower") }
      ∷ [];
}
unfolding parse_dotenv lines_of parse_lines read_line read_trimmed_line without_export at_separator
    read_assignment secret_name_pattern read_value read_trimmed read_quoted ends_with without_last
    expand_double_quoted escaped strip_trailing_comment trim trim_start trim_end is_space set_entry
    strip_mark strip_returns strip_return split index_of starts_with same_text
parsed = refl

parse_dotenv-WellFormed_example : WellFormed (parse_dotenv file)
parse_dotenv-WellFormed_example = parse_dotenv-WellFormed file

lookup-parse_dotenv_example :
    lookup (codes "PORT") (parse_dotenv file).entries ≡ last_assigned (codes "PORT") (lines_of file)
lookup-parse_dotenv_example = lookup-parse_dotenv (codes "PORT") file

read_value-quoted_example :
    (read_value (39 ∷ codes "a\"b" ++ 39 ∷ []) ≡ some (codes "a\"b"))
    × (read_value (34 ∷ quote (codes "a\"b") ++ 34 ∷ []) ≡ some (codes "a\"b"))
read_value-quoted_example = read_value-quoted (codes "a\"b")
