-- ===== src/Commands/Parser.antt =====
-- internal/commands/parser.go
use reticulum_group_chat.Base.{Bool, ◌||◌, not, List, [], ◌∷◌, nat_beq, if◌then◌else◌}
use reticulum_group_chat.Base.Text.{
  Bytes, trim_left, trim_space, has_prefix, trim_prefix, fields, to_lower,
}

unfoldable pub is_command : Bytes → Bool
is_command content = has_prefix (trim_left (λ c. nat_beq c 32 || nat_beq c 9) content) (b'/' ∷ [])

pub record Parsed : Type 0 where
  pub name : Bytes
  pub args : List Bytes
  pub rest : Bytes
  pub raw : Bytes

no_command : Bytes → Parsed
no_command content = record { name = []; args = []; rest = []; raw = content }

parse_words : Bytes → Bytes → List Bytes → Parsed
unfolding no_command
parse_words content rest [] = no_command content
parse_words content rest (word ∷ words) = record {
  name = to_lower word;
  args = words;
  rest = trim_space (trim_prefix rest word);
  raw = content;
}

unfoldable pub parse : Bytes → Parsed
unfolding no_command parse_words
parse content =
    let trimmed = trim_space content in
    let rest = trim_prefix trimmed (b'/' ∷ []) in
    if not (has_prefix trimmed (b'/' ∷ []))
    then no_command content
    else parse_words content rest (fields rest)
