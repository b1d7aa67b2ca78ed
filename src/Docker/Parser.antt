-- ===== src/Docker/Parser.antt =====
-- src/docker/parser.rs, `parse_dockerfile`.
use memo_build.Prelude.{
  true, ◌||◌, Option, none, some, List, [], ◌∷◌, if◌then◌else◌, ltb, length, drop, Text, codes,
  text_eq, lines, trim, split_whitespace, split_env, starts_with_code, is_empty, to_uppercase,
}
use memo_build.Docker.Instructions.{
  Instruction, from_, workdir, run, cmd, other, copy, env, git, run_extend, copy_extend, hook,
}

-- The arms that take words: the words behind the keyword.
abbrev one_word : (Text → Instruction) → List Text → Option Instruction
one_word make [] = none
one_word make (a ∷ rest) = some (make a)

abbrev two_words : (Text → Text → List Text → Instruction) → List Text → Option Instruction
two_words make [] = none
two_words make (a ∷ []) = none
two_words make (a ∷ b ∷ rest) = some (make a b rest)

-- The target of GIT defaults to the current directory.
unfoldable pub parse_git : List Text → Option Instruction
parse_git [] = none
parse_git (url ∷ []) = some (git url (codes "."))
parse_git (url ∷ target ∷ rest) = some (git url target)

unfoldable pub parse_hook : List Text → Option Instruction
parse_hook [] = none
parse_hook (name ∷ params) = some (hook name params)

unfoldable pub parse_env : Text → Option Instruction
parse_env args = elim (split_env args) [ none ↦ none | some (key, value) ↦ some (env key value) ]

-- What stands behind the keyword: `line[keyword.len()..].trim()`.
unfoldable pub arguments : Text → Text → Text
arguments line keyword =
    if ltb (length keyword) (length line) then trim (drop (length keyword) line) else []

-- The match on the keyword; no instruction is added where the words are too few.
unfoldable pub parse_keyword : Text → Text → List Text → Text → Option Instruction
unfolding parse_git parse_hook parse_env
parse_keyword line keyword words args =
    if text_eq keyword (codes "FROM")
    then one_word from_ words
    else if text_eq keyword (codes "WORKDIR")
    then one_word workdir words
    else if text_eq keyword (codes "COPY")
    then two_words (λ src dst _. copy src dst) words
    else if text_eq keyword (codes "RUN")
    then some (run args)
    else if text_eq keyword (codes "ENV")
    then parse_env args
    else if text_eq keyword (codes "CMD")
    then some (cmd args)
    else if text_eq keyword (codes "GIT")
    then parse_git words
    else if text_eq keyword (codes "RUN_EXTEND")
    then some (run_extend args true)
    else if text_eq keyword (codes "COPY_EXTEND")
    then two_words copy_extend words
    else if text_eq keyword (codes "HOOK")
    then parse_hook words
    else some (other line)

abbrev parse_words : Text → List Text → Option Instruction
parse_words line [] = none
parse_words line (first ∷ words) =
    let keyword = to_uppercase first in parse_keyword line keyword words (arguments line keyword)

-- The body of the loop over the lines.
unfoldable pub parse_line : Text → Option Instruction
unfolding parse_keyword arguments
parse_line raw =
    let line = trim raw in
    if is_empty line || starts_with_code line b'#'
    then none
    else parse_words line (split_whitespace line)

abbrev push_option : Option Instruction → List Instruction → List Instruction
push_option none rest = rest
push_option (some i) rest = i ∷ rest

unfoldable pub parse_lines : List Text → List Instruction
unfolding parse_line
parse_lines [] = []
parse_lines (line ∷ rest) = push_option (parse_line line) (parse_lines rest)

unfoldable pub parse_dockerfile : Text → List Instruction
unfolding parse_lines
parse_dockerfile content = parse_lines (lines content)
