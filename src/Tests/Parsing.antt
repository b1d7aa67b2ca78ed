-- ===== src/Tests/Parsing.antt =====
-- The parse of a Dockerfile, and one of its lines.
use memo_build.Prelude.{
  ◌≡◌, refl, [], ◌∷◌, ◌++◌, codes, lines, trim, trim_start, trim_end, split_whitespace, split_env,
}
use memo_build.Docker.Instructions.{from_, run, env, git}
use memo_build.Docker.Parser.{
  parse_dockerfile, parse_lines, parse_line, parse_keyword, parse_env, parse_git, arguments,
}

parse_dockerfile-sample :
    parse_dockerfile (
      codes "# base"
      ++ 10 ∷ codes "from alpine"
      ++ 10 ∷ codes "ENV A=b c"
      ++ 10 ∷ 10 ∷ codes " git x "
      ++ 10 ∷ codes "RUN  make all")
    ≡ from_ (codes "alpine")
      ∷ env (codes "A") (codes "b c")
      ∷ git (codes "x") (codes ".")
      ∷ run (codes "make all")
      ∷ []
unfolding parse_dockerfile parse_lines parse_line parse_keyword parse_env parse_git arguments lines
    trim trim_start trim_end split_whitespace split_env
parse_dockerfile-sample = refl
