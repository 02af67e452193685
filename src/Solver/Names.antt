-- ===== src/Solver/Names.antt =====
-- The names in dependency strings: `extract_dep_name` of src/package/solver.rs.
use samad_package_manager.Common.{not, Option, none, some, Str, ◌==◌, split_char, take_while, trim}

abbrev pub before_space : Str → Option (Str × Str) → Str
before_space raw none = raw
before_space raw (some (n, rest)) = trim n

-- `split('(').next()` is the text before the first parenthesis. `extract_soname_name` has the same body.
unfoldable pub extract_dep_name : Str → Str
extract_dep_name raw =
    trim (take_while (λ c. not (c == b'(')) (before_space raw (split_char b' ' raw)))
