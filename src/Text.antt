-- ===== src/Text.antt =====
-- Strings of the source as lists of UTF-16 code units, with `trim`.
use project_logictic.Prelude.{ℕ, ◌&&◌, ◌||◌, Bool, List, [], ◌∷◌, if◌then◌else◌, leb}
use project_logictic.Prelude.Eq.{◌==◌, nat_eq}

abbrev pub Text : Type 0
Text = List ℕ

-- What `String.prototype.trim` removes: white space and line ends.
unfoldable pub is_space : ℕ → Bool
is_space c =
    leb 9 c && leb c 13
    || c == 32
    || c == 160
    || c == 5760
    || leb 8192 c && leb c 8202
    || c == 8232
    || c == 8233
    || c == 8239
    || c == 8287
    || c == 12288
    || c == 65279

unfoldable pub trim_start : Text → Text
trim_start [] = []
trim_start (c ∷ cs) = if is_space c then trim_start cs else c ∷ cs

-- A last blank goes, with all blanks behind it.
keep_unless_last_blank : ℕ → Text → Text
keep_unless_last_blank c [] = if is_space c then [] else c ∷ []
keep_unless_last_blank c (d ∷ ds) = c ∷ d ∷ ds

unfoldable pub trim_end : Text → Text
unfolding keep_unless_last_blank
trim_end [] = []
trim_end (c ∷ cs) = keep_unless_last_blank c (trim_end cs)

unfoldable pub trim : Text → Text
unfolding trim_start trim_end is_space
trim t = trim_end (trim_start t)
