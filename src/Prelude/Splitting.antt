-- ===== src/Prelude/Splitting.antt =====
-- JavaScript text in parts: `split` and `trim`.
use Prim.Native.Nat.{ℕ}
use mathlib.Core.Bool.{Bool, ◌&&◌, ◌||◌}
use mathlib.Core.List.{List, [], ◌∷◌}
use agent_tty.Prelude.Tests.{◌==◌, leb, if◌then◌else◌}
use agent_tty.Prelude.CodeUnits.{Text}

abbrev pub prepend : ℕ → List Text → List Text
prepend c [] = (c ∷ []) ∷ []
prepend c (part ∷ parts) = (c ∷ part) ∷ parts

-- `text.split(separator)`
unfoldable pub split : ℕ → Text → List Text
split separator [] = [] ∷ []
split separator (c ∷ text) =
    let rest = split separator text in if c == separator then [] ∷ rest else prepend c rest

-- White space and line ends, as `trim` takes them off.
abbrev pub is_white_space : ℕ → Bool
is_white_space c =
    leb 0x09 c && leb c 0x0d
    || c == 0x20
    || c == 0xa0
    || c == 0x1680
    || leb 0x2000 c && leb c 0x200a
    || c == 0x2028
    || c == 0x2029
    || c == 0x202f
    || c == 0x205f
    || c == 0x3000
    || c == 0xfeff

unfoldable pub trim_start : Text → Text
trim_start [] = []
trim_start (c ∷ text) = if is_white_space c then trim_start text else c ∷ text

abbrev pub keep_before_end : ℕ → Text → Text
keep_before_end c [] = if is_white_space c then [] else c ∷ []
keep_before_end c (d ∷ text) = c ∷ d ∷ text

unfoldable pub trim_end : Text → Text
trim_end [] = []
trim_end (c ∷ text) = keep_before_end c (trim_end text)

-- `text.trim()`
unfoldable pub trim : Text → Text
unfolding trim_start trim_end
trim text = trim_end (trim_start text)
