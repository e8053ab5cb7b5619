-- ===== src/LineDiff/Tests.antt =====
-- Runs of src/util/lineDiff.ts at two small screens.
use agent_tty.Prelude.{◌≡◌, refl, List, [], ◌∷◌, Text, codes, text_eq}
use agent_tty.LineDiff.Diff.{
  equal, delete, add, diff_lines, common_prefix, suffix_loop, equals, middle_entries, lcs_entries,
  lcs_table, lcs_row, lcs_at, walk, deletes, adds, fallback_entries,
}
use agent_tty.LineDiff.Middle.{diff_lines-IsDiff}
use agent_tty.LineDiff.Sides.{IsDiff}

abbrev before : List Text
before = codes "$ ls" ∷ codes "a" ∷ codes "b" ∷ codes "c" ∷ codes "$" ∷ []

abbrev after : List Text
after = codes "$ ls" ∷ codes "b" ∷ codes "d" ∷ codes "$" ∷ []

diffs :
    diff_lines before after
    ≡ equal (codes "$ ls") 0 0
      ∷ delete (codes "a") 1
      ∷ equal (codes "b") 2 1
      ∷ delete (codes "c") 3
      ∷ add (codes "d") 2
      ∷ equal (codes "$") 4 3
      ∷ []
unfolding diff_lines common_prefix suffix_loop equals middle_entries lcs_entries lcs_table lcs_row
    lcs_at walk deletes adds fallback_entries text_eq
diffs = refl

diff_lines-IsDiff_example : IsDiff before after 0 0 (diff_lines before after)
diff_lines-IsDiff_example = diff_lines-IsDiff before after
