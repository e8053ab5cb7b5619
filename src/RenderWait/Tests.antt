-- ===== src/RenderWait/Tests.antt =====
-- Runs of src/renderWait/matcher.ts, and the theorems on it at them.
use agent_tty.Prelude.{
  ◌≡◌, refl, true, false, none, some, [], ◌∷◌, Text, codes, includes, starts_with, ok, err,
  if◌then◌else◌,
}
use agent_tty.RenderWait.Quantifiers.{has_nested_quantifiers}
use agent_tty.RenderWait.Syntax.{
  once, plus, counted, class_char, class_escape, Pattern, char, class, group, done, ◌then◌,
  print_pattern, nests, IsLiteral, IsPattern,
}
use agent_tty.Session.Number.{pos, negsuc, integer}
use agent_tty.RenderWait.Matcher.{
  RegExp, RenderWaitCondition, PreparedRenderWaitCondition, cursor_line, invalid_input,
  prepare_render_wait_condition,
}
use agent_tty.RenderWait.Snapshot.{
  finite, SemanticSnapshot, RenderWaitSnapshotMatch, snapshot_match, match_render_wait_snapshot,
}
use agent_tty.RenderWait.Matched.{IsSnapshot, Says, match-prepare}
use agent_tty.RenderWait.Nested.{has_nested_quantifiers_lem}

rejects_nested_plus : has_nested_quantifiers (codes "^(?:a|(b[^)*]{2,3}?)\\)+)+$") ≡ true
unfolding has_nested_quantifiers
rejects_nested_plus = refl

accepts_plain_groups : has_nested_quantifiers (codes "(ready|done)+ \\d+[(*)]+ (x)?") ≡ false
unfolding has_nested_quantifiers
accepts_plain_groups = refl

-- A quantifier behind an escaped opening parenthesis is taken for the `?` of a group's prefix.
misses_escaped_parenthesis : has_nested_quantifiers (codes "(\\(*)+") ≡ false
unfolding has_nested_quantifiers
misses_escaped_parenthesis = refl

finds_other_escape : has_nested_quantifiers (codes "(\\)*)+") ≡ true
unfolding has_nested_quantifiers
finds_other_escape = refl

-- `x(?:a[^)\]]{2}?)+`
abbrev nested_pattern : Pattern
nested_pattern =
    char b'x' once
    then group (codes "?:")
        (char b'a' once
          then class (class_char b'^' ∷ class_char b')' ∷ class_escape b']' ∷ [])
              (counted (codes "2") (some []) true)
          then done)
        (plus false)
    then done

prints : print_pattern nested_pattern [] ≡ codes "x(?:a[^)\\]]{2,}?)+"
unfolding print_pattern
prints = refl

abbrev literal_x : IsLiteral b'x'
literal_x = record {
  no_escape = refl;
  no_class = refl;
  no_open = refl;
  no_close = refl;
  no_quantifier = refl;
  no_brace = refl;
}

abbrev literal_a : IsLiteral b'a'
literal_a = record {
  no_escape = refl;
  no_class = refl;
  no_open = refl;
  no_close = refl;
  no_quantifier = refl;
  no_brace = refl;
}

abbrev literal_colon : IsLiteral b':'
literal_colon = record {
  no_escape = refl;
  no_class = refl;
  no_open = refl;
  no_close = refl;
  no_quantifier = refl;
  no_brace = refl;
}

nested_pattern-IsPattern : IsPattern nested_pattern
nested_pattern-IsPattern = (
  (literal_x, tt),
  (
    (
      (refl, (literal_colon, tt)),
      ((literal_a, tt), ((((refl, refl), ((refl, refl), (tt, tt))), (refl, tt, tt)), tt)),
      tt,
    ),
    tt,
  ),
)

has_nested_quantifiers_lem_example :
    has_nested_quantifiers (print_pattern nested_pattern []) ≡ nests nested_pattern
has_nested_quantifiers_lem_example =
    has_nested_quantifiers_lem nested_pattern nested_pattern-IsPattern

-- An expression that is found where its text stands.
abbrev literal_reg_exp : RegExp (Unit {0}) Text
literal_reg_exp = record {
  compile = λ text. ok text;
  exec = λ regex text. if includes regex text then some regex else none;
  is_stateful = λ regex. false;
}

abbrev on_cursor_line : RenderWaitCondition
on_cursor_line = record {
  text = some (codes "$ ");
  regex = none;
  scope = some cursor_line;
  screen_stable_ms = none;
  cursor_row = none;
  cursor_col = some (integer (pos 2));
  after_seq = some (integer (negsuc 0));
}

abbrev two_lines : SemanticSnapshot
two_lines = record {
  visible_lines = codes "ls" ∷ codes "$ " ∷ [];
  cursor_row = integer (pos 1);
  cursor_col = integer (pos 2);
  captured_at_seq = integer (pos 3);
}

abbrev prepared_line : PreparedRenderWaitCondition Text
prepared_line = record { condition = on_cursor_line; compiled_regex = none }

prepares : prepare_render_wait_condition literal_reg_exp on_cursor_line ≡ ok prepared_line
unfolding prepare_render_wait_condition
prepares = refl

rejects_negative_row :
    prepare_render_wait_condition literal_reg_exp
      (record on_cursor_line { cursor_row = some (integer (negsuc 0)) })
    ≡ err (invalid_input "cursorRow must be a non-negative integer")
unfolding prepare_render_wait_condition
rejects_negative_row = refl

matches_line : (snapshot_match literal_reg_exp prepared_line two_lines none).matched ≡ true
unfolding includes starts_with
matches_line = refl

-- The text of another line does not do.
misses_other_line :
    (snapshot_match literal_reg_exp
      (record prepared_line { condition = record on_cursor_line { text = some (codes "ls") } })
      two_lines
      none).matched
    ≡ false
unfolding includes starts_with
misses_other_line = refl

two_lines-IsSnapshot : IsSnapshot two_lines
two_lines-IsSnapshot = record { row = refl; col = refl; seq = refl }

match-prepare_example :
    (m : RenderWaitSnapshotMatch) × (match_render_wait_snapshot literal_reg_exp prepared_line
        two_lines
        (some (finite (pos 250)))
      ≡ ok m)
    × Says literal_reg_exp on_cursor_line two_lines (some (finite (pos 250))) m
match-prepare_example =
    match-prepare literal_reg_exp on_cursor_line prepared_line two_lines (some (finite (pos 250)))
      (λ text r compiles. refl) prepares two_lines-IsSnapshot refl
