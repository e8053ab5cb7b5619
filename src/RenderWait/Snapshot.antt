-- ===== src/RenderWait/Snapshot.antt =====
-- `matchRenderWaitSnapshot` of src/renderWait/matcher.ts, with src/renderer/canonicalScreen.ts. A
-- measured stability is finite or not, and a finite one is rounded down to whole milliseconds.
use agent_tty.Prelude.{
  ℕ, Bool, true, false, not, ◌&&◌, ◌||◌, Option, none, some, List, [], ◌∷◌, ◌++◌, Text, includes,
  get_elem?, ltb, ◌==◌, if◌then◌else◌, Result, ok, ◌>>◌, invariant, Failure, assertion,
}
use agent_tty.Session.Number.{ℤ, pos, negsuc, Number, integer, non_integer}
use agent_tty.RenderWait.Matcher.{
  RegExp, RenderWaitCondition, PreparedRenderWaitCondition, is_given, is_cursor_line,
  is_non_negative_integer, is_replay_seq, safe_regex_exec,
}

-- The texts of the visible lines are what `canonicalVisibleLines` gives.
pub record SemanticSnapshot : Type 0 where
  pub visible_lines : List Text
  pub cursor_row : Number
  pub cursor_col : Number
  pub captured_at_seq : Number

pub record RenderWaitSnapshotMatch : Type 0 where
  pub matched : Bool
  pub text_matched : Bool
  pub cursor_matched : Bool
  pub stability_matched : Bool
  pub baseline_matched : Bool
  pub content_and_cursor_matched : Bool
  pub matched_text : Option Text
  pub cursor_row : Number
  pub cursor_col : Number
  pub captured_at_seq : Number
  pub visible_lines : List Text

-- `options.stableForMs`, where it is given: NaN and the infinities are not finite.
pub data Milliseconds : Type 0 where
  finite : ℤ → Milliseconds
  not_finite : Milliseconds

-- `Number.isFinite(options.stableForMs) && options.stableForMs >= 0`, where it is given
abbrev is_non_negative_time : Milliseconds → Bool
is_non_negative_time (finite (pos n)) = true
is_non_negative_time (finite (negsuc n)) = false
is_non_negative_time not_finite = false

abbrev pub is_stable_time : Option Milliseconds → Bool
is_stable_time none = true
is_stable_time (some stable_for_ms) = is_non_negative_time stable_for_ms

-- `lines.join('\n')`
unfoldable pub join_lines : List Text → Text
join_lines [] = []
join_lines (line ∷ []) = line
join_lines (line ∷ next ∷ lines) = line ++ b'\n' ∷ join_lines (next ∷ lines)

-- `canonicalVisibleText`
abbrev pub canonical_visible_text : SemanticSnapshot → Text
canonical_visible_text s = join_lines s.visible_lines

-- A row that is a non-negative integer.
abbrev pub row_of : Number → ℕ
row_of (integer (pos n)) = n
row_of (integer (negsuc n)) = 0
row_of non_integer = 0

abbrev pub line_at : List Text → ℕ → Text
line_at lines row = elim (get_elem? lines row) [ none ↦ [] | some line ↦ line ]

-- `matchTarget`
abbrev pub match_target : RenderWaitCondition → SemanticSnapshot → Text
match_target c s =
    if is_cursor_line c.scope
    then line_at s.visible_lines (row_of s.cursor_row)
    else canonical_visible_text s

abbrev pub int_eq : ℤ → ℤ → Bool
int_eq (pos n) (pos m) = n == m
int_eq (pos n) (negsuc m) = false
int_eq (negsuc n) (pos m) = false
int_eq (negsuc n) (negsuc m) = n == m

abbrev pub int_lt : ℤ → ℤ → Bool
int_lt (pos n) (pos m) = ltb n m
int_lt (pos n) (negsuc m) = false
int_lt (negsuc n) (pos m) = true
int_lt (negsuc n) (negsuc m) = ltb m n

-- `===` and `<`, of integers
abbrev pub number_eq : Number → Number → Bool
number_eq (integer n) (integer m) = int_eq n m
number_eq (integer n) non_integer = false
number_eq non_integer m = false

abbrev pub number_lt : Number → Number → Bool
number_lt (integer n) (integer m) = int_lt n m
number_lt (integer n) non_integer = false
number_lt non_integer m = false

abbrev pub is_absent_or : Option Number → (Number → Bool) → Bool
is_absent_or none test = true
is_absent_or (some n) test = test n

-- `>=`, with an integer on the right
abbrev pub at_least : Milliseconds → Number → Bool
at_least (finite n) (integer m) = not (int_lt n m)
at_least (finite n) non_integer = false
at_least not_finite m = false

abbrev pub stable_since : Option Milliseconds → Number → Bool
stable_since none screen_stable_ms = false
stable_since (some stable_for_ms) screen_stable_ms = at_least stable_for_ms screen_stable_ms

module _ {E R : Type 0} (reg_exp : RegExp E R) where
  -- `textMatched` and `matchedText`
  abbrev pub match_text : Option Text → Option R → Text → Bool × Option Text
  match_text (some text) compiled target =
      if includes text target then (true, some text) else (false, none)
  match_text none (some regex) target = elim (safe_regex_exec reg_exp regex target) [
    | none ↦ (false, none)
    | some found ↦ (true, some found)
  ]
  match_text none none target = (true, none)

  abbrev pub is_safe : Option R → Bool
  is_safe none = true
  is_safe (some r) = not (reg_exp.is_stateful r)

  abbrev pub snapshot_match :
      PreparedRenderWaitCondition R
      → SemanticSnapshot
      → Option Milliseconds
      → RenderWaitSnapshotMatch
  snapshot_match p s stable_for_ms =
      let c = p.condition in
      let (text_matched, matched_text) = match_text c.text p.compiled_regex (match_target c s) in
      let cursor_matched =
        is_absent_or c.cursor_row (number_eq s.cursor_row)
        && is_absent_or c.cursor_col (number_eq s.cursor_col) in
      let stability_matched = is_absent_or c.screen_stable_ms (stable_since stable_for_ms) in
      let baseline_matched =
        is_absent_or c.after_seq (λ after_seq. number_lt after_seq s.captured_at_seq) in
      let content_and_cursor_matched = text_matched && cursor_matched in
      record {
        matched = content_and_cursor_matched && stability_matched && baseline_matched;
        text_matched = text_matched;
        cursor_matched = cursor_matched;
        stability_matched = stability_matched;
        baseline_matched = baseline_matched;
        content_and_cursor_matched = content_and_cursor_matched;
        matched_text = matched_text;
        cursor_row = s.cursor_row;
        cursor_col = s.cursor_col;
        captured_at_seq = s.captured_at_seq;
        visible_lines = s.visible_lines;
      }

  -- `matchRenderWaitSnapshot`
  unfoldable pub match_render_wait_snapshot :
      PreparedRenderWaitCondition R
      → SemanticSnapshot
      → Option Milliseconds
      → Result Failure RenderWaitSnapshotMatch
  unfolding join_lines safe_regex_exec includes
  match_render_wait_snapshot p s stable_for_ms = do
    invariant (not (is_given p.condition.regex) || is_given p.compiled_regex) (
        assertion
          "PreparedRenderWaitCondition with regex must have compiledRegex; use prepareRenderWaitCondition()")
    invariant (is_safe p.compiled_regex)
        (assertion "prepared regex must not use stateful global or sticky flags")
    invariant (is_non_negative_integer s.cursor_row)
        (assertion "snapshot cursorRow must be a non-negative integer")
    invariant (is_non_negative_integer s.cursor_col)
        (assertion "snapshot cursorCol must be a non-negative integer")
    invariant (is_replay_seq s.captured_at_seq)
        (assertion "snapshot capturedAtSeq must be an integer of at least -1")
    invariant (is_stable_time stable_for_ms)
        (assertion "stableForMs must be a non-negative finite number when provided")
    ok (snapshot_match p s stable_for_ms)
