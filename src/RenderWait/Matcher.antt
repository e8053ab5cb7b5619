-- ===== src/RenderWait/Matcher.antt =====
-- `prepareRenderWaitCondition` and `matchRenderWaitSnapshot` of src/renderWait/matcher.ts. A compiled
-- expression `R` is a parameter, with what `new RegExp`, `exec` and its flags give; `E` is what
-- `new RegExp` throws. A measured stability is rounded down to whole milliseconds.
use Prim.Native.String.{String}
use agent_tty.Prelude.{
  ℕ, Bool, true, false, not, ◌&&◌, ◌||◌, Option, none, some, Text, length, take, leb, ltb, ◌==◌,
  if◌then◌else◌, Result, ok, err, ◌>>=◌, ◌>>◌, invariant,
}
use agent_tty.Session.Number.{ℤ, pos, negsuc, Number, integer, non_integer, is_positive_integer}
use agent_tty.RenderWait.Quantifiers.{has_nested_quantifiers}

abbrev pub max_wait_for_render_text_length : ℕ
max_wait_for_render_text_length = 1000

abbrev pub max_wait_for_render_regex_length : ℕ
max_wait_for_render_regex_length = 200

abbrev pub max_wait_for_render_regex_text_length : ℕ
max_wait_for_render_regex_text_length = 50000

pub data Scope : Type 0 where
  screen cursor_line : Scope

pub record RenderWaitCondition : Type 0 where
  pub text : Option Text
  pub regex : Option Text
  pub scope : Option Scope
  pub screen_stable_ms : Option Number
  pub cursor_row : Option Number
  pub cursor_col : Option Number
  pub after_seq : Option Number

pub data WaitError (E : Type 0) : Type 0 where
  invalid_input : String → WaitError E
  invalid_regex : E → WaitError E

pub record PreparedRenderWaitCondition (R : Type 0) : Type 0 where
  pub condition : RenderWaitCondition
  pub compiled_regex : Option R

-- `RegExp`: its constructor without flags, `exec(text)?.[0]`, and whether it is global or sticky
pub record RegExp (E R : Type 0) : Type 0 where
  pub compile : Text → Result E R
  pub exec : R → Text → Option Text
  pub is_stateful : R → Bool

abbrev pub is_given {ℓ} : {A : Type ℓ} → Option A → Bool
is_given none = false
is_given (some a) = true

abbrev pub is_cursor_line : Option Scope → Bool
is_cursor_line none = false
is_cursor_line (some screen) = false
is_cursor_line (some cursor_line) = true

-- A length of one character at least, and within the limit; what is absent passes.
abbrev pub has_length_within : ℕ → Option Text → Bool
has_length_within limit none = true
has_length_within limit (some text) = leb 1 (length text) && leb (length text) limit

abbrev is_int_from_zero : ℤ → Bool
is_int_from_zero (pos n) = true
is_int_from_zero (negsuc n) = false

-- `Number.isInteger(n) && n >= 0`
abbrev pub is_non_negative_integer : Number → Bool
is_non_negative_integer (integer n) = is_int_from_zero n
is_non_negative_integer non_integer = false

abbrev is_int_from_minus_one : ℤ → Bool
is_int_from_minus_one (pos n) = true
is_int_from_minus_one (negsuc n) = n == 0

-- `Number.isInteger(n) && n >= -1`
abbrev pub is_replay_seq : Number → Bool
is_replay_seq (integer n) = is_int_from_minus_one n
is_replay_seq non_integer = false

abbrev pub passes : (Number → Bool) → Option Number → Bool
passes test none = true
passes test (some n) = test n

module _ {E R : Type 0} (reg_exp : RegExp E R) where
  abbrev compiled : Result E R → Result (WaitError E) (Option R)
  compiled (ok r) = ok (some r)
  compiled (err e) = err (invalid_regex e)

  unfoldable pub compile_regex : Option Text → Result (WaitError E) (Option R)
  compile_regex none = ok none
  compile_regex (some regex) = do
    invariant (has_length_within max_wait_for_render_regex_length (some regex))
        (invalid_input "Wait regex pattern must be between 1 and 200 characters")
    invariant (not (has_nested_quantifiers regex)) (
        invalid_input
          "Regex pattern contains nested quantifiers which may cause catastrophic backtracking. Simplify the pattern.")
    compiled (reg_exp.compile regex)

  -- `prepareRenderWaitCondition`
  unfoldable pub prepare_render_wait_condition :
      RenderWaitCondition → Result (WaitError E) (PreparedRenderWaitCondition R)
  unfolding compile_regex
  prepare_render_wait_condition c = do
    invariant (not (is_cursor_line c.scope && not (is_given c.text || is_given c.regex)))
        (invalid_input "scope 'cursor-line' requires a text or regex condition")
    invariant
        (is_given c.text
          || is_given c.regex
          || is_given c.screen_stable_ms
          || is_given c.cursor_row
          || is_given c.cursor_col)
        (invalid_input
          "waitForRender requires at least one of text, regex, screenStableMs, cursorRow, or cursorCol")
    invariant (not (is_given c.text && is_given c.regex))
        (invalid_input "waitForRender text and regex filters are mutually exclusive")
    invariant (has_length_within max_wait_for_render_text_length c.text)
        (invalid_input "Wait text must be between 1 and 1000 characters")
    compiled_regex ← compile_regex c.regex
    invariant (passes is_positive_integer c.screen_stable_ms)
        (invalid_input "screenStableMs must be a positive integer")
    invariant (passes is_non_negative_integer c.cursor_row)
        (invalid_input "cursorRow must be a non-negative integer")
    invariant (passes is_non_negative_integer c.cursor_col)
        (invalid_input "cursorCol must be a non-negative integer")
    invariant (passes is_replay_seq c.after_seq)
        (invalid_input "afterSeq must be an integer of at least -1")
    ok (record { condition = c; compiled_regex = compiled_regex })

  -- `safeRegexExec`, and the text that matches
  unfoldable pub safe_regex_exec : R → Text → Option Text
  safe_regex_exec regex text = reg_exp.exec regex (
      if ltb max_wait_for_render_regex_text_length (length text)
      then take max_wait_for_render_regex_text_length text
      else text)
