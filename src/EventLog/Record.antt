-- ===== src/EventLog/Record.antt =====
-- The event records of src/protocol/schemas.ts and their payload checks. A count, a size or a
-- position is a native number, so the schemas' integer and non-negative checks hold by type.
use agent_tty.Prelude.{
  ℕ, Bool, true, false, not, ◌&&◌, ◌||◌, Option, none, some, is_none, is_some, List, [], ◌∷◌, Text,
  ltb, leb, ◌==◌,
}
use agent_tty.Session.Number.{ℤ}

pub data MouseAction : Type 0 where
  press release move : MouseAction

pub record MouseInput : Type 0 where
  pub action : MouseAction
  pub has_button : Bool
  pub row : ℕ
  pub col : ℕ
  pub cell_width : Option ℕ
  pub cell_height : Option ℕ
  pub renderer_backend : Text
  pub data_base64 : Text

pub data Payload : Type 0 where
  output : Text → Payload
  input_text : Text → Payload
  input_paste : Text → Payload
  input_keys : List Text → Payload
  input_mouse : MouseInput → Payload
  input_run : Text → Option Text → Bool → Payload
  run_complete : Text → Option ℕ → Payload
  resize : ℕ → ℕ → Payload
  signal : Text → Payload
  exit : Option ℤ → Option Text → Payload
  marker : Text → Payload

pub record EventRecord : Type 0 where
  pub seq : ℕ
  pub ts : Text
  pub payload : Payload

abbrev pub is_exit : Payload → Bool
is_exit (exit code sig) = true
is_exit _ = false

-- `z.string().min(1)`
abbrev is_non_empty : Text → Bool
is_non_empty [] = false
is_non_empty (c ∷ text) = true

abbrev all_non_empty : List Text → Bool
all_non_empty [] = true
all_non_empty (k ∷ keys) = is_non_empty k && all_non_empty keys

abbrev is_non_empty_list : List Text → Bool
is_non_empty_list [] = false
is_non_empty_list (k ∷ keys) = true

abbrev is_positive_or_absent : Option ℕ → Bool
is_positive_or_absent none = true
is_positive_or_absent (some n) = ltb 0 n

-- `[A-Za-z0-9+/]`
abbrev is_base64_char : ℕ → Bool
is_base64_char c =
    leb b'A' c && leb c b'Z'
    || leb b'a' c && leb c b'z'
    || leb b'0' c && leb c b'9'
    || c == b'+'
    || c == b'/'

-- The last quantum of the pattern may be padded: `..==` or `...=`.
abbrev is_base64 : Text → Bool
is_base64 [] = true
is_base64 (a ∷ b ∷ c ∷ d ∷ []) =
    is_base64_char a
    && is_base64_char b
    && (is_base64_char c && is_base64_char d
        || c == b'=' && d == b'='
        || is_base64_char c && d == b'=')
is_base64 (a ∷ b ∷ c ∷ d ∷ e ∷ rest) =
    is_base64_char a
    && is_base64_char b
    && is_base64_char c
    && is_base64_char d
    && is_base64 (e ∷ rest)
is_base64 _ = false

-- A move has no button; a press and a release have one.
abbrev button_fits : MouseAction → Bool → Bool
button_fits move has_button = not has_button
button_fits _ has_button = has_button

-- InputMouseEventPayloadSchema
abbrev is_valid_mouse : MouseInput → Bool
is_valid_mouse m =
    is_positive_or_absent m.cell_width
    && is_positive_or_absent m.cell_height
    && is_non_empty m.renderer_backend
    && is_base64 m.data_base64
    && button_fits m.action m.has_button

-- InputRunEventPayloadSchema: a waited run has a marker, a run that is not waited for has none.
abbrev marker_fits : Option Text → Bool → Bool
marker_fits m no_wait = (no_wait || is_some m) && (not no_wait || is_none m)

-- `validatePayload`: whether the payload matches the schema of its type.
unfoldable pub is_valid_payload : Payload → Bool
is_valid_payload (input_keys keys) = is_non_empty_list keys && all_non_empty keys
is_valid_payload (input_mouse m) = is_valid_mouse m
is_valid_payload (input_run command m no_wait) = is_non_empty command && marker_fits m no_wait
is_valid_payload (resize cols rows) = ltb 0 cols && ltb 0 rows
is_valid_payload (signal name) = is_non_empty name
is_valid_payload _ = true
