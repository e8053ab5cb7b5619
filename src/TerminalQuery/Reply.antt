-- ===== src/TerminalQuery/Reply.antt =====
-- src/pty/terminalQueryResponder.ts: the replies to the queries that are answered.
use Prim.Native.String.{String}
use agent_tty.Prelude.{
  split, ℕ, ◌+◌, ◌-◌, ◌*◌, ◌/◌, ◌%◌, Bool, true, false, ◌&&◌, ◌||◌, Option, none, some, List, [],
  ◌∷◌, ◌++◌, map, Text, codes, text_eq, starts_with, take, drop, length, leb, ltb, ◌==◌,
  if◌then◌else◌, Result, invariant, Failure, assertion,
}

abbrev pub escape_code : ℕ
escape_code = 0x1b

-- `ESC \`
abbrev pub string_terminator : Text
string_terminator = escape_code ∷ b'\\' ∷ []

abbrev pub max_dcs_payload_length : ℕ
max_dcs_payload_length = 256

-- `[0-9a-fA-F]`
abbrev pub is_hex_digit : ℕ → Bool
is_hex_digit c = leb b'0' c && leb c b'9' || leb b'a' c && leb c b'f' || leb b'A' c && leb c b'F'

unfoldable pub are_hex_digits : Text → Bool
are_hex_digits [] = true
are_hex_digits (c ∷ text) = is_hex_digit c && are_hex_digits text

-- `/^#[0-9a-fA-F]{6}$/u.test(value)`
unfoldable pub is_hex_color : Text → Bool
unfolding are_hex_digits starts_with
is_hex_color value =
    starts_with (codes "#") value && length value == 7 && are_hex_digits (drop 1 value)

-- `assertHexColor`, with its message for a label
abbrev pub assert_hex_color : Text → String → Result Failure (Unit {0})
assert_hex_color value message = invariant (is_hex_color value) (assertion message)

-- `toLowerCase`, of a hex digit
abbrev to_lower : ℕ → ℕ
to_lower c = if leb b'A' c && leb c b'Z' then c + 32 else c

-- `hexColor.slice(from, from + 2).toLowerCase()`
abbrev color_channel : ℕ → Text → Text
color_channel from hex_color = map to_lower (take 2 (drop from hex_color))

-- `toOscColorPayload`
abbrev pub to_osc_color_payload : Text → Text
to_osc_color_payload hex_color =
    let red = color_channel 1 hex_color in
    let green = color_channel 3 hex_color in
    let blue = color_channel 5 hex_color in
    codes "rgb:" ++ (red ++ (red ++ b'/' ∷ (green ++ (green ++ b'/' ∷ (blue ++ blue)))))

-- Pairs of hex digits to their ends.
unfoldable pub are_hex_pairs : Text → Bool
are_hex_pairs [] = true
are_hex_pairs (a ∷ []) = false
are_hex_pairs (a ∷ b ∷ text) = is_hex_digit a && is_hex_digit b && are_hex_pairs text

-- `/^(?:[0-9a-fA-F]{2})+$/u.test(hexName)`
unfoldable pub is_hex_name : Text → Bool
unfolding are_hex_pairs
is_hex_name [] = false
is_hex_name (a ∷ text) = are_hex_pairs (a ∷ text)

-- The value of a hex digit.
abbrev pub hex_value : ℕ → ℕ
hex_value c = if leb c b'9' then c - b'0' else if leb c b'F' then c - b'A' + 10 else c - b'a' + 10

-- `Buffer.from(hexName, 'hex').toString('latin1')`
unfoldable pub hex_decode : Text → Text
hex_decode [] = []
hex_decode (a ∷ []) = []
hex_decode (a ∷ b ∷ text) = (16 * hex_value a + hex_value b) ∷ hex_decode text

abbrev pub upper_hex_digit : ℕ → ℕ
upper_hex_digit v = if ltb v 10 then b'0' + v else b'A' + (v - 10)

-- `Buffer.from(value, 'latin1').toString('hex').toUpperCase()`
unfoldable pub hex_encode : Text → Text
hex_encode [] = []
hex_encode (c ∷ text) = upper_hex_digit (c / 16) ∷ upper_hex_digit (c % 16) ∷ hex_encode text

-- `XTGETTCAP_CAPABILITIES`: a boolean capability has no value.
abbrev pub xtgettcap_capabilities : List (Text × Option Text)
xtgettcap_capabilities =
    (codes "Tc", none)
    ∷ (codes "RGB", none)
    ∷ (codes "setrgbf", some (codes "\\E[38;2;%p1%d;%p2%d;%p3%dm"))
    ∷ (codes "setrgbb", some (codes "\\E[48;2;%p1%d;%p2%d;%p3%dm"))
    ∷ []

unfoldable pub get_capability : Text → List (Text × Option Text) → Option (Option Text)
get_capability name [] = none
get_capability name (p ∷ capabilities) =
    let rest = get_capability name capabilities in if text_eq p.0 name then some p.1 else rest

abbrev pub encoded_value : Option Text → Text
encoded_value none = []
encoded_value (some value) = b'=' ∷ hex_encode value

abbrev pub capability_reply : Text → Option (Option Text) → Text
capability_reply hex_name none = []
capability_reply hex_name (some value) =
    escape_code ∷ codes "P1+r" ++ (hex_name ++ (encoded_value value ++ string_terminator))

-- `answerXtgettcapName`
unfoldable pub answer_xtgettcap_name : Text → Text
unfolding hex_decode hex_encode get_capability is_hex_name
answer_xtgettcap_name hex_name =
    if is_hex_name hex_name
    then capability_reply hex_name (get_capability (hex_decode hex_name) xtgettcap_capabilities)
    else []

-- `names.map(answerXtgettcapName).join('')`
unfoldable pub answer_names : List Text → Text
unfolding answer_xtgettcap_name
answer_names [] = []
answer_names (name ∷ names) = answer_xtgettcap_name name ++ answer_names names

-- `dispatchDcs`, what it replies
unfoldable pub dcs_reply : Text → Text
unfolding answer_names split starts_with text_eq
dcs_reply payload =
    if ltb max_dcs_payload_length (length payload)
    then []
    else if starts_with (codes "+q") payload
    then answer_names (split b';' (drop 2 payload))
    else if text_eq payload (codes "$qm")
    then escape_code ∷ codes "P0$r" ++ string_terminator
    else []

-- The answer of `stepCsi` to a final byte.
unfoldable pub csi_reply : Text → ℕ → Text
unfolding text_eq
csi_reply params final =
    if text_eq params (codes "5") && final == b'n' then escape_code ∷ codes "[0n" else []
