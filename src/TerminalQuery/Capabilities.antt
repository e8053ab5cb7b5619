-- ===== src/TerminalQuery/Capabilities.antt =====
-- The XTGETTCAP replies of src/pty/terminalQueryResponder.ts: hex names and values, read back.
use agent_tty.Prelude.{
  ℕ, ◌+◌, ◌*◌, ◌/◌, ◌%◌, ◌<◌, ◌≡◌, refl, ap₂, ◌∙◌, true, some, [], ◌∷◌, ◌++◌, Text, All, codes,
  arith, Bool-cases, ltb, inl, inr,
}
use agent_tty.TerminalQuery.Reply.{
  escape_code, string_terminator, is_hex_digit, are_hex_pairs, is_hex_name, hex_value, hex_decode,
  upper_hex_digit, hex_encode, get_capability, xtgettcap_capabilities, answer_xtgettcap_name,
}

-- Characters of one byte.
abbrev pub IsLatin1 : Text → Type 0
IsLatin1 text = All (λ c. c < 256) text

hex_value-upper : (v : ℕ) → v < 16 → hex_value (upper_hex_digit v) ≡ v
hex_value-upper v small = elim (Bool-cases (ltb v 10)) [
  | inl digit ↦ ground (arith, digit)
  | inr letter ↦ ground (arith, letter, small)
]

is_hex-upper : (v : ℕ) → v < 16 → is_hex_digit (upper_hex_digit v) ≡ true
is_hex-upper v small = elim (Bool-cases (ltb v 10)) [
  | inl digit ↦ ground (arith, digit)
  | inr letter ↦ ground (arith, letter, small)
]

halves : (c : ℕ) → c < 256 → (c / 16 < 16) × (c % 16 < 16) × (16 * (c / 16) + c % 16 ≡ c)
halves c small = (omega arith, omega arith, omega arith)

pub hex_decode-hex_encode : (text : Text) → IsLatin1 text → hex_decode (hex_encode text) ≡ text
unfolding hex_decode hex_encode
hex_decode-hex_encode [] small = refl
hex_decode-hex_encode (c ∷ text) (small, others) =
    let (high, low, whole) = halves c small in
    ap₂ (λ x xs. x ∷ xs)
      (ap₂ (λ h l. 16 * h + l) (hex_value-upper (c / 16) high) (hex_value-upper (c % 16) low)
        ∙ whole)
      (hex_decode-hex_encode text others)

are_hex_pairs-hex_encode : (text : Text) → IsLatin1 text → are_hex_pairs (hex_encode text) ≡ true
unfolding are_hex_pairs hex_encode
are_hex_pairs-hex_encode [] small = refl
are_hex_pairs-hex_encode (c ∷ text) (small, others) =
    let (high, low, whole) = halves c small in
    rw (is_hex-upper (c / 16) high, is_hex-upper (c % 16) low)
      (are_hex_pairs-hex_encode text others)

is_hex_name-hex_encode :
    (c : ℕ) (text : Text) → IsLatin1 (c ∷ text) → is_hex_name (hex_encode (c ∷ text)) ≡ true
unfolding is_hex_name hex_encode
is_hex_name-hex_encode c text small = are_hex_pairs-hex_encode (c ∷ text) small

-- Asked for a capability that has a value by the hex of its name, the terminal repeats the name
-- and gives the value in hex; both are read back as they are.
pub answer_xtgettcap_name-decodes :
    (c : ℕ) (name value : Text)
    → IsLatin1 (c ∷ name)
    → IsLatin1 value
    → get_capability (c ∷ name) xtgettcap_capabilities ≡ some (some value)
    → (answer_xtgettcap_name (hex_encode (c ∷ name))
        ≡ escape_code ∷ codes "P1+r"
          ++ (hex_encode (c ∷ name) ++ (b'=' ∷ hex_encode value ++ string_terminator)))
      × (hex_decode (hex_encode (c ∷ name)) ≡ c ∷ name)
      × (hex_decode (hex_encode value) ≡ value)
unfolding answer_xtgettcap_name
answer_xtgettcap_name-decodes c name value small small_value found =
    let decodes = hex_decode-hex_encode (c ∷ name) small in
    (
      rw (is_hex_name-hex_encode c name small, decodes, found) refl,
      decodes,
      hex_decode-hex_encode value small_value,
    )
