-- ===== src/TerminalQuery/Sequences.antt =====
-- src/pty/terminalQueryResponder.ts: the sequences that its scanner tells apart, as a program writes
-- them, and the reply to each.
use agent_tty.Prelude.{ℕ, ◌≡◌, true, false, List, [], ◌∷◌, ◌++◌, Text, All, ◌==◌, ◌⊎◌, arith}
use agent_tty.TerminalQuery.Reply.{escape_code, string_terminator, csi_reply, dcs_reply}
use agent_tty.TerminalQuery.Scanner.{Responder, is_csi_final, is_csi_param, osc_reply, has_escape}

pub data Sequence : Type 0 where
  plain : (text : Text) → Sequence
  control : (params : Text) (final : ℕ) → Sequence
  command : (payload terminator : Text) → Sequence
  device_control : (payload terminator : Text) → Sequence

abbrev pub written : Sequence → Text
written (plain text) = text
written (control params final) = escape_code ∷ b'[' ∷ (params ++ final ∷ [])
written (command payload terminator) = escape_code ∷ b']' ∷ (payload ++ terminator)
written (device_control payload terminator) = escape_code ∷ b'P' ∷ (payload ++ terminator)

-- What ends no string: the payload of a command or of a device control.
abbrev pub IsPayload : Text → Type 0
IsPayload payload = All (λ c. ((c == 0x9c) ≡ false) × ((c == escape_code) ≡ false)) payload

abbrev pub IsSequence : Sequence → Type 0
IsSequence (plain text) = has_escape text ≡ false
IsSequence (control params final) =
    All (λ c. is_csi_param c ≡ true) params × (is_csi_final final ≡ true)
IsSequence (command payload terminator) =
    All (λ c. (c == 0x07) ≡ false) payload
    × IsPayload payload
    × ((terminator ≡ 0x07 ∷ []) ⊎ (terminator ≡ 0x9c ∷ []) ⊎ (terminator ≡ string_terminator))
IsSequence (device_control payload terminator) =
    IsPayload payload × ((terminator ≡ 0x9c ∷ []) ⊎ (terminator ≡ string_terminator))

-- The reply to a whole sequence.
abbrev pub reply_to : Responder → Sequence → Text
reply_to r (plain text) = []
reply_to r (control params final) = csi_reply params final
reply_to r (command payload terminator) = osc_reply payload terminator r
reply_to r (device_control payload terminator) = dcs_reply payload

unfoldable pub output_of : List Sequence → Text
output_of [] = []
output_of (s ∷ sequences) = written s ++ output_of sequences

unfoldable pub replies_to : Responder → List Sequence → Text
replies_to r [] = []
replies_to r (s ∷ sequences) = reply_to r s ++ replies_to r sequences

pub param_is_no_final : (c : ℕ) → is_csi_param c ≡ true → is_csi_final c ≡ false
param_is_no_final c h = ground (arith, h)
