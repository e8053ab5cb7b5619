-- ===== src/TerminalQuery/Answers.antt =====
-- `consume` of src/pty/terminalQueryResponder.ts on whole sequences, in any chunks.
use agent_tty.Prelude.{
  ℕ, ◌≡◌, refl, ap, sym, ◌∙◌, true, false, List, [], ◌∷◌, ◌++◌, append-nil, append_assoc, Text, All,
  concat, ◌==◌, ◌⊎◌, inl, inr,
}
use agent_tty.TerminalQuery.Reply.{string_terminator, csi_reply, dcs_reply}
use agent_tty.TerminalQuery.Scanner.{
  Responder, ground, csi, osc, dcs, consume_loop, enter, is_csi_final, is_csi_param, osc_reply,
}
use agent_tty.TerminalQuery.Chunks.{
  after, consume_loop_lem, consume_loop-append, consume_all, consume_all_lem, passes_over,
}
use agent_tty.TerminalQuery.Unbounded.{full_step, full_consume, capped, consume-full}
use agent_tty.TerminalQuery.Sequences.{
  Sequence, plain, control, command, device_control, written, IsPayload, IsSequence, reply_to,
  output_of, replies_to, param_is_no_final,
}

-- A payload is held to its end.
command_held :
    (payload rest b : Text) (r : Responder)
    → All (λ c. (c == 0x07) ≡ false) payload
    → IsPayload payload
    → full_consume (payload ++ rest) (enter osc b r)
      ≡ full_consume rest (enter osc (b ++ payload) r)
unfolding full_consume full_step
command_held [] rest b r no_bell inside =
    ap (λ t. full_consume rest (enter osc t r)) (sym (append-nil b))
command_held (c ∷ payload) rest b r (no_bell, bells) ((no_end, no_escape), inside) =
    rw (no_bell, no_end, no_escape)
      (command_held payload rest (b ++ c ∷ []) r bells inside
        ∙ ap (λ t. full_consume rest (enter osc t r)) (append_assoc b (c ∷ []) payload))

device_control_held :
    (payload rest b : Text) (r : Responder)
    → IsPayload payload
    → full_consume (payload ++ rest) (enter dcs b r)
      ≡ full_consume rest (enter dcs (b ++ payload) r)
unfolding full_consume full_step
device_control_held [] rest b r inside =
    ap (λ t. full_consume rest (enter dcs t r)) (sym (append-nil b))
device_control_held (c ∷ payload) rest b r ((no_end, no_escape), inside) =
    rw (no_end, no_escape)
      (device_control_held payload rest (b ++ c ∷ []) r inside
        ∙ ap (λ t. full_consume rest (enter dcs t r)) (append_assoc b (c ∷ []) payload))

control_held :
    (params rest b : Text) (r : Responder)
    → All (λ c. is_csi_param c ≡ true) params
    → full_consume (params ++ rest) (enter csi b r) ≡ full_consume rest (enter csi (b ++ params) r)
unfolding full_consume full_step
control_held [] rest b r inside = ap (λ t. full_consume rest (enter csi t r)) (sym (append-nil b))
control_held (c ∷ params) rest b r (is_param, inside) =
    rw (param_is_no_final c is_param, is_param)
      (control_held params rest (b ++ c ∷ []) r inside
        ∙ ap (λ t. full_consume rest (enter csi t r)) (append_assoc b (c ∷ []) params))

-- The end of a string, and its reply.
command_ends :
    (payload terminator : Text) (r : Responder)
    → (terminator ≡ 0x07 ∷ []) ⊎ (terminator ≡ 0x9c ∷ []) ⊎ (terminator ≡ string_terminator)
    → full_consume terminator (enter osc payload r)
      ≡ (enter ground [] r, osc_reply payload terminator r)
unfolding full_consume full_step osc_reply
command_ends payload terminator r end = elim end [
  | inl bell ↦ rw bell (ap (λ t. (enter ground [] r, t)) (append-nil _))
  | inr (inl c1) ↦ rw c1 (ap (λ t. (enter ground [] r, t)) (append-nil _))
  | inr (inr st) ↦ rw st (ap (λ t. (enter ground [] r, t)) (append-nil _))
]

device_control_ends :
    (payload terminator : Text) (r : Responder)
    → (terminator ≡ 0x9c ∷ []) ⊎ (terminator ≡ string_terminator)
    → full_consume terminator (enter dcs payload r) ≡ (enter ground [] r, dcs_reply payload)
unfolding full_consume full_step
device_control_ends payload terminator r end = elim end [
  | inl c1 ↦ rw c1 (ap (λ t. (enter ground [] r, t)) (append-nil _))
  | inr st ↦ rw st (ap (λ t. (enter ground [] r, t)) (append-nil _))
]

control_ends :
    (params : Text) (final : ℕ) (r : Responder)
    → is_csi_final final ≡ true
    → full_consume (final ∷ []) (enter csi params r) ≡ (enter ground [] r, csi_reply params final)
unfolding full_consume full_step
control_ends params final r is_final = rw is_final (ap (λ t. (enter ground [] r, t)) (append-nil _))

-- What the reference answers is what the responder answers, outside of a sequence before and after.
from_reference :
    (text reply : Text) (r : Responder)
    → full_consume text (enter ground [] r) ≡ (enter ground [] r, reply)
    → consume_loop text (enter ground [] r) ≡ (enter ground [] r, reply)
from_reference text reply r answered =
    sym (consume_loop_lem text (enter ground [] r))
    ∙ consume-full text (enter ground [] r)
    ∙ ap (λ z. (capped z.0, z.1)) answered

-- One sequence, read outside of any other.
sequence_answered :
    (s : Sequence) (r : Responder)
    → IsSequence s
    → consume_loop (written s) (enter ground [] r) ≡ (enter ground [] r, reply_to r s)
unfolding full_consume full_step
sequence_answered (plain text) r quiet = passes_over text (enter ground [] r) refl quiet
sequence_answered (control params final) r (inside, is_final) =
    from_reference _ _ r
      (control_held params (final ∷ []) [] r inside ∙ control_ends params final r is_final)
sequence_answered (command payload terminator) r (no_bell, inside, end) =
    from_reference _ _ r
      (command_held payload terminator [] r no_bell inside ∙ command_ends payload terminator r end)
sequence_answered (device_control payload terminator) r (inside, end) = from_reference _ _ r (
    device_control_held payload terminator [] r inside
    ∙ device_control_ends payload terminator r end)

sequences_answered :
    (sequences : List Sequence) (r : Responder)
    → All IsSequence sequences
    → consume_loop (output_of sequences) (enter ground [] r)
      ≡ (enter ground [] r, replies_to r sequences)
unfolding output_of replies_to consume_loop
sequences_answered [] r valid = refl
sequences_answered (s ∷ sequences) r (valid, others) =
    consume_loop-append (written s) (output_of sequences) (enter ground [] r)
    ∙ ap (after (consume_loop (output_of sequences))) (sequence_answered s r valid)
    ∙ ap (λ z. (z.0, reply_to r s ++ z.1)) (sequences_answered sequences r others)

-- Output of whole sequences and plain text, however it is cut into chunks, is answered with the reply
-- to each sequence, in their order, and leaves the responder outside of a sequence, holding nothing.
pub consume_all-answers :
    (chunks : List Text) (sequences : List Sequence) (r : Responder)
    → All IsSequence sequences
    → concat chunks ≡ output_of sequences
    → consume_all chunks (enter ground [] r) ≡ (enter ground [] r, replies_to r sequences)
consume_all-answers chunks sequences r valid same =
    consume_all_lem chunks (enter ground [] r)
    ∙ consume_loop_lem (concat chunks) (enter ground [] r)
    ∙ ap (λ text. consume_loop text (enter ground [] r)) same
    ∙ sequences_answered sequences r valid
