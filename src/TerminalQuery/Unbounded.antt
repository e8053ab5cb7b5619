-- ===== src/TerminalQuery/Unbounded.antt =====
-- `TerminalQueryResponder` of src/pty/terminalQueryResponder.ts beside a reference that keeps every
-- character of a sequence, however long it is.
use agent_tty.Prelude.{
  ℕ, suc, ◌≡◌, refl, ap, ◌∙◌, Bool, true, false, ◌||◌, [], ◌∷◌, ◌++◌, Text, take, length, ltb, ◌==◌,
  if◌then◌else◌,
}
use agent_tty.TerminalQuery.Reply.{
  escape_code, string_terminator, max_dcs_payload_length, csi_reply,
}
use agent_tty.TerminalQuery.Scanner.{
  Responder, ScannerState, ground, esc, csi, osc, osc_esc, dcs, dcs_esc, step_in, step,
  consume_loop, consume, enter, keep, is_csi_final, is_csi_param, abort_sequence, dispatch_osc,
  dispatch_dcs, max_csi_param_length, max_osc_payload_length, osc_reply,
}
use agent_tty.TerminalQuery.Held.{
  take-snoc, leb-ltb, csi_reply-take, osc_reply-take, dcs_reply-take,
}
use agent_tty.TerminalQuery.Chunks.{after, consume_loop_lem}

-- The reference: one character, kept in each sequence.
abbrev pub full_step_in : ScannerState → ℕ → Responder → Responder × Text
full_step_in ground code r = step_in ground code r
full_step_in esc code r = step_in esc code r
full_step_in csi code r =
    if is_csi_final code
    then (enter ground [] r, csi_reply r.buffer code)
    else if is_csi_param code
    then (keep true code r, [])
    else (abort_sequence code r, [])
full_step_in osc code r =
    if code == 0x07 || code == 0x9c
    then dispatch_osc (code ∷ []) r
    else if code == escape_code
    then (record r { state = osc_esc }, [])
    else (keep true code r, [])
full_step_in osc_esc code r = step_in osc_esc code r
full_step_in dcs code r =
    if code == 0x9c
    then dispatch_dcs r
    else if code == escape_code
    then (record r { state = dcs_esc }, [])
    else (keep true code r, [])
full_step_in dcs_esc code r = step_in dcs_esc code r

unfoldable pub full_step : ℕ → Responder → Responder × Text
full_step code r = full_step_in r.state code r

unfoldable pub full_consume : Text → Responder → Responder × Text
unfolding full_step
full_consume [] r = (r, [])
full_consume (code ∷ chunk) r =
    let (r', reply) = full_step code r in
    let (r'', response) = full_consume chunk r' in (r'', reply ++ response)

-- How many characters the buffer holds at most.
abbrev pub capacity : ScannerState → ℕ
capacity ground = 0
capacity esc = 0
capacity csi = max_csi_param_length
capacity osc = max_osc_payload_length
capacity osc_esc = max_osc_payload_length
capacity dcs = suc max_dcs_payload_length
capacity dcs_esc = suc max_dcs_payload_length

-- The responder that holds as much as it may of what the reference holds.
abbrev pub capped : Responder → Responder
capped r = record r { buffer = take (capacity r.state) r.buffer }

abbrev capped_step : Responder × Text → Responder × Text
capped_step (r, reply) = (capped r, reply)

if_capped :
    (test : Bool) {x y : Responder × Text} (x' y' : Responder × Text)
    → x ≡ capped_step x'
    → y ≡ capped_step y'
    → (if test then x else y) ≡ capped_step (if test then x' else y')
if_capped true x' y' e e' = e
if_capped false x' y' e e' = e'

abbrev holding : ScannerState → Responder → Responder
holding s r = record r { state = s }

if_responder :
    (test : Bool) {x y : Responder} (x' y' : Responder)
    → x ≡ capped x'
    → y ≡ capped y'
    → (if test then x else y) ≡ capped (if test then x' else y')
if_responder true x' y' e e' = e
if_responder false x' y' e e' = e'

keep-capped :
    (n code : ℕ) (room : Bool) (r : Responder)
    → room ≡ ltb (length (take n r.buffer)) n
    → keep room code (record r { buffer = take n r.buffer })
      ≡ record r { buffer = take n (r.buffer ++ code ∷ []) }
keep-capped n code true r e = ap (λ b. record r { buffer = b }) (take-snoc n code r.buffer true e)
keep-capped n code false r e = ap (λ b. record r { buffer = b }) (take-snoc n code r.buffer false e)

reset-capped :
    (test : Bool) (r : Responder)
    → enter (if test then esc else ground) [] r ≡ capped (enter (if test then esc else ground) [] r)
reset-capped true r = refl
reset-capped false r = refl

-- One character leaves the two scanners alike.
step-capped :
    (s : ScannerState) (code : ℕ) (r : Responder)
    → step_in s code (capped (holding s r)) ≡ capped_step (full_step_in s code (holding s r))
unfolding osc_reply
step-capped ground code r =
    ap (λ x. (x, [])) (if_responder (code == escape_code) _ (holding ground r) refl refl)
step-capped esc code r =
    ap (λ x. (x, []))
      (if_responder (code == b'[') _ _ refl (
        if_responder (code == b']') _ _ refl (
          if_responder (code == b'P') _ _ refl
            (if_responder (code == escape_code) (holding esc r) (holding ground r) refl refl))))
step-capped csi code r =
    if_capped (is_csi_final code) _ _
      (ap (λ reply. (enter ground [] r, reply)) (csi_reply-take r.buffer code))
      (if_capped (is_csi_param code) _ _
        (ap (λ r'. (r', [])) (keep-capped 32 code _ (holding csi r) refl))
        (ap (λ r'. (r', [])) (reset-capped (code == escape_code) r)))
step-capped osc code r =
    if_capped (code == 0x07 || code == 0x9c) _ _
      (ap (λ reply. (enter ground [] r, reply)) (osc_reply-take (code ∷ []) r))
      (if_capped (code == escape_code) _ _ refl
        (ap (λ r'. (r', [])) (keep-capped 64 code _ (holding osc r) refl)))
step-capped osc_esc code r =
    if_capped (code == b'\\') _ _
      (ap (λ reply. (enter ground [] r, reply)) (osc_reply-take string_terminator r))
      (ap (λ r'. (r', [])) (reset-capped (code == escape_code) r))
step-capped dcs code r =
    if_capped (code == 0x9c) _ _
      (ap (λ reply. (enter ground [] r, reply)) (dcs_reply-take r.buffer))
      (if_capped (code == escape_code) _ _ refl
        (ap (λ r'. (r', [])) (keep-capped 257 code _ (holding dcs r) (leb-ltb _))))
step-capped dcs_esc code r =
    if_capped (code == b'\\') _ _
      (ap (λ reply. (enter ground [] r, reply)) (dcs_reply-take r.buffer))
      (ap (λ r'. (r', [])) (reset-capped (code == escape_code) r))

consume_loop-capped :
    (chunk : Text) (r : Responder)
    → consume_loop chunk (capped r) ≡ capped_step (full_consume chunk r)
unfolding consume_loop full_consume step full_step
consume_loop-capped [] r = refl
consume_loop-capped (code ∷ chunk) r =
    let e = step-capped r.state code r in
    let (r', reply) = full_step code r in
    ap (after (consume_loop chunk)) e ∙ ap (λ z. (z.0, reply ++ z.1)) (consume_loop-capped chunk r')

-- The limits on what is held change no reply: on any output, the responder replies what the reference
-- replies that holds the whole of each sequence, and holds what it may of it afterwards.
pub consume-full :
    (chunk : Text) (r : Responder)
    → consume chunk (capped r) ≡ (capped (full_consume chunk r).0, (full_consume chunk r).1)
consume-full chunk r = consume_loop_lem chunk (capped r) ∙ consume_loop-capped chunk r
