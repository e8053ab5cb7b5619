-- ===== src/TerminalQuery/Scanner.antt =====
-- `TerminalQueryResponder` of src/pty/terminalQueryResponder.ts: its state machine.
use agent_tty.Prelude.{
  ℕ, Bool, true, false, not, ◌&&◌, ◌||◌, [], ◌∷◌, ◌++◌, Text, codes, text_eq, length, leb, ltb,
  ◌==◌, if◌then◌else◌, Result, ok, ◌>>◌, Failure,
}
use agent_tty.TerminalQuery.Reply.{
  escape_code, string_terminator, max_dcs_payload_length, assert_hex_color, to_osc_color_payload,
  dcs_reply, csi_reply,
}

pub data ScannerState : Type 0 where
  ground esc csi osc osc_esc dcs dcs_esc : ScannerState

pub record Responder : Type 0 where
  pub state : ScannerState
  pub buffer : Text
  pub background_payload : Text
  pub foreground_payload : Text

abbrev pub max_csi_param_length : ℕ
max_csi_param_length = 32

abbrev pub max_osc_payload_length : ℕ
max_osc_payload_length = 64

-- the constructor
unfoldable pub new_responder : Text → Text → Result Failure Responder
new_responder background_color foreground_color = do
  assert_hex_color background_color "backgroundColor must be a \"#rrggbb\" hex color"
  assert_hex_color foreground_color "foregroundColor must be a \"#rrggbb\" hex color"
  ok (record {
    state = ground;
    buffer = [];
    background_payload = to_osc_color_payload background_color;
    foreground_payload = to_osc_color_payload foreground_color;
  })

abbrev pub enter : ScannerState → Text → Responder → Responder
enter state buffer r = record r { state = state; buffer = buffer }

-- `stepEsc`, which replies nothing
abbrev pub step_esc : ℕ → Responder → Responder
step_esc code r =
    if code == b'['
    then enter csi [] r
    else if code == b']'
    then enter osc [] r
    else if code == b'P'
    then enter dcs [] r
    else if code == escape_code
    then r
    else record r { state = ground }

-- `abortSequence`, which replies nothing
abbrev pub abort_sequence : ℕ → Responder → Responder
abort_sequence code r = enter (if code == escape_code then esc else ground) [] r

abbrev pub is_csi_final : ℕ → Bool
is_csi_final code = leb 0x40 code && leb code 0x7e

abbrev pub is_csi_param : ℕ → Bool
is_csi_param code = leb 0x20 code && leb code 0x3f

-- A character is kept where the buffer has room.
abbrev pub keep : Bool → ℕ → Responder → Responder
keep true code r = record r { buffer = r.buffer ++ code ∷ [] }
keep false code r = r

-- `stepCsi`
abbrev pub step_csi : ℕ → Responder → Responder × Text
step_csi code r =
    if is_csi_final code
    then (enter ground [] r, csi_reply r.buffer code)
    else if is_csi_param code
    then (keep (ltb (length r.buffer) max_csi_param_length) code r, [])
    else (abort_sequence code r, [])

-- `dispatchOsc`, what it replies
unfoldable pub osc_reply : Text → Text → Responder → Text
unfolding text_eq
osc_reply payload terminator r =
    if text_eq payload (codes "11;?")
    then escape_code ∷ codes "]11;" ++ (r.background_payload ++ terminator)
    else if text_eq payload (codes "10;?")
    then escape_code ∷ codes "]10;" ++ (r.foreground_payload ++ terminator)
    else []

abbrev pub dispatch_osc : Text → Responder → Responder × Text
dispatch_osc terminator r = (enter ground [] r, osc_reply r.buffer terminator r)

abbrev pub dispatch_dcs : Responder → Responder × Text
dispatch_dcs r = (enter ground [] r, dcs_reply r.buffer)

-- `stepOsc`
abbrev pub step_osc : ℕ → Responder → Responder × Text
step_osc code r =
    if code == 0x07 || code == 0x9c
    then dispatch_osc (code ∷ []) r
    else if code == escape_code
    then (record r { state = osc_esc }, [])
    else (keep (ltb (length r.buffer) max_osc_payload_length) code r, [])

-- `stepOscEsc`
abbrev pub step_osc_esc : ℕ → Responder → Responder × Text
step_osc_esc code r =
    if code == b'\\' then dispatch_osc string_terminator r else (abort_sequence code r, [])

-- `stepDcs`
abbrev pub step_dcs : ℕ → Responder → Responder × Text
step_dcs code r =
    if code == 0x9c
    then dispatch_dcs r
    else if code == escape_code
    then (record r { state = dcs_esc }, [])
    else (keep (leb (length r.buffer) max_dcs_payload_length) code r, [])

-- `stepDcsEsc`
abbrev pub step_dcs_esc : ℕ → Responder → Responder × Text
step_dcs_esc code r = if code == b'\\' then dispatch_dcs r else (abort_sequence code r, [])

-- `step`, by the state that the responder is in
abbrev pub step_in : ScannerState → ℕ → Responder → Responder × Text
step_in ground code r = (if code == escape_code then record r { state = esc } else r, [])
step_in esc code r = (step_esc code r, [])
step_in csi code r = step_csi code r
step_in osc code r = step_osc code r
step_in osc_esc code r = step_osc_esc code r
step_in dcs code r = step_dcs code r
step_in dcs_esc code r = step_dcs_esc code r

unfoldable pub step : ℕ → Responder → Responder × Text
step code r = step_in r.state code r

-- the loop of `consume`
unfoldable pub consume_loop : Text → Responder → Responder × Text
unfolding step
consume_loop [] r = (r, [])
consume_loop (code ∷ chunk) r =
    let (r', reply) = step code r in
    let (r'', response) = consume_loop chunk r' in (r'', reply ++ response)

abbrev pub is_ground : ScannerState → Bool
is_ground ground = true
is_ground esc = false
is_ground csi = false
is_ground osc = false
is_ground osc_esc = false
is_ground dcs = false
is_ground dcs_esc = false

-- `chunk.includes(ESC_CHAR)`
unfoldable pub has_escape : Text → Bool
has_escape [] = false
has_escape (code ∷ chunk) = code == escape_code || has_escape chunk

-- `consume`, with its fast path
unfoldable pub consume : Text → Responder → Responder × Text
unfolding consume_loop has_escape
consume chunk r =
    if is_ground r.state && not (has_escape chunk) then (r, []) else consume_loop chunk r
