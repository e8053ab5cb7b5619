-- ===== src/RunCompletion/Echo.antt =====
-- src/host/runCompletionSentinel.ts: the scan of an echoed postamble that tolerates the controls of a
-- repainting shell. A scan works on what is left of the buffer and of the echo.
use agent_tty.Prelude.{
  ℕ, zero, suc, ◌+◌, ◌-◌, Bool, true, false, not, ◌&&◌, Option, none, some, [], ◌∷◌, Text, codes,
  drop, length, leb, ◌==◌, if◌then◌else◌, Result, ok, err, ◌>>◌, Failure, out_of_fuel,
}
use agent_tty.RunCompletion.Sentinel.{esc_code, assert_non_empty_string}

abbrev pub carriage_return_code : ℕ
carriage_return_code = 0x0d

abbrev pub max_skippable_echo_control_length : ℕ
max_skippable_echo_control_length = 64

-- `MIN_TOLERANT_ECHO_PREFIX_LENGTH`
abbrev pub min_tolerant_echo_prefix_length : ℕ
min_tolerant_echo_prefix_length = length (codes "printf '\\033\\137")

pub data SkippableControlMatch : Type 0 where
  complete_control : ℕ → SkippableControlMatch
  partial_control : SkippableControlMatch

abbrev pub is_csi_final_byte : ℕ → Bool
is_csi_final_byte c = leb 0x40 c && leb c 0x7e

-- The loop of `findSkippableEchoControl`, on the rounds that its bound leaves; `size` is
-- `cursor - index`.
unfoldable pub csi_end : ℕ → Text → ℕ → Option SkippableControlMatch
csi_end zero [] size = some partial_control
csi_end zero (c ∷ text) size = none
csi_end (suc rounds) [] size = some partial_control
csi_end (suc rounds) (c ∷ text) size =
    let rest = csi_end rounds text (size + 1) in
    if is_csi_final_byte c then some (complete_control (size + 1)) else rest

abbrev behind_escape : Text → Option SkippableControlMatch
behind_escape [] = some partial_control
behind_escape (c ∷ text) =
    if not (c == b'[')
    then some (complete_control 2)
    else csi_end (max_skippable_echo_control_length - 2) text 2

-- `findSkippableEchoControl`, at a character and what follows it
unfoldable pub find_skippable_echo_control : ℕ → Text → Option SkippableControlMatch
unfolding csi_end
find_skippable_echo_control c text =
    if c == carriage_return_code
    then some (complete_control 1)
    else if not (c == esc_code)
    then none
    else behind_escape text

pub record EchoPrefixScanResult : Type 0 where
  pub complete : Bool
  pub consumed_length : ℕ
  pub echo_index : ℕ
  pub pending : Bool

-- The loop of `scanEchoPrefixToleratingControls`, on fuel.
unfoldable pub scan_echo : ℕ → Text → Text → ℕ → ℕ → Result Failure EchoPrefixScanResult
scan_echo zero remaining echo buffer_index echo_index = err out_of_fuel
scan_echo (suc fuel) remaining [] buffer_index echo_index = ok (record {
  complete = true;
  consumed_length = buffer_index;
  echo_index = echo_index;
  pending = false;
})
scan_echo (suc fuel) [] (x ∷ echo) buffer_index echo_index = ok (record {
  complete = false;
  consumed_length = buffer_index;
  echo_index = echo_index;
  pending = true;
})
scan_echo (suc fuel) (c ∷ text) (x ∷ echo) buffer_index echo_index =
    elim (find_skippable_echo_control c text) [
      | some partial_control ↦ ok (record {
        complete = false;
        consumed_length = buffer_index;
        echo_index = echo_index;
        pending = true;
      })
      | some (complete_control size) ↦
          scan_echo fuel (drop size (c ∷ text)) (x ∷ echo) (buffer_index + size) echo_index
      | none ↦ elim (c == x) [
        | false ↦ ok (record {
          complete = false;
          consumed_length = buffer_index;
          echo_index = echo_index;
          pending = false;
        })
        | true ↦ scan_echo fuel text echo (buffer_index + 1) (echo_index + 1)
      ]
    ]

-- `scanEchoPrefixToleratingControls`; each round takes a character of the buffer at least.
unfoldable pub scan_echo_prefix : Text → Text → Result Failure EchoPrefixScanResult
unfolding scan_echo
scan_echo_prefix remaining echo =
    assert_non_empty_string echo >> scan_echo (length remaining + 1) remaining echo 0 0
