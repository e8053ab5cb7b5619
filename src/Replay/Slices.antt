-- ===== src/Replay/Slices.antt =====
-- src/renderer/replaySlices.ts: the end of a slice and the size of the next one.
use agent_tty.Prelude.{
  Failure, assertion, ℕ, zero, suc, ◌+◌, ◌-◌, ◌*◌, ◌/◌, Bool, true, false, ◌&&◌, ◌||◌, none, some,
  List, get_elem?, byte_length, ltb, min, max, if◌then◌else◌, Result, ok, err, ◌>>◌, invariant,
}
use agent_tty.EventLog.Record.{EventRecord, Payload, output}

abbrev pub first_slice_events : ℕ
first_slice_events = 32

abbrev pub target_slice_ms : ℕ
target_slice_ms = 500

abbrev pub max_slice_bytes : ℕ
max_slice_bytes = 1024 * 1024

abbrev pub max_slice_flushes : ℕ
max_slice_flushes = 16

abbrev pub max_slice_scale : ℕ
max_slice_scale = 4

-- `outputBytes`
unfoldable pub output_bytes : Payload → ℕ
output_bytes (output text) = byte_length text
output_bytes _ = 0

-- What the loop of `sliceEnd` counts.
pub record Cost : Type 0 where
  pub bytes : ℕ
  pub flushes : ℕ
  pub output_pending : Bool

abbrev pub no_cost : Cost
no_cost = record { bytes = 0; flushes = 0; output_pending = false }

-- The two statements that follow the count of the bytes: a flush is an event behind output.
abbrev flush_with : Payload → Cost → Cost
flush_with (output text) c = record c { output_pending = true }
flush_with _ c =
    if c.output_pending then record c { output_pending = false; flushes = c.flushes + 1 } else c

unfoldable pub consume : Cost → EventRecord → Cost
consume c r = flush_with r.payload (record c { bytes = c.bytes + output_bytes r.payload })

abbrev pub is_over : Cost → Bool
is_over c = ltb max_slice_bytes c.bytes || ltb max_slice_flushes c.flushes

-- The `while` loop, on the rounds that are left to the limit.
unfoldable pub slice_loop : ℕ → List EventRecord → ℕ → ℕ → Cost → Result Failure ℕ
slice_loop zero events start index c = ok index
slice_loop (suc rounds) events start index c = elim (get_elem? events index) [
  | none ↦ err (assertion "replay event must exist")
  | some event ↦
      let counted = consume c event in
      elim (ltb start index && is_over counted) [
        | true ↦ ok index
        | false ↦ slice_loop rounds events start (index + 1) counted
      ]
]

-- `sliceEnd`
unfoldable pub slice_end : List EventRecord → ℕ → ℕ → ℕ → Result Failure ℕ
unfolding slice_loop
slice_end events start end max_events = do
  invariant (ltb 0 max_events) (assertion "slice event limit must be a positive integer")
  slice_loop (min end (start + max_events) - start) events start start no_cost

-- A measured time in milliseconds, as an exact fraction.
pub record Millis : Type 0 where
  pub num : ℕ
  pub den : ℕ

-- `Math.round(size * 500 / Math.max(elapsed, 1))`, halves rounded up. The source divides in floating
-- point; the fraction here is exact.
abbrev pub scaled_size : ℕ → Millis → ℕ
scaled_size size elapsed =
    let divisor = max elapsed.num elapsed.den in
    (2 * (size * target_slice_ms * elapsed.den) + divisor) / (2 * divisor)

-- `Math.ceil(size / 4)`
abbrev pub smallest_next : ℕ → ℕ
smallest_next size = (size + 3) / 4

-- `nextSliceSize`
unfoldable pub next_slice_size : ℕ → Millis → Result Failure ℕ
next_slice_size size elapsed =
    invariant (ltb 0 size) (assertion "slice size must be a positive integer")
    >> ok (min (size * max_slice_scale) (max (smallest_next size) (scaled_size size elapsed)))
