-- ===== src/RunCompletion/EchoScan.antt =====
-- The scan of an echo in src/host/runCompletionSentinel.ts: its end, and what it has consumed.
use agent_tty.Prelude.{
  ℕ, zero, suc, ◌+◌, ◌≤◌, ◌<◌, ◌≡◌, refl, subst, Bool, true, false, Option, none, some, [], ◌∷◌,
  Text, drop, length, length-drop, ◌==◌, Result, ok, Failure, arith, ◌⊎◌, inl, inr, Bool-cases,
}
use agent_tty.RunCompletion.Sentinel.{is_non_empty, assert_non_empty_string}
use agent_tty.RunCompletion.Echo.{
  SkippableControlMatch, complete_control, partial_control, csi_end, find_skippable_echo_control,
  EchoPrefixScanResult, scan_echo, scan_echo_prefix, is_csi_final_byte,
}

abbrev size_of : Option SkippableControlMatch → ℕ
size_of (some (complete_control size)) = size
size_of _ = 1

csi_end_size :
    (rounds : ℕ) (text : Text) (size : ℕ) → 0 < size → 0 < size_of (csi_end rounds text size)
unfolding csi_end
csi_end_size zero [] size pos = omega arith
csi_end_size zero (c ∷ text) size pos = omega arith
csi_end_size (suc rounds) [] size pos = omega arith
csi_end_size (suc rounds) (c ∷ text) size pos = elim (Bool-cases (is_csi_final_byte c)) [
  | inl final ↦ rw final (omega arith)
  | inr other ↦ rw other (csi_end_size rounds text (size + 1) (omega arith))
]

control_size : (c : ℕ) (text : Text) → 0 < size_of (find_skippable_echo_control c text)
unfolding find_skippable_echo_control
control_size c [] = ground arith
control_size c (d ∷ text) = ground (arith, csi_end_size 62 text 2 (omega arith))

control_cases :
    (c : ℕ) (text : Text)
    → let control = find_skippable_echo_control c text in
      (control ≡ none)
      ⊎ (control ≡ some partial_control)
      ⊎ ((size : ℕ) × (control ≡ some (complete_control size)) × (0 < size))
control_cases c text = go (find_skippable_echo_control c text) refl (control_size c text)
  where
    go :
        (o : Option SkippableControlMatch)
        → find_skippable_echo_control c text ≡ o
        → 0 < size_of (find_skippable_echo_control c text)
        → let control = find_skippable_echo_control c text in
          (control ≡ none)
          ⊎ (control ≡ some partial_control)
          ⊎ ((size : ℕ) × (control ≡ some (complete_control size)) × (0 < size))
    go none e pos = inl e
    go (some partial_control) e pos = inr (inl e)
    go (some (complete_control size)) e pos = inr (inr (size, e, subst (λ o. 0 < size_of o) e pos))

-- What a scan gives that begins at the given positions.
pub record Scanned (run : Result Failure EchoPrefixScanResult) (echo : Text) (b e : ℕ)
    : Type 0 where
  pub result : EchoPrefixScanResult
  pub runs : run ≡ ok result
  pub consumed : result.echo_index + b ≤ result.consumed_length + e
  pub full : result.complete ≡ true → result.echo_index ≡ e + length echo

abbrev scanned_to : Bool → Bool → ℕ → ℕ → EchoPrefixScanResult
scanned_to complete pending b e = record {
  complete = complete;
  consumed_length = b;
  echo_index = e;
  pending = pending;
}

scan_echo_lem :
    (fuel : ℕ) (remaining echo : Text) (b e : ℕ)
    → length remaining < fuel
    → Scanned (scan_echo fuel remaining echo b e) echo b e
unfolding scan_echo
scan_echo_lem zero remaining echo b e enough = absurd (omega arith)
scan_echo_lem (suc fuel) remaining [] b e enough = record {
  result = scanned_to true false b e;
  runs = refl;
  consumed = omega arith;
  full = λ _. omega arith;
}
scan_echo_lem (suc fuel) [] (x ∷ echo) b e enough = record {
  result = scanned_to false true b e;
  runs = refl;
  consumed = omega arith;
  full = λ h. absurd (cc h);
}
scan_echo_lem (suc fuel) (c ∷ text) (x ∷ echo) b e enough = elim (control_cases c text) [
  | inl other ↦ elim (Bool-cases (c == x)) [
    | inl same ↦
        let rest = scan_echo_lem fuel text echo (b + 1) (e + 1) (omega arith) in
        record {
          result = rest.result;
          runs = rw (scan_echo, other, same) rest.runs;
          consumed = omega (arith, rest.consumed);
          full = λ h. omega (arith, rest.full h);
        }
    | inr differs ↦ record {
      result = scanned_to false false b e;
      runs = rw (scan_echo, other, differs) refl;
      consumed = omega arith;
      full = λ h. absurd (cc h);
    }
  ]
  | inr (inl partial) ↦ record {
    result = scanned_to false true b e;
    runs = rw (scan_echo, partial) refl;
    consumed = omega arith;
    full = λ h. absurd (cc h);
  }
  | inr (inr (size, skips, pos)) ↦
      let rest =
        scan_echo_lem fuel (drop size (c ∷ text)) (x ∷ echo) (b + size) e
          (omega (arith, length-drop size (c ∷ text))) in
      record {
        result = rest.result;
        runs = rw (scan_echo, skips) rest.runs;
        consumed = omega (arith, rest.consumed);
        full = rest.full;
      }
]

-- A scan for an echo that is not empty ends.
pub scan_echo_prefix_lem :
    (remaining echo : Text)
    → is_non_empty echo ≡ true
    → Scanned (scan_echo_prefix remaining echo) echo 0 0
unfolding scan_echo_prefix assert_non_empty_string
scan_echo_prefix_lem remaining echo some_left =
    let scan = scan_echo_lem (length remaining + 1) remaining echo 0 0 (omega arith) in
    record {
      result = scan.result;
      runs = rw some_left scan.runs;
      consumed = scan.consumed;
      full = scan.full;
    }
