-- ===== src/Replay/Resume.antt =====
-- How `iterateInRangeReplayEvents` of src/renderer/replayEvents.ts goes on where an earlier replay
-- ended.
use agent_tty.Prelude.{
  Result-cases, Failure, assertion, ℕ, ◌≤◌, ◌≡◌, refl, ap, sym, ◌∙◌, true, false, none, some, List,
  [], ◌∷◌, ◌++◌, All, Bool-cases, inl, inr, ok, err, Text, if◌then◌else◌, arith,
}
use agent_tty.EventLog.Record.{EventRecord}
use agent_tty.Replay.Seq.{ReplaySeq, at_most}
use agent_tty.Replay.Backend.{apply_event, replay_loop}

-- Every event lies at or before the position.
abbrev pub AllWithin : ReplaySeq → List EventRecord → Type 0
AllWithin position records = All (λ r. at_most r.seq position ≡ true) records

-- The position behind the events, all of them within the target.
unfoldable pub newest : ReplaySeq → ReplaySeq → List EventRecord → ReplaySeq
newest applied highest [] = highest
newest applied highest (r ∷ records) =
    newest applied (if at_most r.seq applied then highest else some r.seq) records

-- The last position of the events, or the one before them.
unfoldable pub last_seq : ReplaySeq → List EventRecord → ReplaySeq
last_seq previous [] = previous
last_seq previous (r ∷ records) = last_seq (some r.seq) records

pub at_most-le :
    (a b : ℕ) (position : ReplaySeq)
    → at_most a position ≡ true
    → at_most b position ≡ false
    → a ≤ b
at_most-le a b none h k = cc
at_most-le a b (some position) h k = ground arith

module _ (applied highest : ReplaySeq) (r : EventRecord) (records : List EventRecord) where
  pub newest_old :
      at_most r.seq applied ≡ true
      → newest applied highest (r ∷ records) ≡ newest applied highest records
  unfolding newest
  newest_old old = rw old refl

  pub newest_new :
      at_most r.seq applied ≡ false
      → newest applied highest (r ∷ records) ≡ newest applied (some r.seq) records
  unfolding newest
  newest_new new = rw new refl

-- One round of the loop.
module _ {T : Type 0} (feed : Text → T → T) (resize_to : ℕ → ℕ → T → T)
    (target applied previous : ReplaySeq) (r : EventRecord) (records : List EventRecord) (t : T)
    (highest : ReplaySeq) where
  pub loop_late :
      at_most r.seq previous ≡ true
      → replay_loop feed resize_to target applied previous (r ∷ records) t highest
        ≡ err (assertion "replay events must be ordered by strictly increasing seq values")
  unfolding replay_loop
  loop_late late = rw (late, replay_loop) refl

  pub loop_old :
      at_most r.seq previous ≡ false
      → at_most r.seq applied ≡ true
      → replay_loop feed resize_to target applied previous (r ∷ records) t highest
        ≡ replay_loop feed resize_to target applied (some r.seq) records t highest
  unfolding replay_loop
  loop_old ordered old = rw (ordered, old, replay_loop) refl

  pub loop_new :
      (t' : T)
      → at_most r.seq previous ≡ false
      → at_most r.seq applied ≡ false
      → at_most r.seq target ≡ true
      → apply_event feed resize_to r.payload t ≡ ok t'
      → replay_loop feed resize_to target applied previous (r ∷ records) t highest
        ≡ replay_loop feed resize_to target applied (some r.seq) records t' (some r.seq)
  unfolding replay_loop
  loop_new t' ordered new within e = rw (ordered, new, within, replay_loop, e) refl

  pub loop_fails :
      (e : Failure)
      → at_most r.seq previous ≡ false
      → at_most r.seq applied ≡ false
      → at_most r.seq target ≡ true
      → apply_event feed resize_to r.payload t ≡ err e
      → replay_loop feed resize_to target applied previous (r ∷ records) t highest ≡ err e
  unfolding replay_loop
  loop_fails e ordered new within failed = rw (ordered, new, within, replay_loop, failed) refl

  pub loop_past :
      at_most r.seq previous ≡ false
      → at_most r.seq applied ≡ false
      → at_most r.seq target ≡ false
      → replay_loop feed resize_to target applied previous (r ∷ records) t highest ≡ ok (t, highest)
  unfolding replay_loop
  loop_past ordered new past = rw (ordered, new, past, replay_loop) refl

-- What a replay of the log up to a cut gives, where a replay of the whole log gives `z`.
module _ {T : Type 0} (feed : Text → T → T) (resize_to : ℕ → ℕ → T → T) (target applied : ReplaySeq)
    (ys : List EventRecord) (z : T × ReplaySeq) where
  pub record Cut (previous : ReplaySeq) (xs : List EventRecord) (t : T) (highest : ReplaySeq)
      : Type 0 where
    pub terminal : T
    pub before :
        replay_loop feed resize_to target applied previous xs t highest
        ≡ ok (terminal, newest applied highest xs)
    pub behind :
        replay_loop feed resize_to target applied
          (last_seq previous xs)
          ys
          terminal
          (newest applied highest xs)
        ≡ ok z

  -- A replay that succeeds on a log succeeds on the part before a cut, and goes on from there.
  pub replay_loop-Cut :
      (previous : ReplaySeq) (xs : List EventRecord) (t : T) (highest : ReplaySeq)
      → AllWithin target xs
      → replay_loop feed resize_to target applied previous (xs ++ ys) t highest ≡ ok z
      → Cut previous xs t highest
  replay_loop-Cut previous [] t highest within h =
      unfold replay_loop newest last_seq in record { terminal = t; before = refl; behind = h }
  replay_loop-Cut previous (r ∷ xs) t highest within h =
      elim (Bool-cases (at_most r.seq previous)) [
        | inl late ↦ absurd (
            clash (
              sym h ∙ loop_late feed resize_to target applied previous r (xs ++ ys) t highest late))
        | inr ordered ↦ elim (Bool-cases (at_most r.seq applied)) [
          | inl old ↦
              let rest = replay_loop-Cut (some r.seq) xs t highest within.1 (
                sym (
                  loop_old feed resize_to target applied previous r (xs ++ ys) t highest ordered
                    old)
                ∙ h) in
              let same = sym (newest_old applied highest r xs old) in
              record {
                terminal = rest.terminal;
                before =
                    loop_old feed resize_to target applied previous r xs t highest ordered old
                    ∙ rest.before
                    ∙ ap (λ n. ok (rest.terminal, n)) same;
                behind =
                    ap
                      (λ n.
                        replay_loop feed resize_to target applied (last_seq previous (r ∷ xs)) ys
                          rest.terminal n)
                      (sym same)
                    ∙ last_step previous r xs rest.terminal (newest applied highest xs)
                    ∙ rest.behind;
              }
          | inr new ↦ elim (Result-cases (apply_event feed resize_to r.payload t)) [
            | inr (e, failed) ↦ absurd (
                clash (
                  sym h
                  ∙ loop_fails feed resize_to target applied previous r (xs ++ ys) t highest e
                      ordered new within.0 failed))
            | inl (t', applied_one) ↦
                let rest = replay_loop-Cut (some r.seq) xs t' (some r.seq) within.1 (
                  sym (
                    loop_new feed resize_to target applied previous r (xs ++ ys) t highest t'
                      ordered new within.0 applied_one)
                  ∙ h) in
                let same = sym (newest_new applied highest r xs new) in
                record {
                  terminal = rest.terminal;
                  before =
                      loop_new feed resize_to target applied previous r xs t highest t' ordered new
                        within.0 applied_one
                      ∙ rest.before
                      ∙ ap (λ n. ok (rest.terminal, n)) same;
                  behind =
                      ap
                        (λ n.
                          replay_loop feed resize_to target applied (last_seq previous (r ∷ xs)) ys
                            rest.terminal n)
                        (sym same)
                      ∙ last_step previous r xs rest.terminal (newest applied (some r.seq) xs)
                      ∙ rest.behind;
                }
          ]
        ]
      ]
    where
      clash : {e : Failure} → ok z ≡ err e → ⊥
      clash e = cc

      last_step :
          (previous : ReplaySeq) (r : EventRecord) (xs : List EventRecord) (t : T) (n : ReplaySeq)
          → replay_loop feed resize_to target applied (last_seq previous (r ∷ xs)) ys t n
            ≡ replay_loop feed resize_to target applied (last_seq (some r.seq) xs) ys t n
      last_step previous r xs t n = unfold last_seq in refl
