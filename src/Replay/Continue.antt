-- ===== src/Replay/Continue.antt =====
-- A replay of a part of the log, and the replay of the whole log behind it: `iterateInRangeReplayEvents`
-- of src/renderer/replayEvents.ts skips what the backend holds.
use agent_tty.Prelude.{
  Result-cases, ℕ, suc, ◌≡◌, refl, ap, sym, subst, ◌∙◌, true, false, none, some, List, [], ◌∷◌,
  ◌++◌, append_assoc, All-append, Bool-cases, inl, inr, ok, Text, arith,
}
use agent_tty.EventLog.Record.{EventRecord}
use agent_tty.Replay.Seq.{ReplaySeq, at_most, Ascending, at_most_mono}
use agent_tty.Replay.Backend.{seq_le, apply_event, replay_loop}
use agent_tty.Replay.Resume.{
  AllWithin, newest, last_seq, loop_old, loop_new, loop_past, loop_late, loop_fails,
  replay_loop-Cut,
}
use agent_tty.Replay.Positions.{AllWithin-later, newest_cases}

last_seq-append :
    (previous : ReplaySeq) (xs ys : List EventRecord)
    → last_seq previous (xs ++ ys) ≡ last_seq (last_seq previous xs) ys
unfolding last_seq
last_seq-append previous [] ys = refl
last_seq-append previous (r ∷ xs) ys = last_seq-append (some r.seq) xs ys

-- A sorted log behind its first events is sorted, and behind the last of them.
pub Ascending-behind :
    (previous : ReplaySeq) (k : ℕ) (xs ys : List EventRecord)
    → Ascending k (xs ++ ys)
    → at_most k previous ≡ false
    → (j : ℕ) × Ascending j ys × (at_most j (last_seq previous xs) ≡ false)
unfolding last_seq
Ascending-behind previous k [] ys a h = (k, a, h)
Ascending-behind previous k (r ∷ xs) ys a h =
    Ascending-behind (some r.seq) (suc r.seq) xs ys a.1 (ground arith)

Ascending-front : (k : ℕ) (xs ys : List EventRecord) → Ascending k (xs ++ ys) → Ascending k xs
Ascending-front k [] ys a = tt
Ascending-front k (r ∷ xs) ys a = (a.0, Ascending-front (suc r.seq) xs ys a.1)

pub later_le :
    (applied : ReplaySeq) (e : ℕ) → at_most e applied ≡ false → seq_le applied (some e) ≡ true
later_le none e h = refl
later_le (some p) e h = ground arith

module _ {T : Type 0} (feed : Text → T → T) (resize_to : ℕ → ℕ → T → T) (target : ReplaySeq) where
  -- Events that the backend holds are skipped.
  replay_loop-skip :
      (applied previous : ReplaySeq) (k : ℕ) (xs ys : List EventRecord) (t : T)
      (highest : ReplaySeq)
      → Ascending k (xs ++ ys)
      → at_most k previous ≡ false
      → AllWithin applied xs
      → replay_loop feed resize_to target applied previous (xs ++ ys) t highest
        ≡ replay_loop feed resize_to target applied (last_seq previous xs) ys t highest
  unfolding last_seq
  replay_loop-skip applied previous k [] ys t highest a h old = refl
  replay_loop-skip applied previous k (r ∷ xs) ys t highest a h old =
      loop_old feed resize_to target applied previous r (xs ++ ys) t highest
        (at_most_mono previous k r.seq a.0 h) old.0
      ∙ replay_loop-skip applied (some r.seq) (suc r.seq) xs ys t highest a.1 (ground arith) old.1

  -- Behind both positions it does not matter which of them the backend holds.
  replay_loop-swap :
      (applied applied' previous : ReplaySeq) (k : ℕ) (ys : List EventRecord) (t : T)
      (highest : ReplaySeq)
      → Ascending k ys
      → at_most k applied ≡ false
      → at_most k applied' ≡ false
      → replay_loop feed resize_to target applied previous ys t highest
        ≡ replay_loop feed resize_to target applied' previous ys t highest
  replay_loop-swap applied applied' previous k [] t highest a h h' = unfold replay_loop in refl
  replay_loop-swap applied applied' previous k (r ∷ ys) t highest a h h' =
      let new = at_most_mono applied k r.seq a.0 h in
      let new' = at_most_mono applied' k r.seq a.0 h' in
      let further = at_most_mono applied k (suc r.seq) (omega (arith, a.0)) h in
      let further' = at_most_mono applied' k (suc r.seq) (omega (arith, a.0)) h' in
      elim (Bool-cases (at_most r.seq previous)) [
        | inl late ↦
            loop_late feed resize_to target applied previous r ys t highest late
            ∙ sym (loop_late feed resize_to target applied' previous r ys t highest late)
        | inr ordered ↦ elim (Bool-cases (at_most r.seq target)) [
          | inr past ↦
              loop_past feed resize_to target applied previous r ys t highest ordered new past
              ∙ sym (
                  loop_past feed resize_to target applied' previous r ys t highest ordered new'
                    past)
          | inl within ↦ elim (Result-cases (apply_event feed resize_to r.payload t)) [
            | inr (e, failed) ↦
                loop_fails feed resize_to target applied previous r ys t highest e ordered new
                  within failed
                ∙ sym (
                    loop_fails feed resize_to target applied' previous r ys t highest e ordered new'
                      within failed)
            | inl (t', done) ↦
                loop_new feed resize_to target applied previous r ys t highest t' ordered new within
                  done
                ∙ replay_loop-swap applied applied' (some r.seq) (suc r.seq) ys t' (some r.seq) a.1
                    further further'
                ∙ sym (
                    loop_new feed resize_to target applied' previous r ys t highest t' ordered new'
                      within done)
          ]
        ]
      ]

  -- Only the first event is compared with the position before the log.
  replay_loop-previous :
      (applied previous previous' : ReplaySeq) (k : ℕ) (xs : List EventRecord) (t : T)
      (highest : ReplaySeq)
      → Ascending k xs
      → at_most k previous ≡ false
      → at_most k previous' ≡ false
      → replay_loop feed resize_to target applied previous xs t highest
        ≡ replay_loop feed resize_to target applied previous' xs t highest
  replay_loop-previous applied previous previous' k [] t highest a h h' = unfold replay_loop in refl
  replay_loop-previous applied previous previous' k (r ∷ xs) t highest a h h' =
      let ordered = at_most_mono previous k r.seq a.0 h in
      let ordered' = at_most_mono previous' k r.seq a.0 h' in
      unfold replay_loop in rw (replay_loop, ordered, ordered') refl

  -- Behind the part `slice` the backend holds all of it, and what it held before does not matter.
  resume_facts :
      (applied : ReplaySeq) (pre slice post : List EventRecord) (j : ℕ) (prev : ReplaySeq) (t : T)
      (l : ReplaySeq)
      → l ≡ newest applied applied slice
      → Ascending j (slice ++ post)
      → AllWithin applied pre
      → AllWithin target slice
      → AllWithin l (pre ++ slice)
        × (replay_loop feed resize_to target applied prev post t l
            ≡ replay_loop feed resize_to target l prev post t l)
  resume_facts applied pre slice post j prev t l is_l aj old within =
      elim (newest_cases target applied applied j slice post aj within) [
        | inl (stays, all_old) ↦ (
          subst (λ p. AllWithin p (pre ++ slice)) (sym (is_l ∙ stays))
              (All-append (λ r. at_most r.seq applied ≡ true) pre slice old all_old),
          ap (λ p. replay_loop feed resize_to target p prev post t l) (sym (is_l ∙ stays)),
        )
        | inr (e, goes, adv) ↦ (
          subst (λ p. AllWithin p (pre ++ slice)) (sym (is_l ∙ goes))
              (All-append (λ r. at_most r.seq (some e) ≡ true) pre slice
                (AllWithin-later applied (some e) pre (later_le applied e adv.later) old)
                adv.reached),
          replay_loop-swap applied (some e) prev (suc e) post t l adv.behind
                (at_most_mono applied e (suc e) (omega arith) adv.later) (ground arith)
              ∙ ap (λ p. replay_loop feed resize_to target p prev post t l) (sym (is_l ∙ goes)),
        )
      ]

  -- Where a replay of the whole log succeeds, a replay of the part `slice` does, and a replay of the
  -- whole log behind that ends where the replay of the whole log at once does.
  pub replay_loop-resumes :
      (applied : ReplaySeq) (pre slice post : List EventRecord) (t : T) (z : T × ReplaySeq)
      → Ascending 0 (pre ++ (slice ++ post))
      → AllWithin applied pre
      → AllWithin target slice
      → replay_loop feed resize_to target applied none (pre ++ (slice ++ post)) t applied ≡ ok z
      → (t' : T) × (replay_loop feed resize_to target applied none slice t applied
          ≡ ok (t', newest applied applied slice))
        × (replay_loop feed resize_to target
              (newest applied applied slice)
              none
              (pre ++ (slice ++ post))
              t'
              (newest applied applied slice)
            ≡ ok z)
  replay_loop-resumes applied pre slice post t z a old within h =
      let reached = last_seq none pre in
      let (j, aj, below) = Ascending-behind none 0 pre (slice ++ post) a refl in
      let cut =
        replay_loop-Cut feed resize_to target applied post z reached slice t applied within
          (sym (replay_loop-skip applied none 0 pre (slice ++ post) t applied a refl old) ∙ h) in
      let t' = cut.terminal in
      let l = newest applied applied slice in
      let prev = last_seq reached slice in
      let (held, same) = resume_facts applied pre slice post j prev t' l refl aj old within in
      (
        t',
        replay_loop-previous applied none reached j slice t applied
              (Ascending-front j slice post aj) refl below
            ∙ cut.before,
        ap (λ xs. replay_loop feed resize_to target l none xs t' l)
              (sym (append_assoc pre slice post))
            ∙ replay_loop-skip l none 0 (pre ++ slice) post t' l
                (subst (Ascending 0) (sym (append_assoc pre slice post)) a) refl held
            ∙ ap (λ p. replay_loop feed resize_to target l p post t' l)
                (last_seq-append none pre slice)
            ∙ sym same
            ∙ cut.behind,
      )
