-- ===== src/Replay/OneSlice.antt =====
-- One slice of `replayInSlices` of src/renderer/replaySlices.ts.
use agent_tty.Prelude.{
  ℕ, ◌≡◌, refl, ap, sym, subst, ◌∙◌, true, none, some, List, ◌∷◌, ◌++◌, All-append, inl, inr, ok,
  Text, text_eq,
}
use agent_tty.EventLog.Record.{EventRecord}
use agent_tty.Replay.Seq.{ReplaySeq, at_most, Ascending}
use agent_tty.Replay.Backend.{ReplayInput, Backend, seq_le, replay_loop, or_target, replay_to}
use agent_tty.Replay.Resume.{AllWithin, newest}
use agent_tty.Replay.Positions.{newest_cases, AllWithin-later}
use agent_tty.Replay.Continue.{replay_loop-resumes, later_le, Ascending-behind}
use agent_tty.Replay.Whole.{replay_to_runs, replay_to_passed, sized_facts, take_initial_size_again}

abbrev pub with_events : ReplayInput → List EventRecord → ReplayInput
with_events input events = record input { events = events }

-- A position that is not before the first event.
abbrev IsNamed : ReplaySeq → Type 0
IsNamed none = ⊥
IsNamed (some e) = Unit {0}

position_within : (r : EventRecord) (p : ReplaySeq) → at_most r.seq p ≡ true → IsNamed p
position_within r none h = cc
position_within r (some p) h = tt

-- Where a slice ends that is not empty.
record SliceEnd (target applied : ReplaySeq) (xs : List EventRecord) (n : ReplaySeq) : Type 0 where
  named : IsNamed n
  held : AllWithin n xs
  within : seq_le n target ≡ true

facts_at_end :
    (target applied n : ReplaySeq) (pre post : List EventRecord) (r : EventRecord)
    (rest : List EventRecord) (j : ℕ)
    → n ≡ newest applied applied (r ∷ rest)
    → Ascending j ((r ∷ rest) ++ post)
    → AllWithin applied pre
    → AllWithin target (r ∷ rest)
    → seq_le applied target ≡ true
    → SliceEnd target applied (pre ++ r ∷ rest) n
facts_at_end target applied n pre post r rest j is_n a old within forward =
    elim (newest_cases target applied applied j (r ∷ rest) post a within) [
      | inl (stays, all_old) ↦
          subst (SliceEnd target applied (pre ++ r ∷ rest)) (sym (is_n ∙ stays)) (record {
            named = position_within r applied all_old.0;
            held = All-append (λ e. at_most e.seq applied ≡ true) pre (r ∷ rest) old all_old;
            within = forward;
          })
      | inr (e, goes, adv) ↦
          subst (SliceEnd target applied (pre ++ r ∷ rest)) (sym (is_n ∙ goes)) (record {
            named = tt;
            held =
                All-append (λ x. at_most x.seq (some e) ≡ true) pre (r ∷ rest)
                  (AllWithin-later applied (some e) pre (later_le applied e adv.later) old)
                  adv.reached;
            within = adv.within;
          })
    ]

module _ {T : Type 0} (feed : Text → T → T) (resize_to : ℕ → ℕ → T → T) where
  or_target-named : (n target : ReplaySeq) → IsNamed n → n ≡ or_target feed resize_to n target
  or_target-named none target h = elim h [ ]
  or_target-named (some e) target h = refl

  -- What the replay of a slice leaves, where the replay of the whole log gives `z`.
  pub record SliceDone (input : ReplayInput) (pre slice : List EventRecord) (b : Backend T)
      (z : Backend T × ReplaySeq) : Type 0 where
    pub after : Backend T
    pub runs :
        replay_to feed resize_to (with_events input slice) b ≡ ok (after, after.last_applied_seq)
    pub goes_on : replay_to feed resize_to input after ≡ ok z
    pub held : AllWithin after.last_applied_seq (pre ++ slice)
    pub within : seq_le after.last_applied_seq input.target_seq ≡ true

  -- A slice that is not empty and lies within the target, behind events that the backend holds.
  pub one_slice :
      (input : ReplayInput) (pre post : List EventRecord) (r : EventRecord)
      (rest : List EventRecord) (b b' : Backend T) (last : ReplaySeq)
      → input.events ≡ pre ++ ((r ∷ rest) ++ post)
      → Ascending 0 (pre ++ ((r ∷ rest) ++ post))
      → AllWithin b.last_applied_seq pre
      → AllWithin input.target_seq (r ∷ rest)
      → replay_to feed resize_to input b ≡ ok (b', last)
      → SliceDone input pre (r ∷ rest) b (b', last)
  one_slice input pre post r rest b b' last parts a old within h =
      let slice = r ∷ rest in
      let p = b.last_applied_seq in
      let target = input.target_seq in
      let n = newest p p slice in
      let whole = replay_to_passed feed resize_to input b b' last h in
      let sized = whole.sized in
      let loops =
        ap (λ xs. replay_loop feed resize_to target p none xs sized.terminal p) (sym parts)
        ∙ whole.loops in
      let (t', sliced, resumed) =
        replay_loop-resumes feed resize_to target p pre slice post sized.terminal
          (whole.terminal, whole.highest) a old within loops in
      let (j, aj, _) = Ascending-behind none 0 pre (slice ++ post) a refl in
      let ended = facts_at_end target p n pre post r rest j refl aj old within whole.forward in
      let (same_session, same_size) =
        sized_facts feed resize_to input.initial_cols input.initial_rows b sized whole.sizes in
      let after : Backend T = record sized {
        terminal = t';
        last_applied_seq = n;
        latest_replay_input = some (with_events input slice);
      } in
      record {
        after = after;
        runs = replay_to_runs feed resize_to (with_events input slice) b after n (record {
          session = whole.session;
          cols = whole.cols;
          rows = whole.rows;
          forward = whole.forward;
          sized = sized;
          sizes = whole.sizes;
          terminal = t';
          highest = n;
          loops = sliced;
          ends = or_target-named n target ended.named;
          leaves = refl;
        });
        goes_on = replay_to_runs feed resize_to input after b' last (record {
          session = ap (text_eq input.session_id) same_session ∙ whole.session;
          cols = whole.cols;
          rows = whole.rows;
          forward = ended.within;
          sized = after;
          sizes =
              take_initial_size_again feed resize_to input.initial_cols input.initial_rows after
                same_size;
          terminal = whole.terminal;
          highest = whole.highest;
          loops = ap (λ xs. replay_loop feed resize_to target n none xs t' n) parts ∙ resumed;
          ends = whole.ends;
          leaves = whole.leaves;
        });
        held = ended.held;
        within = ended.within;
      }
