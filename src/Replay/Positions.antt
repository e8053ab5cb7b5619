-- ===== src/Replay/Positions.antt =====
-- Positions between the parts of a sorted event log, for the slices of src/renderer/replaySlices.ts.
use agent_tty.Prelude.{
  ℕ, zero, suc, ◌+◌, ◌≤◌, ◌≡◌, refl, sym, subst, ◌∙◌, true, false, none, some, List, [], ◌∷◌, ◌++◌,
  length, take, drop, Bool-cases, ◌⊎◌, inl, inr, arith,
}
use agent_tty.EventLog.Record.{EventRecord}
use agent_tty.Replay.Seq.{
  ReplaySeq, at_most, Ascending, count_at_most, count_at_most_zero, at_most_mono,
}
use agent_tty.Replay.Backend.{seq_le}
use agent_tty.Replay.Resume.{AllWithin, newest, newest_old, newest_new}

at_most_trans :
    (seq : ℕ) (a b : ReplaySeq) → at_most seq a ≡ true → seq_le a b ≡ true → at_most seq b ≡ true
at_most_trans seq none b h le = cc
at_most_trans seq (some a) none h le = cc
at_most_trans seq (some a) (some b) h le = ground arith

-- A later position has at least the events of an earlier one.
pub count_at_most_mono :
    (a b : ReplaySeq) (records : List EventRecord)
    → seq_le a b ≡ true
    → count_at_most a records ≤ count_at_most b records
unfolding count_at_most
count_at_most_mono a b [] le = omega arith
count_at_most_mono a b (r ∷ records) le =
    let rest = count_at_most_mono a b records le in
    elim (Bool-cases (at_most r.seq a)) [
      | inl within ↦ let further = at_most_trans r.seq a b within le in ground (arith, rest)
      | inr past ↦ ground (arith, rest)
    ]

-- The counted events are the first ones.
pub take-AllWithin :
    (position : ReplaySeq) (k n m : ℕ) (records : List EventRecord)
    → Ascending k records
    → n + m ≤ count_at_most position records
    → AllWithin position (take m (drop n records))
unfolding count_at_most
take-AllWithin position k zero zero records a h = tt
take-AllWithin position k zero (suc m) [] a h = tt
take-AllWithin position k zero (suc m) (r ∷ records) a h =
    elim (Bool-cases (at_most r.seq position)) [
      | inl within ↦ (
        within,
        take-AllWithin position (suc r.seq) zero m records a.1 (ground (arith, h, within)),
      )
      | inr past ↦
          let none_left =
            count_at_most_zero position (suc r.seq) records a.1
              (at_most_mono position r.seq (suc r.seq) (omega arith) past) in
          absurd (ground (arith, h, past, none_left))
    ]
take-AllWithin position k (suc n) zero [] a h = tt
take-AllWithin position k (suc n) (suc m) [] a h = tt
take-AllWithin position k (suc n) zero (r ∷ records) a h = tt
take-AllWithin position k (suc n) (suc m) (r ∷ records) a h =
    take-AllWithin position (suc r.seq) n (suc m) records a.1 (ground (arith, h))

-- Events at or before a position are counted.
pub length-le-count :
    (position : ReplaySeq) (xs ys : List EventRecord)
    → AllWithin position xs
    → length xs ≤ count_at_most position (xs ++ ys)
unfolding count_at_most
length-le-count position [] ys within = omega arith
length-le-count position (r ∷ xs) ys within =
    ground (arith, length-le-count position xs ys within.1, within.0)

pub AllWithin-later :
    (a b : ReplaySeq) (xs : List EventRecord) → seq_le a b ≡ true → AllWithin a xs → AllWithin b xs
AllWithin-later a b [] le within = tt
AllWithin-later a b (r ∷ xs) le within =
    (at_most_trans r.seq a b within.0 le, AllWithin-later a b xs le within.1)

-- Where a replay of events that lie within the target ends: it stays, and they were all applied; or it
-- ends at an event, which is behind where it was and before all that follows.
pub record Advanced (target applied : ReplaySeq) (k : ℕ) (xs ys : List EventRecord) (e : ℕ)
    : Type 0 where
  pub floor : k ≤ e
  pub later : at_most e applied ≡ false
  pub within : at_most e target ≡ true
  pub reached : AllWithin (some e) xs
  pub behind : Ascending (suc e) ys

pub newest_cases :
    (target applied highest : ReplaySeq) (k : ℕ) (xs ys : List EventRecord)
    → Ascending k (xs ++ ys)
    → AllWithin target xs
    → ((newest applied highest xs ≡ highest) × AllWithin applied xs)
      ⊎ ((e : ℕ) × (newest applied highest xs ≡ some e) × Advanced target applied k xs ys e)
newest_cases target applied highest k [] ys a within = inl (unfold newest in refl, tt)
newest_cases target applied highest k (r ∷ xs) ys a within =
    elim (Bool-cases (at_most r.seq applied)) [
      | inl old ↦
          let same = newest_old applied highest r xs old in
          elim (newest_cases target applied highest (suc r.seq) xs ys a.1 within.1) [
            | inl (stays, all_old) ↦ inl (same ∙ stays, (old, all_old))
            | inr (e, goes, adv) ↦ inr (
              e,
              same ∙ goes,
              record {
                floor = omega (arith, a.0, adv.floor);
                later = adv.later;
                within = adv.within;
                reached = (at_or_before applied r.seq e old adv.later, adv.reached);
                behind = adv.behind;
              },
            )
          ]
      | inr new ↦
          let same = newest_new applied highest r xs new in
          elim (newest_cases target applied (some r.seq) (suc r.seq) xs ys a.1 within.1) [
            | inl (stays, all_old) ↦
                let empty = no_more applied r xs ys a.1 new all_old in
                inr (
                  r.seq,
                  same ∙ stays,
                  record {
                    floor = a.0;
                    later = new;
                    within = within.0;
                    reached = (ground arith, subst (AllWithin (some r.seq)) (sym empty) tt);
                    behind = subst (λ l. Ascending (suc r.seq) (l ++ ys)) empty a.1;
                  },
                )
            | inr (e, goes, adv) ↦ inr (
              e,
              same ∙ goes,
              record {
                floor = omega (arith, a.0, adv.floor);
                later = adv.later;
                within = adv.within;
                reached = (ground (arith, adv.floor), adv.reached);
                behind = adv.behind;
              },
            )
          ]
    ]
  where
    at_or_before :
        (applied : ReplaySeq) (seq e : ℕ)
        → at_most seq applied ≡ true
        → at_most e applied ≡ false
        → at_most seq (some e) ≡ true
    at_or_before none seq e h k = cc
    at_or_before (some p) seq e h k = ground arith

    no_more :
        (applied : ReplaySeq) (r : EventRecord) (xs ys : List EventRecord)
        → Ascending (suc r.seq) (xs ++ ys)
        → at_most r.seq applied ≡ false
        → AllWithin applied xs
        → xs ≡ []
    no_more applied r [] ys a new old = refl
    no_more applied r (x ∷ xs) ys a new old =
        let past = at_most_mono applied r.seq x.seq (omega (arith, a.0)) new in
        absurd (ground (arith, past, old.0))
