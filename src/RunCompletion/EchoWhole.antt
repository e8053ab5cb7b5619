-- ===== src/RunCompletion/EchoWhole.antt =====
-- The search of src/host/runCompletionSentinel.ts for a whole echo, among echoes that can be told apart.
use agent_tty.Prelude.{
  ◌≡◌, refl, ◌∙◌, Bool, true, false, not, ◌||◌, Option, none, some, List, [], ◌∷◌, Text, ok, arith,
  inl, inr, Bool-cases, All, text_eq, starts_with,
}
use agent_tty.RunCompletion.Sentinel.{is_non_empty}
use agent_tty.RunCompletion.Sanitizer.{none_or, complete_loop}
use agent_tty.RunCompletion.EchoMatch.{NonEmptyEchoes}

-- Two echoes that are equal, or of which neither begins the other.
abbrev pub equal_or_apart : Text → Text → Bool
equal_or_apart a b = text_eq a b || not (starts_with a b || starts_with b a)

one_begins_other :
    (a b text : Text)
    → starts_with a text ≡ true
    → starts_with b text ≡ true
    → (starts_with a b || starts_with b a) ≡ true
unfolding starts_with
one_begins_other [] b text ha hb = refl
one_begins_other (x ∷ a) [] text ha hb = refl
one_begins_other (x ∷ a) (y ∷ b) [] ha hb = absurd (cc ha)
one_begins_other (x ∷ a) (y ∷ b) (c ∷ text) ha hb = ground (arith, one_begins_other a b text)

agree :
    (a b text : Text)
    → equal_or_apart a b ≡ true
    → starts_with a text ≡ true
    → starts_with b text ≡ true
    → text_eq a b ≡ true
agree a b text apart ha hb = ground (arith, one_begins_other a b text ha hb, apart)

-- What the search for a whole echo has found so far.
abbrev pub FoundEcho : List (Text × Text) → Text → Option Text → Type 0
FoundEcho pairs text none = Unit
FoundEcho pairs text (some echo) =
    (starts_with echo text ≡ true)
    × (is_non_empty echo ≡ true)
    × All (λ q. equal_or_apart echo q.1 ≡ true) pairs

pub FoundEcho-tail :
    (p : Text × Text) (pairs : List (Text × Text)) (text : Text) (o : Option Text)
    → FoundEcho (p ∷ pairs) text o
    → FoundEcho pairs text o
FoundEcho-tail p pairs text none h = tt
FoundEcho-tail p pairs text (some echo) h = (h.0, h.1, h.2.1)

pub FoundEcho-agrees :
    (marker echo : Text) (pairs : List (Text × Text)) (text : Text) (o : Option Text)
    → FoundEcho ((marker, echo) ∷ pairs) text o
    → starts_with echo text ≡ true
    → none_or o echo ≡ true
FoundEcho-agrees marker echo pairs text none h starts = refl
FoundEcho-agrees marker echo pairs text (some found) h starts =
    agree found echo text h.2.0 h.0 starts

-- Each echo is equal to each one behind it, or apart from it.
abbrev pub ApartEchoes : List (Text × Text) → Type 0
ApartEchoes [] = Unit
ApartEchoes ((marker, echo) ∷ pairs) =
    All (λ q. equal_or_apart echo q.1 ≡ true) pairs × ApartEchoes pairs

module _ (marker echo : Text) (pairs : List (Text × Text)) (text : Text) (o : Option Text) where
  pub complete_step_found :
      starts_with echo text ≡ true
      → none_or o echo ≡ true
      → complete_loop ((marker, echo) ∷ pairs) text o ≡ complete_loop pairs text (some echo)
  unfolding complete_loop
  complete_step_found starts agrees = rw (complete_loop, starts, agrees) refl

  pub complete_step_other :
      starts_with echo text ≡ false
      → complete_loop ((marker, echo) ∷ pairs) text o ≡ complete_loop pairs text o
  unfolding complete_loop
  complete_step_other other = rw (complete_loop, other) refl

pub complete_loop_lem :
    (pairs : List (Text × Text)) (text : Text) (o : Option Text)
    → NonEmptyEchoes pairs
    → ApartEchoes pairs
    → FoundEcho pairs text o
    → (matched : Option Text) × (complete_loop pairs text o ≡ ok matched)
      × FoundEcho [] text matched
complete_loop_lem [] text none some_left apart found = (none, unfold complete_loop in refl, tt)
complete_loop_lem [] text (some echo) some_left apart found =
    (some echo, unfold complete_loop in refl, found)
complete_loop_lem ((marker, echo) ∷ pairs) text o some_left apart found =
    elim (Bool-cases (starts_with echo text)) [
      | inl starts ↦
          let (matched, runs, held) =
            complete_loop_lem pairs text (some echo) some_left.1 apart.1
              (starts, some_left.0, apart.0) in
          (
            matched,
            complete_step_found marker echo pairs text o starts
                  (FoundEcho-agrees marker echo pairs text o found starts)
                ∙ runs,
            held,
          )
      | inr other ↦
          let (matched, runs, held) =
            complete_loop_lem pairs text o some_left.1 apart.1
              (FoundEcho-tail (marker, echo) pairs text o found) in
          (matched, complete_step_other marker echo pairs text o other ∙ runs, held)
    ]
