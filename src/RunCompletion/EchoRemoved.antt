-- ===== src/RunCompletion/EchoRemoved.antt =====
-- The whole echo of an active run in src/host/runCompletionSentinel.ts.
use agent_tty.Prelude.{
  ℕ, suc, ◌+◌, ◌≡◌, refl, sym, ap, subst, ◌∙◌, true, false, Option, none, some, List, [], ◌∷◌, ◌++◌,
  append_assoc, append-nil, Text, text_eq→eq, starts_with, starts_with-append, drop,
  drop-length-append, length, ◌==◌, ok, arith, ◌⊎◌, inl, inr, Bool-cases, All,
}
use agent_tty.RunCompletion.Sanitizer.{
  ActivePostambleEcho, has_active_echoes, visited, complete_loop,
}
use agent_tty.RunCompletion.Strip.{strip_loop, strip_buffer, feed_echo}
use agent_tty.RunCompletion.EchoMatch.{NonEmptyEchoes}
use agent_tty.RunCompletion.EchoWhole.{
  ApartEchoes, FoundEcho, FoundEcho-agrees, FoundEcho-tail, complete_step_found,
  complete_step_other,
}
use agent_tty.RunCompletion.EchoParts.{IsEchoes, bound_of_empty}
use agent_tty.RunCompletion.EchoSteps.{holding, step_plain, step_echo}
use agent_tty.RunCompletion.Stripped.{step_end}

-- The echo is one of those that the sanitizer looks for.
abbrev pub IsListed : Text → List (Text × Text) → Type 0
IsListed echo [] = ⊥
IsListed echo ((marker, x) ∷ pairs) = (x ≡ echo) ⊎ IsListed echo pairs

-- No character of the text begins an echo.
abbrev pub StartsNoEcho : Text → Type 0
StartsNoEcho text = All (λ c. (c == b'p') ≡ false) text

complete_loop-nil : (text : Text) (o : Option Text) → complete_loop [] text o ≡ ok o
unfolding complete_loop
complete_loop-nil text o = refl

module _ (echo text : Text) (starts : starts_with echo text ≡ true) where
  still_found :
      (marker x : Text) (pairs : List (Text × Text)) (o : Option Text)
      → FoundEcho ((marker, x) ∷ pairs) text o
      → starts_with x text ≡ true
      → IsListed echo ((marker, x) ∷ pairs) ⊎ (o ≡ some echo)
      → IsListed echo pairs ⊎ (some x ≡ some echo)
  still_found marker x pairs o found begins (inl (inl e)) = inr (ap some e)
  still_found marker x pairs o found begins (inl (inr later)) = inl later
  still_found marker x pairs o found begins (inr e) =
      let agrees =
        FoundEcho-agrees marker x pairs text (some echo)
          (subst (FoundEcho ((marker, x) ∷ pairs) text) e found) begins in
      inr (ap some (sym (text_eq→eq echo x agrees)))

  not_lost :
      (marker x : Text) (pairs : List (Text × Text)) (o : Option Text)
      → starts_with x text ≡ false
      → IsListed echo ((marker, x) ∷ pairs) ⊎ (o ≡ some echo)
      → IsListed echo pairs ⊎ (o ≡ some echo)
  not_lost marker x pairs o other (inl (inl e)) =
      absurd (cc (ap (λ y. starts_with y text) e, other, starts))
  not_lost marker x pairs o other (inl (inr later)) = inl later
  not_lost marker x pairs o other (inr e) = inr e

  complete_loop-listed :
      (pairs : List (Text × Text)) (o : Option Text)
      → NonEmptyEchoes pairs
      → ApartEchoes pairs
      → FoundEcho pairs text o
      → IsListed echo pairs ⊎ (o ≡ some echo)
      → complete_loop pairs text o ≡ ok (some echo)
  complete_loop-listed [] o some_left apart found (inl impossible) = absurd impossible
  complete_loop-listed [] o some_left apart found (inr e) = complete_loop-nil text o ∙ ap ok e
  complete_loop-listed ((marker, x) ∷ pairs) o some_left apart found held =
      elim (Bool-cases (starts_with x text)) [
        | inl begins ↦
            complete_step_found marker x pairs text o begins
              (FoundEcho-agrees marker x pairs text o found begins)
            ∙ complete_loop-listed pairs (some x) some_left.1 apart.1 (begins, some_left.0, apart.0)
                (still_found marker x pairs o found begins held)
        | inr other ↦
            complete_step_other marker x pairs text o other
            ∙ complete_loop-listed pairs o some_left.1 apart.1
                (FoundEcho-tail (marker, x) pairs text o found)
                (not_lost marker x pairs o other held)
      ]

module _ (active : List ActivePostambleEcho) (some_active : has_active_echoes active ≡ true) where
  strip_plain :
      (pre rest out : Text)
      → StartsNoEcho pre
      → strip_loop (length (pre ++ rest) + 1) false (pre ++ rest) (holding active none []) out
        ≡ strip_loop (length rest + 1) false rest (holding active none []) (out ++ pre)
  strip_plain [] rest out plain =
      ap (strip_loop (length rest + 1) false rest (holding active none [])) (sym (append-nil out))
  strip_plain (c ∷ pre) rest out plain =
      let more : length ((c ∷ pre) ++ rest) + 1 ≡ suc (length (pre ++ rest) + 1) = omega arith in
      ap (λ n. strip_loop n false ((c ∷ pre) ++ rest) (holding active none []) out) more
      ∙ step_plain (length (pre ++ rest) + 1) false c (pre ++ rest) active out some_active plain.0
      ∙ strip_plain pre rest (out ++ c ∷ []) plain.1
      ∙ ap (strip_loop (length rest + 1) false rest (holding active none []))
          (append_assoc out (c ∷ []) pre)

  feed_loop :
      (c : ℕ) (text : Text)
      → feed_echo (c ∷ text) (holding active none [])
        ≡ strip_loop (length (c ∷ text) + 1) false (c ∷ text) (holding active none []) []
  unfolding feed_echo strip_buffer
  feed_loop c text = rw (feed_echo, strip_buffer, some_active) refl

  feed_plain :
      (pre : Text) (c : ℕ) (rest : Text)
      → StartsNoEcho pre
      → feed_echo (pre ++ c ∷ rest) (holding active none [])
        ≡ strip_loop (length (c ∷ rest) + 1) false (c ∷ rest) (holding active none []) pre
  feed_plain [] c rest plain = feed_loop c rest
  feed_plain (d ∷ pre) c rest plain =
      feed_loop d (pre ++ c ∷ rest) ∙ strip_plain (d ∷ pre) (c ∷ rest) [] plain

-- Where a chunk ends with an echo of an active run, and nothing in it before the echo could begin one, a
-- sanitizer that holds nothing back takes the echo out, puts out all that comes before it, and holds
-- nothing back afterwards.
pub feed_echo-echo :
    (active : List ActivePostambleEcho) (pre echo : Text)
    → IsEchoes active
    → has_active_echoes active ≡ true
    → IsListed (b'p' ∷ echo) (visited active)
    → StartsNoEcho pre
    → feed_echo (pre ++ b'p' ∷ echo) (holding active none []) ≡ ok (holding active none [], pre)
feed_echo-echo active pre echo v some_active listed plain =
    let whole = b'p' ∷ echo in
    let s = holding active none [] in
    let begins : starts_with whole whole ≡ true =
      subst (λ x. starts_with whole x ≡ true) (append-nil whole) (starts_with-append whole []) in
    let nothing_left : drop (length whole) whole ≡ [] =
      subst (λ x. drop (length whole) x ≡ []) (append-nil whole) (drop-length-append whole []) in
    let matched =
      complete_loop-listed whole whole begins (visited active) none v.non_empty v.apart tt
        (inl listed) in
    let more : length whole + 1 ≡ suc (suc (length echo)) = omega arith in
    feed_plain active some_active pre b'p' echo plain
    ∙ ap (λ n. strip_loop n false whole s pre) more
    ∙ step_echo (suc (length echo)) false b'p' echo active pre some_active whole refl matched
    ∙ ap (λ x. strip_loop (suc (length echo)) false x s pre) nothing_left
    ∙ step_end (length echo) false s pre (bound_of_empty s v refl)
