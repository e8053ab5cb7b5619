-- ===== src/RunCompletion/Reader.antt =====
-- A reference for the scanner of src/host/runCompletionSentinel.ts: it reads its input one character
-- after another and keeps no buffer of pieces.
use agent_tty.Prelude.{
  ℕ, zero, suc, ◌-◌, ◌≤◌, ◌≡◌, refl, ap, sym, ◌∙◌, Bool, true, false, not, ◌&&◌, none, some, List,
  [], ◌∷◌, ◌++◌, Text, drop, length, arith, Bool-cases, Option-cases, inl, inr,
}
use agent_tty.RunCompletion.Scanner.{
  ActiveSentinel, remove_marker, has_partial_sentinel_match, SentinelPiece, output, run_complete,
}
use agent_tty.RunCompletion.Matching.{
  AllFixed, find_match, find_match-append, has_partial-append, find_match-IsMatch,
  remove_marker-AllFixed,
}

-- What a piece says, character by character.
pub data Item : Type 0 where
  char : ℕ → Item
  completed : (marker : Text) → Item

unfoldable pub chars : Text → List Item
chars [] = []
chars (c ∷ text) = char c ∷ chars text

unfoldable pub items_of : List SentinelPiece → List Item
items_of [] = []
items_of (output text ∷ pieces) = chars text ++ items_of pieces
items_of (run_complete marker ∷ pieces) = completed marker ∷ items_of pieces

pub record Reading : Type 0 where
  pub items : List Item
  pub active : List ActiveSentinel
  pub tail : Text

abbrev pub item_first : Item → Reading → Reading
item_first item r = record r { items = item ∷ r.items }

-- Reads the text behind its first `skip` characters. A sentinel that begins here is read as its
-- marker, and is active no more; a part of one that the text ends in is left, unless no more comes.
unfoldable pub read : Bool → ℕ → List ActiveSentinel → Text → Reading
read is_final skip active [] = record { items = []; active = active; tail = [] }
read is_final (suc skip) active (c ∷ text) = read is_final skip active text
read is_final zero active (c ∷ text) = elim (find_match (c ∷ text) active) [
  | some m ↦
      item_first (completed m.marker)
        (read is_final (length m.sentinel - 1) (remove_marker m.marker active) text)
  | none ↦ elim (not is_final && has_partial_sentinel_match (c ∷ text) active) [
    | true ↦ record { items = []; active = active; tail = c ∷ text }
    | false ↦ item_first (char c) (read is_final 0 active text)
  ]
]

module _ (is_final : Bool) (active : List ActiveSentinel) (c : ℕ) (text : Text) where
  pub read_match :
      (m : ActiveSentinel)
      → find_match (c ∷ text) active ≡ some m
      → read is_final 0 active (c ∷ text)
        ≡ item_first
            (completed m.marker)
            (read is_final (length m.sentinel - 1) (remove_marker m.marker active) text)
  unfolding read
  read_match m e = rw (e, read) refl

  pub read_part :
      find_match (c ∷ text) active ≡ none
      → (not is_final && has_partial_sentinel_match (c ∷ text) active) ≡ true
      → read is_final 0 active (c ∷ text)
        ≡ (record { items = []; active = active; tail = c ∷ text })
  unfolding read
  read_part e p = rw (e, p, read) refl

  pub read_char :
      find_match (c ∷ text) active ≡ none
      → (not is_final && has_partial_sentinel_match (c ∷ text) active) ≡ false
      → read is_final 0 active (c ∷ text) ≡ item_first (char c) (read is_final 0 active text)
  unfolding read
  read_char e p = rw (e, p, read) refl

pub read_next :
    (is_final : Bool) (k : ℕ) (active : List ActiveSentinel) (c : ℕ) (text : Text)
    → read is_final (suc k) active (c ∷ text) ≡ read is_final k active text
unfolding read
read_next is_final k active c text = refl

pub read_skip :
    (is_final : Bool) (k : ℕ) (active : List ActiveSentinel) (text : Text)
    → k ≤ length text
    → read is_final k active text ≡ read is_final 0 active (drop k text)
unfolding read
read_skip is_final zero active text h = refl
read_skip is_final (suc k) active [] h = refl
read_skip is_final (suc k) active (c ∷ text) h = read_skip is_final k active text (omega arith)

-- A reading, and a second one that goes on where it ended.
abbrev pub then_read : Reading → Text → Reading
then_read r more =
    let next = read false 0 r.active (r.tail ++ more) in
    record { items = r.items ++ next.items; active = next.active; tail = next.tail }

-- Reading a text in two parts is reading it whole.
pub read-append :
    (n k : ℕ) (active : List ActiveSentinel) (text more : Text)
    → AllFixed n active
    → k ≤ length text
    → read false k active (text ++ more) ≡ then_read (read false k active text) more
read-append n zero active [] more fixed h = unfold read in refl
read-append n (suc k) active [] more fixed h = absurd (omega arith)
read-append n (suc k) active (c ∷ text) more fixed h =
    read_next false k active c (text ++ more)
    ∙ read-append n k active text more fixed (omega arith)
    ∙ ap (λ r. then_read r more) (sym (read_next false k active c text))
read-append n zero active (c ∷ text) more fixed h =
    elim (Option-cases (find_match (c ∷ text) active)) [
      | inr (m, e) ↦
          let match = find_match-IsMatch n active (c ∷ text) m fixed e in
          let grown = find_match-append n active (c ∷ text) more fixed (inl match.fits) ∙ e in
          read_match false active c (text ++ more) m grown
          ∙ ap (item_first (completed m.marker)) (
              read-append n (length m.sentinel - 1) (remove_marker m.marker active) text more
                (remove_marker-AllFixed n m.marker active fixed)
                (omega (arith, match.size, match.fits)))
          ∙ ap (λ r. then_read r more) (sym (read_match false active c text m e))
      | inl e ↦ elim (Bool-cases (has_partial_sentinel_match (c ∷ text) active)) [
        | inl part ↦ sym (ap (λ r. then_read r more) (read_part false active c text e part))
        | inr free ↦
            let grown = find_match-append n active (c ∷ text) more fixed (inr free) ∙ e in
            read_char false active c (text ++ more) grown
              (has_partial-append active (c ∷ text) more free)
            ∙ ap (item_first (char c)) (read-append n 0 active text more fixed (omega arith))
            ∙ ap (λ r. then_read r more) (sym (read_char false active c text e free))
      ]
    ]

-- What is read, and the tail, only come from sentinels that were active.
pub read-AllFixed :
    (n : ℕ) (is_final : Bool) (k : ℕ) (active : List ActiveSentinel) (text : Text)
    → AllFixed n active
    → AllFixed n (read is_final k active text).active
read-AllFixed n is_final k active [] fixed = unfold read in fixed
read-AllFixed n is_final (suc k) active (c ∷ text) fixed =
    rw (read_next is_final k active c text) (read-AllFixed n is_final k active text fixed)
read-AllFixed n is_final zero active (c ∷ text) fixed =
    elim (Option-cases (find_match (c ∷ text) active)) [
      | inr (m, e) ↦ rw (read_match is_final active c text m e) (
          read-AllFixed n is_final (length m.sentinel - 1) (remove_marker m.marker active) text
            (remove_marker-AllFixed n m.marker active fixed))
      | inl e ↦ elim (Bool-cases (not is_final && has_partial_sentinel_match (c ∷ text) active)) [
        | inl part ↦ rw (read_part is_final active c text e part) fixed
        | inr free ↦
            rw (read_char is_final active c text e free)
              (read-AllFixed n is_final 0 active text fixed)
      ]
    ]
