-- ===== src/LineDiff/Sides.antt =====
-- src/util/lineDiff.ts: the entries of a diff, read on one side.
use agent_tty.Prelude.{
  subst, ℕ, zero, suc, ◌+◌, ◌<◌, ◌≡◌, refl, sym, ap, ap₂, ◌∙◌, List, [], ◌∷◌, ◌++◌, Text, text_eq,
  text_eq→eq, length, leb, arith, Bool-cases, inl, inr, append-nil,
}
use agent_tty.LineDiff.Diff.{
  LineDiffEntry, equal, delete, add, fallback_entries, deletes, adds, walk, lcs_at, equals,
}

-- Lines at their rows.
unfoldable pub numbered : ℕ → List Text → List (ℕ × Text)
numbered row [] = []
numbered row (x ∷ lines) = (row, x) ∷ numbered (row + 1) lines

-- The lines of the first screen that the entries hold, at the rows that they name.
unfoldable pub a_side : List LineDiffEntry → List (ℕ × Text)
a_side [] = []
a_side (equal text a_row b_row ∷ entries) = (a_row, text) ∷ a_side entries
a_side (delete text a_row ∷ entries) = (a_row, text) ∷ a_side entries
a_side (add text b_row ∷ entries) = a_side entries

-- Those of the second screen.
unfoldable pub b_side : List LineDiffEntry → List (ℕ × Text)
b_side [] = []
b_side (equal text a_row b_row ∷ entries) = (b_row, text) ∷ b_side entries
b_side (delete text a_row ∷ entries) = b_side entries
b_side (add text b_row ∷ entries) = (b_row, text) ∷ b_side entries

a_side-append : (xs ys : List LineDiffEntry) → a_side (xs ++ ys) ≡ a_side xs ++ a_side ys
unfolding a_side
a_side-append [] ys = refl
a_side-append (equal text a_row b_row ∷ xs) ys = ap ((a_row, text) ∷◌) (a_side-append xs ys)
a_side-append (delete text a_row ∷ xs) ys = ap ((a_row, text) ∷◌) (a_side-append xs ys)
a_side-append (add text b_row ∷ xs) ys = a_side-append xs ys

b_side-append : (xs ys : List LineDiffEntry) → b_side (xs ++ ys) ≡ b_side xs ++ b_side ys
unfolding b_side
b_side-append [] ys = refl
b_side-append (equal text a_row b_row ∷ xs) ys = ap ((b_row, text) ∷◌) (b_side-append xs ys)
b_side-append (delete text a_row ∷ xs) ys = b_side-append xs ys
b_side-append (add text b_row ∷ xs) ys = ap ((b_row, text) ∷◌) (b_side-append xs ys)

numbered-append :
    (row : ℕ) (xs ys : List Text)
    → numbered row (xs ++ ys) ≡ numbered row xs ++ numbered (row + length xs) ys
unfolding numbered
numbered-append row [] ys = ap (λ n. numbered n ys) (omega arith)
numbered-append row (x ∷ xs) ys = ap ((row, x) ∷◌) (
    numbered-append (row + 1) xs ys
    ∙ ap (λ n. numbered (row + 1) xs ++ numbered n ys) (omega arith))

-- What entries say of the two screens, from a row of each on.
pub record IsDiff (a b : List Text) (a_row b_row : ℕ) (entries : List LineDiffEntry) : Type 0 where
  pub a_lines : a_side entries ≡ numbered a_row a
  pub b_lines : b_side entries ≡ numbered b_row b

deletes-IsDiff : (a : List Text) (a_row b_row : ℕ) → IsDiff a [] a_row b_row (deletes a a_row)
unfolding deletes a_side b_side numbered
deletes-IsDiff [] a_row b_row = record { a_lines = refl; b_lines = refl }
deletes-IsDiff (x ∷ a) a_row b_row =
    let rest = deletes-IsDiff a (a_row + 1) b_row in
    record { a_lines = ap ((a_row, x) ∷◌) rest.a_lines; b_lines = rest.b_lines }

adds-IsDiff : (b : List Text) (a_row b_row : ℕ) → IsDiff [] b a_row b_row (adds b b_row)
unfolding adds a_side b_side numbered
adds-IsDiff [] a_row b_row = record { a_lines = refl; b_lines = refl }
adds-IsDiff (y ∷ b) a_row b_row =
    let rest = adds-IsDiff b a_row (b_row + 1) in
    record { a_lines = rest.a_lines; b_lines = ap ((b_row, y) ∷◌) rest.b_lines }

pub equals-IsDiff :
    (lines : List Text) (a_row b_row : ℕ)
    → IsDiff lines lines a_row b_row (equals lines a_row b_row)
unfolding equals a_side b_side numbered
equals-IsDiff [] a_row b_row = record { a_lines = refl; b_lines = refl }
equals-IsDiff (x ∷ lines) a_row b_row =
    let rest = equals-IsDiff lines (a_row + 1) (b_row + 1) in
    record { a_lines = ap ((a_row, x) ∷◌) rest.a_lines; b_lines = ap ((b_row, x) ∷◌) rest.b_lines }

pub append-IsDiff :
    (a b a' b' : List Text) (a_row b_row : ℕ) (xs ys : List LineDiffEntry)
    → IsDiff a b a_row b_row xs
    → IsDiff a' b' (a_row + length a) (b_row + length b) ys
    → IsDiff (a ++ a') (b ++ b') a_row b_row (xs ++ ys)
append-IsDiff a b a' b' a_row b_row xs ys first second = record {
  a_lines =
      a_side-append xs ys
      ∙ ap₂ ◌++◌ first.a_lines second.a_lines
      ∙ sym (numbered-append a_row a a');
  b_lines =
      b_side-append xs ys
      ∙ ap₂ ◌++◌ first.b_lines second.b_lines
      ∙ sym (numbered-append b_row b b');
}

pub fallback_entries-IsDiff :
    (a b : List Text) (a_row b_row : ℕ) → IsDiff a b a_row b_row (fallback_entries a b a_row b_row)
unfolding fallback_entries
fallback_entries-IsDiff a b a_row b_row =
    let parts = append-IsDiff a [] [] b a_row b_row _ _ (deletes-IsDiff a a_row b_row) (
      subst (λ n. IsDiff [] b (a_row + length a) n (adds b b_row)) (omega arith)
        (adds-IsDiff b (a_row + length a) b_row)) in
    record { a_lines = parts.a_lines ∙ ap (numbered a_row) (append-nil a); b_lines = parts.b_lines }

-- One entry more.
module _ (a b : List Text) (a_row b_row a_next b_next : ℕ) (entries : List LineDiffEntry)
    (rest : IsDiff a b a_next b_next entries) where
  equal-IsDiff :
      (x y : Text)
      → x ≡ y
      → a_next ≡ a_row + 1
      → b_next ≡ b_row + 1
      → IsDiff (x ∷ a) (y ∷ b) a_row b_row (equal x a_row b_row ∷ entries)
  unfolding a_side b_side numbered
  equal-IsDiff x y same ea eb = record {
    a_lines = ap ((a_row, x) ∷◌) (rest.a_lines ∙ ap (λ n. numbered n a) ea);
    b_lines = ap₂ (λ t l. (b_row, t) ∷ l) same (rest.b_lines ∙ ap (λ n. numbered n b) eb);
  }

  delete-IsDiff :
      (x : Text)
      → a_next ≡ a_row + 1
      → b_next ≡ b_row
      → IsDiff (x ∷ a) b a_row b_row (delete x a_row ∷ entries)
  unfolding a_side b_side numbered
  delete-IsDiff x ea eb = record {
    a_lines = ap ((a_row, x) ∷◌) (rest.a_lines ∙ ap (λ n. numbered n a) ea);
    b_lines = rest.b_lines ∙ ap (λ n. numbered n b) eb;
  }

  add-IsDiff :
      (y : Text)
      → a_next ≡ a_row
      → b_next ≡ b_row + 1
      → IsDiff a (y ∷ b) a_row b_row (add y b_row ∷ entries)
  unfolding a_side b_side numbered
  add-IsDiff y ea eb = record {
    a_lines = rest.a_lines ∙ ap (λ n. numbered n a) ea;
    b_lines = ap ((b_row, y) ∷◌) (rest.b_lines ∙ ap (λ n. numbered n b) eb);
  }

-- The walk ends within its fuel: each round takes a line.
pub walk-IsDiff :
    (fuel : ℕ) (table : List (List ℕ)) (a_offset b_offset : ℕ) (a b : List Text) (i j : ℕ)
    → length a + length b < fuel
    → IsDiff a b (a_offset + i) (b_offset + j) (walk fuel table a_offset b_offset a b i j)
unfolding walk
walk-IsDiff zero table a_offset b_offset a b i j enough = absurd (omega arith)
walk-IsDiff (suc fuel) table a_offset b_offset [] b i j enough =
    adds-IsDiff b (a_offset + i) (b_offset + j)
walk-IsDiff (suc fuel) table a_offset b_offset (x ∷ a) [] i j enough =
    deletes-IsDiff (x ∷ a) (a_offset + i) (b_offset + j)
walk-IsDiff (suc fuel) table a_offset b_offset (x ∷ a) (y ∷ b) i j enough =
    elim (Bool-cases (text_eq x y)) [
      | inl same ↦
          rw (walk, same)
            (equal-IsDiff a b _ _ _ _ _
              (walk-IsDiff fuel table a_offset b_offset a b (i + 1) (j + 1) (omega arith)) x y
              (text_eq→eq x y same) (omega arith) (omega arith))
      | inr differ ↦ elim (Bool-cases (leb (lcs_at table i (j + 1)) (lcs_at table (i + 1) j))) [
        | inl first ↦
            rw (walk, differ, first)
              (delete-IsDiff a (y ∷ b) _ _ _ _ _
                (walk-IsDiff fuel table a_offset b_offset a (y ∷ b) (i + 1) j (omega arith)) x
                (omega arith) (omega arith))
        | inr second ↦
            rw (walk, differ, second)
              (add-IsDiff (x ∷ a) b _ _ _ _ _
                (walk-IsDiff fuel table a_offset b_offset (x ∷ a) b i (j + 1) (omega arith)) y
                (omega arith) (omega arith))
      ]
    ]
