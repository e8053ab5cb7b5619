-- ===== src/LineDiff/Middle.antt =====
-- The middle of src/util/lineDiff.ts, and `diffLines` as a whole.
use agent_tty.Prelude.{
  subst, ℕ, zero, suc, ◌+◌, ◌-◌, ◌*◌, ◌≤◌, ◌<◌, ◌≡◌, refl, sym, ap, ap₂, ◌∙◌, true, none, some,
  List, [], ◌∷◌, ◌++◌, Text, text_eq, text_eq→eq, length, length-append, take, drop,
  take-append-drop, length-take, length-drop, get_elem?, leb, min, arith, Bool-cases, Option-cases,
  inl, inr, append_assoc,
}
use agent_tty.LineDiff.Diff.{
  LineDiffEntry, lcs_entries, lcs_table, equals, common_prefix, suffix_loop, middle_of,
  middle_entries, diff_lines, max_diff_cells, same_line,
}
use agent_tty.LineDiff.Sides.{
  IsDiff, numbered, walk-IsDiff, fallback_entries-IsDiff, equals-IsDiff, append-IsDiff,
}

lcs_entries-IsDiff :
    (a b : List Text) (a_row b_row : ℕ) → IsDiff a b a_row b_row (lcs_entries a b a_row b_row)
unfolding lcs_entries
lcs_entries-IsDiff [] b a_row b_row = fallback_entries-IsDiff [] b a_row b_row
lcs_entries-IsDiff (x ∷ a) [] a_row b_row = fallback_entries-IsDiff (x ∷ a) [] a_row b_row
lcs_entries-IsDiff (x ∷ a) (y ∷ b) a_row b_row =
    let walked =
      walk-IsDiff (length (x ∷ a) + length (y ∷ b) + 1) (lcs_table (x ∷ a) (y ∷ b)) a_row b_row
        (x ∷ a) (y ∷ b) 0 0 (omega arith) in
    subst (λ n. IsDiff (x ∷ a) (y ∷ b) n b_row (lcs_entries (x ∷ a) (y ∷ b) a_row b_row))
      (omega arith)
      (subst (λ n. IsDiff (x ∷ a) (y ∷ b) (a_row + 0) n (lcs_entries (x ∷ a) (y ∷ b) a_row b_row))
        (omega arith) walked)

middle_entries-IsDiff : (a b : List Text) (row : ℕ) → IsDiff a b row row (middle_entries a b row)
unfolding middle_entries
middle_entries-IsDiff a b row =
    elim (Bool-cases (leb ((length a + 1) * (length b + 1)) max_diff_cells)) [
      | inl small ↦ rw small (lcs_entries-IsDiff a b row row)
      | inr large ↦ rw large (fallback_entries-IsDiff a b row row)
    ]

-- The counted prefix is in both screens, the same.
common_prefix_same :
    (a b : List Text)
    → (take (common_prefix a b) a ≡ take (common_prefix a b) b)
      × (common_prefix a b ≤ length a)
      × (common_prefix a b ≤ length b)
unfolding common_prefix
common_prefix_same [] b = (refl, omega arith, omega arith)
common_prefix_same (x ∷ a) [] = (refl, omega arith, omega arith)
common_prefix_same (x ∷ a) (y ∷ b) = elim (Bool-cases (text_eq x y)) [
  | inl same ↦
      let rest = common_prefix_same a b in
      rw same (ap₂ ◌∷◌ (text_eq→eq x y same) rest.0, omega (arith, rest.1), omega (arith, rest.2))
  | inr differ ↦ rw differ (refl, omega arith, omega arith)
]

drop-get_elem? :
    (lines : List Text) (i : ℕ) (x : Text)
    → get_elem? lines i ≡ some x
    → drop i lines ≡ x ∷ drop (suc i) lines
drop-get_elem? [] i x h = cc
drop-get_elem? (y ∷ lines) zero x h = cc
drop-get_elem? (y ∷ lines) (suc i) x h = drop-get_elem? lines i x h

get_elem?-none : (lines : List Text) (i : ℕ) → get_elem? lines i ≡ none → length lines ≤ i
get_elem?-none [] i h = omega arith
get_elem?-none (y ∷ lines) zero h = cc
get_elem?-none (y ∷ lines) (suc i) h = omega (arith, get_elem?-none lines i h)

same_line-drop :
    (a b : List Text) (i j : ℕ)
    → i < length a
    → j < length b
    → same_line (get_elem? a i) (get_elem? b j) ≡ true
    → drop (suc i) a ≡ drop (suc j) b
    → drop i a ≡ drop j b
same_line-drop a b i j ha hb h rest = elim (Option-cases (get_elem? a i)) [
  | inl ea ↦ absurd (omega (arith, get_elem?-none a i ea))
  | inr (x, ea) ↦ elim (Option-cases (get_elem? b j)) [
    | inl eb ↦ absurd (omega (arith, get_elem?-none b j eb))
    | inr (y, eb) ↦
        drop-get_elem? a i x ea
        ∙ ap₂ ◌∷◌ (text_eq→eq x y (sym (ap₂ same_line ea eb) ∙ h)) rest
        ∙ sym (drop-get_elem? b j y eb)
  ]
]

-- The counted suffix is in both screens, the same.
suffix_loop_same :
    (rounds : ℕ) (a b : List Text) (suffix : ℕ)
    → suffix + rounds ≤ length a
    → suffix + rounds ≤ length b
    → drop (length a - suffix) a ≡ drop (length b - suffix) b
    → (drop (length a - suffix_loop rounds a b suffix) a
        ≡ drop (length b - suffix_loop rounds a b suffix) b)
      × (suffix_loop rounds a b suffix ≤ suffix + rounds)
unfolding suffix_loop
suffix_loop_same zero a b suffix ha hb same = (same, omega arith)
suffix_loop_same (suc rounds) a b suffix ha hb same =
    elim (Bool-cases
      (same_line (get_elem? a (length a - 1 - suffix)) (get_elem? b (length b - 1 - suffix)))) [
        | inl alike ↦
            let in_a : suc (length a - 1 - suffix) ≡ length a - suffix = omega arith in
            let in_b : length b - suffix ≡ suc (length b - 1 - suffix) = omega arith in
            let next_a : length a - (suffix + 1) ≡ length a - 1 - suffix = omega arith in
            let next_b : length b - 1 - suffix ≡ length b - (suffix + 1) = omega arith in
            let line =
              same_line-drop a b (length a - 1 - suffix) (length b - 1 - suffix) (omega arith)
                (omega arith) alike (ap (λ n. drop n a) in_a ∙ same ∙ ap (λ n. drop n b) in_b) in
            let rest =
              suffix_loop_same rounds a b (suffix + 1) (omega arith) (omega arith)
                (ap (λ n. drop n a) next_a ∙ line ∙ ap (λ n. drop n b) next_b) in
            rw alike (rest.0, omega (arith, rest.1))
        | inr differ ↦ rw differ (same, omega arith)
      ]

drop-drop : (m n : ℕ) (lines : List Text) → drop n (drop m lines) ≡ drop (m + n) lines
drop-drop zero n lines = ap (λ k. drop k lines) (omega arith)
drop-drop (suc m) n [] = drop-nil n ∙ sym (drop-nil (suc m + n))
  where
    drop-nil : (k : ℕ) → drop {A = Text} k [] ≡ []
    drop-nil zero = refl
    drop-nil (suc k) = refl
drop-drop (suc m) n (x ∷ lines) =
    let shift : suc (m + n) ≡ suc m + n = omega arith in
    drop-drop m n lines ∙ ap (λ k. drop k (x ∷ lines)) shift

drop_all : (lines : List Text) → drop (length lines - 0) lines ≡ []
drop_all [] =
    let none_left : length {A = Text} [] - 0 ≡ 0 = omega arith in
    ap (λ k. drop {A = Text} k []) none_left
drop_all (x ∷ lines) =
    let whole : length (x ∷ lines) - 0 ≡ suc (length lines) = omega arith in
    let rest : length lines - 0 ≡ length lines = omega arith in
    ap (λ k. drop k (x ∷ lines)) whole ∙ ap (λ k. drop k lines) (sym rest) ∙ drop_all lines

-- A screen is its prefix, its middle and its suffix.
split_lines :
    (lines : List Text) (prefix suffix : ℕ)
    → prefix + suffix ≤ length lines
    → take prefix lines ++ middle_of lines prefix suffix ++ drop (length lines - suffix) lines
      ≡ lines
split_lines lines prefix suffix fits =
    let at : prefix + (length lines - suffix - prefix) ≡ length lines - suffix = omega arith in
    let rest = drop prefix lines in
    ap (λ l. (take prefix lines ++ middle_of lines prefix suffix) ++ l)
      (sym (drop-drop prefix (length lines - suffix - prefix) lines ∙ ap (λ k. drop k lines) at))
    ∙ append_assoc (take prefix lines) (middle_of lines prefix suffix) _
    ∙ ap (take prefix lines ++◌) (take-append-drop (length lines - suffix - prefix) rest)
    ∙ take-append-drop prefix lines

length-middle :
    (lines : List Text) (prefix suffix : ℕ)
    → prefix + suffix ≤ length lines
    → length lines - suffix ≡ length (take prefix lines ++ middle_of lines prefix suffix)
length-middle lines prefix suffix fits = omega (
  arith,
  length-append (take prefix lines) (middle_of lines prefix suffix),
  length-take prefix lines,
  length-take (length lines - suffix - prefix) (drop prefix lines),
  length-drop prefix lines,
)

-- The same entries, for equal lines and rows.
move-IsDiff :
    (a a' b b' : List Text) (a_row a_row' b_row b_row' : ℕ) (entries : List LineDiffEntry)
    → a ≡ a'
    → b ≡ b'
    → a_row ≡ a_row'
    → b_row ≡ b_row'
    → IsDiff a b a_row b_row entries
    → IsDiff a' b' a_row' b_row' entries
move-IsDiff a a' b b' a_row a_row' b_row b_row' entries ea eb era erb d = record {
  a_lines = d.a_lines ∙ ap₂ numbered era ea;
  b_lines = d.b_lines ∙ ap₂ numbered erb eb;
}

-- The diff of two screens that share the counted prefix and suffix.
module _ (a b : List Text) (prefix suffix : ℕ) (fits_a : prefix + suffix ≤ length a)
    (fits_b : prefix + suffix ≤ length b) (starts : take prefix a ≡ take prefix b)
    (ends : drop (length a - suffix) a ≡ drop (length b - suffix) b) where
  parts-IsDiff : IsDiff a b 0 0 (
      equals (take prefix a) 0 0
      ++ middle_entries (middle_of a prefix suffix) (middle_of b prefix suffix) prefix
      ++ equals (drop (length a - suffix) a) (length a - suffix) (length b - suffix))
  parts-IsDiff =
      let mid_a = middle_of a prefix suffix in
      let mid_b = middle_of b prefix suffix in
      let first =
        move-IsDiff _ (take prefix a) _ (take prefix b) 0 0 0 0 _ refl starts refl refl
          (equals-IsDiff (take prefix a) 0 0) in
      let middle =
        move-IsDiff _ mid_a _ mid_b prefix (0 + length (take prefix a)) prefix
          (0 + length (take prefix b)) _ refl refl (omega (arith, length-take prefix a))
          (omega (arith, length-take prefix b)) (middle_entries-IsDiff mid_a mid_b prefix) in
      let last =
        move-IsDiff _ (drop (length a - suffix) a) _ (drop (length b - suffix) b) _
          (0 + length (take prefix a ++ mid_a)) _ (0 + length (take prefix b ++ mid_b)) _ refl ends
          (omega (arith, length-middle a prefix suffix fits_a))
          (omega (arith, length-middle b prefix suffix fits_b))
          (equals-IsDiff (drop (length a - suffix) a) (length a - suffix) (length b - suffix)) in
      let front = append-IsDiff (take prefix a) (take prefix b) mid_a mid_b 0 0 _ _ first middle in
      move-IsDiff _ a _ b 0 0 0 0 _ (split_lines a prefix suffix fits_a)
        (split_lines b prefix suffix fits_b) refl refl
        (append-IsDiff (take prefix a ++ mid_a) (take prefix b ++ mid_b) _ _ 0 0 _ _ front last)

-- The lines of the first screen are those of the entries that are equal or deleted, in order and each
-- at its row, and the lines of the second those of the entries that are equal or added.
pub diff_lines-IsDiff : (a b : List Text) → IsDiff a b 0 0 (diff_lines a b)
unfolding diff_lines
diff_lines-IsDiff a b =
    let prefix = common_prefix a b in
    let rounds = min (length a - prefix) (length b - prefix) in
    let (starts, in_a, in_b) = common_prefix_same a b in
    let (ends, counted) =
      suffix_loop_same rounds a b 0 (omega arith) (omega arith) (drop_all a ∙ sym (drop_all b)) in
    parts-IsDiff a b prefix (suffix_loop rounds a b 0) (omega arith) (omega arith) starts ends
