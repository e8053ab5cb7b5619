-- ===== src/LineDiff/Diff.antt =====
-- src/util/lineDiff.ts. A loop over an index is a recursion on the lines that it has left to read, so
-- the reads that `invariant` guards are always inside the lists.
use agent_tty.Prelude.{
  ℕ, zero, suc, ◌+◌, ◌-◌, ◌*◌, Bool, true, false, Option, none, some, List, [], ◌∷◌, ◌++◌, Text,
  text_eq, length, take, drop, get_elem?, leb, min, max, if◌then◌else◌,
}

-- `LineDiffEntry`: the rows that an operation sets are its arguments.
pub data LineDiffEntry : Type 0 where
  equal : (text : Text) (a_row b_row : ℕ) → LineDiffEntry
  delete : (text : Text) (a_row : ℕ) → LineDiffEntry
  add : (text : Text) (b_row : ℕ) → LineDiffEntry

abbrev pub max_diff_cells : ℕ
max_diff_cells = 4000000

-- A cell of a row, `row[j] ?? 0`.
abbrev pub cell : List ℕ → ℕ
cell [] = 0
cell (n ∷ row) = n

abbrev pub next_cells : List ℕ → List ℕ
next_cells [] = []
next_cells (n ∷ row) = row

-- One row of the table, from the row below it: its cells for `b[j..]`, and the last one, 0.
unfoldable pub lcs_row : Text → List Text → List ℕ → List ℕ
lcs_row x [] below = 0 ∷ []
lcs_row x (y ∷ b) below =
    let rest = lcs_row x b (next_cells below) in
    (if text_eq x y then cell (next_cells below) + 1 else max (cell below) (cell rest)) ∷ rest

abbrev zeros : List Text → List ℕ
zeros [] = 0 ∷ []
zeros (y ∷ b) = 0 ∷ zeros b

abbrev row_at : List (List ℕ) → List ℕ
row_at [] = []
row_at (row ∷ table) = row

-- The table: `lcs[i][j]` is of `a[i..]` and `b[j..]`.
unfoldable pub lcs_table : List Text → List Text → List (List ℕ)
lcs_table [] b = zeros b ∷ []
lcs_table (x ∷ a) b = let below = lcs_table a b in lcs_row x b (row_at below) ∷ below

-- `lcs[i]?.[j] ?? 0`
unfoldable pub lcs_at : List (List ℕ) → ℕ → ℕ → ℕ
lcs_at table i j = elim (get_elem? table i) [
  | none ↦ 0
  | some row ↦ elim (get_elem? row j) [ none ↦ 0 | some n ↦ n ]
]

-- Every line as a `delete`, and as an `add`.
unfoldable pub deletes : List Text → ℕ → List LineDiffEntry
deletes [] row = []
deletes (x ∷ a) row = delete x row ∷ deletes a (row + 1)

unfoldable pub adds : List Text → ℕ → List LineDiffEntry
adds [] row = []
adds (y ∷ b) row = add y row ∷ adds b (row + 1)

-- `fallbackEntries`
unfoldable pub fallback_entries : List Text → List Text → ℕ → ℕ → List LineDiffEntry
fallback_entries a b a_offset b_offset = deletes a a_offset ++ adds b b_offset

-- The walk through the table and the two loops behind it, on fuel; `a` and `b` are the lines from `i`
-- and from `j` on.
unfoldable pub walk : ℕ → List (List ℕ) → ℕ → ℕ → List Text → List Text → ℕ → ℕ → List LineDiffEntry
walk zero table a_offset b_offset a b i j = []
walk (suc fuel) table a_offset b_offset [] b i j = adds b (b_offset + j)
walk (suc fuel) table a_offset b_offset (x ∷ a) [] i j = deletes (x ∷ a) (a_offset + i)
walk (suc fuel) table a_offset b_offset (x ∷ a) (y ∷ b) i j = elim (text_eq x y) [
  | true ↦
      equal x (a_offset + i) (b_offset + j) ∷ walk fuel table a_offset b_offset a b (i + 1) (j + 1)
  | false ↦ elim (leb (lcs_at table i (j + 1)) (lcs_at table (i + 1) j)) [
    | true ↦ delete x (a_offset + i) ∷ walk fuel table a_offset b_offset a (y ∷ b) (i + 1) j
    | false ↦ add y (b_offset + j) ∷ walk fuel table a_offset b_offset (x ∷ a) b i (j + 1)
  ]
]

abbrev pub is_empty : List Text → Bool
is_empty [] = true
is_empty (x ∷ xs) = false

-- `lcsEntries`; each round of the walk takes a line.
unfoldable pub lcs_entries : List Text → List Text → ℕ → ℕ → List LineDiffEntry
lcs_entries a b a_offset b_offset =
    if is_empty a
    then fallback_entries a b a_offset b_offset
    else if is_empty b
    then fallback_entries a b a_offset b_offset
    else walk (length a + length b + 1) (lcs_table a b) a_offset b_offset a b 0 0

-- The lines that both start with.
unfoldable pub common_prefix : List Text → List Text → ℕ
common_prefix [] b = 0
common_prefix (x ∷ a) [] = 0
common_prefix (x ∷ a) (y ∷ b) = let rest = common_prefix a b in if text_eq x y then suc rest else 0

abbrev pub same_line : Option Text → Option Text → Bool
same_line none none = true
same_line none (some y) = false
same_line (some x) none = false
same_line (some x) (some y) = text_eq x y

-- The loop that counts `suffix`, on the rounds that its bounds leave.
unfoldable pub suffix_loop : ℕ → List Text → List Text → ℕ → ℕ
suffix_loop zero a b suffix = suffix
suffix_loop (suc rounds) a b suffix =
    let rest = suffix_loop rounds a b (suffix + 1) in
    if same_line (get_elem? a (length a - 1 - suffix)) (get_elem? b (length b - 1 - suffix))
    then rest
    else suffix

-- Lines that both have, at their rows.
unfoldable pub equals : List Text → ℕ → ℕ → List LineDiffEntry
equals [] a_row b_row = []
equals (x ∷ lines) a_row b_row = equal x a_row b_row ∷ equals lines (a_row + 1) (b_row + 1)

abbrev pub middle_of : List Text → ℕ → ℕ → List Text
middle_of lines prefix suffix = take (length lines - suffix - prefix) (drop prefix lines)

-- The middle, by the table where it is small enough.
unfoldable pub middle_entries : List Text → List Text → ℕ → List LineDiffEntry
middle_entries a b prefix =
    if leb ((length a + 1) * (length b + 1)) max_diff_cells
    then lcs_entries a b prefix prefix
    else fallback_entries a b prefix prefix

-- `diffLines`
unfoldable pub diff_lines : List Text → List Text → List LineDiffEntry
diff_lines a b =
    let prefix = common_prefix a b in
    let suffix = suffix_loop (min (length a - prefix) (length b - prefix)) a b 0 in
    equals (take prefix a) 0 0
    ++ middle_entries (middle_of a prefix suffix) (middle_of b prefix suffix) prefix
    ++ equals (drop (length a - suffix) a) (length a - suffix) (length b - suffix)
