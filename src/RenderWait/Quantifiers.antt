-- ===== src/RenderWait/Quantifiers.antt =====
-- `hasNestedQuantifiers` of src/renderWait/matcher.ts.
use agent_tty.Prelude.{
  ℕ, Bool, true, false, not, ◌&&◌, ◌||◌, List, [], ◌∷◌, Text, leb, ◌==◌, if◌then◌else◌,
}

abbrev pub is_digit : ℕ → Bool
is_digit c = leb b'0' c && leb c b'9'

-- `\d*\}`
unfoldable pub closes_braces : Text → Bool
closes_braces [] = false
closes_braces (c ∷ rest) = c == b'}' || is_digit c && closes_braces rest

-- `\d*(?:\}|,\d*\})`
unfoldable pub counts_braces : Text → Bool
unfolding closes_braces
counts_braces [] = false
counts_braces (c ∷ rest) =
    c == b'}' || c == b',' && closes_braces rest || is_digit c && counts_braces rest

abbrev starts_with_digit : Text → Bool
starts_with_digit [] = false
starts_with_digit (c ∷ rest) = is_digit c

-- `BRACED_QUANTIFIER_PATTERN.test(...)`, behind the brace
unfoldable pub is_braced_quantifier : Text → Bool
unfolding counts_braces
is_braced_quantifier rest = starts_with_digit rest && counts_braces rest

abbrev pub is_quantifier_char : ℕ → Bool
is_quantifier_char c = c == b'*' || c == b'+' || c == b'?'

-- `isRegexQuantifierAt(pattern, index)`, on the pattern from the index on
unfoldable pub is_regex_quantifier_at : Text → Bool
unfolding is_braced_quantifier
is_regex_quantifier_at [] = false
is_regex_quantifier_at (c ∷ rest) = is_quantifier_char c || c == b'{' && is_braced_quantifier rest

-- `groupHasQuantifierStack`, its top first
abbrev pub Stack : Type 0
Stack = List Bool

abbrev pub mark : Bool → Stack → Stack
mark seen [] = []
mark seen (group ∷ groups) = (group || seen) ∷ groups

-- `groupHasQuantifierStack.pop() ?? false`
abbrev pub top : Stack → Bool
top [] = false
top (group ∷ groups) = group

abbrev pub pop : Stack → Stack
pop [] = []
pop (group ∷ groups) = groups

-- What an open group or a quantifier makes of the stack, outside of a character class.
abbrev pub mark_at : ℕ → ℕ → Text → Stack → Stack
mark_at previous c rest stack =
    if is_quantifier_char c
    then mark (not (previous == b'(')) stack
    else mark (c == b'{' && is_braced_quantifier rest) stack

-- The loop, on the pattern from the index on, behind the character `previous`; `skips` is set where
-- a backslash has passed over the next character.
unfoldable pub quantifier_loop : (skips in_class : Bool) (previous : ℕ) → Stack → Text → Bool
unfolding is_regex_quantifier_at
quantifier_loop skips in_class previous stack [] = false
quantifier_loop skips in_class previous stack (c ∷ rest) = elim skips [
  | true ↦ quantifier_loop false in_class c stack rest
  | false ↦ elim (c == b'\\') [
    | true ↦ quantifier_loop true in_class c stack rest
    | false ↦ elim (c == b'[') [
      | true ↦ quantifier_loop false true c stack rest
      | false ↦ elim in_class [
        | true ↦ quantifier_loop false (not (c == b']')) c stack rest
        | false ↦ elim (c == b'(') [
          | true ↦ quantifier_loop false false c (false ∷ stack) rest
          | false ↦ elim (c == b')') [
            | true ↦
                let has = top stack in
                let quantified = is_regex_quantifier_at rest in
                elim (has && quantified) [
                  | true ↦ true
                  | false ↦
                      quantifier_loop false false c (mark (has || quantified) (pop stack)) rest
                ]
            | false ↦ quantifier_loop false false c (mark_at previous c rest stack) rest
          ]
        ]
      ]
    ]
  ]
]

-- `hasNestedQuantifiers`; a character that none stands before is no `(`.
unfoldable pub has_nested_quantifiers : Text → Bool
unfolding quantifier_loop
has_nested_quantifiers pattern = quantifier_loop false false 0 [] pattern
