-- ===== src/RenderWait/Nested.antt =====
-- `hasNestedQuantifiers` of src/renderWait/matcher.ts beside the syntax of the expressions.
use agent_tty.Prelude.{
  ℕ, Bool, true, false, ◌&&◌, ◌||◌, [], ◌∷◌, ◌++◌, Text, ◌≡◌, refl, ap, sym, ◌∙◌,
}
use agent_tty.RenderWait.Quantifiers.{Stack, mark, quantifier_loop, has_nested_quantifiers}
use agent_tty.RenderWait.Syntax.{
  Quantifier, Piece, char, escape, class, group, Pattern, done, ◌then◌, print_quantifier,
  print_piece, print_pattern, is_quantified, piece_has_quantifier, has_quantifier, piece_nests,
  nests, IsQuantifier, IsPrefix, IsPiece, IsPattern,
}
use agent_tty.RenderWait.Passing.{
  reads, IsFollowing, mark_none, mark-mark, previous_free, literal_passes, literals_pass,
}
use agent_tty.RenderWait.PassingQuantifiers.{
  quantifier_passes, class_passes, is_regex_quantifier_at-print,
}

or_assoc : (a b c : Bool) → (a || (b || c)) ≡ ((a || b) || c)
or_assoc true b c = refl
or_assoc false b c = refl

or_false : (a : Bool) → (a || false) ≡ a
or_false true = refl
or_false false = refl

pattern-IsFollowing :
    (pattern : Pattern) (rest : Text)
    → IsPattern pattern
    → IsFollowing rest
    → IsFollowing (print_pattern pattern rest)
unfolding print_pattern
pattern-IsFollowing done rest valid following = following
pattern-IsFollowing (char c q then more) rest ((literal, _), _) following =
    (literal.no_quantifier, literal.no_brace)
pattern-IsFollowing (escape c q then more) rest valid following = (refl, refl)
pattern-IsFollowing (class chars q then more) rest valid following = (refl, refl)
pattern-IsFollowing (group prefix body q then more) rest valid following = (refl, refl)

-- The characters in front of the body of a group.
prefix_passes :
    (prefix : Text) (stack : Stack) (text : Text)
    → IsPrefix prefix
    → IsFollowing text
    → reads b'(' (false ∷ stack) (prefix ++ text) ≡ reads 0 (false ∷ stack) text
unfolding quantifier_loop
prefix_passes [] stack text valid following = previous_free b'(' 0 (false ∷ stack) text following
prefix_passes (c ∷ prefix) stack text (e, valid) following =
    ap (λ x. reads b'(' (false ∷ stack) (x ∷ (prefix ++ text))) e
    ∙ literals_pass b'?' prefix (false ∷ stack) text valid following

true_or : (a b : Bool) → (elim a [ true ↦ true | false ↦ b ]) ≡ (a || b)
true_or true b = refl
true_or false b = refl

or_again : (a b : Bool) → ((a || b) || b) ≡ (a || b)
or_again true b = refl
or_again false true = refl
or_again false false = refl

-- What the loop does behind a closing parenthesis.
abbrev ends : (has quantified : Bool) → Stack → Text → Bool
ends has quantified stack text = elim (has && quantified) [
  | true ↦ true
  | false ↦ reads b')' (mark (has || quantified) stack) text
]

-- The end of a group, with its quantifier.
group_ends :
    (has : Bool) (q : Quantifier) (stack : Stack) (text : Text)
    → IsQuantifier q
    → IsFollowing text
    → reads 0 (has ∷ stack) (b')' ∷ print_quantifier q text)
      ≡ ((has && is_quantified q) || reads 0 (mark (has || is_quantified q) stack) text)
unfolding quantifier_loop
group_ends has q stack text valid following =
    let k = is_quantified q in
    ap (λ at. ends has at stack (print_quantifier q text))
      (is_regex_quantifier_at-print q text valid following)
    ∙ true_or (has && k) _
    ∙ ap (λ b. (has && k) || b)
        (quantifier_passes q b')' (mark (has || k) stack) text valid refl following
          ∙ ap (λ s. reads 0 s text)
              (mark-mark (has || k) k stack ∙ ap (λ b. mark b stack) (or_again has k)))

mutual
  unfolding print_piece print_pattern piece_nests nests piece_has_quantifier has_quantifier
      quantifier_loop

  piece_read :
      (piece : Piece) (p : ℕ) (stack : Stack) (rest : Text)
      → IsPiece piece
      → IsFollowing rest
      → reads p stack (print_piece piece rest)
        ≡ (piece_nests piece || reads 0 (mark (piece_has_quantifier piece) stack) rest)
  piece_read (char c q) p stack rest (literal, valid) following =
      literal_passes p c stack (print_quantifier q rest) literal
      ∙ quantifier_passes q c stack rest valid literal.no_open following
  piece_read (escape c q) p stack rest (no_open, valid) following =
      quantifier_passes q c stack rest valid no_open following
  piece_read (class chars q) p stack rest (valid_chars, valid) following =
      class_passes chars b'[' stack (print_quantifier q rest) valid_chars
      ∙ quantifier_passes q b']' stack rest valid refl following
  piece_read (group prefix body q) p stack rest (valid_prefix, valid_body, valid) following =
      prefix_passes prefix stack (print_pattern body (b')' ∷ print_quantifier q rest)) valid_prefix
        (pattern-IsFollowing body (b')' ∷ print_quantifier q rest) valid_body (refl, refl))
      ∙ pattern_read body 0 (false ∷ stack) (b')' ∷ print_quantifier q rest) valid_body (refl, refl)
      ∙ ap (λ b. nests body || b) (group_ends (has_quantifier body) q stack rest valid following)
      ∙ or_assoc (nests body) (has_quantifier body && is_quantified q) _

  pattern_read :
      (pattern : Pattern) (p : ℕ) (stack : Stack) (rest : Text)
      → IsPattern pattern
      → IsFollowing rest
      → reads p stack (print_pattern pattern rest)
        ≡ (nests pattern || reads 0 (mark (has_quantifier pattern) stack) rest)
  pattern_read done p stack rest valid following =
      previous_free p 0 stack rest following ∙ ap (λ s. reads 0 s rest) (sym (mark_none stack))
  pattern_read (piece then more) p stack rest (valid, others) following =
      piece_read piece p stack (print_pattern more rest) valid
        (pattern-IsFollowing more rest others following)
      ∙ ap (λ b. piece_nests piece || b)
          (pattern_read more 0 (mark (piece_has_quantifier piece) stack) rest others following
            ∙ ap (λ s. nests more || reads 0 s rest)
                (mark-mark (piece_has_quantifier piece) (has_quantifier more) stack))
      ∙ or_assoc (piece_nests piece) (nests more) _

-- On any regular expression of the syntax in which no opening parenthesis is escaped,
-- `hasNestedQuantifiers` says whether a group that has a quantifier in it, at any depth, is
-- quantified itself.
pub has_nested_quantifiers_lem :
    (pattern : Pattern)
    → IsPattern pattern
    → has_nested_quantifiers (print_pattern pattern []) ≡ nests pattern
unfolding has_nested_quantifiers
has_nested_quantifiers_lem pattern valid =
    pattern_read pattern 0 [] [] valid tt ∙ or_false (nests pattern)
