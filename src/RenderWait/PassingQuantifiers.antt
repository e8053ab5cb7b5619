-- ===== src/RenderWait/PassingQuantifiers.antt =====
-- `hasNestedQuantifiers` of src/renderWait/matcher.ts, on a whole quantifier and on a class.
use agent_tty.Prelude.{
  ℕ, Bool, true, false, not, ◌&&◌, Option, none, some, List, [], ◌∷◌, ◌++◌, Text, All, ◌==◌, ◌≡◌,
  refl, ap, sym, ◌∙◌, Bool-cases, inl, inr,
}
use agent_tty.RenderWait.Quantifiers.{
  is_digit, counts_braces, is_braced_quantifier, is_regex_quantifier_at, Stack, mark,
  quantifier_loop,
}
use agent_tty.RenderWait.Syntax.{
  Quantifier, once, star, plus, optional, counted, ClassChar, class_char, class_escape,
  print_laziness, print_most, print_quantifier, print_class, is_quantified, IsLiteral, IsClassChar,
  AreDigits, IsQuantifier, IsMost,
}
use agent_tty.RenderWait.Passing.{
  reads, IsFollowing, mark_none, mark-mark, previous_free, literal_passes, literals_pass,
  digits-literal, counts,
}

-- The `?` of a lazy quantifier, behind the quantifier.
laziness_passes :
    (lazy : Bool) (p : ℕ) (stack : Stack) (text : Text)
    → (p == b'(') ≡ false
    → IsFollowing text
    → reads p (mark true stack) (print_laziness lazy text) ≡ reads 0 (mark true stack) text
unfolding quantifier_loop
laziness_passes false p stack text no_open following =
    previous_free p 0 (mark true stack) text following
laziness_passes true p stack text no_open following =
    ap (λ is_open. reads b'?' (mark (not is_open) (mark true stack)) text) no_open
    ∙ previous_free b'?' 0 (mark true (mark true stack)) text following
    ∙ ap (λ s. reads 0 s text) (mark-mark true true stack)

braced :
    (c : ℕ) (least rest : Text) (most : Option Text)
    → is_digit c ≡ true
    → AreDigits least
    → IsMost most
    → is_braced_quantifier (c ∷ (least ++ print_most most (b'}' ∷ rest))) ≡ true
unfolding is_braced_quantifier
braced c least rest most digit h k =
    ap (λ starts. starts && counts_braces (c ∷ (least ++ print_most most (b'}' ∷ rest)))) digit
    ∙ counts (c ∷ least) rest most (digit, h) k

closing-IsLiteral : IsLiteral b'}'
closing-IsLiteral = record {
  no_escape = refl;
  no_class = refl;
  no_open = refl;
  no_close = refl;
  no_quantifier = refl;
  no_brace = refl;
}

comma-IsLiteral : IsLiteral b','
comma-IsLiteral = record {
  no_escape = refl;
  no_class = refl;
  no_open = refl;
  no_close = refl;
  no_quantifier = refl;
  no_brace = refl;
}

-- The last count, to the end of the quantifier.
last_count_passes :
    (count : Text) (lazy : Bool) (p : ℕ) (stack : Stack) (text : Text)
    → AreDigits count
    → IsFollowing text
    → reads p (mark true stack) (count ++ b'}' ∷ print_laziness lazy text)
      ≡ reads 0 (mark true stack) text
last_count_passes count lazy p stack text digits following =
    literals_pass p count (mark true stack) (b'}' ∷ print_laziness lazy text)
      (digits-literal count digits) (refl, refl)
    ∙ literal_passes 0 b'}' (mark true stack) (print_laziness lazy text) closing-IsLiteral
    ∙ laziness_passes lazy b'}' stack text refl following

-- The counts, behind the brace and to the end of the quantifier.
counts_pass :
    (least : Text) (most : Option Text) (lazy : Bool) (p : ℕ) (stack : Stack) (text : Text)
    → AreDigits least
    → IsMost most
    → IsFollowing text
    → reads p (mark true stack) (least ++ print_most most (b'}' ∷ print_laziness lazy text))
      ≡ reads 0 (mark true stack) text
counts_pass least none lazy p stack text digits top following =
    last_count_passes least lazy p stack text digits following
counts_pass least (some most) lazy p stack text digits top following =
    literals_pass p least (mark true stack) (b',' ∷ (most ++ b'}' ∷ print_laziness lazy text))
      (digits-literal least digits) (refl, refl)
    ∙ literal_passes 0 b',' (mark true stack) (most ++ b'}' ∷ print_laziness lazy text)
        comma-IsLiteral
    ∙ last_count_passes most lazy b',' stack text top following

pub quantifier_passes :
    (q : Quantifier) (p : ℕ) (stack : Stack) (text : Text)
    → IsQuantifier q
    → (p == b'(') ≡ false
    → IsFollowing text
    → reads p stack (print_quantifier q text) ≡ reads 0 (mark (is_quantified q) stack) text
unfolding quantifier_loop
quantifier_passes once p stack text valid no_open following =
    previous_free p 0 stack text following ∙ ap (λ s. reads 0 s text) (sym (mark_none stack))
quantifier_passes (star lazy) p stack text valid no_open following =
    ap (λ is_open. reads b'*' (mark (not is_open) stack) (print_laziness lazy text)) no_open
    ∙ laziness_passes lazy b'*' stack text refl following
quantifier_passes (plus lazy) p stack text valid no_open following =
    ap (λ is_open. reads b'+' (mark (not is_open) stack) (print_laziness lazy text)) no_open
    ∙ laziness_passes lazy b'+' stack text refl following
quantifier_passes (optional lazy) p stack text valid no_open following =
    ap (λ is_open. reads b'?' (mark (not is_open) stack) (print_laziness lazy text)) no_open
    ∙ laziness_passes lazy b'?' stack text refl following
quantifier_passes (counted [] most lazy) p stack text valid no_open following = absurd valid
quantifier_passes (counted (c ∷ least) most lazy) p stack text (digit, digits, top) no_open
      following =
    let body = c ∷ (least ++ print_most most (b'}' ∷ print_laziness lazy text)) in
    ap (λ counts_now. reads b'{' (mark counts_now stack) body)
      (braced c least (print_laziness lazy text) most digit digits top)
    ∙ counts_pass (c ∷ least) most lazy b'{' stack text (digit, digits) top following

pub class_passes :
    (chars : List ClassChar) (p : ℕ) (stack : Stack) (text : Text)
    → All IsClassChar chars
    → quantifier_loop false true p stack (print_class chars (b']' ∷ text)) ≡ reads b']' stack text
unfolding quantifier_loop
class_passes [] p stack text valid = refl
class_passes (class_escape c ∷ chars) p stack text (_, valid) =
    class_passes chars c stack text valid
class_passes (class_char c ∷ chars) p stack text ((no_escape, no_end), valid) =
    elim (Bool-cases (c == b'[')) [
      | inl opens ↦ rw (no_escape, opens, quantifier_loop) (class_passes chars c stack text valid)
      | inr other ↦
          rw (no_escape, other, no_end, quantifier_loop) (class_passes chars c stack text valid)
    ]

pub is_regex_quantifier_at-print :
    (q : Quantifier) (text : Text)
    → IsQuantifier q
    → IsFollowing text
    → is_regex_quantifier_at (print_quantifier q text) ≡ is_quantified q
unfolding is_regex_quantifier_at is_braced_quantifier
is_regex_quantifier_at-print once [] valid following = refl
is_regex_quantifier_at-print once (c ∷ text) valid (no_quantifier, no_brace) =
    rw (no_quantifier, no_brace) refl
is_regex_quantifier_at-print (star lazy) text valid following = refl
is_regex_quantifier_at-print (plus lazy) text valid following = refl
is_regex_quantifier_at-print (optional lazy) text valid following = refl
is_regex_quantifier_at-print (counted [] most lazy) text valid following = absurd valid
is_regex_quantifier_at-print (counted (c ∷ least) most lazy) text (digit, digits, top) following =
    braced c least (print_laziness lazy text) most digit digits top
