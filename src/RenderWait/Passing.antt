-- ===== src/RenderWait/Passing.antt =====
-- `hasNestedQuantifiers` of src/renderWait/matcher.ts, on one character, class or quantifier.
use agent_tty.Prelude.{
  ℕ, Bool, true, false, ◌||◌, Option, none, some, [], ◌∷◌, ◌++◌, Text, All, ◌==◌, ◌≡◌, refl, ◌∙◌,
  arith, Bool-cases, inl, inr,
}
use agent_tty.RenderWait.Quantifiers.{
  is_digit, is_quantifier_char, closes_braces, counts_braces, Stack, mark, quantifier_loop,
}
use agent_tty.RenderWait.Syntax.{print_most, IsLiteral, AreDigits, IsMost}

-- The loop outside of a character class.
abbrev pub reads : ℕ → Stack → Text → Bool
reads previous stack text = quantifier_loop false false previous stack text

-- What may follow a piece: the end, or no quantifier.
abbrev pub IsFollowing : Text → Type 0
IsFollowing [] = Unit
IsFollowing (c ∷ rest) = (is_quantifier_char c ≡ false) × ((c == b'{') ≡ false)

pub mark_none : (stack : Stack) → mark false stack ≡ stack
mark_none [] = refl
mark_none (true ∷ groups) = refl
mark_none (false ∷ groups) = refl

pub mark-mark : (a b : Bool) (stack : Stack) → mark b (mark a stack) ≡ mark (a || b) stack
mark-mark a b [] = refl
mark-mark a b (true ∷ groups) = refl
mark-mark a b (false ∷ groups) = refl

-- The character before matters to a quantifier only.
pub previous_free :
    (p p' : ℕ) (stack : Stack) (text : Text)
    → IsFollowing text
    → reads p stack text ≡ reads p' stack text
unfolding quantifier_loop
previous_free p p' stack [] following = refl
previous_free p p' stack (c ∷ rest) (no_quantifier, no_brace) = elim (Bool-cases (c == b'\\')) [
  | inl a ↦ rw (a, quantifier_loop) refl
  | inr a ↦ elim (Bool-cases (c == b'[')) [
    | inl b ↦ rw (a, b, quantifier_loop) refl
    | inr b ↦ elim (Bool-cases (c == b'(')) [
      | inl d ↦ rw (a, b, d, quantifier_loop) refl
      | inr d ↦ elim (Bool-cases (c == b')')) [
        | inl e ↦ rw (a, b, d, e, quantifier_loop) refl
        | inr e ↦ rw (a, b, d, e, no_quantifier, quantifier_loop) refl
      ]
    ]
  ]
]

pub literal_passes :
    (p c : ℕ) (stack : Stack) (text : Text)
    → IsLiteral c
    → reads p stack (c ∷ text) ≡ reads c stack text
unfolding quantifier_loop
literal_passes p c stack text l =
    rw
      (
        l.no_escape,
        l.no_class,
        l.no_open,
        l.no_close,
        l.no_quantifier,
        l.no_brace,
        mark_none stack,
        quantifier_loop,
      )
      refl

pub literals_pass :
    (p : ℕ) (literals : Text) (stack : Stack) (text : Text)
    → All IsLiteral literals
    → IsFollowing text
    → reads p stack (literals ++ text) ≡ reads 0 stack text
literals_pass p [] stack text valid following = previous_free p 0 stack text following
literals_pass p (c ∷ literals) stack text (l, valid) following =
    literal_passes p c stack (literals ++ text) l
    ∙ literals_pass c literals stack text valid following

digit-IsLiteral : (c : ℕ) → is_digit c ≡ true → IsLiteral c
digit-IsLiteral c h = record {
  no_escape = ground (arith, h);
  no_class = ground (arith, h);
  no_open = ground (arith, h);
  no_close = ground (arith, h);
  no_quantifier = ground (arith, h);
  no_brace = ground (arith, h);
}

pub digits-literal : (text : Text) → AreDigits text → All IsLiteral text
digits-literal [] h = tt
digits-literal (c ∷ text) (digit, h) = (digit-IsLiteral c digit, digits-literal text h)

digit_no_end : (c : ℕ) → is_digit c ≡ true → ((c == b'}') ≡ false) × ((c == b',') ≡ false)
digit_no_end c h = (ground (arith, h), ground (arith, h))

closes : (digits rest : Text) → AreDigits digits → closes_braces (digits ++ b'}' ∷ rest) ≡ true
unfolding closes_braces
closes [] rest h = refl
closes (c ∷ digits) rest (digit, h) = rw ((digit_no_end c digit).0, digit) (closes digits rest h)

-- `{n}`, `{n,}` and `{n,m}`, behind the brace
pub counts :
    (least rest : Text) (most : Option Text)
    → AreDigits least
    → IsMost most
    → counts_braces (least ++ print_most most (b'}' ∷ rest)) ≡ true
unfolding counts_braces
counts [] rest none h k = refl
counts [] rest (some most) h k = rw (closes most rest k) refl
counts (c ∷ least) rest most (digit, h) k =
    let (no_brace, no_comma) = digit_no_end c digit in
    rw (no_brace, no_comma, digit) (counts least rest most h k)
