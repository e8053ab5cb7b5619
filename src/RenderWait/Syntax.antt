-- ===== src/RenderWait/Syntax.antt =====
-- The regular expressions that src/renderWait/matcher.ts is given, as their syntax has them, and how
-- each is written.
use agent_tty.Prelude.{
  ℕ, Bool, true, false, ◌&&◌, ◌||◌, Option, none, some, List, [], ◌∷◌, ◌++◌, Text, All, ◌==◌, ◌≡◌,
}
use agent_tty.RenderWait.Quantifiers.{is_digit, is_quantifier_char}

-- A quantifier may be lazy.
pub data Quantifier : Type 0 where
  once : Quantifier
  star plus optional : (lazy : Bool) → Quantifier
  counted : (least : Text) (most : Option Text) (lazy : Bool) → Quantifier

pub data ClassChar : Type 0 where
  class_char class_escape : (c : ℕ) → ClassChar

infixr 5 ◌then◌
mutual
  pub data Piece : Type 0 where
    char : (c : ℕ) → Quantifier → Piece
    escape : (c : ℕ) → Quantifier → Piece
    class : List ClassChar → Quantifier → Piece
    group : (prefix : Text) → Pattern → Quantifier → Piece

  pub data Pattern : Type 0 where
    done : Pattern
    ◌then◌ : Piece → Pattern → Pattern

-- Each is written in front of the text that follows it.
abbrev pub print_laziness : Bool → Text → Text
print_laziness true rest = b'?' ∷ rest
print_laziness false rest = rest

abbrev pub print_most : Option Text → Text → Text
print_most none rest = rest
print_most (some most) rest = b',' ∷ (most ++ rest)

abbrev pub print_quantifier : Quantifier → Text → Text
print_quantifier once rest = rest
print_quantifier (star lazy) rest = b'*' ∷ print_laziness lazy rest
print_quantifier (plus lazy) rest = b'+' ∷ print_laziness lazy rest
print_quantifier (optional lazy) rest = b'?' ∷ print_laziness lazy rest
print_quantifier (counted least most lazy) rest =
    b'{' ∷ (least ++ print_most most (b'}' ∷ print_laziness lazy rest))

abbrev pub print_class : List ClassChar → Text → Text
print_class [] rest = rest
print_class (class_char c ∷ chars) rest = c ∷ print_class chars rest
print_class (class_escape c ∷ chars) rest = b'\\' ∷ c ∷ print_class chars rest

unfoldable mutual
  pub print_piece : Piece → Text → Text
  print_piece (char c q) rest = c ∷ print_quantifier q rest
  print_piece (escape c q) rest = b'\\' ∷ c ∷ print_quantifier q rest
  print_piece (class chars q) rest = b'[' ∷ print_class chars (b']' ∷ print_quantifier q rest)
  print_piece (group prefix body q) rest =
      b'(' ∷ (prefix ++ print_pattern body (b')' ∷ print_quantifier q rest))

  pub print_pattern : Pattern → Text → Text
  print_pattern done rest = rest
  print_pattern (piece then more) rest = print_piece piece (print_pattern more rest)

abbrev pub is_quantified : Quantifier → Bool
is_quantified once = false
is_quantified (star lazy) = true
is_quantified (plus lazy) = true
is_quantified (optional lazy) = true
is_quantified (counted least most lazy) = true

-- Whether a quantifier stands anywhere in it.
unfoldable mutual
  pub piece_has_quantifier : Piece → Bool
  piece_has_quantifier (char c q) = is_quantified q
  piece_has_quantifier (escape c q) = is_quantified q
  piece_has_quantifier (class chars q) = is_quantified q
  piece_has_quantifier (group prefix body q) = has_quantifier body || is_quantified q

  pub has_quantifier : Pattern → Bool
  has_quantifier done = false
  has_quantifier (piece then more) = piece_has_quantifier piece || has_quantifier more

-- Whether a group with a quantifier in it is quantified itself.
unfoldable mutual
  pub piece_nests : Piece → Bool
  piece_nests (char c q) = false
  piece_nests (escape c q) = false
  piece_nests (class chars q) = false
  piece_nests (group prefix body q) = nests body || has_quantifier body && is_quantified q

  pub nests : Pattern → Bool
  nests done = false
  nests (piece then more) = piece_nests piece || nests more

-- A character that stands for itself.
pub record IsLiteral (c : ℕ) : Type 0 where
  pub no_escape : (c == b'\\') ≡ false
  pub no_class : (c == b'[') ≡ false
  pub no_open : (c == b'(') ≡ false
  pub no_close : (c == b')') ≡ false
  pub no_quantifier : is_quantifier_char c ≡ false
  pub no_brace : (c == b'{') ≡ false

abbrev pub IsClassChar : ClassChar → Type 0
IsClassChar (class_char c) = ((c == b'\\') ≡ false) × ((c == b']') ≡ false)
IsClassChar (class_escape c) = Unit

abbrev pub AreDigits : Text → Type 0
AreDigits text = All (λ c. is_digit c ≡ true) text

abbrev pub IsMost : Option Text → Type 0
IsMost none = Unit
IsMost (some most) = AreDigits most

-- The counts of a quantifier are decimal digits, of which the first count has one at least.
abbrev pub IsQuantifier : Quantifier → Type 0
IsQuantifier once = Unit
IsQuantifier (star lazy) = Unit
IsQuantifier (plus lazy) = Unit
IsQuantifier (optional lazy) = Unit
IsQuantifier (counted [] most lazy) = ⊥
IsQuantifier (counted (c ∷ least) most lazy) = (is_digit c ≡ true) × AreDigits least × IsMost most

-- `?:`, `?=`, `?<name>` and the like, or nothing.
abbrev pub IsPrefix : Text → Type 0
IsPrefix [] = Unit
IsPrefix (c ∷ prefix) = (c ≡ b'?') × All IsLiteral prefix

-- No piece is an escaped opening parenthesis.
abbrev mutual
  pub IsPiece : Piece → Type 0
  IsPiece (char c q) = IsLiteral c × IsQuantifier q
  IsPiece (escape c q) = ((c == b'(') ≡ false) × IsQuantifier q
  IsPiece (class chars q) = All IsClassChar chars × IsQuantifier q
  IsPiece (group prefix body q) = IsPrefix prefix × IsPattern body × IsQuantifier q

  pub IsPattern : Pattern → Type 0
  IsPattern done = Unit
  IsPattern (piece then more) = IsPiece piece × IsPattern more
