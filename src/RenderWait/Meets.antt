-- ===== src/RenderWait/Meets.antt =====
-- What a condition of src/renderWait/matcher.ts asks of a snapshot beside its text.
use agent_tty.Prelude.{ℕ, suc, ◌≤◌, ◌<◌, ◌≡◌, ◌↔◌, refl, true, Option, none, some, arith, ap}
use agent_tty.Session.Number.{pos, negsuc, Number, integer, non_integer, is_positive_integer}
use agent_tty.RenderWait.Matcher.{
  RenderWaitCondition, is_non_negative_integer, is_replay_seq, passes,
}
use agent_tty.RenderWait.Snapshot.{
  Milliseconds, finite, not_finite, SemanticSnapshot, number_eq, number_lt, is_absent_or,
  stable_since, is_stable_time,
}

-- What is asked for holds.
abbrev pub Asked : Option Number → (Number → Type 0) → Type 0
Asked none P = Unit
Asked (some n) P = P n

-- A position from -1 on, counted from 0.
abbrev pub place : Number → ℕ
place (integer (pos n)) = suc n
place _ = 0

-- A screen that has been stable for so long, or longer.
abbrev pub StableFor : Option Milliseconds → Number → Type 0
StableFor stable_for_ms n =
    (k m : ℕ) × (stable_for_ms ≡ some (finite (pos k))) × (n ≡ integer (pos m)) × (m ≤ k)

-- The cursor is where it is asked to be, the screen has been stable as long as it is asked to be, and
-- the snapshot is later than the position that it is asked to pass.
pub record Meets (c : RenderWaitCondition) (s : SemanticSnapshot)
    (stable_for_ms : Option Milliseconds) : Type 0 where
  pub row : Asked c.cursor_row (λ n. s.cursor_row ≡ n)
  pub col : Asked c.cursor_col (λ n. s.cursor_col ≡ n)
  pub stable : Asked c.screen_stable_ms (StableFor stable_for_ms)
  pub later : Asked c.after_seq (λ n. place n < place s.captured_at_seq)

pub is_absent_or-number_eq :
    (a : Number) (o : Option Number)
    → is_non_negative_integer a ≡ true
    → (is_absent_or o (number_eq a) ≡ true) ↔ Asked o (λ n. a ≡ n)
is_absent_or-number_eq a none valid = (λ h. tt, λ h. refl)
is_absent_or-number_eq (integer (pos n)) (some (integer (pos m))) valid =
    (λ h. ap (λ k. integer (pos k)) (ground (arith, h)), λ h. ground (arith, ap place h))
is_absent_or-number_eq (integer (pos n)) (some (integer (negsuc m))) valid = (λ h. cc, λ h. cc)
is_absent_or-number_eq (integer (pos n)) (some non_integer) valid = (λ h. cc, λ h. cc)
is_absent_or-number_eq (integer (negsuc n)) (some m) valid = cc
is_absent_or-number_eq non_integer (some m) valid = cc

abbrev time_of : Option Milliseconds → ℕ
time_of (some (finite (pos k))) = k
time_of _ = 0

pub is_absent_or-stable_since :
    (stable_for_ms : Option Milliseconds) (o : Option Number)
    → is_stable_time stable_for_ms ≡ true
    → passes is_positive_integer o ≡ true
    → (is_absent_or o (stable_since stable_for_ms) ≡ true) ↔ Asked o (StableFor stable_for_ms)
is_absent_or-stable_since stable none valid asked = (λ h. tt, λ h. refl)
is_absent_or-stable_since none (some n) valid asked = (λ h. cc, λ (k, m, e, _, _). cc)
is_absent_or-stable_since (some (finite (negsuc k))) (some n) valid asked = cc
is_absent_or-stable_since (some not_finite) (some n) valid asked = cc
is_absent_or-stable_since (some (finite (pos k))) (some (integer (negsuc m))) valid asked = cc
is_absent_or-stable_since (some (finite (pos k))) (some non_integer) valid asked = cc
is_absent_or-stable_since (some (finite (pos k))) (some (integer (pos m))) valid asked = (
  λ h. (k, m, refl, refl, ground (arith, h)),
  λ (k', m', e, e', le).
      let same_time : k ≡ k' = ap time_of e in
      let same_ask : suc m ≡ suc m' = ap place e' in ground (arith, same_time, same_ask, le),
)

pub is_absent_or-number_lt :
    (o : Option Number) (at : Number)
    → passes is_replay_seq o ≡ true
    → is_replay_seq at ≡ true
    → (is_absent_or o (λ n. number_lt n at) ≡ true) ↔ Asked o (λ n. place n < place at)
is_absent_or-number_lt none at asked valid = (λ h. tt, λ h. refl)
is_absent_or-number_lt (some (integer (pos n))) (integer (pos m)) asked valid =
    (λ h. ground (arith, h), λ h. ground (arith, h))
is_absent_or-number_lt (some (integer (pos n))) (integer (negsuc m)) asked valid =
    (λ h. cc, λ h. absurd (omega (arith, h)))
is_absent_or-number_lt (some (integer (negsuc n))) (integer (pos m)) asked valid =
    (λ h. omega arith, λ h. refl)
is_absent_or-number_lt (some (integer (negsuc n))) (integer (negsuc m)) asked valid =
    (λ h. absurd (ground (arith, h, asked, valid)), λ h. absurd (omega (arith, h)))
is_absent_or-number_lt (some (integer n)) non_integer asked valid = cc
is_absent_or-number_lt (some non_integer) at asked valid = cc
