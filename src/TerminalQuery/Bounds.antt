-- ===== src/TerminalQuery/Bounds.antt =====
-- What `TerminalQueryResponder` of src/pty/terminalQueryResponder.ts holds, and how it finds back out of
-- any sequence.
use agent_tty.Prelude.{
  ℕ, ◌≤◌, ◌≡◌, refl, ap, sym, subst, ◌∙◌, Bool, true, false, ◌||◌, [], ◌∷◌, ◌++◌, Text, take,
  length, length-take, ◌==◌, arith, if◌then◌else◌,
}
use agent_tty.TerminalQuery.Reply.{escape_code, string_terminator}
use agent_tty.TerminalQuery.Scanner.{
  Responder, ScannerState, ground, esc, csi, osc, osc_esc, dcs, dcs_esc, keep, step_in, step,
  consume, consume_loop, enter, is_csi_final, is_csi_param,
}
use agent_tty.TerminalQuery.Chunks.{consume_loop_lem, consume_loop-append}
use agent_tty.TerminalQuery.Unbounded.{capacity, full_consume, capped, consume-full}
use agent_tty.TerminalQuery.Held.{take_all}

-- The buffer is within the limit of the state: 32 characters of a control sequence, 64 of a command, 257
-- of a device control, and none outside.
abbrev pub IsBounded : Responder → Type 0
IsBounded r = length r.buffer ≤ capacity r.state

length-take-le : (n : ℕ) (b : Text) → length (take n b) ≤ n
length-take-le n b = omega (arith, length-take n b)

capped-IsBounded : (r : Responder) → IsBounded (capped r)
capped-IsBounded r = length-take-le (capacity r.state) r.buffer

IsBounded-capped : (r : Responder) → IsBounded r → capped r ≡ r
IsBounded-capped r bounded =
    ap (λ b. record r { buffer = b }) (take_all (capacity r.state) r.buffer bounded)

consume-IsBounded : (chunk : Text) (r : Responder) → IsBounded r → IsBounded (consume chunk r).0
consume-IsBounded chunk r bounded =
    subst (λ x. IsBounded x.0)
      (sym (consume-full chunk r) ∙ ap (consume chunk) (IsBounded-capped r bounded))
      (capped-IsBounded (full_consume chunk r).0)

abbrev colors : Responder → Responder
colors r = enter ground [] r

if_colors :
    (test : Bool) (x y : Responder × Text) (r : Responder)
    → colors x.0 ≡ colors r
    → colors y.0 ≡ colors r
    → colors (if test then x else y).0 ≡ colors r
if_colors true x y r e e' = e
if_colors false x y r e e' = e'

if_same_colors :
    (test : Bool) (x y r : Responder)
    → colors x ≡ colors r
    → colors y ≡ colors r
    → colors (if test then x else y) ≡ colors r
if_same_colors true x y r e e' = e
if_same_colors false x y r e e' = e'

keep-colors : (room : Bool) (code : ℕ) (r : Responder) → colors (keep room code r) ≡ colors r
keep-colors true code r = refl
keep-colors false code r = refl

-- A character changes only the state and the buffer.
step-colors : (s : ScannerState) (code : ℕ) (r : Responder) → colors (step_in s code r).0 ≡ colors r
step-colors ground code r = if_same_colors (code == escape_code) _ r r refl refl
step-colors esc code r = if_same_colors (code == b'[') _ _ r refl (
    if_same_colors (code == b']') _ _ r refl (
      if_same_colors (code == b'P') _ _ r refl
        (if_same_colors (code == escape_code) r _ r refl refl)))
step-colors csi code r =
    if_colors (is_csi_final code) _ _ r refl
      (if_colors (is_csi_param code) _ _ r (keep-colors _ code r) refl)
step-colors osc code r =
    if_colors (code == 0x07 || code == 0x9c) _ _ r refl
      (if_colors (code == escape_code) _ _ r refl (keep-colors _ code r))
step-colors osc_esc code r = if_colors (code == b'\\') _ _ r refl refl
step-colors dcs code r =
    if_colors (code == 0x9c) _ _ r refl
      (if_colors (code == escape_code) _ _ r refl (keep-colors _ code r))
step-colors dcs_esc code r = if_colors (code == b'\\') _ _ r refl refl

consume_loop-colors : (chunk : Text) (r : Responder) → colors (consume_loop chunk r).0 ≡ colors r
unfolding consume_loop step
consume_loop-colors [] r = refl
consume_loop-colors (code ∷ chunk) r =
    consume_loop-colors chunk (step_in r.state code r).0 ∙ step-colors r.state code r

no_characters : (b : Text) → length b ≤ 0 → b ≡ []
no_characters [] none_left = refl
no_characters (c ∷ b) none_left = absurd (omega (arith, none_left))

terminated :
    (s : ScannerState) (b : Text) (r : Responder)
    → length b ≤ capacity s
    → (consume_loop string_terminator (enter s b r)).0 ≡ colors r
unfolding consume_loop step
terminated ground b r bounded = ap (λ t. enter ground t r) (no_characters b bounded)
terminated esc b r bounded = ap (λ t. enter ground t r) (no_characters b bounded)
terminated csi b r bounded = refl
terminated osc b r bounded = refl
terminated osc_esc b r bounded = refl
terminated dcs b r bounded = refl
terminated dcs_esc b r bounded = refl

-- Whatever output comes, the responder stays within its limits; and after any output that ends in
-- `ESC \` it is outside of a sequence, holds nothing, and answers with the colors it was created with.
pub consume-terminated :
    (chunk : Text) (r : Responder)
    → IsBounded r
    → IsBounded (consume chunk r).0
      × ((consume (chunk ++ string_terminator) r).0 ≡ enter ground [] r)
consume-terminated chunk r bounded =
    let r' = (consume_loop chunk r).0 in
    let within : IsBounded r' =
      subst (λ z. IsBounded z.0) (consume_loop_lem chunk r) (consume-IsBounded chunk r bounded) in
    (
      consume-IsBounded chunk r bounded,
      ap (λ z. z.0) (consume_loop_lem (chunk ++ string_terminator) r)
          ∙ ap (λ z. z.0) (consume_loop-append chunk string_terminator r)
          ∙ terminated r'.state r'.buffer r' within
          ∙ consume_loop-colors chunk r,
    )
