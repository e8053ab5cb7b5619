-- ===== src/TerminalQuery/Chunks.antt =====
-- `consume` of src/pty/terminalQueryResponder.ts, over the chunks of an output.
use agent_tty.Prelude.{
  concat, ℕ, ◌≡◌, refl, ap, sym, ◌∙◌, Bool, true, false, not, ◌&&◌, ◌||◌, List, [], ◌∷◌, ◌++◌, Text,
  ◌==◌, Bool-cases, inl, inr, append_assoc,
}
use agent_tty.TerminalQuery.Reply.{escape_code}
use agent_tty.TerminalQuery.Scanner.{
  Responder, ScannerState, ground, esc, csi, osc, osc_esc, dcs, dcs_esc, step_in, step,
  consume_loop, has_escape, consume, is_ground,
}

split_or : (a b : Bool) → (a || b) ≡ false → (a ≡ false) × (b ≡ false)
split_or false b h = (refl, h)
split_or true b h = cc

split_and : (a b : Bool) → (a && b) ≡ true → (a ≡ true) × (b ≡ true)
split_and true b h = (refl, h)
split_and false b h = cc

of_not : (b : Bool) → not b ≡ true → b ≡ false
of_not false h = refl
of_not true h = cc

-- The chunks of an output, one `consume` each.
unfoldable pub consume_all : List Text → Responder → Responder × Text
unfolding consume
consume_all [] r = (r, [])
consume_all (chunk ∷ chunks) r =
    let (r', reply) = consume chunk r in
    let (r'', response) = consume_all chunks r' in (r'', reply ++ response)

-- Two runs, one behind the other.
abbrev pub after : (Responder → Responder × Text) → Responder × Text → Responder × Text
after f (r, reply) = let (r', response) = f r in (r', reply ++ response)

pub consume_loop-append :
    (xs ys : Text) (r : Responder)
    → consume_loop (xs ++ ys) r ≡ after (consume_loop ys) (consume_loop xs r)
unfolding consume_loop
consume_loop-append [] ys r = refl
consume_loop-append (code ∷ xs) ys r =
    let (r', reply) = step code r in
    ap (λ z. (z.0, reply ++ z.1)) (consume_loop-append xs ys r')
    ∙ ap (λ text. ((after (consume_loop ys) (consume_loop xs r')).0, text))
        (sym (append_assoc reply (consume_loop xs r').1 (consume_loop ys (consume_loop xs r').0).1))

pub step_ground :
    (code : ℕ) (r : Responder)
    → r.state ≡ ground
    → (code == escape_code) ≡ false
    → step code r ≡ (r, [])
unfolding step
step_ground code r at_ground other = ap (λ s. step_in s code r) at_ground ∙ rw other refl

-- Outside a sequence, what has no escape is passed over.
pub passes_over :
    (chunk : Text) (r : Responder)
    → r.state ≡ ground
    → has_escape chunk ≡ false
    → consume_loop chunk r ≡ (r, [])
unfolding consume_loop has_escape
passes_over [] r at_ground none_here = refl
passes_over (code ∷ chunk) r at_ground none_here =
    let (other, rest) = split_or _ _ none_here in
    ap (λ z. after (consume_loop chunk) z) (step_ground code r at_ground other)
    ∙ passes_over chunk r at_ground rest

is_ground_lem : (s : ScannerState) → is_ground s ≡ true → s ≡ ground
is_ground_lem ground h = refl
is_ground_lem esc h = cc
is_ground_lem csi h = cc
is_ground_lem osc h = cc
is_ground_lem osc_esc h = cc
is_ground_lem dcs h = cc
is_ground_lem dcs_esc h = cc

pub consume_loop_lem : (chunk : Text) (r : Responder) → consume chunk r ≡ consume_loop chunk r
unfolding consume
consume_loop_lem chunk r = elim (Bool-cases (is_ground r.state && not (has_escape chunk))) [
  | inr other ↦ rw other refl
  | inl quick ↦
      let (at_ground, quiet) = split_and _ _ quick in
      rw quick (sym (passes_over chunk r (is_ground_lem r.state at_ground) (of_not _ quiet)))
]

-- Any output in any chunks is answered, and leaves the responder, as the whole output at once.
pub consume_all_lem :
    (chunks : List Text) (r : Responder) → consume_all chunks r ≡ consume (concat chunks) r
unfolding consume_all concat
consume_all_lem [] r = sym (consume_loop_lem [] r ∙ loop_end)
  where
    loop_end : consume_loop [] r ≡ (r, [])
    loop_end = unfold consume_loop in refl
consume_all_lem (chunk ∷ chunks) r =
    ap (after (consume_all chunks)) (consume_loop_lem chunk r)
    ∙ ap (λ z. (z.0, (consume_loop chunk r).1 ++ z.1))
        (consume_all_lem chunks (consume_loop chunk r).0
          ∙ consume_loop_lem (concat chunks) (consume_loop chunk r).0)
    ∙ sym
        (consume_loop_lem (chunk ++ concat chunks) r ∙ consume_loop-append chunk (concat chunks) r)
