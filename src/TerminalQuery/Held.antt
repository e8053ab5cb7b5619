-- ===== src/TerminalQuery/Held.antt =====
-- The buffer of `TerminalQueryResponder` of src/pty/terminalQueryResponder.ts: how far a reply depends on
-- it, and what is kept of it.
use agent_tty.Prelude.{
  ℕ, zero, suc, ◌≤◌, ◌<◌, ◌≡◌, refl, ap, sym, ◌∙◌, Bool, true, false, ◌&&◌, [], ◌∷◌, ◌++◌, Text,
  codes, text_eq, take, length, ltb, leb, ◌==◌, if◌then◌else◌, subst, arith, Bool-cases, inl, inr,
}
use agent_tty.TerminalQuery.Reply.{dcs_reply, csi_reply}
use agent_tty.TerminalQuery.Scanner.{Responder, osc_reply}

text_eq-take : (n : ℕ) (b t : Text) → length t < n → text_eq (take n b) t ≡ text_eq b t
unfolding text_eq
text_eq-take zero b t short = absurd (omega (arith, short))
text_eq-take (suc n) [] t short = refl
text_eq-take (suc n) (c ∷ b) [] short = refl
text_eq-take (suc n) (c ∷ b) (d ∷ t) short =
    ap (λ x. c == d && x) (text_eq-take n b t (omega (arith, short)))

pub csi_reply-take : (b : Text) (final : ℕ) → csi_reply (take 32 b) final ≡ csi_reply b final
unfolding csi_reply
csi_reply-take b final = rw (text_eq-take 32 b (codes "5") (omega arith)) refl

pub osc_reply-take :
    (terminator : Text) (r : Responder)
    → osc_reply (take 64 r.buffer) terminator r ≡ osc_reply r.buffer terminator r
unfolding osc_reply
osc_reply-take terminator r =
    rw
      (
        text_eq-take 64 r.buffer (codes "11;?") (omega arith),
        text_eq-take 64 r.buffer (codes "10;?") (omega arith),
      )
      refl

pub take_all : (n : ℕ) (b : Text) → length b ≤ n → take n b ≡ b
take_all zero [] short = refl
take_all (suc n) [] short = refl
take_all zero (c ∷ b) short = absurd (omega (arith, short))
take_all (suc n) (c ∷ b) short = ap (λ t. c ∷ t) (take_all n b (omega (arith, short)))

length-take_long : (n : ℕ) (b : Text) → n ≤ length b → length (take n b) ≡ n
length-take_long zero b long = refl
length-take_long (suc n) [] long = absurd (omega (arith, long))
length-take_long (suc n) (c ∷ b) long = ap suc (length-take_long n b (omega (arith, long)))

long_dcs_reply : (payload : Text) → 256 < length payload → dcs_reply payload ≡ []
unfolding dcs_reply
long_dcs_reply payload long = rw (past 256 (length payload) long) refl
  where
    past : (n m : ℕ) → n < m → ltb n m ≡ true
    past n m h = ground (arith, h)

pub dcs_reply-take : (b : Text) → dcs_reply (take 257 b) ≡ dcs_reply b
dcs_reply-take b = elim (Bool-cases (leb (length b) 256)) [
  | inl short ↦ ap dcs_reply (take_all 257 b (ground (arith, short)))
  | inr long ↦
      let past : 256 < length b = ground (arith, long) in
      long_dcs_reply (take 257 b)
        (subst (λ n. 256 < n) (sym (length-take_long 257 b (omega (arith, past)))) (omega arith))
      ∙ sym (long_dcs_reply b past)
]

take-snoc_room :
    (n c : ℕ) (b : Text) → length (take n b) < n → take n b ++ c ∷ [] ≡ take n (b ++ c ∷ [])
take-snoc_room zero c b room = absurd (omega (arith, room))
take-snoc_room (suc n) c [] room = ap (λ t. c ∷ t) (sym (take_all n [] (omega arith)))
take-snoc_room (suc n) c (d ∷ b) room = ap (λ t. d ∷ t) (take-snoc_room n c b (omega (arith, room)))

take-snoc_full : (n c : ℕ) (b : Text) → n ≤ length (take n b) → take n b ≡ take n (b ++ c ∷ [])
take-snoc_full zero c b full = refl
take-snoc_full (suc n) c [] full = absurd (omega (arith, full))
take-snoc_full (suc n) c (d ∷ b) full = ap (λ t. d ∷ t) (take-snoc_full n c b (omega (arith, full)))

-- What is kept while there is room is as much of all as there is room for.
pub take-snoc :
    (n code : ℕ) (b : Text) (room : Bool)
    → room ≡ ltb (length (take n b)) n
    → (if room then take n b ++ code ∷ [] else take n b) ≡ take n (b ++ code ∷ [])
take-snoc n code b true e = take-snoc_room n code b (ground (arith, e))
take-snoc n code b false e = take-snoc_full n code b (ground (arith, e))

pub leb-ltb : (m : ℕ) → leb m 256 ≡ ltb m 257
leb-ltb m = elim (Bool-cases (leb m 256)) [
  | inl within ↦ ground (arith, within)
  | inr past ↦ ground (arith, past)
]
