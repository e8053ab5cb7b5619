-- ===== src/RunCompletion/SanitizerFeed.antt =====
-- One chunk through `feed` of `RunCompletionPostambleEchoSanitizer` of
-- src/host/runCompletionSentinel.ts.
use agent_tty.Prelude.{
  ℕ, ◌+◌, ◌≡◌, refl, sym, ap, subst, ◌∙◌, Bool, true, false, Option, List, [], ◌∷◌, ◌++◌,
  append-nil, Text, length, Result, ok, Failure, arith, inl, inr, Bool-cases,
}
use agent_tty.RunCompletion.Sanitizer.{
  TolerantEchoStripState, ActivePostambleEcho, Sanitizer, has_active_echoes,
}
use agent_tty.RunCompletion.Strip.{strip_buffer, feed_echo, is_idle}
use agent_tty.RunCompletion.EchoParts.{IsPartOf, empty, kept, dropped, whole_part, IsEchoes}
use agent_tty.RunCompletion.EchoSteps.{holding}
use agent_tty.RunCompletion.EchoCarry.{Stripped}
use agent_tty.RunCompletion.Stripped.{strip_loop_lem}

pub part_trans : {xs ys zs : Text} → IsPartOf xs ys → IsPartOf ys zs → IsPartOf xs zs
part_trans p empty = p
part_trans (kept p) (kept q) = kept (part_trans p q)
part_trans (dropped p) (kept q) = dropped (part_trans p q)
part_trans p (dropped q) = dropped (part_trans p q)

pub part_behind : (zs : Text) {xs ys : Text} → IsPartOf xs ys → IsPartOf (zs ++ xs) (zs ++ ys)
part_behind [] p = p
part_behind (c ∷ zs) p = kept (part_behind zs p)

pub part_before : (zs : Text) {xs ys : Text} → IsPartOf xs ys → IsPartOf (xs ++ zs) (ys ++ zs)
part_before zs empty = whole_part zs
part_before zs (kept p) = kept (part_before zs p)
part_before zs (dropped p) = dropped (part_before zs p)

-- What is held back, and from whom.
abbrev pub IsTail : List ActivePostambleEcho → Text → Type 0
IsTail active tail = has_active_echoes active ≡ false → tail ≡ []

pub strip_buffer_lem :
    (remaining : Text) (is_final : Bool) (active : List ActivePostambleEcho)
    (state : Option TolerantEchoStripState)
    → IsEchoes active
    → Stripped
        (strip_buffer remaining is_final (holding active state []))
        active
        is_final
        remaining
        []
unfolding strip_buffer
strip_buffer_lem [] is_final active state v = record {
  state = state;
  tail = [];
  text = [];
  runs = refl;
  part = empty;
  ends = λ _. refl;
  free = λ _. refl;
}
strip_buffer_lem (c ∷ text) is_final active state v =
    elim (Bool-cases (is_idle (holding active state []))) [
      | inl idle ↦ record {
        state = state;
        tail = [];
        text = c ∷ text;
        runs = rw (strip_buffer, idle) refl;
        part =
            subst (λ x. IsPartOf x (c ∷ text)) (sym (append-nil (c ∷ text)))
              (whole_part (c ∷ text));
        ends = λ _. refl;
        free = λ _. refl;
      }
      | inr busy ↦
          let r =
            strip_loop_lem (length (c ∷ text) + 1) is_final (c ∷ text) active state [] v
              (omega arith) in
          record {
            state = r.state;
            tail = r.tail;
            text = r.text;
            runs = rw (strip_buffer, busy) r.runs;
            part = r.part;
            ends = r.ends;
            free = r.free;
          }
    ]

-- What a chunk gives.
pub record Fed (run : Result Failure (Sanitizer × Text)) (active : List ActivePostambleEcho)
    (input : Text) : Type 0 where
  pub state : Option TolerantEchoStripState
  pub tail : Text
  pub text : Text
  pub runs : run ≡ ok (holding active state tail, text)
  pub part : IsPartOf (text ++ tail) input
  pub free : IsTail active tail

feed_busy :
    (c : ℕ) (chunk : Text) (active : List ActivePostambleEcho)
    (state : Option TolerantEchoStripState) (tail : Text)
    → is_idle (holding active state tail) ≡ false
    → feed_echo (c ∷ chunk) (holding active state tail)
      ≡ strip_buffer (tail ++ c ∷ chunk) false (holding active state [])
unfolding feed_echo
feed_busy c chunk active state tail busy = rw (feed_echo, busy) refl

feed_idle :
    (c : ℕ) (chunk : Text) (active : List ActivePostambleEcho)
    (state : Option TolerantEchoStripState)
    → is_idle (holding active state []) ≡ true
    → feed_echo (c ∷ chunk) (holding active state []) ≡ ok (holding active state [], c ∷ chunk)
unfolding feed_echo
feed_idle c chunk active state idle = rw (feed_echo, idle) refl

idle_tail :
    (active : List ActivePostambleEcho) (state : Option TolerantEchoStripState) (tail : Text)
    → IsTail active tail
    → is_idle (holding active state tail) ≡ true
    → tail ≡ []
idle_tail active state tail free idle = elim (Bool-cases (has_active_echoes active)) [
  | inl some_active ↦ absurd (ground (arith, some_active, idle))
  | inr none_active ↦ free none_active
]

pub feed_echo_lem :
    (chunk : Text) (active : List ActivePostambleEcho) (state : Option TolerantEchoStripState)
    (tail : Text)
    → IsEchoes active
    → IsTail active tail
    → Fed (feed_echo chunk (holding active state tail)) active (tail ++ chunk)
feed_echo_lem [] active state tail v free = record {
  state = state;
  tail = tail;
  text = [];
  runs = unfold feed_echo in refl;
  part = subst (IsPartOf tail) (sym (append-nil tail)) (whole_part tail);
  free = free;
}
feed_echo_lem (c ∷ chunk) active state tail v free =
    elim (Bool-cases (is_idle (holding active state tail))) [
      | inl idle ↦
          let nothing = idle_tail active state tail free idle in
          record {
            state = state;
            tail = [];
            text = c ∷ chunk;
            runs =
                ap (λ x. feed_echo (c ∷ chunk) (holding active state x)) nothing
                ∙ feed_idle c chunk active state
                    (ap (λ x. is_idle (holding active state x)) (sym nothing) ∙ idle);
            part =
                subst (λ x. IsPartOf ((c ∷ chunk) ++ []) (x ++ c ∷ chunk)) (sym nothing)
                  (subst (λ x. IsPartOf x (c ∷ chunk)) (sym (append-nil (c ∷ chunk)))
                    (whole_part (c ∷ chunk)));
            free = λ _. refl;
          }
      | inr busy ↦
          let r = strip_buffer_lem (tail ++ c ∷ chunk) false active state v in
          record {
            state = r.state;
            tail = r.tail;
            text = r.text;
            runs = feed_busy c chunk active state tail busy ∙ r.runs;
            part = r.part;
            free = r.free;
          }
    ]
