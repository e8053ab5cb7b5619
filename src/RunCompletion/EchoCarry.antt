-- ===== src/RunCompletion/EchoCarry.antt =====
-- What the loop of `#stripBuffer` of src/host/runCompletionSentinel.ts gives, from one round to the
-- next.
use agent_tty.Prelude.{
  ◌≡◌, refl, sym, ap, subst, ◌∙◌, Bool, true, false, Option, List, [], ◌++◌, append_assoc,
  append-nil, Text, Result, ok, Failure,
}
use agent_tty.RunCompletion.Sanitizer.{
  TolerantEchoStripState, ActivePostambleEcho, Sanitizer, has_active_echoes,
}
use agent_tty.RunCompletion.EchoParts.{IsPartOf}
use agent_tty.RunCompletion.EchoSteps.{holding}

-- A run of the loop that ends, and puts out a part of what it is given.
pub record Stripped (run : Result Failure (Sanitizer × Text)) (active : List ActivePostambleEcho)
    (is_final : Bool) (remaining out : Text) : Type 0 where
  pub state : Option TolerantEchoStripState
  pub tail : Text
  pub text : Text
  pub runs : run ≡ ok (holding active state tail, out ++ text)
  pub part : IsPartOf (text ++ tail) remaining
  pub ends : is_final ≡ true → tail ≡ []
  pub free : has_active_echoes active ≡ false → tail ≡ []

module _ (active : List ActivePostambleEcho) (is_final : Bool) where
  pub carry :
      (run run' : Result Failure (Sanitizer × Text)) (remaining remaining' out output : Text)
      → run ≡ run'
      → Stripped run' active is_final remaining' (out ++ output)
      → ((xs : Text) → IsPartOf xs remaining' → IsPartOf (output ++ xs) remaining)
      → Stripped run active is_final remaining out
  carry run run' remaining remaining' out output e r more = record {
    state = r.state;
    tail = r.tail;
    text = output ++ r.text;
    runs =
        e
        ∙ r.runs
        ∙ ap (λ x. ok (holding active r.state r.tail, x)) (append_assoc out output r.text);
    part =
        subst (λ x. IsPartOf x remaining) (sym (append_assoc output r.text r.tail))
          (more (r.text ++ r.tail) r.part);
    ends = r.ends;
    free = r.free;
  }

  pub carry_silent :
      (run run' : Result Failure (Sanitizer × Text)) (remaining remaining' out : Text)
      → run ≡ run'
      → Stripped run' active is_final remaining' out
      → ((xs : Text) → IsPartOf xs remaining' → IsPartOf xs remaining)
      → Stripped run active is_final remaining out
  carry_silent run run' remaining remaining' out e r more = record {
    state = r.state;
    tail = r.tail;
    text = r.text;
    runs = e ∙ r.runs;
    part = more (r.text ++ r.tail) r.part;
    ends = r.ends;
    free = r.free;
  }

  pub ended :
      (run : Result Failure (Sanitizer × Text)) (state : Option TolerantEchoStripState)
      (remaining out text : Text)
      → run ≡ ok (holding active state [], out ++ text)
      → IsPartOf text remaining
      → Stripped run active is_final remaining out
  ended run state remaining out text e part = record {
    state = state;
    tail = [];
    text = text;
    runs = e;
    part = subst (λ x. IsPartOf x remaining) (sym (append-nil text)) part;
    ends = λ _. refl;
    free = λ _. refl;
  }
