-- ===== src/RunCompletion/Sanitized.antt =====
-- `RunCompletionPostambleEchoSanitizer` of src/host/runCompletionSentinel.ts as a stream: chunks are fed
-- in turn, and the end of the stream flushes the tail.
use agent_tty.Prelude.{
  ℕ, ◌≡◌, refl, sym, ap, subst, ◌∙◌, true, false, Option, List, [], ◌∷◌, ◌++◌, append_assoc,
  append-nil, Text, length, ◌==◌, Result, ok, ◌>>=◌, Failure, arith,
}
use agent_tty.RunCompletion.Sanitizer.{TolerantEchoStripState, ActivePostambleEcho, Sanitizer}
use agent_tty.RunCompletion.Strip.{strip_buffer, feed_echo, flush_echo}
use agent_tty.RunCompletion.EchoParts.{IsPartOf, empty, whole_part, IsEchoes}
use agent_tty.RunCompletion.EchoSteps.{holding}
use agent_tty.RunCompletion.SanitizerFeed.{
  part_trans, part_behind, part_before, IsTail, strip_buffer_lem, Fed, feed_echo_lem,
}

-- The chunks that the sanitizer is fed, and all that it puts out.
unfoldable pub feed_chunks : List Text → Sanitizer → Result Failure (Sanitizer × Text)
unfolding feed_echo
feed_chunks [] s = ok (s, [])
feed_chunks (chunk ∷ chunks) s = do
  (s', output) ← feed_echo chunk s
  (s'', rest) ← feed_chunks chunks s'
  ok (s'', output ++ rest)

-- The same, and the flush at the end.
unfoldable pub sanitize_stream : List Text → Sanitizer → Result Failure (Sanitizer × Text)
unfolding feed_chunks flush_echo
sanitize_stream chunks s = do
  (s', output) ← feed_chunks chunks s
  (s'', rest) ← flush_echo s'
  ok (s'', output ++ rest)

abbrev pub concat_all : List Text → Text
concat_all [] = []
concat_all (chunk ∷ chunks) = chunk ++ concat_all chunks

feed_chunks_step :
    (chunk : Text) (chunks : List Text) (s s' s'' : Sanitizer) (output rest : Text)
    → feed_echo chunk s ≡ ok (s', output)
    → feed_chunks chunks s' ≡ ok (s'', rest)
    → feed_chunks (chunk ∷ chunks) s ≡ ok (s'', output ++ rest)
unfolding feed_chunks
feed_chunks_step chunk chunks s s' s'' output rest first later = rw (feed_chunks, first, later) refl

feed_chunks_lem :
    (chunks : List Text) (active : List ActivePostambleEcho) (state : Option TolerantEchoStripState)
    (tail : Text)
    → IsEchoes active
    → IsTail active tail
    → Fed (feed_chunks chunks (holding active state tail)) active (tail ++ concat_all chunks)
feed_chunks_lem [] active state tail v free = record {
  state = state;
  tail = tail;
  text = [];
  runs = unfold feed_chunks in refl;
  part = subst (IsPartOf tail) (sym (append-nil tail)) (whole_part tail);
  free = free;
}
feed_chunks_lem (chunk ∷ chunks) active state tail v free =
    let first = feed_echo_lem chunk active state tail v free in
    let rest = feed_chunks_lem chunks active first.state first.tail v first.free in
    let all = concat_all chunks in
    let later =
      subst (λ x. IsPartOf x (first.text ++ (first.tail ++ all)))
        (sym (append_assoc first.text rest.text rest.tail)) (part_behind first.text rest.part) in
    let sooner = part_before all first.part in
    let joined = part_trans later (
      subst (λ x. IsPartOf x ((tail ++ chunk) ++ all)) (append_assoc first.text first.tail all)
        sooner) in
    record {
      state = rest.state;
      tail = rest.tail;
      text = first.text ++ rest.text;
      runs = feed_chunks_step chunk chunks _ _ _ first.text rest.text first.runs rest.runs;
      part =
          subst (IsPartOf ((first.text ++ rest.text) ++ rest.tail)) (append_assoc tail chunk all)
            joined;
      free = rest.free;
    }

flush_some :
    (c : ℕ) (tail : Text) (active : List ActivePostambleEcho)
    (state : Option TolerantEchoStripState)
    → flush_echo (holding active state (c ∷ tail))
      ≡ strip_buffer (c ∷ tail) true (holding active state [])
unfolding flush_echo
flush_some c tail active state =
    let some_left : (length (c ∷ tail) == 0) ≡ false = ground arith in
    rw (flush_echo, some_left) refl

flush_echo_lem :
    (active : List ActivePostambleEcho) (state : Option TolerantEchoStripState) (tail : Text)
    → IsEchoes active
    → (state' : Option TolerantEchoStripState) × (text : Text) × (flush_echo
          (holding active state tail)
        ≡ ok (holding active state' [], text))
      × IsPartOf text tail
unfolding flush_echo
flush_echo_lem active state [] v = (state, [], refl, empty)
flush_echo_lem active state (c ∷ tail) v =
    let r = strip_buffer_lem (c ∷ tail) true active state v in
    let nothing = r.ends refl in
    (
      r.state,
      r.text,
      flush_some c tail active state
          ∙ r.runs
          ∙ ap (λ x. ok (holding active r.state x, r.text)) nothing,
      subst (λ x. IsPartOf x (c ∷ tail)) (ap (r.text ++◌) nothing ∙ append-nil r.text) r.part,
    )

stream_steps :
    (chunks : List Text) (s s' s'' : Sanitizer) (output rest : Text)
    → feed_chunks chunks s ≡ ok (s', output)
    → flush_echo s' ≡ ok (s'', rest)
    → sanitize_stream chunks s ≡ ok (s'', output ++ rest)
unfolding sanitize_stream
stream_steps chunks s s' s'' output rest feeds flushes = rw (sanitize_stream, feeds, flushes) refl

-- With echoes that are not empty and of which none begins another, a sanitizer that holds nothing back
-- accepts any output, in any chunks; from the first one to the flush at the end it puts out a part of
-- that output, in its order, and holds nothing back at the end.
pub sanitize_stream-IsPartOf :
    (chunks : List Text) (active : List ActivePostambleEcho) (state : Option TolerantEchoStripState)
    → IsEchoes active
    → (state' : Option TolerantEchoStripState) × (text : Text) × (sanitize_stream chunks
          (holding active state [])
        ≡ ok (holding active state' [], text))
      × IsPartOf text (concat_all chunks)
sanitize_stream-IsPartOf chunks active state v =
    let fed = feed_chunks_lem chunks active state [] v (λ _. refl) in
    let (state', text, runs, part) = flush_echo_lem active fed.state fed.tail v in
    (
      state',
      fed.text ++ text,
      stream_steps chunks _ _ _ fed.text text fed.runs runs,
      part_trans (part_behind fed.text part) fed.part,
    )
