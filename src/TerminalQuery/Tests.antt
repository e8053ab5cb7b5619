-- ===== src/TerminalQuery/Tests.antt =====
-- Runs of `TerminalQueryResponder` of src/pty/terminalQueryResponder.ts, and the theorems on it at them.
use agent_tty.Prelude.{
  split, ◌≡◌, refl, false, List, [], ◌∷◌, ◌++◌, Text, codes, text_eq, concat, ok, arith, inl,
  starts_with,
}
use agent_tty.TerminalQuery.Reply.{
  escape_code, string_terminator, is_hex_color, are_hex_digits, hex_decode, get_capability,
  answer_xtgettcap_name, answer_names, dcs_reply, is_hex_name, are_hex_pairs,
}
use agent_tty.TerminalQuery.Scanner.{
  Responder, ground, csi, new_responder, consume, consume_loop, enter, osc_reply, has_escape, step,
}
use agent_tty.TerminalQuery.Chunks.{consume_all, consume_all_lem}
use agent_tty.TerminalQuery.Unbounded.{capped, full_consume, consume-full}
use agent_tty.TerminalQuery.Sequences.{Sequence, plain, command, output_of, replies_to}
use agent_tty.TerminalQuery.Answers.{consume_all-answers}
use agent_tty.TerminalQuery.Bounds.{IsBounded, consume-terminated}

abbrev responder : Responder
responder = record {
  state = ground;
  buffer = [];
  background_payload = codes "rgb:1e1e/1e1e/1e1e";
  foreground_payload = codes "rgb:d4d4/d4d4/ffff";
}

creates : new_responder (codes "#1E1e1e") (codes "#d4d4fF") ≡ ok responder
unfolding new_responder is_hex_color are_hex_digits starts_with
creates = refl

rejects_short_color :
    new_responder (codes "#1e1e1") (codes "#d4d4ff") ≡ new_responder (codes "") (codes "#d4d4ff")
unfolding new_responder is_hex_color are_hex_digits starts_with
rejects_short_color = refl

-- A query for the background color, cut in two.
abbrev chunks : List Text
chunks = (codes "hi" ++ escape_code ∷ codes "]1") ∷ (codes "1;?" ++ 0x07 ∷ []) ∷ []

abbrev sequences : List Sequence
sequences = plain (codes "hi") ∷ command (codes "11;?") (0x07 ∷ []) ∷ []

answers_split_query :
    consume_all chunks responder
    ≡ (responder, escape_code ∷ codes "]11;rgb:1e1e/1e1e/1e1e" ++ 0x07 ∷ [])
unfolding consume_all consume consume_loop step osc_reply text_eq has_escape
answers_split_query = refl

declines_sgr : dcs_reply (codes "$qm") ≡ escape_code ∷ codes "P0$r" ++ string_terminator
unfolding dcs_reply text_eq starts_with
declines_sgr = refl

-- `Tc` is known and has no value; the other name is unknown.
answers_names :
    dcs_reply (codes "+q5463;5858") ≡ escape_code ∷ codes "P1+r5463" ++ string_terminator
unfolding dcs_reply starts_with split answer_names answer_xtgettcap_name is_hex_name are_hex_pairs
    hex_decode get_capability text_eq
answers_names = refl

consume_all_lem_example : consume_all chunks responder ≡ consume (concat chunks) responder
consume_all_lem_example = consume_all_lem chunks responder

consume-full_example : consume (concat chunks) (capped responder) ≡ (
  capped (full_consume (concat chunks) responder).0,
  (full_consume (concat chunks) responder).1,
)
consume-full_example = consume-full (concat chunks) responder

same_output : concat chunks ≡ output_of sequences
unfolding concat output_of
same_output = refl

quiet : has_escape (codes "hi") ≡ false
unfolding has_escape
quiet = refl

consume_all-answers_example :
    consume_all chunks (enter ground [] responder)
    ≡ (enter ground [] responder, replies_to responder sequences)
consume_all-answers_example =
    consume_all-answers chunks sequences responder
      (
        quiet,
        (
          (
            (refl, (refl, (refl, (refl, tt)))),
            ((refl, refl), ((refl, refl), ((refl, refl), ((refl, refl), tt)))),
            inl refl,
          ),
          tt,
        ),
      )
      same_output

abbrev half_read : Responder
half_read = enter csi (codes "38;5") responder

consume-terminated_example :
    IsBounded (consume (codes ";1mls") half_read).0
    × ((consume (codes ";1mls" ++ string_terminator) half_read).0 ≡ enter ground [] half_read)
consume-terminated_example = consume-terminated (codes ";1mls") half_read (omega arith)
