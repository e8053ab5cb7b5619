-- ===== src/EventLog/Printed.antt =====
-- The lines that src/host/eventLog.ts writes, as src/storage/eventLogCodec.ts reads them.
-- `JSON.stringify` is a parameter.
use agent_tty.Prelude.{
  ◌+◌, append-nil, err, none, Option, ℕ, ◌<◌, ◌≡◌, refl, ap, ◌∙◌, false, some, List, [], ◌∷◌, ◌++◌,
  map, All, arith, Text, concat, split, trim, trim_start, trim_end, keep_before_end, codes,
  byte_length, ◌==◌, append_assoc, ok,
}
use agent_tty.EventLog.Store.{Prepared}
use agent_tty.EventLog.Record.{EventRecord, Payload}
use agent_tty.EventLog.Content.{
  LineReader, trimmed_lines, add_line, parse_event_log_line, parse_lines, parse_event_log_content,
  record_of_line,
}
use agent_tty.EventLog.Reading.{assert_contiguous_sequence_iff}
use agent_tty.EventLog.Invariant.{Contiguous}
use agent_tty.EventLog.Stored.{IsValid, lines_size}

trim_end-brace : (body : Text) → trim_end (body ++ codes "}") ≡ body ++ codes "}"
unfolding trim_end
trim_end-brace [] = refl
trim_end-brace (c ∷ []) = refl
trim_end-brace (c ∷ d ∷ body) = ap (keep_before_end c) (trim_end-brace (d ∷ body))

trim-braces : (body : Text) → trim (codes "{" ++ body ++ codes "}") ≡ codes "{" ++ body ++ codes "}"
unfolding trim trim_start
trim-braces body = trim_end-brace (b'{' ∷ body)

split_line :
    (line rest : Text)
    → All (λ c. (c == b'\n') ≡ false) line
    → split b'\n' (line ++ b'\n' ∷ rest) ≡ line ∷ split b'\n' rest
unfolding split
split_line [] rest plain = refl
split_line (c ∷ line) rest plain = rw (plain.0, split_line line rest plain.1)

byte_length_positive : (c : ℕ) (text : Text) → 0 < byte_length (c ∷ text)
unfolding byte_length
byte_length_positive c [] = ground arith
byte_length_positive c (d ∷ text) = ground arith

split_last : (text : Text) → All (λ c. (c == b'\n') ≡ false) text → split b'\n' text ≡ text ∷ []
unfolding split
split_last [] plain = refl
split_last (c ∷ text) plain = rw (plain.0, split_last text plain.1)

-- `torn_text r n` is what `readFile` gives of the first `n` bytes of the line of `r`.
module _ {V : Type 0} (reader : LineReader V) (stringify : EventRecord → Text)
    (torn_text : EventRecord → ℕ → Text) (IsRecordable : Text → Payload → Type 0) where
  -- `prepareRecord`: the line and its bytes
  abbrev pub line_of : EventRecord → Text
  line_of r = stringify r ++ b'\n' ∷ []

  abbrev pub line_bytes : EventRecord → ℕ
  line_bytes r = byte_length (line_of r)

  -- The text of a file that holds these records, and behind them what a failed write left.
  abbrev pub torn_part : Option Prepared → Text
  torn_part none = []
  torn_part (some p) = torn_text p.event p.size

  abbrev pub content_of : List EventRecord → Option Prepared → Text
  content_of records torn = concat (map line_of records) ++ torn_part torn

  -- What the platform's JSON and the schema promise of a record: its JSON is one line between braces,
  -- which reads back as the record where it can be recorded. A part of it that lacks the last brace
  -- begins with the first one, has no newline, and is no JSON.
  pub record PrintsLines : Type 0 where
    pub reads_back :
        (r : EventRecord)
        → IsValid line_bytes IsRecordable r
        → record_of_line reader (stringify r) ≡ some r
    pub one_line : (r : EventRecord) → All (λ c. (c == b'\n') ≡ false) (stringify r)
    pub braces : (r : EventRecord) → (body : Text) × (stringify r ≡ codes "{" ++ body ++ codes "}")
    pub part_line :
        (r : EventRecord) (n : ℕ)
        → n < line_bytes r
        → All (λ c. (c == b'\n') ≡ false) (torn_text r n)
    pub part_broken :
        (r : EventRecord) (n : ℕ)
        → 0 < n
        → n + 1 < line_bytes r
        → (body : Text) × (trim (torn_text r n) ≡ b'{' ∷ body)
          × (reader.parse_json (b'{' ∷ body) ≡ none)

  module _ (json : PrintsLines) where
    split-lines :
        (records : List EventRecord) (last : Text)
        → All (λ c. (c == b'\n') ≡ false) last
        → split b'\n' (concat (map line_of records) ++ last) ≡ map stringify records ++ last ∷ []
    unfolding concat
    split-lines [] last plain = split_last last plain
    split-lines (r ∷ records) last plain =
        let others = concat (map line_of records) in
        ap (split b'\n') (
          append_assoc (line_of r) others last
          ∙ append_assoc (stringify r) (b'\n' ∷ []) (others ++ last))
        ∙ split_line (stringify r) (others ++ last) (json.one_line r)
        ∙ ap (λ lines. stringify r ∷ lines) (split-lines records last plain)

    add_line-stringify :
        (r : EventRecord) (lines : List Text)
        → add_line (trim (stringify r)) lines ≡ stringify r ∷ lines
    add_line-stringify r lines = let (body, e) = json.braces r in rw (e, trim-braces body)

    trimmed_lines-stringify :
        (records : List EventRecord) (last : Text)
        → trimmed_lines (map stringify records ++ last ∷ [])
          ≡ map stringify records ++ add_line (trim last) []
    unfolding trimmed_lines
    trimmed_lines-stringify [] last = refl
    trimmed_lines-stringify (r ∷ records) last =
        ap (add_line (trim (stringify r))) (trimmed_lines-stringify records last)
        ∙ add_line-stringify r (map stringify records ++ add_line (trim last) [])

    read_line_back :
        (r : EventRecord)
        → IsValid line_bytes IsRecordable r
        → parse_event_log_line reader (stringify r) ≡ ok r
    unfolding parse_event_log_line
    read_line_back r valid = ground (arith, json.reads_back r valid)

    parse_lines-stringify :
        (records : List EventRecord)
        → All (IsValid line_bytes IsRecordable) records
        → parse_lines reader (map stringify records) ≡ ok records
    unfolding parse_lines
    parse_lines-stringify [] valid = refl
    parse_lines-stringify (r ∷ records) valid =
        rw (read_line_back r valid.0, parse_lines-stringify records valid.1)

    -- Records that read back and whose `seq` is their position are read back from the text of their
    -- lines.
    pub parse_event_log_content_lem :
        (records : List EventRecord)
        → All (IsValid line_bytes IsRecordable) records
        → Contiguous 0 records
        → parse_event_log_content reader (content_of records none) ≡ ok records
    unfolding parse_event_log_content trim trim_start trim_end
    parse_event_log_content_lem records valid contiguous = rw (
      split-lines records [] tt,
      trimmed_lines-stringify records [],
      append-nil (map stringify records),
      parse_lines-stringify records valid,
      (assert_contiguous_sequence_iff records).1 contiguous,
    )

    parse_lines_broken :
        (records : List EventRecord) (line : Text)
        → All (IsValid line_bytes IsRecordable) records
        → parse_event_log_line reader line ≡ err "event log line must be valid JSON"
        → parse_lines reader (map stringify records ++ line ∷ [])
          ≡ err "event log line must be valid JSON"
    unfolding parse_lines
    parse_lines_broken [] line valid broken = rw broken refl
    parse_lines_broken (r ∷ records) line valid broken =
        rw (read_line_back r valid.0, parse_lines_broken records line valid.1 broken)

    unreadable :
        (line : Text)
        → reader.parse_json line ≡ none
        → parse_event_log_line reader line ≡ err "event log line must be valid JSON"
    unfolding parse_event_log_line
    unreadable line broken = rw broken refl

    -- A last line that was cut is refused.
    pub parse_event_log_content_broken :
        (records : List EventRecord) (p : Prepared)
        → All (IsValid line_bytes IsRecordable) records
        → 0 < p.size
        → p.size + 1 < line_bytes p.event
        → parse_event_log_content reader (content_of records (some p))
          ≡ err "event log line must be valid JSON"
    unfolding parse_event_log_content
    parse_event_log_content_broken records p valid some_bytes cut =
        let (body, trimmed, broken) = json.part_broken p.event p.size some_bytes cut in
        let last = torn_text p.event p.size in
        let plain = json.part_line p.event p.size (omega (arith, cut)) in
        rw
          (
            split-lines records last plain,
            trimmed_lines-stringify records last,
            trimmed,
            parse_lines_broken records (b'{' ∷ body) valid (unreadable (b'{' ∷ body) broken),
          )
          refl

    pub lines_size_positive :
        (r : EventRecord) (records : List EventRecord)
        → 0 < lines_size line_bytes IsRecordable (r ∷ records)
    lines_size_positive r records =
        let (body, e) = json.braces r in
        let some_bytes : 0 < line_bytes r =
          rw e (byte_length_positive b'{' ((body ++ codes "}") ++ b'\n' ∷ [])) in
        omega arith
