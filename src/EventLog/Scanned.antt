-- ===== src/EventLog/Scanned.antt =====
-- `scanEventLog` and `parseEventLogContent` of src/storage/eventLogCodec.ts on the same text.
use agent_tty.Prelude.{
  ℕ, ◌≡◌, refl, sym, ap, ◌∙◌, true, some, List, [], ◌∷◌, ◌++◌, map, Text, concat, split, prepend,
  trim, length, ok, arith, append_assoc, append-nil, ◌==◌, Bool-cases, inl, inr, chain_passes,
  subst,
}
use agent_tty.EventLog.Record.{EventRecord, is_valid_payload}
use agent_tty.EventLog.Codec.{
  assert_contiguous_sequence, check_records, validate_event_records, find_event_log_stop, Scan,
  start, scan_lines, scan_event_log,
}
use agent_tty.EventLog.Content.{
  add_line, trimmed_lines, LineReader, parse_event_log_line, parse_lines, parse_event_log_content,
  record_of_line, read_trimmed, read_raw_line, read_parts, read_chunks, scan_event_log_file,
}
use agent_tty.EventLog.Reading.{scan_event_log_lem}

-- A text before the first of the parts, and parts that go on in the last of others.
abbrev attach : Text → List Text → List Text
attach pending [] = pending ∷ []
attach pending (part ∷ parts) = (pending ++ part) ∷ parts

abbrev glue : List Text → List Text → List Text
glue [] parts = parts
glue (part ∷ []) parts = attach part parts
glue (part ∷ next ∷ rest) parts = part ∷ glue (next ∷ rest) parts

split-cons :
    (separator : ℕ) (text : Text)
    → (part : Text) × (parts : List Text) × (split separator text ≡ part ∷ parts)
unfolding split
split-cons separator [] = ([], [], refl)
split-cons separator (c ∷ text) =
    let (part, parts, e) = split-cons separator text in
    elim (Bool-cases (c == separator)) [
      | inl cut ↦ ([], split separator text, rw cut)
      | inr plain ↦ (c ∷ part, parts, rw (plain, e))
    ]

attach-split :
    (separator : ℕ) (text : Text) → attach [] (split separator text) ≡ split separator text
attach-split separator text = let (part, parts, e) = split-cons separator text in rw e

glue_cut :
    (separator : ℕ) (text : Text) (parts : List Text)
    → glue ([] ∷ split separator text) parts ≡ [] ∷ glue (split separator text) parts
glue_cut separator text parts = let (part, rest, e) = split-cons separator text in rw e

prepend-glue :
    (c : ℕ) (parts others : List Text)
    → prepend c (glue parts others) ≡ glue (prepend c parts) others
prepend-glue c [] [] = refl
prepend-glue c [] (other ∷ others) = refl
prepend-glue c (part ∷ []) [] = refl
prepend-glue c (part ∷ []) (other ∷ others) = refl
prepend-glue c (part ∷ next ∷ parts) others = refl

split-append :
    (separator : ℕ) (a b : Text)
    → split separator (a ++ b) ≡ glue (split separator a) (split separator b)
unfolding split
split-append separator [] b = sym (attach-split separator b)
split-append separator (c ∷ a) b = elim (Bool-cases (c == separator)) [
  | inl cut ↦ rw cut (
      ap (λ parts. [] ∷ parts) (split-append separator a b)
      ∙ sym (glue_cut separator a (split separator b)))
  | inr plain ↦ rw plain (
      ap (prepend c) (split-append separator a b)
      ∙ prepend-glue c (split separator a) (split separator b))
]

attach-attach : (a b : Text) (parts : List Text) → attach a (attach b parts) ≡ attach (a ++ b) parts
attach-attach a b [] = refl
attach-attach a b (part ∷ parts) = rw (append_assoc a b part)

module _ {V : Type 0} (reader : LineReader V) where
  -- Whole lines, one after another.
  abbrev read_raw_lines : List Text → Scan → Scan
  read_raw_lines [] s = s
  read_raw_lines (line ∷ lines) s = read_raw_lines lines (read_raw_line reader line s)

  read_nothing :
      (parts : List Text) (s : Scan) → read_raw_lines (attach [] parts) s ≡ read_raw_lines parts s
  unfolding read_raw_line
  read_nothing [] s = refl
  read_nothing (part ∷ parts) s = refl

  read_parts_lem :
      (parts others : List Text) (pending : Text) (s : Scan)
      → read_raw_lines
          (attach (read_parts reader parts pending s).0 others)
          (read_parts reader parts pending s).1
        ≡ read_raw_lines (attach pending (glue parts others)) s
  unfolding read_parts
  read_parts_lem [] others pending s = refl
  read_parts_lem (part ∷ []) others pending s = rw (attach-attach pending part others)
  read_parts_lem (part ∷ next ∷ parts) others pending s =
      let s' = read_raw_line reader (pending ++ part) s in
      read_parts_lem (next ∷ parts) others [] s' ∙ read_nothing (glue (next ∷ parts) others) s'

  read_chunks_lem :
      (chunks : List Text) (pending : Text) (s : Scan)
      → read_raw_line reader
          (read_chunks reader chunks pending s).0
          (read_chunks reader chunks pending s).1
        ≡ read_raw_lines (attach pending (split b'\n' (concat chunks))) s
  unfolding read_chunks concat
  read_chunks_lem [] pending s = unfold split in rw (append-nil pending)
  read_chunks_lem (chunk ∷ chunks) pending s =
      let next = read_parts reader (split b'\n' chunk) pending s in
      read_chunks_lem chunks next.0 next.1
      ∙ read_parts_lem (split b'\n' chunk) (split b'\n' (concat chunks)) pending s
      ∙ ap (λ parts. read_raw_lines (attach pending parts) s)
          (sym (split-append b'\n' chunk (concat chunks)))

  scan_lines-add_line :
      (line : Text) (lines : List Text) (s : Scan)
      → scan_lines (read_trimmed reader line s) (map (record_of_line reader) lines)
        ≡ scan_lines s (map (record_of_line reader) (add_line line lines))
  unfolding scan_lines
  scan_lines-add_line [] lines s = refl
  scan_lines-add_line (c ∷ line) lines s = refl

  read_raw_lines_lem :
      (lines : List Text) (s : Scan)
      → read_raw_lines lines s ≡ scan_lines s (map (record_of_line reader) (trimmed_lines lines))
  unfolding trimmed_lines scan_lines read_raw_line
  read_raw_lines_lem [] s = refl
  read_raw_lines_lem (line ∷ lines) s =
      read_raw_lines_lem lines (read_raw_line reader line s)
      ∙ scan_lines-add_line (trim line) (trimmed_lines lines) s

  pub scan_event_log_file_whole :
      (chunks : List Text)
      → scan_event_log_file reader chunks
        ≡ scan_event_log (map (record_of_line reader) (trimmed_lines (split b'\n' (concat chunks))))
  unfolding scan_event_log_file scan_event_log
  scan_event_log_file_whole chunks =
      read_chunks_lem chunks [] start
      ∙ read_nothing (split b'\n' (concat chunks)) start
      ∙ read_raw_lines_lem (split b'\n' (concat chunks)) start

  parse_event_log_line_lem :
      (line : Text) (r : EventRecord)
      → parse_event_log_line reader line ≡ ok r
      → (record_of_line reader line ≡ some r) × (is_valid_payload r.payload ≡ true)
  unfolding parse_event_log_line
  parse_event_log_line_lem line r parsed = ground arith

  parse_lines_lem :
      (lines : List Text) (records : List EventRecord)
      → parse_lines reader lines ≡ ok records
      → (map (record_of_line reader) lines ≡ map some records) × (check_records records ≡ ok tt)
  unfolding parse_lines check_records
  parse_lines_lem [] [] parsed = (refl, refl)
  parse_lines_lem [] (r ∷ records) parsed = absurd (ground arith)
  parse_lines_lem (line ∷ lines) records parsed =
      let (r, here, rest) = chain_passes (parse_event_log_line reader line) _ parsed in
      let (others, there, last) = chain_passes (parse_lines reader lines) _ rest in
      let (read, valid) = parse_event_log_line_lem line r here in
      let (reads, all_valid) = parse_lines_lem lines others there in
      let whole : r ∷ others ≡ records = ground arith in
      subst
        (λ records.
          (record_of_line reader line ∷ map (record_of_line reader) lines ≡ map some records)
          × (check_records records ≡ ok tt))
        whole (rw (read, reads), rw (valid, all_valid))

  parse_event_log_content_parts :
      (content : Text) (records : List EventRecord)
      → parse_event_log_content reader content ≡ ok records
      → (parse_lines reader (trimmed_lines (split b'\n' content)) ≡ ok records)
        × (assert_contiguous_sequence records ≡ ok tt)
  unfolding parse_event_log_content
  parse_event_log_content_parts content records parsed =
      let (found, lines, rest) =
        chain_passes (parse_lines reader (trimmed_lines (split b'\n' content))) _ parsed in
      let (nothing, follows, last) = chain_passes (assert_contiguous_sequence found) _ rest in
      let same : found ≡ records = ground arith in
      subst
        (λ records.
          (parse_lines reader (trimmed_lines (split b'\n' content)) ≡ ok records)
          × (assert_contiguous_sequence records ≡ ok tt))
        same (lines, follows)

  accepts :
      (records : List EventRecord)
      → check_records records ≡ ok tt
      → assert_contiguous_sequence records ≡ ok tt
      → validate_event_records records ≡ ok records
  unfolding validate_event_records
  accepts records valid follows = rw (valid, follows)

  -- However a file that `parseEventLogContent` accepts is cut into chunks, its scan counts the
  -- records that are parsed and finds the stop that `findEventLogStop` finds in them.
  pub scan_event_log_file_lem :
      (chunks : List Text) (records : List EventRecord)
      → parse_event_log_content reader (concat chunks) ≡ ok records
      → ((scan_event_log_file reader chunks).entry_count ≡ length records)
        × ((scan_event_log_file reader chunks).stop ≡ find_event_log_stop records)
  scan_event_log_file_lem chunks records parsed =
      let (lines, follows) = parse_event_log_content_parts (concat chunks) records parsed in
      let (reads, valid) =
        parse_lines_lem (trimmed_lines (split b'\n' (concat chunks))) records lines in
      rw (scan_event_log_file_whole chunks, reads)
        (scan_event_log_lem records (accepts records valid follows))
