-- ===== src/RenderWait/Matched.antt =====
-- Conditions of src/renderWait/matcher.ts, from their preparation to a match.
use agent_tty.Prelude.{
  ℕ, zero, suc, Bool, true, false, not, ◌&&◌, ◌||◌, Option, none, some, List, [], ◌∷◌, ◌++◌, Text,
  includes, starts_with, Result, ok, ◌>>◌, invariant, ◌≡◌, ◌↔◌, subst, refl, ap, sym, ◌∙◌,
  chain_passes, Result-cases, Bool-cases, inl, inr, ◌⊎◌, arith,
}
use agent_tty.Session.Number.{is_positive_integer}
use agent_tty.RenderWait.Quantifiers.{has_nested_quantifiers}
use agent_tty.RenderWait.Matcher.{
  has_length_within, max_wait_for_render_regex_length, max_wait_for_render_text_length, passes,
  RegExp, RenderWaitCondition, PreparedRenderWaitCondition, is_given, is_cursor_line,
  is_non_negative_integer, is_replay_seq, compile_regex, prepare_render_wait_condition,
}
use agent_tty.RenderWait.Meets.{
  Meets, is_absent_or-number_eq, is_absent_or-stable_since, is_absent_or-number_lt,
}
use agent_tty.RenderWait.Snapshot.{
  Milliseconds, is_stable_time, SemanticSnapshot, RenderWaitSnapshotMatch, join_lines,
  canonical_visible_text, row_of, line_at, match_target, match_text, is_safe, snapshot_match,
  match_render_wait_snapshot,
}

starts_with-longer :
    (part text rest : Text) → starts_with part text ≡ true → starts_with part (text ++ rest) ≡ true
unfolding starts_with
starts_with-longer [] text rest h = refl
starts_with-longer (c ∷ part) [] rest h = cc
starts_with-longer (c ∷ part) (d ∷ text) rest h =
    ground (arith, h, starts_with-longer part text rest)

includes-nothing : (part text : Text) → includes part [] ≡ true → includes part text ≡ true
unfolding includes starts_with
includes-nothing [] [] h = refl
includes-nothing [] (c ∷ text) h = refl
includes-nothing (d ∷ part) text h = cc

includes-before :
    (part text rest : Text) → includes part text ≡ true → includes part (text ++ rest) ≡ true
unfolding includes
includes-before part [] rest h = includes-nothing part rest h
includes-before part (c ∷ text) rest h = elim (Bool-cases (starts_with part (c ∷ text))) [
  | inl here ↦ rw (starts_with-longer part (c ∷ text) rest here) refl
  | inr later ↦ ground (arith, h, later, includes-before part text rest)
]

includes-behind :
    (part front text : Text) → includes part text ≡ true → includes part (front ++ text) ≡ true
unfolding includes
includes-behind part [] text h = h
includes-behind part (c ∷ front) text h = ground (arith, h, includes-behind part front text)

-- What a line has in it, the joined lines have.
includes-join_lines :
    (part : Text) (lines : List Text) (row : ℕ)
    → includes part (line_at lines row) ≡ true
    → includes part (join_lines lines) ≡ true
unfolding join_lines
includes-join_lines part [] row h = h
includes-join_lines part (line ∷ []) zero h = h
includes-join_lines part (line ∷ []) (suc row) h = includes-nothing part line h
includes-join_lines part (line ∷ next ∷ lines) zero h =
    includes-before part line (b'\n' ∷ join_lines (next ∷ lines)) h
includes-join_lines part (line ∷ next ∷ lines) (suc row) h =
    includes-behind part line (b'\n' ∷ join_lines (next ∷ lines)) (
      includes-behind part (b'\n' ∷ []) (join_lines (next ∷ lines))
        (includes-join_lines part (next ∷ lines) row h))

-- What a condition looks at is on the screen.
includes-match_target :
    (part : Text) (c : RenderWaitCondition) (s : SemanticSnapshot)
    → includes part (match_target c s) ≡ true
    → includes part (canonical_visible_text s) ≡ true
includes-match_target part c s h = elim (Bool-cases (is_cursor_line c.scope)) [
  | inl line ↦
      includes-join_lines part s.visible_lines (row_of s.cursor_row) (ground (arith, h, line))
  | inr whole ↦ ground (arith, h, whole)
]

passed :
    {E B : Type 0} (test : Bool) (message : E) {rest : Result E B} {last : B}
    → (invariant test message >> rest) ≡ ok last
    → rest ≡ ok last
passed true message h = h
passed false message h = cc

holds :
    {E B : Type 0} (test : Bool) (message : E) (rest : Result E B) {last : B}
    → (invariant test message >> rest) ≡ ok last
    → test ≡ true
holds true message rest h = refl
holds false message rest h = cc

-- A match is a text that matches, and the rest that is asked for.
all_matched :
    (text cursor_row cursor_col stable baseline : Bool)
    → (((text && (cursor_row && cursor_col)) && stable && baseline) ≡ true) ↔ (
        (text ≡ true)
        × (cursor_row ≡ true)
        × (cursor_col ≡ true)
        × (stable ≡ true)
        × (baseline ≡ true))
all_matched true true true true true = (λ h. (refl, refl, refl, refl, refl), λ h. refl)
all_matched false r c s b = (λ h. cc, λ h. cc)
all_matched true false c s b = (λ h. cc, λ h. cc)
all_matched true true false s b = (λ h. cc, λ h. cc)
all_matched true true true false b = (λ h. cc, λ h. cc)
all_matched true true true true false = (λ h. cc, λ h. cc)

-- A text that is asked for stands in a text; what is not asked for asks nothing.
abbrev pub shows : Option Text → Text → Bool
shows none text = true
shows (some part) text = includes part text

-- A snapshot whose cursor and position are as they should be.
pub record IsSnapshot (s : SemanticSnapshot) : Type 0 where
  pub row : is_non_negative_integer s.cursor_row ≡ true
  pub col : is_non_negative_integer s.cursor_col ≡ true
  pub seq : is_replay_seq s.captured_at_seq ≡ true

module _ {E R : Type 0} (reg_exp : RegExp E R) where
  -- Without flags an expression is neither global nor sticky.
  abbrev pub CompilesSafely : Type 0
  CompilesSafely =
      (text : Text) (r : R) → reg_exp.compile text ≡ ok r → reg_exp.is_stateful r ≡ false

  record Prepared (c : RenderWaitCondition) (p : PreparedRenderWaitCondition R) : Type 0 where
    same : p.condition ≡ c
    given : (not (is_given p.condition.regex) || is_given p.compiled_regex) ≡ true
    safe : is_safe reg_exp p.compiled_regex ≡ true
    uncompiled : (is_given p.condition.regex ≡ true) ⊎ (p.compiled_regex ≡ none)
    stable : passes is_positive_integer p.condition.screen_stable_ms ≡ true
    after : passes is_replay_seq p.condition.after_seq ≡ true

  compile_regex_lem :
      (o : Option Text) (compiled : Option R)
      → CompilesSafely
      → compile_regex reg_exp o ≡ ok compiled
      → ((not (is_given o) || is_given compiled) ≡ true) × (is_safe reg_exp compiled ≡ true)
  unfolding compile_regex
  compile_regex_lem none none safely h = (refl, refl)
  compile_regex_lem none (some r) safely h = cc
  compile_regex_lem (some regex) compiled safely h =
      let h1 = passed (has_length_within max_wait_for_render_regex_length (some regex)) _ h in
      let h2 = passed (not (has_nested_quantifiers regex)) _ h1 in
      elim (Result-cases (reg_exp.compile regex)) [
        | inr (e, fails) ↦ absurd (ground (arith, h2, fails))
        | inl (r, compiles) ↦
            let same : some r ≡ compiled = ground (arith, h2, compiles) in
            (
              ap is_given (sym same),
              ap (is_safe reg_exp) (sym same) ∙ ap not (safely regex r compiles),
            )
      ]

  uncompiled_lem :
      (o : Option Text) (compiled : Option R)
      → compile_regex reg_exp o ≡ ok compiled
      → (is_given o ≡ true) ⊎ (compiled ≡ none)
  unfolding compile_regex
  uncompiled_lem none none h = inr refl
  uncompiled_lem none (some r) h = cc
  uncompiled_lem (some regex) compiled h = inl refl

  prepare_lem :
      (c : RenderWaitCondition) (p : PreparedRenderWaitCondition R)
      → CompilesSafely
      → prepare_render_wait_condition reg_exp c ≡ ok p
      → Prepared c p
  unfolding prepare_render_wait_condition
  prepare_lem c p safely h =
      let asks = is_given c.text || is_given c.regex in
      let h1 = passed (not (is_cursor_line c.scope && not asks)) _ h in
      let h2 =
        passed
          (is_given c.text
            || is_given c.regex
            || is_given c.screen_stable_ms
            || is_given c.cursor_row
            || is_given c.cursor_col)
          _ h1 in
      let h3 = passed (not (is_given c.text && is_given c.regex)) _ h2 in
      let h4 = passed (has_length_within max_wait_for_render_text_length c.text) _ h3 in
      let (compiled, e, h5) = chain_passes (compile_regex reg_exp c.regex) _ h4 in
      let h6 = passed (passes is_positive_integer c.screen_stable_ms) _ h5 in
      let h7 = passed (passes is_non_negative_integer c.cursor_row) _ h6 in
      let h8 = passed (passes is_non_negative_integer c.cursor_col) _ h7 in
      let h9 = passed (passes is_replay_seq c.after_seq) _ h8 in
      let p' : PreparedRenderWaitCondition R = record {
        condition = c;
        compiled_regex = compiled;
      } in
      let same : p' ≡ p = cc h9 in
      let (given, safe) = compile_regex_lem c.regex compiled safely e in
      record {
        same = ap (λ x. x.condition) (sym same);
        given =
            ap (λ x. not (is_given x.condition.regex) || is_given x.compiled_regex) (sym same)
            ∙ given;
        safe = ap (λ x. is_safe reg_exp x.compiled_regex) (sym same) ∙ safe;
        uncompiled = elim (uncompiled_lem c.regex compiled e) [
          | inl given ↦ inl (ap (λ x. is_given x.condition.regex) (sym same) ∙ given)
          | inr absent ↦ inr (ap (λ x. x.compiled_regex) (sym same) ∙ absent)
        ];
        stable =
            ap (λ x. passes is_positive_integer x.condition.screen_stable_ms) (sym same)
            ∙ holds (passes is_positive_integer c.screen_stable_ms) _ _ h5;
        after =
            ap (λ x. passes is_replay_seq x.condition.after_seq) (sym same)
            ∙ holds (passes is_replay_seq c.after_seq) _ _ h8;
      }

  -- What a text that is asked for needs, to match.
  match_text-shows :
      (o : Option Text) (compiled : Option R) (c : RenderWaitCondition) (s : SemanticSnapshot)
      → (match_text reg_exp o compiled (match_target c s)).0 ≡ true
      → shows o (canonical_visible_text s) ≡ true
  match_text-shows none compiled c s h = refl
  match_text-shows (some text) compiled c s h =
      elim (Bool-cases (includes text (match_target c s))) [
        | inl found ↦ includes-match_target text c s found
        | inr missing ↦ absurd (ground (arith, h, missing))
      ]

  -- Without a regular expression, on the whole screen, the text matches exactly where it stands.
  match_text-whole :
      (o : Option Text) (c : RenderWaitCondition) (s : SemanticSnapshot)
      → is_cursor_line c.scope ≡ false
      → (match_text reg_exp o none (match_target c s)).0 ≡ shows o (canonical_visible_text s)
  match_text-whole none c s whole = refl
  match_text-whole (some text) c s whole =
      rw whole (elim (Bool-cases (includes text (canonical_visible_text s))) [
        | inl found ↦ ground (arith, found)
        | inr missing ↦ ground (arith, missing)
      ])

  matches-Meets :
      (c : RenderWaitCondition) (p : PreparedRenderWaitCondition R) (s : SemanticSnapshot)
      (stable_for_ms : Option Milliseconds)
      → Prepared c p
      → IsSnapshot s
      → is_stable_time stable_for_ms ≡ true
      → let m = snapshot_match reg_exp p s stable_for_ms in
        (m.matched ≡ true) ↔ ((m.text_matched ≡ true) × Meets p.condition s stable_for_ms)
  matches-Meets c p s stable_for_ms prepared snapshot timed =
      let row = is_absent_or-number_eq s.cursor_row p.condition.cursor_row snapshot.row in
      let col = is_absent_or-number_eq s.cursor_col p.condition.cursor_col snapshot.col in
      let stable =
        is_absent_or-stable_since stable_for_ms p.condition.screen_stable_ms timed
          prepared.stable in
      let later =
        is_absent_or-number_lt p.condition.after_seq s.captured_at_seq prepared.after
          snapshot.seq in
      let all = all_matched _ _ _ _ _ in
      (
        λ matched.
            let (text, r, c, st, l) = all.0 matched in
            (
              text,
              record { row = row.0 r; col = col.0 c; stable = stable.0 st; later = later.0 l },
            ),
        λ (text, meets).
            all.1
              (text, row.1 meets.row, col.1 meets.col, stable.1 meets.stable, later.1 meets.later),
      )

  -- What a match says of a snapshot.
  abbrev pub Says :
      RenderWaitCondition
      → SemanticSnapshot
      → Option Milliseconds
      → RenderWaitSnapshotMatch
      → Type 0
  Says c s stable_for_ms m =
      ((m.matched ≡ true) ↔ ((m.text_matched ≡ true) × Meets c s stable_for_ms))
      × ((m.text_matched ≡ false) ⊎ (shows c.text (canonical_visible_text s) ≡ true))
      × ((is_given c.regex ≡ true)
          ⊎ (is_cursor_line c.scope ≡ true)
          ⊎ (m.text_matched ≡ shows c.text (canonical_visible_text s)))

  says :
      (c : RenderWaitCondition) (p : PreparedRenderWaitCondition R) (s : SemanticSnapshot)
      (stable_for_ms : Option Milliseconds)
      → Prepared c p
      → IsSnapshot s
      → is_stable_time stable_for_ms ≡ true
      → Says p.condition s stable_for_ms (snapshot_match reg_exp p s stable_for_ms)
  says c p s stable_for_ms prepared snapshot timed =
      let m = snapshot_match reg_exp p s stable_for_ms in
      (
        matches-Meets c p s stable_for_ms prepared snapshot timed,
        elim (Bool-cases m.text_matched) [
          | inr unmatched ↦ inl unmatched
          | inl matched ↦
              inr (match_text-shows p.condition.text p.compiled_regex p.condition s matched)
        ],
        elim prepared.uncompiled [
          | inl given ↦ inl given
          | inr absent ↦ elim (Bool-cases (is_cursor_line p.condition.scope)) [
            | inl line ↦ inr (inl line)
            | inr whole ↦ inr (
                inr (
                  ap (λ o. (match_text reg_exp p.condition.text o (match_target p.condition s)).0)
                    absent
                  ∙ match_text-whole p.condition.text p.condition s whole))
          ]
        ],
      )

  -- A condition that `prepareRenderWaitCondition` accepts fails no check of
  -- `matchRenderWaitSnapshot`, on any snapshot whose cursor and position are integers from 0 and from -1
  -- on, with a time of stability that is absent or finite and not negative, where `new RegExp` without
  -- flags gives an expression that is neither global nor sticky. The result matches exactly when its
  -- text matches, the cursor is where the condition asks, the screen has been stable for as long as it
  -- asks, and the snapshot is later than the position that it asks to pass. The text matches only
  -- where a text that is asked for stands in the visible text, and, on the whole screen and without
  -- a regular expression, exactly there.
  pub match-prepare :
      (c : RenderWaitCondition) (p : PreparedRenderWaitCondition R) (s : SemanticSnapshot)
      (stable_for_ms : Option Milliseconds)
      → CompilesSafely
      → prepare_render_wait_condition reg_exp c ≡ ok p
      → IsSnapshot s
      → is_stable_time stable_for_ms ≡ true
      → (m : RenderWaitSnapshotMatch) × (match_render_wait_snapshot reg_exp p s stable_for_ms
          ≡ ok m)
        × Says c s stable_for_ms m
  unfolding match_render_wait_snapshot
  match-prepare c p s stable_for_ms safely h snapshot timed =
      let prepared = prepare_lem c p safely h in
      let m = snapshot_match reg_exp p s stable_for_ms in
      (
        m,
        rw (prepared.given, prepared.safe, snapshot.row, snapshot.col, snapshot.seq, timed) refl,
        subst (λ c. Says c s stable_for_ms m) prepared.same
            (says c p s stable_for_ms prepared snapshot timed),
      )
