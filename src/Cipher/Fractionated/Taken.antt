-- ===== src/Cipher/Fractionated/Taken.antt =====
-- The loop over the codes in the buffer of `cipher_fd` of hw1/src/hw1.c: what it takes from the
-- buffer, and what it leaves.
use mathlib.Core.List.{append_assoc}
use mathlib.Core.Path.{subst}
use cse320_projects.Common.{
  ℕ, zero, suc, ◌+◌, ◌%◌, ◌≤◌, ◌<◌, ◌≡◌, refl, sym, ap, ◌∙◌, ◌≢◌, Bool, true, false, not, ◌&&◌,
  ◌||◌, some, List, [], ◌∷◌, ◌++◌, arith, ltb, ◌==◌, if◌then◌else◌, length, length-append, inl, inr,
  Bool-cases,
}
use cse320_projects.Cipher.MorseTables.{x_mark}
use cse320_projects.Cipher.Morse.{get_index_in_morse_table, does_contain_x}
use cse320_projects.Cipher.Fractionated.{Drained, drained, shown, ascii_letter, drain_loop}
use cse320_projects.Cipher.Fractionated.Buffer.{symbols}
use cse320_projects.Cipher.Fractionated.Encrypt.{plain_code, symbols-append}
use cse320_projects.Cipher.Fractionated.Line.{runs}
use cse320_projects.Cipher.Fractionated.Decode.{
  decode, marks, decode-code, end_code, end_code-space, end_code-letter,
}
use cse320_projects.Cipher.Fractionated.Drain.{
  gaps, split_x, unmarked, runs_behind, gaps_behind, marks-code, symbols_behind, at, drain_none,
  drain_space, drain_end,
}

-- A state with the symbols `u` still to come, which has the text `o`; `k` times x in a row are
-- allowed for before it.
unfoldable pub Ready : ℕ → ℕ → List ℕ → List ℕ → List ℕ → Type 0
Ready k char1 s u o =
    (symbols (s ++ u) ≡ true)
    × (runs k (s ++ u) ≡ true)
    × (gaps 0 (s ++ u) ≡ true)
    × ((char1 == x_mark) ≡ true → 1 ≤ k)
    × (decode (char1 == x_mark) [] (s ++ u) ≡ some o)

-- No x at the beginning.
unfoldable pub begins_code : List ℕ → Bool
begins_code [] = true
begins_code (c ∷ s) = not (c == x_mark)

-- What is left has no x, or fewer than before, and no x at its beginning.
unfoldable pub fewer : List ℕ → List ℕ → Bool
fewer s s' =
    marks s' == 0
    || (begins_code s'
        && ltb (marks s') (marks s)
        && (not (begins_code s) || ltb (marks s' + 1) (marks s)))

unfoldable pub Taken : List ℕ → List ℕ → List ℕ → Drained → Type 0
Taken s u o r =
    (out s' o' : List ℕ) × (k char1 : ℕ) × (r ≡ drained out (at s' char1))
    × Ready k char1 s' u o'
    × (o ≡ out ++ o')
    × (length s' ≤ length s)
    × (fewer s s' ≡ true)

-- No third x follows.
begins_code-runs :
    (k : ℕ) (t u : List ℕ) → 1 ≤ k → runs k (x_mark ∷ t ++ u) ≡ true → begins_code t ≡ true
unfolding begins_code runs
begins_code-runs k [] u one h = refl
begins_code-runs k (c ∷ t) u one h = ground (arith, one, h)

fewer-space : (t : List ℕ) → begins_code t ≡ true → fewer (x_mark ∷ t) t ≡ true
unfolding fewer marks begins_code
fewer-space t h = ground (arith, h)

fewer-code : (s t s' : List ℕ) → marks s ≡ marks t + 1 → fewer t s' ≡ true → fewer s s' ≡ true
unfolding fewer
fewer-code s t s' more h = ground (arith, more, h)

space_Taken :
    (k char1 : ℕ) (t u o : List ℕ)
    → Ready k char1 (x_mark ∷ t) u o
    → (char1 == x_mark) ≡ true
    → Taken (x_mark ∷ t) u o (drained (32 ∷ []) (at t char1))
unfolding Taken Ready
space_Taken k char1 t u o (clean, few, short, known, text) again =
    let one = known again in
    let now : end_code true [] (decode true [] (t ++ u)) ≡ some o =
      sym (decode-code true [] [] (t ++ u) (unfold plain_code in refl))
      ∙ ap (λ b. decode b [] (x_mark ∷ t ++ u)) (sym again)
      ∙ text in
    let (o', there, is) = end_code-space (decode true [] (t ++ u)) o now in
    (
      32 ∷ [],
      t,
      o',
      k + 1,
      char1,
      refl,
      (
        (unfold symbols in ground (arith, clean)),
        (unfold runs in ground (arith, few)),
        (unfold gaps in ground (arith, short)),
        (λ _. omega arith),
        ap (λ b. decode b [] (t ++ u)) again ∙ there,
      ),
      is,
      omega arith,
      fewer-space t (begins_code-runs k t u one few),
    )

gap_Taken :
    (s t u o : List ℕ) (r : Drained)
    → length t ≤ length s
    → marks s ≡ marks t + 1
    → Taken t u o r
    → Taken s u o r
unfolding Taken
gap_Taken s t u o r shorter more (out, s', o', k, char1, run, ready, is, le, less) =
    (out, s', o', k, char1, run, ready, is, omega (arith, shorter, le), fewer-code s t s' more less)

letter_Taken :
    (s t u o : List ℕ) (c : ℕ) (r : Drained)
    → length t ≤ length s
    → marks s ≡ marks t + 1
    → Taken t u o r
    → Taken s u (c ∷ o) (shown (c ∷ []) r)
unfolding Taken
letter_Taken s t u o c r shorter more (out, s', o', k, char1, run, ready, is, le, less) = (
  c ∷ out,
  s',
  o',
  k,
  char1,
  ap (shown (c ∷ [])) run ∙ (unfold shown in refl),
  ready,
  ap (λ z. c ∷ z) is,
  omega (arith, shorter, le),
  fewer-code s t s' more less,
)

-- Behind the x that ends a code.
code_Ready :
    (k char1 : ℕ) (m t u o o' : List ℕ)
    → plain_code m ≡ true
    → Ready k char1 (m ++ x_mark ∷ t) u o
    → decode true [] (t ++ u) ≡ some o'
    → (k' : ℕ) × Ready k' x_mark t u o'
unfolding Ready
code_Ready k char1 m t u o o' plain (clean, few, short, known, text) there =
    let e = append_assoc m (x_mark ∷ t) u in
    let (k', one, few') = runs_behind (t ++ u) k m plain (ap (runs k) (sym e) ∙ few) in
    (
      k',
      (
        symbols_behind (t ++ u) m (ap symbols (sym e) ∙ clean),
        few',
        gaps_behind (t ++ u) 0 m plain (ap (gaps 0) (sym e) ∙ short),
        (λ _. one),
        there,
      ),
    )

code_text :
    (k char1 : ℕ) (m t u o : List ℕ)
    → plain_code m ≡ true
    → Ready k char1 (m ++ x_mark ∷ t) u o
    → end_code (char1 == x_mark) m (decode true [] (t ++ u)) ≡ some o
unfolding Ready
code_text k char1 m t u o plain (clean, few, short, known, text) =
    sym (decode-code (char1 == x_mark) [] m (t ++ u) plain)
    ∙ ap (decode (char1 == x_mark) []) (sym (append_assoc m (x_mark ∷ t) u))
    ∙ text

letter_round :
    (s m u o o' : List ℕ) (i : ℕ) (r : Drained)
    → length m ≢ 0
    → get_index_in_morse_table m ≡ some i
    → o ≡ (33 + i) % 256 ∷ o'
    → Taken s u ((33 + i) % 256 ∷ o') (shown ((33 + i) % 256 ∷ []) r)
    → Taken s u o (if length m == 0 then r else ascii_letter (get_index_in_morse_table m) r)
unfolding ascii_letter
letter_round s m u o o' i r full found is rest =
    let some_code : (length m == 0) ≡ false = ground (arith, full) in rw (some_code, found, is) rest

-- One round of the loop, by the run of the rounds behind it.
code_Taken :
    (k char1 : ℕ) (m t u o : List ℕ) (r : Drained)
    → plain_code m ≡ true
    → (length m == 0 && char1 == x_mark) ≡ false
    → Ready k char1 (m ++ x_mark ∷ t) u o
    → ((k' : ℕ) (o' : List ℕ) → Ready k' x_mark t u o' → Taken t u o' r)
    → Taken
        (m ++ x_mark ∷ t)
        u
        o
        (if length m == 0 then r else ascii_letter (get_index_in_morse_table m) r)
code_Taken k char1 [] t u o r plain other ready later =
    let first : (char1 == x_mark) ≡ false = ground (arith, other) in
    let there : decode true [] (t ++ u) ≡ some o =
      (unfold end_code in
        let text = code_text k char1 [] t u o plain ready in ground (arith, first, text)) in
    let (k', ready') = code_Ready k char1 [] t u o o plain ready there in
    gap_Taken (x_mark ∷ t) t u o r (omega arith) (marks-code t [] plain) (later k' o ready')
code_Taken k char1 (c ∷ m) t u o r plain other ready later =
    let (i, o', found, there, is) =
      end_code-letter (char1 == x_mark) (c ∷ m) (decode true [] (t ++ u)) o (omega arith)
        (code_text k char1 (c ∷ m) t u o plain ready) in
    let (k', ready') = code_Ready k char1 (c ∷ m) t u o o' plain ready there in
    let rest =
      letter_Taken (c ∷ m ++ x_mark ∷ t) t u o' ((33 + i) % 256) r
        (omega (arith, length-append (c ∷ m) (x_mark ∷ t))) (marks-code t (c ∷ m) plain)
        (later k' o' ready') in
    letter_round (c ∷ m ++ x_mark ∷ t) (c ∷ m) u o o' i r (omega arith) found is rest

none_Taken :
    (k char1 : ℕ) (s u o : List ℕ)
    → Ready k char1 s u o
    → does_contain_x s ≡ false
    → Taken s u o (drained [] (at s char1))
unfolding Taken
none_Taken k char1 s u o ready h = (
  [],
  s,
  o,
  k,
  char1,
  refl,
  ready,
  refl,
  omega arith,
  unfold fewer in ground (arith, unmarked s h),
)

symbols-first : (k char1 : ℕ) (s u o : List ℕ) → Ready k char1 s u o → symbols s ≡ true
unfolding Ready
symbols-first k char1 s u o (clean, _, _, _, _) =
    let both : (symbols s && symbols u) ≡ true = sym (symbols-append s u) ∙ clean in
    ground (arith, both)

length-zero : (m : List ℕ) → length m ≡ 0 → m ≡ []
length-zero [] h = refl
length-zero (c ∷ m) h = absurd (omega (arith, h))

space_round :
    (n k char1 : ℕ) (m t u o : List ℕ)
    → length (m ++ x_mark ∷ t) ≤ 257
    → m ≡ []
    → symbols (m ++ x_mark ∷ t) ≡ true
    → Ready k char1 (m ++ x_mark ∷ t) u o
    → (char1 == x_mark) ≡ true
    → Taken (m ++ x_mark ∷ t) u o (drain_loop (suc n) (at (m ++ x_mark ∷ t) char1))
space_round n k char1 [] t u o fits no_code clean ready again =
    rw (drain_space n char1 t fits clean again) (space_Taken k char1 t u o ready again)
space_round n k char1 (c ∷ m) t u o fits no_code clean ready again =
    absurd (omega (arith, ap length no_code))

-- A round that ends a code or takes a space.
round_Taken :
    (n k char1 : ℕ) (m t u o : List ℕ)
    → length (m ++ x_mark ∷ t) ≤ 257
    → plain_code m ≡ true
    → Ready k char1 (m ++ x_mark ∷ t) u o
    → ((k' : ℕ) (o' : List ℕ) → Ready k' x_mark t u o' → Taken t u o' (drain_loop n (at t x_mark)))
    → Taken (m ++ x_mark ∷ t) u o (drain_loop (suc n) (at (m ++ x_mark ∷ t) char1))
round_Taken n k char1 m t u o fits plain ready later =
    let clean = symbols-first k char1 (m ++ x_mark ∷ t) u o ready in
    elim (Bool-cases (length m == 0 && char1 == x_mark)) [
      | inl e ↦
          let no_code : m ≡ [] = length-zero m (ground (arith, e)) in
          let again : (char1 == x_mark) ≡ true = ground (arith, e) in
          space_round n k char1 m t u o fits no_code clean ready again
      | inr other ↦
          rw (drain_end n char1 m t fits clean plain other)
            (code_Taken k char1 m t u o (drain_loop n (at t x_mark)) plain other ready later)
    ]

-- The whole loop.
pub drain_loop-Taken :
    (n k char1 : ℕ) (s u o : List ℕ)
    → length s < n
    → length s ≤ 257
    → Ready k char1 s u o
    → Taken s u o (drain_loop n (at s char1))
drain_loop-Taken zero k char1 s u o short fits ready = absurd (omega (arith, short))
drain_loop-Taken (suc n) k char1 s u o short fits ready =
    let clean = symbols-first k char1 s u o ready in
    elim (Bool-cases (does_contain_x s)) [
      | inr none_left ↦
          rw (drain_none n char1 s clean none_left) (none_Taken k char1 s u o ready none_left)
      | inl some_x ↦
          let (m, t, is, plain) = split_x s some_x clean in
          let size : length s ≡ length m + (length t + 1) =
            ap length is ∙ length-append m (x_mark ∷ t) ∙ omega arith in
          let later = λ (k' : ℕ) (o' : List ℕ) (ready' : Ready k' x_mark t u o').
            drain_loop-Taken n k' x_mark t u o' (omega (arith, short, size))
              (omega (arith, fits, size)) ready' in
          subst (λ z. Taken z u o (drain_loop (suc n) (at z char1))) (sym is)
            (round_Taken n k char1 m t u o (omega (arith, fits, size, length-append m (x_mark ∷ t)))
              plain (subst (λ z. Ready k char1 z u o) is ready) later)
    ]
