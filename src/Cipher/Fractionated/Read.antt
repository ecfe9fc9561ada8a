-- ===== src/Cipher/Fractionated/Read.antt =====
-- The loop of `cipher_fd` of hw1/src/hw1.c over the letters of a string of symbols.
use mathlib.Core.List.{append_assoc}
use cse320_projects.Common.{
  ℕ, ◌+◌, ◌≤◌, ◌<◌, ◌≡◌, refl, sym, ap, ◌∙◌, Bool, true, false, not, ◌&&◌, ◌||◌, Option, some, List,
  [], ◌∷◌, ◌++◌, arith, ◌==◌, get_or, length, length-append, passes, passes_at,
}
use cse320_projects.Cipher.MorseTables.{x_mark, fractionated_table}
use cse320_projects.Cipher.Polybius.{Output}
use cse320_projects.Cipher.Morse.{get_fm_key_index}
use cse320_projects.Cipher.Morse.Lookup.{gives, gives-some, get_frac_table_index_iff}
use cse320_projects.Cipher.Fractionated.{
  prefixed, lead, Drained, drained, drain_loop, decode_round, proceed, fd_loop,
}
use cse320_projects.Cipher.Fractionated.Buffer.{symbols, add_to_buffer-holding}
use cse320_projects.Cipher.Fractionated.Triples.{
  digit, triple, letters, triples_ok, get_frac_table_index-triple,
}
use cse320_projects.Cipher.Fractionated.Encrypt.{symbols-append}
use cse320_projects.Cipher.Fractionated.Line.{runs}
use cse320_projects.Cipher.Fractionated.Decode.{decode, marks, marks-append, length-decode}
use cse320_projects.Cipher.Fractionated.Drain.{gaps, gaps-prefix, gaps-length, at}
use cse320_projects.Cipher.Fractionated.Taken.{Ready, begins_code, fewer, Taken, drain_loop-Taken}

-- The letters of the key are found where they stand, and none is the end of a line.
unfoldable pub letters_found : List ℕ → Bool
letters_found fm_key =
    passes
      (λ i. gives (get_fm_key_index (get_or fm_key i 0) fm_key) i && not (get_or fm_key i 0 == 10))
      26

letter_found :
    (fm_key : List ℕ) (i : ℕ)
    → letters_found fm_key ≡ true
    → i < 26
    → (get_fm_key_index (get_or fm_key i 0) fm_key ≡ some i) × ((get_or fm_key i 0 == 10) ≡ false)
unfolding letters_found
letter_found fm_key i legal lt =
    let here = passes_at _ 26 legal i lt in
    (gives-some _ i (ground (arith, here)), ground (arith, here))

-- Three more symbols in the buffer.
rejoin : (k char1 : ℕ) (s m u o : List ℕ) → Ready k char1 s (m ++ u) o → Ready k char1 (s ++ m) u o
unfolding Ready
rejoin k char1 s m u o (clean, few, short, known, text) =
    let e = append_assoc s m u in
    (
      ap symbols e ∙ clean,
      ap (runs k) e ∙ few,
      ap (gaps 0) e ∙ short,
      known,
      ap (decode (char1 == x_mark) []) e ∙ text,
    )

-- One x at most, behind a code.
unfoldable pub few : List ℕ → Bool
few s = marks s == 0 || (marks s == 1 && begins_code s)

begins_code-append :
    (s m : List ℕ) → marks s ≡ 1 → begins_code s ≡ true → begins_code (s ++ m) ≡ true
unfolding begins_code marks
begins_code-append [] m one h = absurd (omega (arith, one))
begins_code-append (c ∷ s) m one h = h

few-fewer :
    (s m s' : List ℕ) → few s ≡ true → marks m ≤ 2 → fewer (s ++ m) s' ≡ true → few s' ≡ true
unfolding few fewer
few-fewer s m s' h small less =
    ground (arith, h, small, less, marks-append s m, begins_code-append s m)

marks-triple : (a b c : ℕ) → triple a b c < 26 → marks (a ∷ b ∷ c ∷ []) ≤ 2
unfolding marks triple digit
marks-triple a b c lt = ground (arith, lt)

marks-length : (s : List ℕ) → marks s ≤ length s
unfolding marks
marks-length [] = omega arith
marks-length (c ∷ s) = ground (arith, marks-length s)

few-marks : (s : List ℕ) → few s ≡ true → marks s ≤ 1
unfolding few
few-marks s h = ground (arith, h)

-- What the loop does to the letters of `t`.
unfoldable pub Read : List ℕ → List ℕ → List ℕ → ℕ → List ℕ → Type 0
Read fm_key t s char1 o =
    (out o' : List ℕ) × (fd_loop fm_key (letters fm_key t) (at s char1)
      ≡ some (record { text = out; success = true }))
    × (o ≡ out ++ o')
    × (length o' ≤ 3)

read_end :
    (k char1 : ℕ) (fm_key s t o : List ℕ)
    → length t ≤ 2
    → letters fm_key t ≡ []
    → few s ≡ true
    → Ready k char1 s t o
    → Read fm_key t s char1 o
unfolding Read Ready fd_loop
read_end k char1 fm_key s t o small no_letter h (clean, _, _, _, text) = (
  [],
  o,
  rw no_letter refl,
  refl,
  omega (
    arith,
    small,
    few-marks s h,
    marks-append s t,
    marks-length t,
    length-decode (char1 == x_mark) [] (s ++ t) o text,
  ),
)

row_of_letter :
    (a b c : ℕ)
    → symbols (a ∷ b ∷ c ∷ []) ≡ true
    → triple a b c < 26
    → get_or fractionated_table (triple a b c) [] ≡ a ∷ b ∷ c ∷ []
unfolding symbols
row_of_letter a b c clean lt = (get_frac_table_index_iff (triple a b c) (a ∷ b ∷ c ∷ []) lt).0 (
    get_frac_table_index-triple a b c (ground (arith, clean)) (ground (arith, clean))
      (ground (arith, clean)) lt)

-- A letter that is read is the loop on the buffer with its symbols.
fd_loop_letter :
    (fm_key input s : List ℕ) (char1 a b c : ℕ)
    → letters_found fm_key ≡ true
    → triple a b c < 26
    → symbols (a ∷ b ∷ c ∷ []) ≡ true
    → length s + 3 ≤ 257
    → fd_loop fm_key (get_or fm_key (triple a b c) 0 ∷ input) (at s char1)
      ≡ proceed (drain_loop 257 (at (s ++ a ∷ b ∷ c ∷ []) char1)) (λ d. fd_loop fm_key input d)
unfolding fd_loop decode_round
fd_loop_letter fm_key input s char1 a b c legal lt clean fits =
    let (found, no_end) = letter_found fm_key (triple a b c) legal lt in
    rw
      (
        no_end,
        found,
        row_of_letter a b c clean lt,
        add_to_buffer-holding s (a ∷ b ∷ c ∷ []) (omega (arith, fits)),
      )
      refl

read_on :
    (fm_key t s s' out out' : List ℕ) (char1 char1' : ℕ) (r : Option Output) (d : Drained)
    → r ≡ proceed d (λ d. fd_loop fm_key (letters fm_key t) d)
    → d ≡ drained out (at s' char1')
    → fd_loop fm_key (letters fm_key t) (at s' char1')
      ≡ some (record { text = out'; success = true })
    → r ≡ some (record { text = out ++ out'; success = true })
unfolding proceed lead prefixed
read_on fm_key t s s' out out' char1 char1' r d e now later = e ∙ rw (now, later) refl

Ready-symbols :
    (k char1 : ℕ) (s m u o : List ℕ)
    → Ready k char1 (s ++ m) u o
    → (symbols m ≡ true) × (gaps 0 (s ++ m) ≡ true)
unfolding Ready
Ready-symbols k char1 s m u o (clean, _, short, _, _) =
    let both = sym (symbols-append (s ++ m) u) ∙ clean in
    let these : symbols (s ++ m) ≡ true = ground (arith, both) in
    let parts = sym (symbols-append s m) ∙ these in
    (ground (arith, parts), gaps-prefix 0 (s ++ m) u short)

triples_head :
    (a b c : ℕ) (t : List ℕ)
    → triples_ok (a ∷ b ∷ c ∷ t) ≡ true
    → (triple a b c < 26) × (triples_ok t ≡ true)
unfolding triples_ok
triples_head a b c t ok = (ground (arith, ok), ground (arith, ok))

-- Three symbols more, by the reading of the letters behind them.
read_triple :
    (k char1 : ℕ) (fm_key s t o : List ℕ) (a b c : ℕ)
    → letters_found fm_key ≡ true
    → triples_ok (a ∷ b ∷ c ∷ t) ≡ true
    → few s ≡ true
    → Ready k char1 s (a ∷ b ∷ c ∷ t) o
    → ((k' char1' : ℕ) (s' o' : List ℕ)
        → few s' ≡ true
        → Ready k' char1' s' t o'
        → Read fm_key t s' char1' o')
    → Read fm_key (a ∷ b ∷ c ∷ t) s char1 o
unfolding Read letters Taken
read_triple k char1 fm_key s t o a b c legal ok h ready behind =
    let m = a ∷ b ∷ c ∷ [] in
    let (lt, _) = triples_head a b c t ok in
    let ready' = rejoin k char1 s m t o ready in
    let (clean, short) = Ready-symbols k char1 s m t o ready' in
    let small = marks-triple a b c lt in
    let size : length (s ++ m) ≤ 27 =
      omega (
        arith,
        gaps-length 0 (s ++ m) (omega arith) short,
        marks-append s m,
        few-marks s h,
        small,
      ) in
    let (taken, s', o', k', char1', run, next_ready, is, _, less) =
      drain_loop-Taken 257 k char1 (s ++ m) t o (omega (arith, size)) (omega (arith, size))
        ready' in
    let (out, missing, read, rest, bound) =
      behind k' char1' s' o' (few-fewer s m s' h small less) next_ready in
    let first =
      fd_loop_letter fm_key (letters fm_key t) s char1 a b c legal lt clean
        (omega (arith, size, length-append s m)) in
    (
      taken ++ out,
      missing,
      read_on fm_key t s s' taken out char1 char1' _ _ first run read,
      is ∙ ap (λ z. taken ++ z) rest ∙ sym (append_assoc taken out missing),
      bound,
    )

pub read_letters :
    (k char1 : ℕ) (fm_key s t o : List ℕ)
    → letters_found fm_key ≡ true
    → triples_ok t ≡ true
    → few s ≡ true
    → Ready k char1 s t o
    → Read fm_key t s char1 o
read_letters k char1 fm_key s [] o legal ok h ready =
    read_end k char1 fm_key s [] o (omega arith) (unfold letters in refl) h ready
read_letters k char1 fm_key s (a ∷ []) o legal ok h ready =
    read_end k char1 fm_key s (a ∷ []) o (omega arith) (unfold letters in refl) h ready
read_letters k char1 fm_key s (a ∷ b ∷ []) o legal ok h ready =
    read_end k char1 fm_key s (a ∷ b ∷ []) o (omega arith) (unfold letters in refl) h ready
read_letters k char1 fm_key s (a ∷ b ∷ c ∷ t) o legal ok h ready =
    read_triple k char1 fm_key s t o a b c legal ok h ready (λ k' char1' s' o' h' ready'.
      read_letters k' char1' fm_key s' t o' legal (triples_head a b c t ok).1 h' ready')
