-- ===== src/Cipher/Fractionated.antt =====
-- `cipher_fe` and `cipher_fd` of hw1/src/hw1.c, with the buffer of Morse symbols that they keep in
-- `polybius_table`.
--
-- The buffer is the array of 257 bytes, and the string in it ends at the first '\0'; an index past
-- the array reads 0 and writes nothing, which no run of `cipher_fe` does. `behind` gives the string
-- at an index past the Morse table. `fm_buff` and `morse_c_buff` are the strings put into them: they
-- are empty again after each use. The input is a list of bytes, up to EOF. A `while` loop takes a
-- symbol from the buffer in each round, so that 257 rounds are enough.
pub mod Buffer
pub mod Triples
pub mod Encrypt
pub mod Line
pub mod Refused
pub mod Decode
pub mod Drain
pub mod Taken
pub mod Read
pub mod Trip
use cse320_projects.Common.{
  ℕ, zero, suc, ◌+◌, ◌-◌, ◌%◌, ◌^◌, Bool, true, false, not, ◌&&◌, ◌||◌, Option, none, some, List,
  [], ◌∷◌, ◌++◌, ltb, leb, ◌==◌, if◌then◌else◌, get_or, set, length, replicate,
}
use cse320_projects.Cipher.Strings.{buffer_size, is_char_in_alphabet}
use cse320_projects.Cipher.MorseTables.{x_mark, morse_table, fractionated_table}
use cse320_projects.Cipher.Polybius.{Output, emit, is_blank, clear_rest}
use cse320_projects.Cipher.Morse.{
  get_morse_table_index, get_frac_table_index, get_fm_key_index, get_index_in_morse_table,
  does_contain_x, construct_key, initial_key,
}

-- The string in an array.
unfoldable pub string_in : List ℕ → List ℕ
string_in [] = []
string_in (c ∷ buffer) = let rest = string_in buffer in if c == 0 then [] else c ∷ rest

abbrev pub empty_buffer : List ℕ
empty_buffer = replicate 257 0

-- A buffer and the index behind its last element.
pub record Filling : Type 0 where
  pub buffer : List ℕ
  pub buffer_index : ℕ

unfoldable pub add_symbols_loop : List ℕ → ℕ → List ℕ → List ℕ
add_symbols_loop [] i buffer = buffer
add_symbols_loop (c ∷ morsed) i buffer = add_symbols_loop morsed (i + 1) (set buffer i c)

unfoldable pub add_to_buffer : List ℕ → Filling → Filling
add_to_buffer morsed f = record {
  buffer = add_symbols_loop morsed f.buffer_index f.buffer;
  buffer_index = f.buffer_index + length morsed;
}

unfoldable pub shift_loop : ℕ → ℕ → ℕ → List ℕ → List ℕ
shift_loop zero i amount buffer = buffer
shift_loop (suc n) i amount buffer =
    shift_loop n (i + 1) amount (set buffer i (get_or buffer (i + amount) 0))

-- The two loops that the three `shift_buffer_back` share, and the size returned.
unfoldable pub shift_buffer_back : ℕ → List ℕ → Filling
shift_buffer_back amount buffer =
    let moved = shift_loop (257 - amount) 0 amount buffer in
    let cleared = clear_rest (257 - (257 - amount)) (257 - amount) moved in
    record { buffer = cleared; buffer_index = buffer_size (string_in cleared) }

unfoldable pub shift_buffer_back3 : List ℕ → Filling
shift_buffer_back3 buffer = shift_buffer_back 3 buffer

unfoldable pub shift_buffer_back1 : List ℕ → Filling
shift_buffer_back1 buffer = shift_buffer_back 1 buffer

unfoldable pub shift_buffer_backi : List ℕ → ℕ → Filling
shift_buffer_backi buffer amount =
    if get_or buffer 0 0 == 0
    then record { buffer = buffer; buffer_index = 0 }
    else shift_buffer_back amount buffer

-- How a part of a round ends: with the buffer and what it wrote; with EXIT_FAILURE; out of fuel.
pub data Step : Type 0 where
  next : List ℕ → Filling → Step
  exit_failure : List ℕ → Step
  looping : Step

unfoldable pub wrote : List ℕ → Step → Step
wrote text (next more f) = next (text ++ more) f
wrote text (exit_failure more) = exit_failure (text ++ more)
wrote text looping = looping

-- The letter for the three symbols taken, and the rounds after it.
unfoldable pub frac_letter : List ℕ → Option ℕ → Step → Step
frac_letter fm_key none rest = exit_failure []
frac_letter fm_key (some fm_i) rest = wrote (get_or fm_key fm_i 0 ∷ []) rest

-- The loop that turns three symbols into a letter while there are three.
unfoldable pub flush_loop : ℕ → List ℕ → Filling → Step
flush_loop zero fm_key f = looping
flush_loop (suc n) fm_key f =
    let fm_buff =
      string_in (get_or f.buffer 0 0 ∷ get_or f.buffer 1 0 ∷ get_or f.buffer 2 0 ∷ 0 ∷ []) in
    let rest = flush_loop n fm_key (shift_buffer_back3 f.buffer) in
    if leb 3 (buffer_size (string_in f.buffer))
    then frac_letter fm_key (get_frac_table_index fm_buff) rest
    else next [] f

-- The loop that takes x from the beginning of the buffer.
unfoldable pub strip_loop : ℕ → Filling → Step
strip_loop zero f = looping
strip_loop (suc n) f =
    let rest = strip_loop n (shift_buffer_back1 f.buffer) in
    if get_or f.buffer 0 0 == x_mark then rest else next [] f

unfoldable pub after : Step → (Filling → Step) → Step
after (next text f) more = wrote text (more f)
after (exit_failure text) more = exit_failure text
after looping more = looping

-- The element of the Morse table at an index, and of what lies behind it.
unfoldable pub morsed_at : (ℕ → List ℕ) → ℕ → List ℕ
morsed_at behind i = if ltb i 90 then get_or morse_table i [] else behind (i - 90)

-- A round for a character that is no blank; an index from 2 ^ 31 on is negative.
unfoldable pub encode_round : (ℕ → List ℕ) → List ℕ → ℕ → Filling → Step
encode_round behind fm_key c f =
    let i = get_morse_table_index c in
    if leb (2 ^ 31) i
    then exit_failure []
    else if length (morsed_at behind i) == 0
    then exit_failure []
    else flush_loop 257 fm_key (add_to_buffer (x_mark ∷ []) (add_to_buffer (morsed_at behind i) f))

-- A round for a blank, whose first part is for a blank behind a letter of `fm_key`.
unfoldable pub blank_round : List ℕ → ℕ → ℕ → Filling → Step
blank_round fm_key char1 c f =
    let marked = flush_loop 257 fm_key (add_to_buffer (x_mark ∷ []) f) in
    let first = if is_char_in_alphabet char1 (string_in fm_key) then marked else next [] f in
    if c == 10 then after first (λ f. wrote (10 ∷ []) (strip_loop 257 f)) else first

-- `char1` after a round.
unfoldable pub next_char1 : List ℕ → ℕ → ℕ → ℕ
next_char1 fm_key char1 c =
    if not (is_blank c)
    then c
    else if is_char_in_alphabet char1 (string_in fm_key)
    then c
    else if c == 10
    then c
    else char1

unfoldable pub prefixed : List ℕ → Output → Output
prefixed text out = record out { text = text ++ out.text }

-- What is written before the rest of a run; none is a run without a result, out of fuel.
unfoldable pub lead : List ℕ → Option Output → Option Output
lead text none = none
lead text (some out) = some (prefixed text out)

unfoldable pub resume : Step → (Filling → Option Output) → Option Output
resume (next text f) later = lead text (later f)
resume (exit_failure text) later = some (record { text = text; success = false })
resume looping later = none

unfoldable pub fe_loop : (ℕ → List ℕ) → List ℕ → List ℕ → ℕ → Filling → Option Output
fe_loop behind fm_key [] char1 f = some (record { text = []; success = true })
fe_loop behind fm_key (c ∷ input) char1 f =
    resume (if is_blank c then blank_round fm_key char1 c f else encode_round behind fm_key c f)
      (λ f. fe_loop behind fm_key input (next_char1 fm_key char1 c) f)

abbrev pub no_symbols : Filling
no_symbols = record { buffer = empty_buffer; buffer_index = 0 }

unfoldable pub cipher_fe : (ℕ → List ℕ) → Option (List ℕ) → List ℕ → Option Output
cipher_fe behind key input = fe_loop behind (construct_key key initial_key) input 0 no_symbols

-- What stands before the first x.
unfoldable pub before_x : List ℕ → List ℕ
before_x [] = []
before_x (c ∷ buffer) = let rest = before_x buffer in if c == x_mark then [] else c ∷ rest

-- The buffer, and `char1`.
pub record Decoding : Type 0 where
  pub filling : Filling
  pub char1 : ℕ

pub data Drained : Type 0 where
  drained : List ℕ → Decoding → Drained
  invalid : List ℕ → Drained
  draining : Drained

unfoldable pub shown : List ℕ → Drained → Drained
shown text (drained more d) = drained (text ++ more) d
shown text (invalid more) = invalid (text ++ more)
shown text draining = draining

-- The character of a code, and the rounds after it.
unfoldable pub ascii_letter : Option ℕ → Drained → Drained
ascii_letter none rest = invalid []
ascii_letter (some i) rest = shown ((33 + i) % 256 ∷ []) rest

-- The loop that takes codes from the buffer while there is an x in it; a second x in a row is a
-- space, behind which the loop is left.
unfoldable pub drain_loop : ℕ → Decoding → Drained
drain_loop zero d = draining
drain_loop (suc n) d =
    let buffer = d.filling.buffer in
    let code = before_x buffer in
    let cut = shift_buffer_backi buffer (buffer_size code) in
    let rest = drain_loop n (record { filling = shift_buffer_back1 cut.buffer; char1 = x_mark }) in
    if not (does_contain_x (string_in buffer))
    then drained [] d
    else if get_or buffer 0 0 == x_mark && get_or buffer 0 0 == d.char1
    then drained (32 ∷ []) (record d { filling = shift_buffer_back1 buffer })
    else if length code == 0
    then rest
    else ascii_letter (get_index_in_morse_table code) rest

-- The symbols of a letter; none is no letter of `fm_key`.
unfoldable pub decode_round : Option ℕ → Decoding → Drained
decode_round none d = invalid []
decode_round (some fm_i) d =
    drain_loop 257
      (record d { filling = add_to_buffer (get_or fractionated_table fm_i []) d.filling })

unfoldable pub proceed : Drained → (Decoding → Option Output) → Option Output
proceed (drained text d) later = lead text (later d)
proceed (invalid text) later = some (record { text = text; success = false })
proceed draining later = none

unfoldable pub fd_loop : List ℕ → List ℕ → Decoding → Option Output
fd_loop fm_key [] d = some (record { text = []; success = true })
fd_loop fm_key (c ∷ input) d =
    proceed (if c == 10 then drained (10 ∷ []) d else decode_round (get_fm_key_index c fm_key) d)
      (λ d. fd_loop fm_key input d)

unfoldable pub cipher_fd : Option (List ℕ) → List ℕ → Option Output
cipher_fd key input =
    fd_loop (construct_key key initial_key) input (record { filling = no_symbols; char1 = 0 })
