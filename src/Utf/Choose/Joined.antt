-- ===== src/Utf/Choose/Joined.antt =====
-- `join_string_array` of hw2/src/args.c, with what `memecpy` of hw2/src/wrappers.c does to the stack.
use cse320_projects.Common.{ℕ, ◌+◌, List, [], ◌∷◌, ◌++◌, replicate, length, ltb, if◌then◌else◌}
use cse320_projects.Utf.{store}

-- The strings, each with a space behind it.
unfoldable pub joined : List (List ℕ) → List ℕ
joined [] = []
joined (s ∷ array) = s ++ 32 ∷ joined array

abbrev zeros : ℕ → List ℕ
zeros n = replicate n 0

-- What the loop does to `ret`, and to the stack.
unfoldable ret_loop : List (List ℕ) → ℕ → List ℕ → List ℕ
ret_loop [] len ret = ret
ret_loop (s ∷ array) len ret =
    ret_loop array (len + length s + 1) (store (32 ∷ []) (len + length s) (store s len ret))

unfoldable stack_loop : List (List ℕ) → List ℕ → List ℕ
stack_loop [] stack = stack
stack_loop (s ∷ array) stack = stack_loop array (store (32 ∷ []) 0 (store s 0 stack))

-- The length of the longest string or space.
unfoldable pub longest : List (List ℕ) → ℕ
longest [] = 0
longest (s ∷ array) =
    let rest = longest array in
    if ltb rest (length s)
    then (if ltb (length s) 1 then 1 else length s)
    else if ltb rest 1
    then 1
    else rest
