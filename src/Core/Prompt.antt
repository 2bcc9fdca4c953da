-- ===== src/Core/Prompt.antt =====
-- core/request.py: the prompt text and its token estimate. Python's `split()` cuts at runs of
-- white space.
use llm_serving_runtime.Base.{
  ℕ, suc, ◌+◌, ◌≤◌, max, ◌≡◌, Bool, false, not, ◌&&◌, ◌||◌, List, [], ◌∷◌, ◌++◌, map, arith, leb,
  ◌==◌, if◌then◌else◌, length,
}
use llm_serving_runtime.Core.Request.{
  codes, Role, role_name, ChatMessage, RuntimeRequest, system, user, assistant, tool,
}

-- The code points that `str.isspace` holds of.
unfoldable pub is_space : ℕ → Bool
is_space c =
    (leb 9 c && leb c 13)
    || (leb 28 c && leb c 32)
    || (c == 133)
    || (c == 160)
    || (c == 5760)
    || (leb 8192 c && leb c 8202)
    || (c == 8232)
    || (c == 8233)
    || (c == 8239)
    || (c == 8287)
    || (c == 12288)

-- `len(text.split())`: the words of the rest of a text; `inside` tells whether a word is open, which
-- is counted where it begins.
unfoldable pub count_words : Bool → List ℕ → ℕ
unfolding is_space
count_words inside [] = 0
count_words inside (c ∷ text) =
    let rest = count_words (not (is_space c)) text in
    if is_space c || inside then rest else suc rest

unfoldable pub line : ChatMessage → List ℕ
line m = codes (role_name m.role) ++ (codes ": " ++ m.content)

-- `"\n".join(...)`.
unfoldable pub join_lines : List (List ℕ) → List ℕ
join_lines [] = []
join_lines (l ∷ []) = l
join_lines (l ∷ m ∷ ls) = l ++ (codes "\n" ++ join_lines (m ∷ ls))

unfoldable pub prompt : RuntimeRequest → List ℕ
prompt r = join_lines (map line r.messages)

unfoldable pub prompt_token_estimate : RuntimeRequest → ℕ
unfolding prompt
prompt_token_estimate r = max 1 (count_words false (prompt r))

-- After a newline a word is never open.
count_words-append_newline :
    (inside : Bool) (xs ys : List ℕ)
    → count_words inside (xs ++ (codes "\n" ++ ys)) ≡ count_words inside xs + count_words false ys
unfolding count_words
count_words-append_newline inside [] ys = ground arith
count_words-append_newline inside (c ∷ xs) ys =
    ground (arith, count_words-append_newline (not (is_space c)) xs ys)

line_pos : (m : ChatMessage) → 1 ≤ count_words false (line m)
unfolding line count_words
line_pos m = role_pos m.role m.content
  where
    role_pos :
        (r : Role) (content : List ℕ)
        → 1 ≤ count_words false (codes (role_name r) ++ (codes ": " ++ content))
    role_pos system content = omega arith
    role_pos user content = omega arith
    role_pos assistant content = omega arith
    role_pos tool content = omega arith

-- The estimate counts each message, whatever it says, and is never 0.
pub prompt_token_estimate-messages :
    (r : RuntimeRequest) → max 1 (length r.messages) ≤ prompt_token_estimate r
unfolding prompt_token_estimate join_lines
prompt_token_estimate-messages r = omega (arith, lines r.messages)
  where
    lines : (ms : List ChatMessage) → length ms ≤ count_words false (join_lines (map line ms))
    lines [] = omega arith
    lines (m ∷ []) = line_pos m
    lines (m ∷ n ∷ ms) = omega (
      arith,
      lines (n ∷ ms),
      line_pos m,
      count_words-append_newline false (line m) (join_lines (map line (n ∷ ms))),
    )
