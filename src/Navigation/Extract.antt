-- ===== src/Navigation/Extract.antt =====
-- internal/navigation/helpers.go: `ExtractFirstParagraph`, `ExtractFirstHeading`, `HumanizeFolder`
-- and `CountWords`.
use red_engine.Prelude.{
  ℕ, zero, suc, ◌+◌, ◌-◌, ◌&&◌, Option, none, some, List, [], ◌∷◌, ◌++◌, map, ltb, leb, eqb,
  if◌then◌else◌, length, take, drop,
}
use red_engine.Text.{Text, text, ◌==◌, has_prefix, trim_prefix, split, join, trim_space, fields}

-- strings.Index
unfoldable pub index : Text → Text → Option ℕ
unfolding has_prefix
index p [] = if has_prefix [] p then some 0 else none
index p (c ∷ s) =
    let later = index p s in
    if has_prefix (c ∷ s) p then some 0 else elim later [ none ↦ none | some i ↦ some (suc i) ]

-- What `\[.*?\]\(.*?\)` matches of a text that begins with a bracket, in bytes: up to the first
-- "](" behind it, and from there up to the first ")".
unfoldable pub link_len : Text → Option ℕ
unfolding index
link_len s = elim (index (text "](") s) [
  | none ↦ none
  | some i ↦ elim (index (text ")") (drop (i + 2) s)) [
    | none ↦ none
    | some j ↦ some (i + 2 + j + 1)
  ]
]

-- The bytes that `markdownRe` matches at the start of a text, 0 where it does not.
unfoldable pub match_len : Text → ℕ
unfolding link_len has_prefix
match_len [] = 0
match_len (c ∷ s) =
    if eqb c b'*'
    then (if has_prefix s (text "*") then 2 else 1)
    else if eqb c b'_'
    then (if has_prefix s (text "_") then 2 else 0)
    else if eqb c b'['
    then elim (link_len s) [ none ↦ 0 | some n ↦ suc n ]
    else if eqb c b'`'
    then 1
    else 0

-- markdownRe.ReplaceAllString(s, "") of a text with no line break; the number counts bytes of a
-- match that are dropped already.
unfoldable pub strip_markdown : ℕ → Text → Text
unfolding match_len
strip_markdown skip [] = []
strip_markdown (suc skip) (c ∷ s) = strip_markdown skip s
strip_markdown zero (c ∷ s) = elim (match_len (c ∷ s)) [
  | zero ↦ c ∷ strip_markdown 0 s
  | suc skip ↦ strip_markdown skip s
]

-- The loop over the lines: `buf` when it ends.
unfoldable pub paragraph_lines : List Text → List Text → List Text
unfolding has_prefix trim_space ◌==◌
paragraph_lines buf [] = buf
paragraph_lines buf (line ∷ lines) =
    let t = trim_space line in
    let skipped = paragraph_lines buf lines in
    let grown = paragraph_lines (buf ++ t ∷ []) lines in
    if has_prefix t (text "#")
    then skipped
    else if t == []
    then (if ltb 0 (length buf) then buf else skipped)
    else grown

unfoldable pub cap_text : Text → Text
cap_text s = if ltb 300 (length s) then take 300 s ++ text "..." else s

unfoldable pub extract_first_paragraph : Text → Text
unfolding cap_text strip_markdown paragraph_lines split join
extract_first_paragraph content =
    cap_text (strip_markdown 0 (join (text " ") (paragraph_lines [] (split b'\n' content))))

unfoldable pub heading_in : List Text → Text
unfolding has_prefix trim_prefix trim_space
heading_in [] = []
heading_in (line ∷ lines) =
    let t = trim_space line in
    let rest = heading_in lines in
    if has_prefix t (text "# ") then trim_prefix t (text "# ") else rest

unfoldable pub extract_first_heading : Text → Text
unfolding heading_in split
extract_first_heading content = heading_in (split b'\n' content)

-- strings.ToUpper of one byte: a byte that is no rune of its own becomes U+FFFD.
abbrev pub upper_byte : ℕ → Text
upper_byte c =
    if leb b'a' c && leb c b'z'
    then (c - 32) ∷ []
    else if leb 0x80 c
    then 0xef ∷ 0xbf ∷ 0xbd ∷ []
    else c ∷ []

abbrev pub upper_first : Text → Text
upper_first [] = []
upper_first (c ∷ w) = upper_byte c ++ w

unfoldable pub humanize_folder : Text → Text
unfolding split join
humanize_folder name = join (text " ") (map upper_first (split b'-' name))

unfoldable pub count_words : Text → ℕ
count_words content = length (fields content)
