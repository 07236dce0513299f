-- ===== src/Glob/Defs.antt =====
-- The pattern's items, their reading and their matching.
use edged.Base.{
  ℕ, zero, suc, Bool, true, false, not, ◌&&◌, ◌||◌, Option, none, some, List, [], ◌∷◌, ◌==◌, leb,
  if◌then◌else◌, is_empty, length, Bytes,
}

pub data Item : Type 0 where
  star any_byte : Item
  literal : ℕ → Item
  class : Bool → List (ℕ × ℕ) → Item

abbrev pub backslash : ℕ
backslash = 92

abbrev ended : ℕ → Bytes → Option (ℕ × Bytes)
ended c [] = none
ended c (d ∷ rest) = some (c, d ∷ rest)

-- `getEsc`: one byte of a class, and what follows it, which is never empty.
get_esc : Bytes → Option (ℕ × Bytes)
get_esc [] = none
get_esc (c ∷ []) = none
get_esc (c ∷ d ∷ rest) =
    if c == b'-' || c == b']'
    then none
    else if c == backslash
    then ended d rest
    else some (c, d ∷ rest)

starts : ℕ → Bytes → Bool
starts b [] = false
starts b (c ∷ s) = c == b

head_of : Bytes → ℕ
head_of [] = 0
head_of (c ∷ s) = c

tail_of : Bytes → Bytes
tail_of [] = []
tail_of (c ∷ s) = s

-- The ranges of a class up to its bracket; `opened` is false until there is one.
read_ranges : ℕ → Bool → Bytes → Option (List (ℕ × ℕ) × Bytes)
read_ranges zero opened s = none
read_ranges (suc f) opened s =
    if starts b']' s && opened then some ([], tail_of s) else elim (get_esc s) [
      | none ↦ none
      | some (lo, rest) ↦
          elim (if starts b'-' rest then get_esc (tail_of rest) else some (lo, rest)) [
            | none ↦ none
            | some (hi, rest') ↦ elim (read_ranges f true rest') [
              | none ↦ none
              | some (spans, behind) ↦ some ((lo, hi) ∷ spans, behind)
            ]
          ]
    ]

abbrev push : Item → Option (List Item) → Option (List Item)
push i none = none
push i (some items) = some (i ∷ items)

-- The items of a pattern; `none` is `ErrBadPattern`. The fuel is the pattern's length.
unfoldable pub read_items : ℕ → Bytes → Option (List Item)
unfolding read_ranges get_esc starts head_of tail_of
read_items f [] = some []
read_items zero (c ∷ s) = none
read_items (suc f) (c ∷ s) =
    let rest = read_items f s in
    let escaped = push (literal (head_of s)) (read_items f (tail_of s)) in
    let negated = starts b'^' s in
    if c == b'*'
    then push star rest
    else if c == b'?'
    then push any_byte rest
    else if c == backslash
    then (if is_empty s then none else escaped)
    else if c == b'['
    then elim (read_ranges (suc f) false (if negated then tail_of s else s)) [
      | none ↦ none
      | some (spans, behind) ↦ push (class negated spans) (read_items f behind)
    ]
    else push (literal c) rest

in_spans : List (ℕ × ℕ) → ℕ → Bool
in_spans [] c = false
in_spans ((lo, hi) ∷ spans) c = (leb lo c && leb c hi) || in_spans spans c

unfoldable pub accepts : Item → ℕ → Bool
unfolding in_spans
accepts star c = false
accepts any_byte c = not (c == b'/')
accepts (literal b) c = b == c
accepts (class negated spans) c = if negated then not (in_spans spans c) else in_spans spans c

-- `matchChunk`: what is left of the name behind the chunk.
unfoldable pub match_chunk : List Item → Bytes → Option Bytes
match_chunk [] s = some s
match_chunk (i ∷ items) [] = none
match_chunk (i ∷ items) (c ∷ s) = if accepts i c then match_chunk items s else none

-- The place behind the first bytes of the name at which the chunk fits; the last chunk has to
-- reach the end. A star takes no slash.
unfoldable pub skip_to : List Item → Bool → Bytes → Option Bytes
skip_to chunk last [] = none
skip_to chunk last (c ∷ s) =
    let onward = skip_to chunk last s in
    if c == b'/' then none else elim (match_chunk chunk s) [
      | none ↦ onward
      | some t ↦ if last && not (is_empty t) then onward else some t
    ]

unfoldable pub lacks_slash : Bytes → Bool
lacks_slash [] = true
lacks_slash (c ∷ s) = not (c == b'/') && lacks_slash s

-- A chunk, and whether a star stands in front of it.
abbrev pub Chunk : Type 0
Chunk = Bool × List Item

-- A star in front of a chunk; of two stars one counts.
starred_chunk : List Item → List Chunk → List Chunk
starred_chunk [] [] = (true, []) ∷ []
starred_chunk [] (k ∷ chunks) = k ∷ chunks
starred_chunk (i ∷ chunk) chunks = (true, i ∷ chunk) ∷ chunks

-- The items up to the first star, and the chunks from there on.
unfoldable pub group : List Item → List Item × List Chunk
unfolding starred_chunk
group [] = ([], [])
group (star ∷ items) = let (chunk, chunks) = group items in ([], starred_chunk chunk chunks)
group (i ∷ items) = let (chunk, chunks) = group items in (i ∷ chunk, chunks)

unfoldable pub match_chunks : List Chunk → Bytes → Bool
match_chunks [] name = is_empty name
match_chunks ((starred, chunk) ∷ rest) name =
    let retry =
      if starred
      then elim (skip_to chunk (is_empty rest) name) [ none ↦ false | some t ↦ match_chunks rest t ]
      else false in
    if starred && is_empty chunk then lacks_slash name else elim (match_chunk chunk name) [
      | none ↦ retry
      | some t ↦ if is_empty t || not (is_empty rest) then match_chunks rest t else retry
    ]

unfoldable pub first_chunk : List Item → List Chunk → List Chunk
first_chunk [] chunks = chunks
first_chunk (i ∷ chunk) chunks = (false, i ∷ chunk) ∷ chunks

unfoldable pub chunks_of : List Item → List Chunk
unfolding group first_chunk
chunks_of items = let (chunk, chunks) = group items in first_chunk chunk chunks

-- `path.Match(pattern, name)`; `none` is `ErrBadPattern`.
unfoldable pub path_match : Bytes → Bytes → Option Bool
unfolding read_items chunks_of match_chunks match_chunk skip_to lacks_slash accepts
path_match pattern name = elim (read_items (length pattern) pattern) [
  | none ↦ none
  | some items ↦ some (match_chunks (chunks_of items) name)
]
