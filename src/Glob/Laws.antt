-- ===== src/Glob/Laws.antt =====
-- Patterns without special bytes match themselves alone.
use Prim.Native.String.{String}
use edged.Base.{
  ℕ, Bool, true, false, ◌||◌, Option, none, some, List, [], ◌∷◌, ◌==◌, if◌then◌else◌, is_empty,
  length, Bytes, ◌≡◌, refl, map, arith, ◌↔◌, inl, inr, ap, is_empty-eq, Option-cases, All, codes,
}
use mathlib.Core.Option.{some-injective}
use mathlib.Core.Bool.{false≢true}
use edged.Glob.Defs.{
  Item, literal, backslash, read_items, path_match, group, chunks_of, match_chunks, match_chunk,
  accepts, first_chunk, Chunk,
}

abbrev try_it : String → String → Option Bool
try_it p s = path_match (codes p) (codes s)

runs :
    (try_it "*.example.org" "a.b.example.org" ≡ some true)
    × (try_it "web-?.example.org" "web-12.example.org" ≡ some false)
    × (try_it "server[0-9].example.org" "server7.example.org" ≡ some true)
    × (try_it "server[^0-9]x*" "serveraxyz" ≡ some true)
    × (try_it "[bad" "example.org" ≡ none)
    × (try_it "x\\" "" ≡ none)
    × (try_it "a\\*b" "a*b" ≡ some true)
    × (try_it "*" "anything.example.com" ≡ some true)
    × (try_it "[]a]" "a" ≡ none)
    × (try_it "a*b*c" "aXbYbZc" ≡ some true)
unfolding path_match
runs = (refl, refl, refl, refl, refl, refl, refl, refl, refl, refl)

-- A byte that a pattern takes as it is.
abbrev pub Plain : ℕ → Type 0
Plain c =
    ((c == b'*') ≡ false)
    × ((c == b'?') ≡ false)
    × ((c == backslash) ≡ false)
    × ((c == b'[') ≡ false)

abbrev pub IsPlain : Bytes → Type 0
IsPlain = All Plain

read_items-IsPlain : (p : Bytes) → IsPlain p → read_items (length p) p ≡ some (map literal p)
unfolding read_items
read_items-IsPlain [] h = refl
read_items-IsPlain (c ∷ p) h = rw (h.0.0, h.0.1, h.0.2, h.0.3, read_items-IsPlain p h.1) refl

group-literal : (p : Bytes) → group (map literal p) ≡ (map literal p, [])
unfolding group
group-literal [] = refl
group-literal (c ∷ p) = rw (group-literal p) refl

-- Literals in front of a name are taken off it.
literals_prefix : (p s : Bytes) → match_chunk (map literal p) s ≡ some [] → s ≡ p
unfolding match_chunk accepts
literals_prefix [] s h = ground arith
literals_prefix (c ∷ p) [] h = cc
literals_prefix (c ∷ p) (d ∷ s) h = ground (arith, literals_prefix p s)

literals_self : (p : Bytes) → match_chunk (map literal p) p ≡ some []
unfolding match_chunk accepts
literals_self [] = refl
literals_self (c ∷ p) = ground (arith, literals_self p)

-- One chunk with no star in front has to take the whole name.
one_chunk_sound :
    (chunk : List Item) (s : Bytes)
    → match_chunks ((false, chunk) ∷ []) s ≡ true
    → match_chunk chunk s ≡ some []
unfolding match_chunks
one_chunk_sound chunk s h = elim (Option-cases (match_chunk chunk s)) [
  | inl miss ↦ absurd (false≢true (rw miss at h))
  | inr (t, hit) ↦ rw hit (ap some (all_taken t (rw hit at h)))
]
  where
    all_taken : (t : Bytes) → (if is_empty t || false then is_empty t else false) ≡ true → t ≡ []
    all_taken [] e = refl
    all_taken (c ∷ t) e = absurd (false≢true e)

one_chunk_complete :
    (chunk : List Item) (s : Bytes)
    → match_chunk chunk s ≡ some []
    → match_chunks ((false, chunk) ∷ []) s ≡ true
unfolding match_chunks
one_chunk_complete chunk s h = rw h refl

chunks_of-literal :
    (c : ℕ) (p : Bytes) → chunks_of (map literal (c ∷ p)) ≡ (false, map literal (c ∷ p)) ∷ []
unfolding chunks_of
chunks_of-literal c p =
    ap (λ (g : List Item × List Chunk). first_chunk g.0 g.1) (group-literal (c ∷ p))

literals_iff : (p s : Bytes) → (match_chunks (chunks_of (map literal p)) s ≡ true) ↔ (s ≡ p)
literals_iff [] s = unfold chunks_of match_chunks group in (λ h. is_empty-eq s h, λ e. rw e refl)
literals_iff (c ∷ p) s = rw (chunks_of-literal c p) (
  λ h. literals_prefix (c ∷ p) s (one_chunk_sound (map literal (c ∷ p)) s h),
  λ e. rw e (one_chunk_complete (map literal (c ∷ p)) (c ∷ p) (literals_self (c ∷ p))),
)

path_match-read :
    (p s : Bytes) (items : List Item)
    → read_items (length p) p ≡ some items
    → path_match p s ≡ some (match_chunks (chunks_of items) s)
unfolding path_match
path_match-read p s items e = ap (read_as s) e
  where
    read_as : Bytes → Option (List Item) → Option Bool
    read_as name o = elim o [
      | none ↦ none
      | some found ↦ some (match_chunks (chunks_of found) name)
    ]

-- A pattern without special bytes is well formed and matches itself alone.
pub path_match-IsPlain : (p s : Bytes) → IsPlain p → (path_match p s ≡ some true) ↔ (s ≡ p)
path_match-IsPlain p s h = rw (path_match-read p s (map literal p) (read_items-IsPlain p h)) (
  λ e. (literals_iff p s).0 (some-injective (match_chunks (chunks_of (map literal p)) s) true e),
  λ e. ap some ((literals_iff p s).1 e),
)
