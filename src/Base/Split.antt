-- ===== src/Base/Split.antt =====
-- `strings.Split` and `strings.Join` with a separator of one byte, and the header map of net/http.
use Prim.Native.Nat.{ℕ}
use mathlib.Core.Path.{◌≡◌, refl, sym, ◌∙◌, ap, ap₂}
use mathlib.Core.Logic.{inl, inr}
use mathlib.Core.Bool.{false}
use mathlib.Core.List.{List, [], ◌∷◌, ◌++◌}
use native.Mathlib.Omega.{arith}
use edged.Base.Tests.{◌==◌, if◌then◌else◌, Bool-cases, ==_iff}
use edged.Base.Lists.{All}
use edged.Base.Buffers.{Bytes, equal, equal_iff}
use edged.Base.Text.{to_lower}

abbrev cons_head : ℕ → List Bytes → List Bytes
cons_head c [] = (c ∷ []) ∷ []
cons_head c (w ∷ ws) = (c ∷ w) ∷ ws

-- `strings.Split(s, sep)`
unfoldable pub split : ℕ → Bytes → List Bytes
split sep [] = [] ∷ []
split sep (c ∷ s) = let rest = split sep s in if c == sep then [] ∷ rest else cons_head c rest

-- `strings.Join(words, sep)`
unfoldable pub join : ℕ → List Bytes → Bytes
join sep [] = []
join sep (w ∷ []) = w
join sep (w ∷ v ∷ ws) = w ++ sep ∷ join sep (v ∷ ws)

abbrev pub Lacks : ℕ → Bytes → Type 0
Lacks sep = All (λ c. (c == sep) ≡ false)

pub split-Lacks : (sep : ℕ) (w : Bytes) → Lacks sep w → split sep w ≡ w ∷ []
unfolding split
split-Lacks sep [] h = refl
split-Lacks sep (c ∷ w) h = rw (h.0, split-Lacks sep w h.1) refl

pub split-append :
    (sep : ℕ) (w s : Bytes) → Lacks sep w → split sep (w ++ sep ∷ s) ≡ w ∷ split sep s
unfolding split
split-append sep [] s h = ground arith
split-append sep (c ∷ w) s h = rw (h.0, split-append sep w s h.1) refl

-- The words of a text, of which there is at least one, and which join to it.
pub record Words (sep : ℕ) (s : Bytes) : Type 0 where
  pub word : Bytes
  pub words : List Bytes
  pub splits : split sep s ≡ word ∷ words
  pub joins : join sep (word ∷ words) ≡ s

join-head :
    (sep c : ℕ) (w : Bytes) (ws : List Bytes) → join sep ((c ∷ w) ∷ ws) ≡ c ∷ join sep (w ∷ ws)
unfolding join
join-head sep c w [] = refl
join-head sep c w (v ∷ ws) = refl

pub split-Words : (sep : ℕ) (s : Bytes) → Words sep s
unfolding split join
split-Words sep [] = record { word = []; words = []; splits = refl; joins = refl }
split-Words sep (c ∷ s) =
    let r = split-Words sep s in
    elim (Bool-cases (c == sep)) [
      | inl is_sep ↦ record {
        word = [];
        words = r.word ∷ r.words;
        splits = rw (is_sep, r.splits) refl;
        joins = ap₂ ◌∷◌ (sym ((==_iff c sep).0 is_sep)) r.joins;
      }
      | inr other ↦ record {
        word = c ∷ r.word;
        words = r.words;
        splits = rw (other, r.splits) refl;
        joins = join-head sep c r.word r.words ∙ ap (◌∷◌ c) r.joins;
      }
    ]

-- A text lacks the separator or is cut at the first one.
pub data Cut (sep : ℕ) (s : Bytes) : Type 0 where
  uncut : Lacks sep s → Cut sep s
  cut : (label zone : Bytes) → s ≡ label ++ sep ∷ zone → Lacks sep label → Cut sep s

pub at_first : (sep : ℕ) (s : Bytes) → Cut sep s
at_first sep [] = uncut tt
at_first sep (c ∷ s) = elim (Bool-cases (c == sep)) [
  | inl is_sep ↦ cut [] s (ap (λ d. d ∷ s) ((==_iff c sep).0 is_sep)) tt
  | inr other ↦ elim (at_first sep s) [
    | uncut l ↦ uncut (other, l)
    | cut label zone e l ↦ cut (c ∷ label) zone (ap (◌∷◌ c) e) (other, l)
  ]
]

-- Words without the separator come back.
pub split-join :
    (sep : ℕ) (w : Bytes) (ws : List Bytes)
    → All (Lacks sep) (w ∷ ws)
    → split sep (join sep (w ∷ ws)) ≡ w ∷ ws
unfolding join
split-join sep w [] h = split-Lacks sep w h.0
split-join sep w (v ∷ ws) h =
    split-append sep w (join sep (v ∷ ws)) h.0 ∙ ap (◌∷◌ w) (split-join sep v ws h.1)

-- A header map as its entries; a key is held by its spelling in lower case, since net/http brings
-- every spelling of a key to one form.
abbrev pub Header : Type 0
Header = List (Bytes × Bytes)

-- `h.Get(key)`
unfoldable pub header_get : Header → Bytes → Bytes
header_get [] key = []
header_get ((k, v) ∷ h) key = if equal k (to_lower key) then v else header_get h key

unfoldable pub header_del : Header → Bytes → Header
header_del [] key = []
header_del ((k, v) ∷ h) key =
    if equal k (to_lower key) then header_del h key else (k, v) ∷ header_del h key

-- `h.Set(key, value)`
unfoldable pub header_set : Header → Bytes → Bytes → Header
unfolding header_del
header_set h key value = (to_lower key, value) ∷ header_del h key

header_get-del :
    (h : Header) (key other : Bytes)
    → equal (to_lower key) (to_lower other) ≡ false
    → header_get (header_del h key) other ≡ header_get h other
unfolding header_get header_del
header_get-del [] key other n = refl
header_get-del ((k, v) ∷ h) key other n = ground (
  arith,
  header_get-del h key other n,
  equal_iff k (to_lower key),
  equal_iff k (to_lower other),
  equal_iff (to_lower key) (to_lower other),
)

pub header_get-set :
    (h : Header) (key value other : Bytes)
    → header_get (header_set h key value) other
      ≡ (if equal (to_lower key) (to_lower other) then value else header_get h other)
unfolding header_get header_set
header_get-set h key value other = ground (arith, header_get-del h key other)
