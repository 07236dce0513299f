-- ===== src/Base/Text.antt =====
-- The functions of package strings that the program calls, on ASCII text.
use Prim.Native.Nat.{ℕ, ◌+◌, ◌-◌}
use mathlib.Core.Path.{◌≡◌, refl, sym, ◌∙◌, ap, ap₂}
use mathlib.Core.Logic.{◌↔◌}
use mathlib.Core.Bool.{Bool, true, false, ◌&&◌, ◌||◌, false≢true}
use mathlib.Core.Option.{Option, none, some}
use mathlib.Core.List.{[], ◌∷◌, ◌++◌, map, reverse}
use native.Mathlib.Omega.{arith}
use edged.Base.Tests.{leb, ◌==◌, if◌then◌else◌, le→leb, and_true, ==_iff}
use edged.Base.Lists.{length, drop, length-append, drop-append, take, take-append-drop}
use edged.Base.Buffers.{Bytes, equal, equal_iff}

unfoldable pub lower : ℕ → ℕ
lower c = if leb 65 c && leb c 90 then c + 32 else c

-- `strings.ToLower`
abbrev pub to_lower : Bytes → Bytes
to_lower = map lower

unfoldable pub is_space : ℕ → Bool
is_space c = (leb 9 c && leb c 13) || c == 32

unfoldable pub trim_left : Bytes → Bytes
trim_left [] = []
trim_left (c ∷ s) = if is_space c then trim_left s else c ∷ s

-- `strings.TrimSpace`
unfoldable pub trim_space : Bytes → Bytes
unfolding trim_left is_space
trim_space s = reverse (trim_left (reverse (trim_left s)))

-- `strings.ToLower(strings.TrimSpace(s))`
unfoldable pub normalize : Bytes → Bytes
unfolding trim_space lower
normalize s = to_lower (trim_space s)

-- `strings.CutPrefix`, with `none` for a prefix that is not there
unfoldable pub cut_prefix : Bytes → Bytes → Option Bytes
cut_prefix s [] = some s
cut_prefix [] (p ∷ ps) = none
cut_prefix (c ∷ s) (p ∷ ps) = if c == p then cut_prefix s ps else none

-- `strings.HasPrefix`
unfoldable pub has_prefix : Bytes → Bytes → Bool
has_prefix s [] = true
has_prefix [] (p ∷ ps) = false
has_prefix (c ∷ s) (p ∷ ps) = c == p && has_prefix s ps

-- `strings.HasSuffix`
unfoldable pub has_suffix : Bytes → Bytes → Bool
has_suffix s suffix =
    leb (length suffix) (length s) && equal (drop (length s - length suffix) s) suffix

-- What stands in front of the first `b`, if there is one: `s[:strings.IndexByte(s, b)]`.
unfoldable pub before_byte : ℕ → Bytes → Option Bytes
before_byte b [] = none
before_byte b (c ∷ s) =
    if c == b then some [] else elim (before_byte b s) [ some t ↦ some (c ∷ t) | none ↦ none ]

pub has_prefix-nil : (s : Bytes) → has_prefix s [] ≡ true
unfolding has_prefix
has_prefix-nil [] = refl
has_prefix-nil (c ∷ s) = refl

has_prefix-split : (s p : Bytes) → has_prefix s p ≡ true → (rest : Bytes) × (s ≡ p ++ rest)
unfolding has_prefix
has_prefix-split s [] h = (s, refl)
has_prefix-split [] (p ∷ ps) h = absurd (false≢true h)
has_prefix-split (c ∷ s) (p ∷ ps) h =
    let (head, behind) = and_true (c == p) (has_prefix s ps) h in
    let (rest, e) = has_prefix-split s ps behind in (rest, ap₂ ◌∷◌ ((==_iff c p).0 head) e)

has_prefix-append : (p rest : Bytes) → has_prefix (p ++ rest) p ≡ true
unfolding has_prefix
has_prefix-append [] [] = refl
has_prefix-append [] (c ∷ rest) = refl
has_prefix-append (c ∷ p) rest = ground (arith, has_prefix-append p rest)

pub has_prefix_iff : (s p : Bytes) → (has_prefix s p ≡ true) ↔ ((rest : Bytes) × (s ≡ p ++ rest))
has_prefix_iff s p = (has_prefix-split s p, λ (rest, e). rw e (has_prefix-append p rest))

pub has_suffix_iff :
    (s p : Bytes) → (has_suffix s p ≡ true) ↔ ((before : Bytes) × (s ≡ before ++ p))
unfolding has_suffix
has_suffix_iff s p = (split, λ (before, e). rw e (joined before))
  where
    split : has_suffix s p ≡ true → (before : Bytes) × (s ≡ before ++ p)
    split h =
        let (_, same) = and_true (leb (length p) (length s)) _ h in
        let at_end = (equal_iff (drop (length s - length p) s) p).0 same in
        (
          take (length s - length p) s,
          sym (take-append-drop (length s - length p) s)
              ∙ ap (λ t. take (length s - length p) s ++ t) at_end,
        )

    joined : (before : Bytes) → has_suffix (before ++ p) p ≡ true
    joined before =
        let fits : leb (length p) (length (before ++ p)) ≡ true =
          le→leb _ _ (omega (arith, length-append before p)) in
        let cut : length (before ++ p) - length p ≡ length before =
          omega (arith, length-append before p) in
        let same : equal (drop (length (before ++ p) - length p) (before ++ p)) p ≡ true =
          (equal_iff _ _).1 (ap (λ n. drop n (before ++ p)) cut ∙ drop-append before p) in
        rw (fits, same) refl
