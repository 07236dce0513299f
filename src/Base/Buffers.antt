-- ===== src/Base/Buffers.antt =====
-- Byte strings, and the Go reads of them with their panics: `b[i]`, `b[lo:]`, `b[lo:hi]` and
-- `binary.BigEndian.Uint16(b[i:])`.
use Prim.Native.Nat.{ℕ, suc, zero, ◌+◌, ◌-◌, ◌*◌, ◌<◌, ◌≤◌}
use Prim.Native.Char.{code}
use Prim.Native.String.{String}
use mathlib.Core.Path.{◌≡◌, refl, ◌∙◌, ap}
use mathlib.Core.Logic.{◌↔◌}
use mathlib.Core.Bool.{Bool, true, false, ◌&&◌}
use mathlib.Core.List.{List, [], ◌∷◌, ◌++◌}
use native.Mathlib.Omega.{arith}
use edged.Base.Tests.{ltb, leb, ◌==◌, if◌then◌else◌, lt→ltb, le→leb}
use edged.Base.Lists.{length, get_or, take, drop, drop-append, take-append, length-append}
use edged.Base.Outcome.{Run, ok, panic}

abbrev pub Bytes : Type 0
Bytes = List ℕ

-- The code points of a text, which are its bytes where it is ASCII.
abbrev pub codes : String → Bytes
codes String.[] = []
codes (String.◌∷◌ c s) = code c ∷ codes s

-- `b[i]`
unfoldable pub index : Bytes → ℕ → Run ℕ
index b i = if ltb i (length b) then ok (get_or b i 0) else panic

-- `binary.BigEndian.Uint16(b[i:])`
unfoldable pub uint16_at : Bytes → ℕ → Run ℕ
uint16_at b i =
    if leb (i + 2) (length b) then ok (get_or b i 0 * 256 + get_or b (i + 1) 0) else panic

-- `b[lo:]`
unfoldable pub slice_from : Bytes → ℕ → Run Bytes
slice_from b lo = if leb lo (length b) then ok (drop lo b) else panic

-- `b[lo:hi]`, held to the length: Go allows a slice up to the capacity.
unfoldable pub slice : Bytes → ℕ → ℕ → Run Bytes
slice b lo hi = if leb lo hi && leb hi (length b) then ok (take (hi - lo) (drop lo b)) else panic

-- `a == b` on strings
unfoldable pub equal : Bytes → Bytes → Bool
equal [] [] = true
equal (x ∷ xs) (y ∷ ys) = x == y && equal xs ys
equal _ _ = false

pub equal_iff : (s t : Bytes) → (equal s t ≡ true) ↔ (s ≡ t)
unfolding equal
equal_iff (c ∷ s) (d ∷ t) = ground (equal_iff s t, arith)
equal_iff [] [] = ground arith
equal_iff [] (d ∷ t) = ground arith
equal_iff (c ∷ s) [] = ground arith

-- The buffer holds `rest`, and nothing behind it, from position `pos` on.
pub record At (b : Bytes) (pos : ℕ) (rest : Bytes) : Type 0 where
  pub from : drop pos b ≡ rest
  pub size : length b ≡ pos + length rest

get_or-drop : (b : Bytes) (pos i : ℕ) → get_or b (pos + i) 0 ≡ get_or (drop pos b) i 0
get_or-drop b zero i = ap (λ k. get_or b k 0) (omega arith)
get_or-drop [] (suc pos) i = refl
get_or-drop (x ∷ b) (suc pos) i = rw Prim.Native.Nat.add.suc (get_or-drop b pos i)

drop-add : (b : Bytes) (pos n : ℕ) → drop (pos + n) b ≡ drop n (drop pos b)
drop-add b zero n = ap (λ k. drop k b) (omega arith)
drop-add [] (suc pos) zero = rw Prim.Native.Nat.add.suc refl
drop-add [] (suc pos) (suc n) = rw Prim.Native.Nat.add.suc refl
drop-add (x ∷ b) (suc pos) n = rw Prim.Native.Nat.add.suc (drop-add b pos n)

module _ {b : Bytes} where
  pub At-index : (pos c : ℕ) (rest : Bytes) → At b pos (c ∷ rest) → index b pos ≡ ok c
  unfolding index
  At-index pos c rest a =
      let here : get_or b pos 0 ≡ c =
        ap (λ k. get_or b k 0) (omega arith) ∙ get_or-drop b pos 0 ∙ rw a.from refl in
      rw (lt→ltb pos (length b) (omega arith)) (ap ok here)

  pub At-uint16 :
      (pos hi lo : ℕ) (rest : Bytes)
      → At b pos (hi ∷ lo ∷ rest)
      → uint16_at b pos ≡ ok (hi * 256 + lo)
  unfolding uint16_at
  At-uint16 pos hi lo rest a =
      let first : get_or b pos 0 ≡ hi =
        ap (λ k. get_or b k 0) (omega arith) ∙ get_or-drop b pos 0 ∙ rw a.from refl in
      let second : get_or b (pos + 1) 0 ≡ lo = get_or-drop b pos 1 ∙ rw a.from refl in
      rw (le→leb (pos + 2) (length b) (omega arith), first, second) refl

  -- The position moves behind the bytes that were read.
  pub At-step :
      (pos : ℕ) (xs rest : Bytes) (next : ℕ)
      → At b pos (xs ++ rest)
      → next ≡ pos + length xs
      → At b next rest
  At-step pos xs rest next a e = record {
    from = rw (e, drop-add, a.from) (drop-append xs rest);
    size = omega (arith, a.size, length-append xs rest);
  }

  pub At-slice :
      (pos : ℕ) (xs rest : Bytes) (next : ℕ)
      → At b pos (xs ++ rest)
      → next ≡ pos + length xs
      → slice b pos next ≡ ok xs
  unfolding slice
  At-slice pos xs rest next a e =
      rw
        (
          le→leb pos next (omega arith),
          le→leb next (length b) (omega (arith, a.size, length-append xs rest)),
          a.from,
        )
        (ap ok (ap (λ k. take k (xs ++ rest)) (omega arith) ∙ take-append xs rest))

  pub At-slice_from : (pos : ℕ) (rest : Bytes) → At b pos rest → slice_from b pos ≡ ok rest
  unfolding slice_from
  At-slice_from pos rest a = rw (le→leb pos (length b) (omega arith), a.from) refl

pub At-start : (b : Bytes) → At b 0 b
At-start b = record { from = refl; size = omega arith }
