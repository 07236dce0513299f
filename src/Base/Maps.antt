-- ===== src/Base/Maps.antt =====
-- Go maps with string keys, as association lists; the order of the list stands for one order of
-- iteration.
use mathlib.Core.Path.{◌≡◌, refl}
use mathlib.Core.Option.{Option, none, some}
use mathlib.Core.List.{List, [], ◌∷◌}
use native.Mathlib.Omega.{arith}
use edged.Base.Tests.{if◌then◌else◌}
use edged.Base.Buffers.{Bytes, equal, equal_iff}

abbrev pub Map {ℓ} : Type ℓ → Type ℓ
Map V = List (Bytes × V)

module _ {ℓ} {V : Type ℓ} where
  unfoldable pub lookup : Map V → Bytes → Option V
  lookup [] key = none
  lookup ((k, v) ∷ m) key = if equal k key then some v else lookup m key

  unfoldable pub insert : Map V → Bytes → V → Map V
  insert [] key v = (key, v) ∷ []
  insert ((k, w) ∷ m) key v = if equal k key then (k, v) ∷ m else (k, w) ∷ insert m key v

  pub lookup-insert :
      (m : Map V) (key : Bytes) (v : V) (other : Bytes)
      → lookup (insert m key v) other ≡ (if equal key other then some v else lookup m other)
  unfolding lookup insert
  lookup-insert [] key v other = refl
  lookup-insert ((k, w) ∷ m) key v other =
      ground (
        arith,
        lookup-insert m key v other,
        equal_iff k key,
        equal_iff k other,
        equal_iff key other,
      )
