-- ===== src/Acme/ArvanCloud/Staleness.antt =====
-- Which records are stale.
use mathlib.Core.Path.{subst}
use edged.Base.{
  ℕ, ◌≢◌, inl, inr, if-false, Bool-cases, ==_iff, false, ◌≡◌, refl, sym, ◌∙◌, ap, ◌⊎◌, ◌↔◌, true,
  ◌==◌, [], ◌∷◌, Bytes, codes, equal_iff, on_branches, arith,
}
use mathlib.Core.Bool.{false≢true}
use edged.Acme.ArvanCloud.{ArvancloudRecord, without_underscores, is_stale}

-- A name and what is left of it without its underscores.
pub data Strips : Bytes → Bytes → Type 0 where
  at_end : Strips [] []
  dropping : {s t : Bytes} → Strips s t → Strips (b'_' ∷ s) t
  holding : {c : ℕ} {s t : Bytes} → c ≢ b'_' → Strips s t → Strips (c ∷ s) (c ∷ t)

without_underscores-Strips : (s : Bytes) → Strips s (without_underscores s)
unfolding without_underscores
without_underscores-Strips [] = at_end
without_underscores-Strips (c ∷ s) =
    on_branches (Strips (c ∷ s)) (c == b'_') _ _
      (λ e.
        subst (λ d. Strips (d ∷ s) (without_underscores s)) (sym ((==_iff c b'_').0 e))
          (dropping (without_underscores-Strips s)))
      (λ e.
        holding (λ same. false≢true (sym e ∙ (==_iff c b'_').1 same))
          (without_underscores-Strips s))

Strips-eq : {s t : Bytes} → Strips s t → t ≡ without_underscores s
unfolding without_underscores
Strips-eq at_end = refl
Strips-eq (dropping r) = Strips-eq r
Strips-eq (holding {c = c} {s = s} n r) =
    ap (λ u. c ∷ u) (Strips-eq r) ∙ sym (if-false _ _ (other (Bool-cases (c == b'_'))))
  where
    other : ((c == b'_') ≡ true) ⊎ ((c == b'_') ≡ false) → (c == b'_') ≡ false
    other (inl e) = absurd (n ((==_iff c b'_').0 e))
    other (inr e) = e

-- A TXT record of the name, or of the name without its underscores.
abbrev pub Stale : Bytes → ArvancloudRecord → Type 0
Stale name rec = (rec.kind ≡ codes "txt") × ((rec.name ≡ name) ⊎ Strips name rec.name)

without_underscores_iff : (name t : Bytes) → (t ≡ without_underscores name) ↔ Strips name t
without_underscores_iff name t =
    (λ e. subst (Strips name) (sym e) (without_underscores-Strips name), λ r. Strips-eq r)

pub is_stale_iff :
    (name : Bytes) (rec : ArvancloudRecord) → (is_stale name rec ≡ true) ↔ Stale name rec
unfolding is_stale
is_stale_iff name rec = ground (
  arith,
  equal_iff rec.kind (codes "txt"),
  equal_iff rec.name name,
  equal_iff rec.name (without_underscores name),
  without_underscores_iff name rec.name,
)
