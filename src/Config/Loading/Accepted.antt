-- ===== src/Config/Loading/Accepted.antt =====
-- Which configurations `Load` returns.
use edged.Base.{
  ℕ, suc, ◌∙◌, on_option, elim-some, elim-none, ◌≡◌, refl, sym, ap, ◌↔◌, Option, none, some, List,
  [], ◌∷◌, ◌++◌, ◌⊎◌, inl, inr, map, Bytes, All, arith,
}
use mathlib.Core.Path.{subst}
use edged.Config.Types.{ListenerConfig, Config}
use edged.Config.Defaults.{set_defaults}
use edged.Config.Validation.{listener_violations, config_violations}
use edged.Config.Validation.Listener.{no_violations, is_empty_iff}
use edged.Config.Loading.{
  LoadLib, LoadError, listener_errors, struct_errors, validate, parse, checked, completed, load,
  invalid, defaults_failed,
}

map-nil_iff : {A : Type 0} {B : Type 0} (f : A → B) (xs : List A) → (map f xs ≡ []) ↔ (xs ≡ [])
map-nil_iff f [] = (λ e. refl, λ e. refl)
map-nil_iff f (x ∷ xs) = (λ e. absurd (cc e), λ e. absurd (cc e))

module _ (lib : LoadLib) where
  open lib use {
    CfgMap, read_and_merge_config, read_file, unmarshal, zero_config, decode, apply_defaults,
    tag_errors, reported,
  }

  -- Neither the tags nor the rules across fields have anything against the configuration.
  pub record IsAccepted (c : Config) : Type 0 where
    pub by_tags : tag_errors c ≡ []
    pub by_listeners : All (λ l. listener_violations l ≡ []) c.listeners
    pub by_config : config_violations c ≡ []

  listener_errors_iff :
      (i : ℕ) (listeners : List ListenerConfig)
      → (listener_errors lib i listeners ≡ []) ↔ All (λ l. listener_violations l ≡ []) listeners
  unfolding listener_errors
  listener_errors_iff i [] = (λ e. tt, λ a. refl)
  listener_errors_iff i (l ∷ listeners) = ground (
    arith,
    no_violations (map (reported (some i)) (listener_violations l))
        (listener_errors lib (suc i) listeners),
    map-nil_iff (reported (some i)) (listener_violations l),
    listener_errors_iff (suc i) listeners,
  )

  struct_errors_iff : (c : Config) → (struct_errors lib c ≡ []) ↔ IsAccepted c
  unfolding struct_errors
  struct_errors_iff c =
      let outer =
        no_violations (tag_errors c)
          (listener_errors lib 0 c.listeners ++ map (reported none) (config_violations c)) in
      let inner =
        no_violations (listener_errors lib 0 c.listeners)
          (map (reported none) (config_violations c)) in
      let listeners = listener_errors_iff 0 c.listeners in
      let config = map-nil_iff (reported none) (config_violations c) in
      (
        λ e.
            let both = outer.0 e in
            let rest = inner.0 both.1 in
            record {
              by_tags = both.0;
              by_listeners = listeners.0 rest.0;
              by_config = config.0 rest.1;
            },
        λ a. outer.1 (a.by_tags, inner.1 (listeners.1 a.by_listeners, config.1 a.by_config)),
      )

  validate_iff : (c : Config) → (validate lib c ≡ none) ↔ IsAccepted c
  unfolding validate
  validate_iff c =
      let empty = is_empty_iff (struct_errors lib c) in
      let accepted = struct_errors_iff c in ground (arith, empty, accepted)

  checked_iff : (c d : Config) → (checked lib c ≡ inr d) ↔ ((c ≡ d) × IsAccepted c)
  unfolding checked
  checked_iff c d = from (validate lib c) (validate_iff c)
    where
      from :
          (v : Option (List Bytes))
          → (v ≡ none) ↔ IsAccepted c
          → (elim v [ none ↦ inr c | some msgs ↦ inl (invalid msgs) ] ≡ inr d)
            ↔ ((c ≡ d) × IsAccepted c)
      from none h = (λ e. (cc, h.0 refl), λ w. ap inr w.0)
      from (some msgs) h = (λ e. absurd (cc e), λ w. absurd (let e = h.1 w.1 in cc e))

  completed_iff :
      (raw c : Config)
      → (completed lib raw ≡ inr c) ↔ ((set_defaults apply_defaults raw ≡ some c) × IsAccepted c)
  unfolding completed
  completed_iff raw c = from (set_defaults apply_defaults raw)
    where
      from :
          (o : Option Config)
          → (elim o [ none ↦ inl defaults_failed | some d ↦ checked lib d ] ≡ inr c)
            ↔ ((o ≡ some c) × IsAccepted c)
      from none = (λ e. absurd (cc e), λ w. absurd (let e = w.0 in cc e))
      from (some d) = (
        λ e. let w = (checked_iff d c).0 e in (ap some w.0, subst IsAccepted w.0 w.1),
        λ w.
            let same : d ≡ c = (let e = w.0 in cc) in
            (checked_iff d c).1 (same, subst IsAccepted (sym same) w.1),
      )

  -- What the files say: the merged map, decoded into the zero configuration; or, where there is no
  -- such map, the YAML of the file, into which nothing is decoded.
  pub data Says (raw : Config) : Type 0 where
    by_map :
        (m : CfgMap)
        → read_and_merge_config ≡ some m
        → decode (some m) zero_config ≡ some raw
        → Says raw
    by_yaml :
        (text : Bytes) (c : Config)
        → read_and_merge_config ≡ none
        → read_file ≡ some text
        → unmarshal text ≡ some c
        → decode none c ≡ some raw
        → Says raw

  parse-Says : (raw : Config) → (parse lib ≡ inr raw) → Says raw
  unfolding parse
  parse-Says raw =
      on_option (λ p. p ≡ inr raw → Says raw) read_and_merge_config _ _
        (λ unmerged.
          on_option (λ p. p ≡ inr raw → Says raw) read_file _ _ (λ _ e. absurd (cc e))
            λ text read.
              on_option (λ p. p ≡ inr raw → Says raw) (unmarshal text) _ _ (λ _ e. absurd (cc e))
                λ c parsed.
                  on_option (λ p. p ≡ inr raw → Says raw) (decode none c) _ _ (λ _ e. absurd (cc e))
                    (λ d decoded e. by_yaml text c unmerged read parsed (decoded ∙ cc)))
        λ m merged.
          on_option (λ p. p ≡ inr raw → Says raw) (decode (some m) zero_config) _ _
            (λ _ e. absurd (cc e)) (λ c decoded e. by_map m merged (decoded ∙ cc))

  Says-parse : (raw : Config) → Says raw → parse lib ≡ inr raw
  unfolding parse
  Says-parse raw (by_map m merged decoded) = elim-some _ _ merged ∙ elim-some _ _ decoded
  Says-parse raw (by_yaml text c unmerged read parsed decoded) =
      elim-none _ _ unmerged ∙ elim-some _ _ read ∙ elim-some _ _ parsed ∙ elim-some _ _ decoded

  -- `load` returns a configuration exactly when the merged map, or the YAML of the file where there
  -- is no map, can be read and decoded, the defaults can be filled in and give that configuration, and neither the rules of its tags, nor those of
  -- any listener, nor those across its parts are violated.
  pub load_iff :
      (c : Config)
      → (load lib ≡ inr c)
        ↔ ((raw : Config) × Says raw × (set_defaults apply_defaults raw ≡ some c) × IsAccepted c)
  unfolding load
  load_iff c =
      let iff = from (parse lib) in
      (
        λ h. let (raw, p, d, a) = iff.0 h in (raw, parse-Says raw p, d, a),
        λ (raw, says, d, a). iff.1 (raw, Says-parse raw says, d, a),
      )
    where
      from :
          (p : LoadError ⊎ Config)
          → (elim p [ inl e ↦ inl e | inr raw ↦ completed lib raw ] ≡ inr c) ↔ (
              (raw : Config) × (p ≡ inr raw)
              × (set_defaults apply_defaults raw ≡ some c)
              × IsAccepted c)
      from (inl e) = (λ h. absurd (cc h), λ (raw, p, d, a). absurd (cc p))
      from (inr raw) = (
        λ h. let w = (completed_iff raw c).0 h in (raw, refl, w.0, w.1),
        λ (other, p, d, a).
            let same : other ≡ raw = cc in
            subst (λ r. completed lib r ≡ inr c) same ((completed_iff other c).1 (d, a)),
      )
