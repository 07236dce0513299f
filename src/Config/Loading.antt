-- ===== src/Config/Loading.antt =====
-- config/config.go: `Load`. The readers of files, YAML and maps, the default values of the tags and
-- the rules of the tags are parameters.
pub mod Accepted
use edged.Base.{
  ℕ, suc, Option, none, some, List, [], ◌∷◌, ◌++◌, ◌⊎◌, inl, inr, if◌then◌else◌, is_empty, map,
  Bytes, codes, equal,
}
use edged.Config.Types.{ListenerConfig, Config}
use edged.Config.Defaults.{set_defaults}
use edged.Config.Validation.{Violation, listener_violations, config_violations}

-- A `validator.FieldError`; `value` is printed.
pub record FieldError : Type 0 where
  pub namespace : Bytes
  pub tag : Bytes
  pub param : Bytes
  pub value : Bytes

pub record LoadLib : Type 1 where
  pub CfgMap : Type 0
  -- `toolconfig.ReadAndMergeConfig`, and `os.ReadFile`, on the path
  pub read_and_merge_config : Option CfgMap
  pub read_file : Option Bytes
  -- `yaml.Unmarshal` into the zero configuration, which is `zero_config`
  pub unmarshal : Bytes → Option Config
  pub zero_config : Config
  -- `decoder.Decode` of the map, or of nil, into the configuration
  pub decode : Option CfgMap → Config → Option Config
  -- `defaulter.ApplyDefaults`
  pub apply_defaults : Config → Option Config
  -- the errors by the tags of the fields, and what `ReportError` makes of a violation in the
  -- configuration or in the listener of an index
  pub tag_errors : Config → List FieldError
  pub reported : Option ℕ → Violation → FieldError

pub data LoadError : Type 0 where
  read_failed parse_failed decode_failed defaults_failed : LoadError
  invalid : List Bytes → LoadError

abbrev got : FieldError → Bytes
got fe = codes ", got '" ++ fe.value ++ codes "'"

unfoldable pub format_field_error : FieldError → Bytes
format_field_error fe =
    let ns = fe.namespace in
    let tag = fe.tag in
    if equal tag (codes "required")
    then ns ++ codes " is required"
    else if equal tag (codes "min")
    then ns ++ codes " must have at least " ++ fe.param ++ codes " items"
    else if equal tag (codes "gte")
    then ns ++ codes " must be >= " ++ fe.param
    else if equal tag (codes "oneof")
    then ns ++ codes " must be one of [" ++ fe.param ++ codes "]" ++ got fe
    else if equal tag (codes "url")
    then ns ++ codes " must be a valid URL" ++ got fe
    else if equal tag (codes "email")
    then ns ++ codes " must be a valid email" ++ got fe
    else if equal tag (codes "required_with_acme")
    then ns ++ codes " is required when TLS use_acme is enabled"
    else if equal tag (codes "required_without_redirect")
    then ns ++ codes " is required (route has no upstream and listener does not redirect_to_https)"
    else if equal tag (codes "dns_provider_required")
    then ns
      ++ codes
          " is required: at least one acme.dns_providers entry must be configured when a listener uses use_acme (DNS-01 is the only challenge solver)"
    else if equal tag (codes "match_required")
    then ns
      ++ codes
          " is required for acme.dns_providers entries after the first one (the first entry is the default provider)"
    else if equal tag (codes "invalid_domain_pattern")
    then ns ++ codes " contains an invalid glob pattern '" ++ fe.param ++ codes "'"
    else if equal tag (codes "dns_api_key_required")
    then ns
      ++ codes
          " is required to solve DNS-01 challenges (set arvancloud.api_key on this acme.dns_providers entry)"
    else if equal tag (codes "dns_credentials_required")
    then ns
      ++ codes
          " is incomplete: provide cloudflare api_token OR (auth_email and auth_key) to solve DNS-01 challenges"
    else ns ++ codes " failed '" ++ tag ++ codes "' validation"

module _ (lib : LoadLib) where
  open lib use {
    CfgMap, read_and_merge_config, read_file, unmarshal, zero_config, decode, apply_defaults,
    tag_errors, reported,
  }

  unfoldable pub listener_errors : ℕ → List ListenerConfig → List FieldError
  listener_errors i [] = []
  listener_errors i (l ∷ listeners) =
      map (reported (some i)) (listener_violations l) ++ listener_errors (suc i) listeners

  -- `validate.Struct`: the tags, and the functions that are registered for the structs.
  unfoldable pub struct_errors : Config → List FieldError
  struct_errors c =
      tag_errors c ++ (listener_errors 0 c.listeners ++ map (reported none) (config_violations c))

  -- `validate`, with the messages that are joined into the error.
  unfoldable pub validate : Config → Option (List Bytes)
  validate c =
      let errors = struct_errors c in
      if is_empty errors then none else some (map format_field_error errors)

  -- The first part of `Load`: a map that is decoded, or YAML where there is none.
  unfoldable pub parse : LoadError ⊎ Config
  parse = elim read_and_merge_config [
    | some cfg_map ↦ elim (decode (some cfg_map) zero_config) [
      | none ↦ inl decode_failed
      | some c ↦ inr c
    ]
    | none ↦ elim read_file [
      | none ↦ inl read_failed
      | some text ↦ elim (unmarshal text) [
        | none ↦ inl parse_failed
        | some c ↦ elim (decode none c) [ none ↦ inl decode_failed | some d ↦ inr d ]
      ]
    ]
  ]

  unfoldable pub checked : Config → LoadError ⊎ Config
  checked c = elim (validate c) [ none ↦ inr c | some msgs ↦ inl (invalid msgs) ]

  unfoldable pub completed : Config → LoadError ⊎ Config
  completed raw = elim (set_defaults apply_defaults raw) [
    | none ↦ inl defaults_failed
    | some c ↦ checked c
  ]

  unfoldable pub load : LoadError ⊎ Config
  load = elim parse [ inl e ↦ inl e | inr raw ↦ completed raw ]
