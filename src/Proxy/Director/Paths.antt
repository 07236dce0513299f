-- ===== src/Proxy/Director/Paths.antt =====
-- The path that a rewritten request carries.
use edged.Base.{
  ℕ, true, ◌≡◌, ◌≢◌, refl, sym, ◌∙◌, ap, [], ◌∷◌, ◌++◌, arith, if◌then◌else◌, Bytes, equal,
  equal_iff, has_prefix, has_prefix_iff, has_prefix-nil, has_suffix, drop, drop-append, Bool-cases,
  inl, inr, ◌⊎◌,
}
use edged.Config.{RouteConfig}
use edged.Proxy.Router.{Url}
use edged.Proxy.ClientIp.{Incoming}
use edged.Proxy.Director.{Outgoing, slash, join_path, set_url, trim_prefix, strip_path, direct}

-- A path with the leading slash that `createDirector` gives it.
abbrev pub rooted : Bytes → Bytes
rooted p = if has_prefix p slash then p else b'/' ∷ p

join_path_root :
    (target path : Bytes)
    → (target ≡ []) ⊎ (target ≡ slash)
    → join_path target (b'/' ∷ path) ≡ b'/' ∷ path
unfolding join_path has_suffix has_prefix equal
join_path_root target path (inl e) = rw e refl
join_path_root target path (inr e) = rw e refl

strip_path_on :
    (rc : RouteConfig) (prefix path : Bytes)
    → rc.strip_prefix ≡ true
    → rc.path_prefix ≡ b'/' ∷ prefix
    → prefix ≢ []
    → strip_path rc path ≡ rooted (trim_prefix path rc.path_prefix)
unfolding strip_path
strip_path_on rc prefix path on is ne =
    let rooted_by = Bool-cases (has_prefix (trim_prefix path rc.path_prefix) slash) in
    ground (arith, equal_iff rc.path_prefix slash, rooted_by)

trim_prefix-append : (p rest : Bytes) → trim_prefix (p ++ rest) p ≡ rest
unfolding trim_prefix
trim_prefix-append p rest = rw ((has_prefix_iff (p ++ rest) p).1 (rest, refl)) (drop-append p rest)

-- On a route that strips its prefix, a slash and more, to a target without a path of its own, a
-- request for the prefix and a rest is sent upstream as a request for the rest, with a leading
-- slash.
pub direct_strip :
    (protocol : Bytes) (target : Url) (rc : RouteConfig) (client_ip : Bytes) (incoming : Incoming)
    (out : Outgoing) (prefix rest : Bytes)
    → rc.strip_prefix ≡ true
    → rc.path_prefix ≡ b'/' ∷ prefix
    → prefix ≢ []
    → (target.path ≡ []) ⊎ (target.path ≡ slash)
    → out.path ≡ rc.path_prefix ++ rest
    → (direct protocol target rc client_ip incoming out).path ≡ rooted rest
unfolding direct strip_path set_url
direct_strip protocol target rc client_ip incoming out prefix rest on is ne root asked =
    let whole : rc.path_prefix ++ rest ≡ b'/' ∷ (prefix ++ rest) =
      ap (λ (l : Bytes). l ++ rest) is in
    let joined : join_path target.path out.path ≡ rc.path_prefix ++ rest =
      ap (join_path target.path) (asked ∙ whole)
      ∙ join_path_root target.path (prefix ++ rest) root
      ∙ sym whole in
    rw joined (
      strip_path_on rc prefix (rc.path_prefix ++ rest) on is ne
      ∙ ap rooted (trim_prefix-append rc.path_prefix rest))

join_path_head :
    (b : ℕ) (base path : Bytes)
    → (tail : Bytes) × (join_path (b'/' ∷ b ∷ base) path ≡ b'/' ∷ b ∷ tail)
unfolding join_path
join_path_head b base path = elim (Bool-cases (has_suffix (b'/' ∷ b ∷ base) slash)) [
  | inl end ↦ elim (Bool-cases (has_prefix path slash)) [
    | inl start ↦ (base ++ drop 1 path, rw (end, start) refl)
    | inr bare ↦ (base ++ path, rw (end, bare) refl)
  ]
  | inr open_end ↦ elim (Bool-cases (has_prefix path slash)) [
    | inl start ↦ (base ++ path, rw (open_end, start) refl)
    | inr bare ↦ (base ++ b'/' ∷ path, rw (open_end, bare) refl)
  ]
]

other_prefix :
    (b p : ℕ) (tail prefix : Bytes)
    → b ≢ p
    → rooted (trim_prefix (b'/' ∷ b ∷ tail) (b'/' ∷ p ∷ prefix)) ≡ b'/' ∷ b ∷ tail
unfolding trim_prefix has_prefix
other_prefix b p tail prefix ne = ground (arith, has_prefix-nil (b ∷ tail))

-- On a route that is to strip its prefix, to a target with a path of its own, where the prefix and
-- that path begin with a slash and then with different bytes, the prefix is not stripped: the
-- request goes out with the target's path and its own, prefix included.
pub direct_keeps_prefix :
    (protocol : Bytes) (target : Url) (rc : RouteConfig) (client_ip : Bytes) (incoming : Incoming)
    (out : Outgoing) (b p : ℕ) (base prefix : Bytes)
    → rc.strip_prefix ≡ true
    → rc.path_prefix ≡ b'/' ∷ p ∷ prefix
    → target.path ≡ b'/' ∷ b ∷ base
    → b ≢ p
    → (direct protocol target rc client_ip incoming out).path ≡ join_path target.path out.path
unfolding direct set_url
direct_keeps_prefix protocol target rc client_ip incoming out b p base prefix on is at ne =
    let (tail, joined) = join_path_head b base out.path in
    let e : join_path target.path out.path ≡ b'/' ∷ b ∷ tail = rw at joined in
    rw e (
      strip_path_on rc (p ∷ prefix) (b'/' ∷ b ∷ tail) on is (λ x. cc x)
      ∙ rw is (other_prefix b p tail prefix ne))
