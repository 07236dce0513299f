-- ===== src/Config/Domains.antt =====
-- config/config.go: the domains that certificates are acquired for.
pub mod Members
use edged.Base.{
  ℕ, ◌&&◌, ◌||◌, Bool, true, false, List, [], ◌∷◌, if◌then◌else◌, is_empty, Bytes, codes, equal,
  normalize, ◌==◌, ltb,
}
use edged.Config.Types.{ListenerConfig, Config}

abbrev pub https : Bytes
https = codes "https"

-- The order of Go's strings.
unfoldable pub bytes_leb : Bytes → Bytes → Bool
bytes_leb [] t = true
bytes_leb (c ∷ s) [] = false
bytes_leb (c ∷ s) (d ∷ t) = ltb c d || (c == d && bytes_leb s t)

-- `slices.Sort`
unfoldable pub insert_sorted : Bytes → List Bytes → List Bytes
insert_sorted x [] = x ∷ []
insert_sorted x (y ∷ ys) = if bytes_leb x y then x ∷ y ∷ ys else y ∷ insert_sorted x ys

unfoldable pub sort : List Bytes → List Bytes
sort [] = []
sort (x ∷ xs) = insert_sorted x (sort xs)

unfoldable pub contains : Bytes → List Bytes → Bool
contains d [] = false
contains d (x ∷ xs) = equal x d || contains d xs

-- The keys of the map `domainSet`, each once.
unfoldable pub add_key : Bytes → List Bytes → List Bytes
add_key d keys = if contains d keys then keys else d ∷ keys

unfoldable pub add_domains : List Bytes → List Bytes → List Bytes
add_domains [] keys = keys
add_domains (d ∷ domains) keys = add_domains domains (add_key (normalize d) keys)

unfoldable pub collect : List ListenerConfig → List Bytes → List Bytes
collect [] keys = keys
collect (l ∷ listeners) keys = collect listeners (
    if equal l.protocol https && l.tls.enabled && l.tls.use_acme
    then add_domains l.tls.domains keys
    else keys)

unfoldable pub acme_domains : Config → List Bytes
acme_domains c = sort (collect c.listeners [])
