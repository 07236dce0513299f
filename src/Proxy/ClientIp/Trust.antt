-- ===== src/Proxy/ClientIp/Trust.antt =====
-- The cache is transparent, and a header is believed only from a trusted address.
use edged.Base.{
  true, false, ◌≡◌, ◌≢◌, refl, sym, ◌∙◌, ap, ◌⊎◌, inl, inr, some, List, [], ◌∷◌, is_empty, Bytes,
  equal, equal_iff, trim_space, join, split, split-join, Lacks, All, header_get, Bool-cases,
  Option-cases,
}
use mathlib.Core.Bool.{false≢true}
use edged.Config.{RouteConfig}
use edged.Proxy.ClientIp
use edged.Proxy.ClientIp.{NetLib, Incoming, comma}

join-injective :
    (x y : Bytes) (xs ys : List Bytes)
    → All (Lacks comma) (x ∷ xs)
    → All (Lacks comma) (y ∷ ys)
    → join comma (x ∷ xs) ≡ join comma (y ∷ ys)
    → ◌≡◌ {A = List Bytes} (x ∷ xs) (y ∷ ys)
join-injective x y xs ys hx hy e =
    sym (split-join comma x xs hx) ∙ ap (split comma) e ∙ split-join comma y ys hy

not_empty : {l : Bytes} → is_empty l ≡ false → l ≢ []
not_empty {l = []} h e = cc
not_empty {l = c ∷ l} h e = cc

module _ (lib : NetLib) where
  open lib use {Ip, IpNet, parse_ip, parse_cidr, contains}

  -- Every entry of the cache was made from settings without commas.
  pub data Made : Bytes × List IpNet → Type 0 where
    made :
        (cidr : Bytes) (cidrs : List Bytes) {entry : Bytes × List IpNet}
        → All (Lacks comma) (cidr ∷ cidrs)
        → entry ≡ (join comma (cidr ∷ cidrs), ClientIp.parse_nets lib (cidr ∷ cidrs))
        → Made entry

  abbrev pub IsConsistent : ClientIp.Cache lib → Type 0
  IsConsistent = All Made

  Made-parse_nets :
      (cidr : Bytes) (cidrs : List Bytes) (k : Bytes) (v : List IpNet)
      → Made (k, v)
      → All (Lacks comma) (cidr ∷ cidrs)
      → k ≡ join comma (cidr ∷ cidrs)
      → v ≡ ClientIp.parse_nets lib (cidr ∷ cidrs)
  Made-parse_nets cidr cidrs k v (made x xs lx e) l same =
      let lists = join-injective x cidr xs cidrs lx l (sym (ap (λ p. p.0) e) ∙ same) in
      ap (λ p. p.1) e ∙ ap (ClientIp.parse_nets lib) lists

  cached-parse_nets :
      (cache : ClientIp.Cache lib) (cidr : Bytes) (cidrs : List Bytes) (nets : List IpNet)
      → IsConsistent cache
      → All (Lacks comma) (cidr ∷ cidrs)
      → ClientIp.cached lib cache (join comma (cidr ∷ cidrs)) ≡ some nets
      → nets ≡ ClientIp.parse_nets lib (cidr ∷ cidrs)
  unfolding ClientIp.cached
  cached-parse_nets [] cidr cidrs nets c l e = cc
  cached-parse_nets ((k, v) ∷ cache) cidr cidrs nets c l e =
      elim (Bool-cases (equal k (join comma (cidr ∷ cidrs)))) [
        | inl same ↦
            let hit : v ≡ nets = cc (rw same at e) in
            sym hit ∙ Made-parse_nets cidr cidrs k v c.0 l ((equal_iff k _).0 same)
        | inr other ↦ cached-parse_nets cache cidr cidrs nets c.1 l (rw other at e)
      ]

  -- A call through a consistent cache gives what parsing the settings anew would give, and leaves
  -- the cache consistent, for settings none of which holds a comma.
  pub parse_trusted-transparent :
      (cache : ClientIp.Cache lib) (cidrs : List Bytes)
      → IsConsistent cache
      → All (Lacks comma) cidrs
      → ((ClientIp.parse_trusted_edge_proxy_nets lib cache cidrs).0 ≡ ClientIp.parse_nets lib cidrs)
        × IsConsistent (ClientIp.parse_trusted_edge_proxy_nets lib cache cidrs).1
  unfolding ClientIp.parse_trusted_edge_proxy_nets ClientIp.parse_nets
  parse_trusted-transparent cache [] c l = (refl, c)
  parse_trusted-transparent cache (cidr ∷ cidrs) c l =
      elim (Option-cases (ClientIp.cached lib cache (join comma (cidr ∷ cidrs)))) [
        | inl miss ↦ rw miss (refl, (made cidr cidrs l refl, c))
        | inr (nets, hit) ↦ rw hit (cached-parse_nets cache cidr cidrs nets c l hit, c)
      ]

  -- Some setting is a network that holds the connecting address.
  pub data Trusted (req : Incoming) : List Bytes → Type 0 where
    this :
        {cidrs : List Bytes} (cidr : Bytes) (ip : Ip) (net : IpNet)
        → parse_cidr (trim_space cidr) ≡ some net
        → parse_ip (ClientIp.connecting_ip lib req) ≡ some ip
        → contains net ip ≡ true
        → Trusted req (cidr ∷ cidrs)
    later : {cidr : Bytes} {cidrs : List Bytes} → Trusted req cidrs → Trusted req (cidr ∷ cidrs)

  in_range-Trusted :
      (req : Incoming) (cidrs : List Bytes) (ip : Ip)
      → parse_ip (ClientIp.connecting_ip lib req) ≡ some ip
      → ClientIp.is_ip_in_trusted_range lib ip (ClientIp.parse_nets lib cidrs) ≡ true
      → Trusted req cidrs
  unfolding ClientIp.is_ip_in_trusted_range ClientIp.parse_nets
  in_range-Trusted req [] ip p h = absurd (false≢true h)
  in_range-Trusted req (cidr ∷ cidrs) ip p h = elim (Option-cases (parse_cidr (trim_space cidr))) [
    | inl bad ↦ later (in_range-Trusted req cidrs ip p (rw (bad, ClientIp.parse_nets) at h))
    | inr (net, good) ↦ elim (Bool-cases (contains net ip)) [
      | inl inside ↦ this cidr ip net good p inside
      | inr outside ↦
          later
            (in_range-Trusted req cidrs ip p (rw outside at (rw (good, ClientIp.parse_nets) at h)))
    ]
  ]

  -- The value that the trusted header carries.
  abbrev pub Believed : Incoming → RouteConfig → Bytes → Type 0
  Believed req rc result =
      (rc.real_ip_header ≢ [])
      × Trusted req rc.trusted_edge_proxy_ips
      × (result ≡ trim_space (header_get req.header rc.real_ip_header))
      × (result ≢ [])

  trusted_header-Believed :
      (req : Incoming) (rc : RouteConfig)
      → is_empty rc.real_ip_header ≡ false
      → (ClientIp.trusted_header lib req rc (ClientIp.parse_nets lib rc.trusted_edge_proxy_ips)
          ≡ ClientIp.connecting_ip lib req)
        ⊎ Believed req rc
            (ClientIp.trusted_header lib req rc (ClientIp.parse_nets lib rc.trusted_edge_proxy_ips))
  unfolding ClientIp.trusted_header
  trusted_header-Believed req rc named =
      let nets = ClientIp.parse_nets lib rc.trusted_edge_proxy_ips in
      let value = trim_space (header_get req.header rc.real_ip_header) in
      elim (Bool-cases (is_empty nets)) [
        | inl empty ↦ inl (rw empty refl)
        | inr some_nets ↦ elim (Option-cases (parse_ip (ClientIp.connecting_ip lib req))) [
          | inl bad ↦ inl (rw (some_nets, bad) refl)
          | inr (ip, good) ↦ elim (Bool-cases (ClientIp.is_ip_in_trusted_range lib ip nets)) [
            | inr outside ↦ inl (rw (some_nets, good, outside) refl)
            | inl inside ↦ elim (Bool-cases (is_empty value)) [
              | inl blank ↦ inl (rw (some_nets, good, inside, blank) refl)
              | inr given ↦ inr (
                  rw (some_nets, good, inside, given)
                    (
                      not_empty named,
                      in_range-Trusted req rc.trusted_edge_proxy_ips ip good inside,
                      refl,
                      not_empty given,
                    ))
            ]
          ]
        ]
      ]

  -- The client's address is the connecting one, or it is the trimmed, non-empty value of the
  -- configured header and then one of the trusted networks holds the connecting address. This is
  -- for a consistent cache and settings without commas.
  pub resolve_client_ip-Believed :
      (cache : ClientIp.Cache lib) (req : Incoming) (rc : RouteConfig)
      → IsConsistent cache
      → All (Lacks comma) rc.trusted_edge_proxy_ips
      → ((ClientIp.resolve_client_ip lib cache req rc).0 ≡ ClientIp.connecting_ip lib req)
        ⊎ Believed req rc (ClientIp.resolve_client_ip lib cache req rc).0
  unfolding ClientIp.resolve_client_ip
  resolve_client_ip-Believed cache req rc c l = elim (Bool-cases (is_empty rc.real_ip_header)) [
    | inl unnamed ↦ inl (rw unnamed refl)
    | inr named ↦
        let found = (parse_trusted-transparent cache rc.trusted_edge_proxy_ips c l).0 in
        rw (named, found) (trusted_header-Believed req rc named)
  ]
