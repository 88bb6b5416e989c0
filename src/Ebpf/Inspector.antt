-- ===== src/Ebpf/Inspector.antt =====
-- pkg/ebpf/inspect_linux.go: what the kernel blocks, read back out of its maps. The walk over a map
-- is a parameter; an entry that changes during it is not modelled.
use sentinel5g.Prelude.{
  ℕ, ◌≡◌, ◌⊎◌, inl, inr, refl, arith, ap, sym, ◌∙◌, List, [], ◌∷◌, ◌++◌, Option, none, some, length,
  subst, Option-cases,
}
use sentinel5g.Ebpf.Interface.{Ip, BlockedTunnel}
use sentinel5g.Ebpf.Loader.{
  to4, ipv6_key, MapName, blocklist, blocklist_v6, tunnel_blocklist, tunnel_blocklist_v6, MapKey,
  address_key, number_key, address_number_key, le_uint32, ipv4_from_u32, tunnel_map_and_key,
}
use sentinel5g.Ebpf.Loader.Keys.{IsBytes, to4-IsFour, ipv4_from_u32-le_uint32}

-- The keys that Iterate gives, or its error.
pub record Iterator (K : Type 0) : Type 0 where
  pub keys : MapName → K → Option (List MapKey)

-- The source in a key of the blocklists; the other layouts are those of other maps.
unfoldable pub read_ip : MapKey → Ip
read_ip (address_key bytes) = bytes
read_ip (number_key saddr n) = []
read_ip (address_number_key bytes n) = []

-- The tunnel in a key of the tunnel blocklists.
unfoldable pub read_tunnel : MapKey → BlockedTunnel
read_tunnel (number_key saddr teid) = record { ip = ipv4_from_u32 saddr; teid = teid }
read_tunnel (address_number_key bytes teid) = record { ip = bytes; teid = teid }
read_tunnel (address_key bytes) = record { ip = []; teid = 0 }

unfoldable pub read_all : {A : Type 0} → (MapKey → A) → List MapKey → List A
read_all read [] = []
read_all read (k ∷ ks) = read k ∷ read_all read ks

-- The entries of the map of each family, the first one's before the second's.
unfoldable pub read_both :
    {A : Type 0} → (MapKey → A) → Option (List MapKey) → Option (List MapKey) → Option (List A)
read_both read none six = none
read_both read (some four) none = none
read_both read (some four) (some six) = some (read_all read four ++ read_all read six)

module _ {K : Type 0} (it : Iterator K) where
  -- BlockedIPs
  unfoldable pub blocked_ips : K → Option (List Ip)
  blocked_ips k = read_both read_ip (it.keys blocklist k) (it.keys blocklist_v6 k)

  -- BlockedTunnels
  unfoldable pub blocked_tunnels : K → Option (List BlockedTunnel)
  blocked_tunnels k =
      read_both read_tunnel (it.keys tunnel_blocklist k) (it.keys tunnel_blocklist_v6 k)

abbrev pub Among : {A : Type 0} → A → List A → Type 0
Among x [] = ⊥
Among x (y ∷ ys) = (y ≡ x) ⊎ Among x ys

Among-append : {A : Type 0} (x : A) (xs ys : List A) → Among x xs ⊎ Among x ys → Among x (xs ++ ys)
Among-append x [] ys (inl h) = absurd h
Among-append x [] ys (inr h) = h
Among-append x (z ∷ xs) ys (inl (inl e)) = inl e
Among-append x (z ∷ xs) ys (inl (inr h)) = inr (Among-append x xs ys (inl h))
Among-append x (z ∷ xs) ys (inr h) = inr (Among-append x xs ys (inr h))

read_all-Among :
    {A : Type 0} (read : MapKey → A) (k : MapKey) (ks : List MapKey)
    → Among k ks
    → Among (read k) (read_all read ks)
unfolding read_all
read_all-Among read k [] h = absurd h
read_all-Among read k (j ∷ ks) (inl e) = inl (ap read e)
read_all-Among read k (j ∷ ks) (inr h) = inr (read_all-Among read k ks h)

to4-four : (v : Ip) → length v ≡ 4 → to4 v ≡ some v
unfolding to4
to4-four [] h = absurd (omega (arith, h))
to4-four (a ∷ []) h = absurd (omega (arith, h))
to4-four (a ∷ b ∷ []) h = absurd (omega (arith, h))
to4-four (a ∷ b ∷ c ∷ []) h = absurd (omega (arith, h))
to4-four (a ∷ b ∷ c ∷ d ∷ []) h = refl
to4-four (a ∷ b ∷ c ∷ d ∷ e ∷ rest) h = absurd (omega (arith, h))

-- What is read out of a tunnel's key has that key.
read_tunnel-key :
    (ip : Ip) (teid : ℕ) (name : MapName) (key : MapKey)
    → IsBytes ip
    → tunnel_map_and_key ip teid ≡ some (name, key)
    → tunnel_map_and_key (read_tunnel key).ip (read_tunnel key).teid ≡ some (name, key)
unfolding tunnel_map_and_key ipv6_key read_tunnel
read_tunnel-key ip teid name key bytes h = elim (Option-cases (to4 ip)) [
  | inl n ↦ elim (Option-cases (ipv6_key ip)) [
    | inl n' ↦ absurd (ground (arith, h, n, n'))
    | inr (v6, e) ↦
        let same : v6 ≡ ip = ground (arith, e, n) in
        let is : key ≡ address_number_key v6 teid = ground (arith, h, n, e) in
        ap (λ (k : MapKey). tunnel_map_and_key (read_tunnel k).ip (read_tunnel k).teid) is
        ∙ ap (λ (x : Ip). tunnel_map_and_key x teid) same
        ∙ h
  ]
  | inr (v, e) ↦
      let (h', four) = to4-IsFour ip v bytes e in
      let is : key ≡ number_key (le_uint32 v) teid = ground (arith, h, e) in
      ap (λ (k : MapKey). tunnel_map_and_key (read_tunnel k).ip (read_tunnel k).teid) is
      ∙ ap (λ (x : Ip). tunnel_map_and_key x teid) (ipv4_from_u32-le_uint32 v h' four)
      ∙ ground (arith, h, e, to4-four v four)
]

-- Which of the two maps a tunnel's key is in.
tunnel_map_and_key-map :
    (ip : Ip) (teid : ℕ) (name : MapName) (key : MapKey)
    → tunnel_map_and_key ip teid ≡ some (name, key)
    → (name ≡ tunnel_blocklist) ⊎ (name ≡ tunnel_blocklist_v6)
unfolding tunnel_map_and_key
tunnel_map_and_key-map ip teid name key h = ground (arith, h)

listed : {A : Type 0} {xs ys : List A} → ◌≡◌ {A = Option (List A)} (some xs) (some ys) → xs ≡ ys
listed e = cc

read_both-Among :
    {A : Type 0} (read : MapKey → A) (four six : Option (List MapKey)) (all : List A)
    (ks : List MapKey) (key : MapKey)
    → read_both read four six ≡ some all
    → (four ≡ some ks) ⊎ (six ≡ some ks)
    → Among key ks
    → Among (read key) all
unfolding read_both
read_both-Among {A} read none six all ks key h at here = absurd (cc)
read_both-Among {A} read (some four) none all ks key h at here = absurd (cc)
read_both-Among {A} read (some four) (some six) all ks key h at here =
    subst (Among (read key)) (listed h)
      (Among-append (read key) (read_all read four) (read_all read six) (side at))
  where
    side :
        (some four ≡ some ks) ⊎ (some six ≡ some ks)
        → Among (read key) (read_all read four) ⊎ Among (read key) (read_all read six)
    side (inl e) = inl (read_all-Among read key four (subst (Among key) (sym (listed e)) here))
    side (inr e) = inr (read_all-Among read key six (subst (Among key) (sym (listed e)) here))

-- A tunnel of any address that the loader blocks under a key which the walk over that key's map finds
-- is among the tunnels that the inspector reads, if both walks succeed: what is read there has the same
-- map and key, so that it stands for the same entry when it is blocked or unblocked.
pub blocked_tunnels-finds :
    {K : Type 0} (it : Iterator K) (k : K) (ip : Ip) (teid : ℕ) (name : MapName) (key : MapKey)
    (ks : List MapKey) (ts : List BlockedTunnel)
    → IsBytes ip
    → tunnel_map_and_key ip teid ≡ some (name, key)
    → it.keys name k ≡ some ks
    → Among key ks
    → blocked_tunnels it k ≡ some ts
    → (t : BlockedTunnel) × Among t ts × (tunnel_map_and_key t.ip t.teid ≡ some (name, key))
unfolding blocked_tunnels
blocked_tunnels-finds it k ip teid name key ks ts bytes h walked here read = (
  read_tunnel key,
  read_both-Among read_tunnel (it.keys tunnel_blocklist k) (it.keys tunnel_blocklist_v6 k) ts ks key
      read (which (tunnel_map_and_key-map ip teid name key h)) here,
  read_tunnel-key ip teid name key bytes h,
)
  where
    which :
        (name ≡ tunnel_blocklist) ⊎ (name ≡ tunnel_blocklist_v6)
        → (it.keys tunnel_blocklist k ≡ some ks) ⊎ (it.keys tunnel_blocklist_v6 k ≡ some ks)
    which (inl e) = inl (ap (λ n. it.keys n k) (sym e) ∙ walked)
    which (inr e) = inr (ap (λ n. it.keys n k) (sym e) ∙ walked)
