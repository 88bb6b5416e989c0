-- ===== src/Ebpf/Loader/Keys.antt =====
-- Which addresses and tunnels share an entry of a kernel map (pkg/ebpf/loader_linux.go,
-- pkg/ebpf/blocklist.go).
use sentinel5g.Prelude.{
  ℕ, ◌+◌, ◌*◌, ◌/◌, ◌%◌, ◌<◌, ◌≡◌, inl, inr, List, [], ◌∷◌, some, length, arith, refl, ap, sym, ◌∙◌,
  Option-cases,
}
use sentinel5g.Ebpf.Interface.{Ip}
use sentinel5g.Ebpf.Loader.{
  to4, all_zero, mapped, ipv4_key, ipv6_key, MapName, MapKey, KernelMaps, le_uint32, le_bytes,
  ipv4_from_u32, blocklist_map_and_key, tunnel_map_and_key, signal_rate_of, tunnel_rate_of,
}

abbrev pub IsBytes : List ℕ → Type 0
IsBytes [] = Unit {0}
IsBytes (b ∷ bs) = (b < 256) × IsBytes bs

le_bytes-le_uint32 : (bs : List ℕ) → IsBytes bs → le_bytes (length bs) (le_uint32 bs) ≡ bs
unfolding le_bytes le_uint32
le_bytes-le_uint32 [] h = refl
le_bytes-le_uint32 (b ∷ bs) h =
    let low : (b + 256 * le_uint32 bs) % 256 ≡ b = omega (arith, h.0) in
    let high : (b + 256 * le_uint32 bs) / 256 ≡ le_uint32 bs = omega (arith, h.0) in
    cc (low, high, le_bytes-le_uint32 bs h.1)

-- The uint32 that stands for an IPv4 address in a tunnel's key, and in a record of the ring
-- buffer, gives back its four bytes.
pub ipv4_from_u32-le_uint32 :
    (v4 : List ℕ) → IsBytes v4 → length v4 ≡ 4 → ipv4_from_u32 (le_uint32 v4) ≡ v4
unfolding ipv4_from_u32
ipv4_from_u32-le_uint32 v4 bytes four =
    ap (λ (n : ℕ). le_bytes n (le_uint32 v4)) (sym four) ∙ le_bytes-le_uint32 v4 bytes

pub to4-IsFour : (ip v : Ip) → IsBytes ip → to4 ip ≡ some v → IsBytes v × (length v ≡ 4)
unfolding to4
to4-IsFour ([]) v bytes e = absurd (cc)
to4-IsFour (b0 ∷ []) v bytes e = absurd (cc)
to4-IsFour (b0 ∷ b1 ∷ []) v bytes e = absurd (cc)
to4-IsFour (b0 ∷ b1 ∷ b2 ∷ []) v bytes e = absurd (cc)
to4-IsFour (b0 ∷ b1 ∷ b2 ∷ b3 ∷ b4 ∷ []) v bytes e = absurd (cc)
to4-IsFour (b0 ∷ b1 ∷ b2 ∷ b3 ∷ b4 ∷ b5 ∷ []) v bytes e = absurd (cc)
to4-IsFour (b0 ∷ b1 ∷ b2 ∷ b3 ∷ b4 ∷ b5 ∷ b6 ∷ []) v bytes e = absurd (cc)
to4-IsFour (b0 ∷ b1 ∷ b2 ∷ b3 ∷ b4 ∷ b5 ∷ b6 ∷ b7 ∷ []) v bytes e = absurd (cc)
to4-IsFour (b0 ∷ b1 ∷ b2 ∷ b3 ∷ b4 ∷ b5 ∷ b6 ∷ b7 ∷ b8 ∷ []) v bytes e = absurd (cc)
to4-IsFour (b0 ∷ b1 ∷ b2 ∷ b3 ∷ b4 ∷ b5 ∷ b6 ∷ b7 ∷ b8 ∷ b9 ∷ []) v bytes e = absurd (cc)
to4-IsFour (b0 ∷ b1 ∷ b2 ∷ b3 ∷ b4 ∷ b5 ∷ b6 ∷ b7 ∷ b8 ∷ b9 ∷ b10 ∷ []) v bytes e = absurd (cc)
to4-IsFour (b0 ∷ b1 ∷ b2 ∷ b3 ∷ b4 ∷ b5 ∷ b6 ∷ b7 ∷ b8 ∷ b9 ∷ b10 ∷ b11 ∷ []) v bytes e =
    absurd (cc)
to4-IsFour (b0 ∷ b1 ∷ b2 ∷ b3 ∷ b4 ∷ b5 ∷ b6 ∷ b7 ∷ b8 ∷ b9 ∷ b10 ∷ b11 ∷ b12 ∷ []) v bytes e =
    absurd (cc)
to4-IsFour (b0 ∷ b1 ∷ b2 ∷ b3 ∷ b4 ∷ b5 ∷ b6 ∷ b7 ∷ b8 ∷ b9 ∷ b10 ∷ b11 ∷ b12 ∷ b13 ∷ []) v bytes
      e =
    absurd (cc)
to4-IsFour (b0 ∷ b1 ∷ b2 ∷ b3 ∷ b4 ∷ b5 ∷ b6 ∷ b7 ∷ b8 ∷ b9 ∷ b10 ∷ b11 ∷ b12 ∷ b13 ∷ b14 ∷ []) v
      bytes e =
    absurd (cc)
to4-IsFour (b0 ∷ b1 ∷ b2 ∷ b3 ∷ []) v bytes e = ground (arith, bytes, e)
to4-IsFour
      (b0 ∷ b1 ∷ b2 ∷ b3 ∷ b4 ∷ b5 ∷ b6 ∷ b7 ∷ b8 ∷ b9 ∷ b10 ∷ b11 ∷ b12 ∷ b13 ∷ b14 ∷ b15 ∷ []) v
      bytes e =
    ground (arith, bytes, e)
to4-IsFour
      (b0 ∷ b1 ∷ b2 ∷ b3 ∷ b4 ∷ b5 ∷ b6 ∷ b7 ∷ b8 ∷ b9 ∷ b10 ∷ b11 ∷ b12 ∷ b13 ∷ b14 ∷ b15 ∷ b16
        ∷ bs)
      v bytes e =
    absurd (cc)

-- An IPv4 address and its v4-mapped form are one endpoint: they have the same entry among the
-- blocked sources, and with any TEID among the blocked tunnels, and their rates are the same.
pub mapped-same_entries :
    {K : Type 0} (maps : KernelMaps K) (a b c d teid dest_port : ℕ) (k : K)
    → (blocklist_map_and_key (mapped a b c d) ≡ blocklist_map_and_key (a ∷ b ∷ c ∷ d ∷ []))
      × (tunnel_map_and_key (mapped a b c d) teid ≡ tunnel_map_and_key (a ∷ b ∷ c ∷ d ∷ []) teid)
      × (signal_rate_of maps (mapped a b c d) dest_port k
          ≡ signal_rate_of maps (a ∷ b ∷ c ∷ d ∷ []) dest_port k)
      × (tunnel_rate_of maps (mapped a b c d) teid k
          ≡ tunnel_rate_of maps (a ∷ b ∷ c ∷ d ∷ []) teid k)
unfolding blocklist_map_and_key ipv4_key tunnel_map_and_key signal_rate_of tunnel_rate_of to4
    all_zero
mapped-same_entries maps a b c d teid dest_port k = (refl, refl, refl, refl)

same_number :
    (v v' : Ip)
    → IsBytes v
    → IsBytes v'
    → length v ≡ 4
    → length v' ≡ 4
    → le_uint32 v ≡ le_uint32 v'
    → v ≡ v'
same_number v v' h h' l l' e =
    sym (ipv4_from_u32-le_uint32 v h l) ∙ ap ipv4_from_u32 e ∙ ipv4_from_u32-le_uint32 v' h' l'

-- Two tunnels share an entry of a tunnel map only if they have the same TEID, and their sources
-- have the same entry among the blocked sources.
pub tunnel_map_and_key-injective :
    (ip ip' : Ip) (teid teid' : ℕ) (at : MapName × MapKey)
    → IsBytes ip
    → IsBytes ip'
    → tunnel_map_and_key ip teid ≡ some at
    → tunnel_map_and_key ip' teid' ≡ some at
    → (teid ≡ teid') × (blocklist_map_and_key ip ≡ blocklist_map_and_key ip')
unfolding tunnel_map_and_key blocklist_map_and_key ipv4_key ipv6_key
tunnel_map_and_key-injective ip ip' teid teid' at bytes bytes' e e' = elim (Option-cases (to4 ip)) [
  | inl n ↦ elim (Option-cases (to4 ip')) [
    | inl n' ↦ ground (arith, e, e', n, n')
    | inr (v', s') ↦ ground (arith, e, e', n, s')
  ]
  | inr (v, s) ↦ elim (Option-cases (to4 ip')) [
    | inl n' ↦ ground (arith, e, e', s, n')
    | inr (v', s') ↦
        (let (h, l) = to4-IsFour ip v bytes s in
          let (h', l') = to4-IsFour ip' v' bytes' s' in
          ground (arith, e, e', s, s', same_number v v' h h' l l'))
  ]
]
