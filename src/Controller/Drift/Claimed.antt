-- ===== src/Controller/Drift/Claimed.antt =====
-- desiredEnforcement of pkg/controller/blocklist_reconciler.go against the statuses themselves.
use sentinel5g.Prelude.{
  ℕ, ◌≡◌, ◌≢◌, ◌⊎◌, inl, inr, ◌↔◌, true, false, List, [], ◌∷◌, Option, none, some, Text,
  text_discrete, arith, refl, sym, ◌∙◌, Option-cases, Bool-cases, ◌==◌,
}
use sentinel5g.Prelude.Map.{Map, find, put, find-put}
use sentinel5g.Ebpf.Interface.{Ip}
use sentinel5g.Controller.Api.{Policy}
use sentinel5g.Controller.Tunnels.{Addresses, format_tunnel, parse_tunnel}
use sentinel5g.Controller.Drift.{BlockedTunnel, desired_ips, desired_tunnels, desired_enforcement}

-- An entry that adds nothing, and one that adds the case A, as it is found in the next map.
skipped : {A B C D : Type 0} → (A → ⊥) → D ↔ (B ⊎ C) → D ↔ ((A ⊎ B) ⊎ C)
skipped never (to, from) = (
  λ h. elim (to h) [ inl i ↦ inl (inr i) | inr i ↦ inr i ],
  λ h. from (elim h [ inl (inl i) ↦ absurd (never i) | inl (inr i) ↦ inl i | inr i ↦ inr i ]),
)

added :
    {A A' B C D E : Type 0} → (A' → A) → (A → A') → E ↔ (A' ⊎ C) → D ↔ (B ⊎ E) → D ↔ ((A ⊎ B) ⊎ C)
added into out (split, join) (to, from) = (
  λ h. elim (to h) [
    | inl i ↦ inl (inr i)
    | inr i ↦ elim (split i) [ inl j ↦ inl (inl (into j)) | inr j ↦ inr j ]
  ],
  λ h. from (elim h [
    | inl (inl i) ↦ inr (join (inl (out i)))
    | inl (inr i) ↦ inl i
    | inr i ↦ inr (join (inr i))
  ]),
)

module _ (net : Addresses) (x : Text) where
  -- One of the entries parses to an address that is printed as x.
  abbrev pub NamesSource : List Text → Type 0
  NamesSource [] = ⊥
  NamesSource (raw ∷ raws) =
      ((ip : Ip) × (net.parse_ip raw ≡ some ip) × (net.ip_string ip ≡ x)) ⊎ NamesSource raws

  -- One of the entries parses to a tunnel, of a TEID other than 0, that is printed as x.
  abbrev pub NamesTunnel : List Text → Type 0
  NamesTunnel [] = ⊥
  NamesTunnel (entry ∷ entries) =
      ((ip : Ip) × (teid : ℕ) × (parse_tunnel net entry ≡ some (ip, teid))
        × ((teid == 0) ≡ false)
        × (format_tunnel (net.ip_string ip) teid ≡ x))
      ⊎ NamesTunnel entries

  -- One of the policies that are not being deleted has it in its status.
  abbrev pub ClaimsSource : List Policy → Type 0
  ClaimsSource [] = ⊥
  ClaimsSource (p ∷ ps) =
      ((p.deleting ≡ false) × NamesSource p.status.blocked_source_ips) ⊎ ClaimsSource ps

  abbrev pub ClaimsTunnel : List Policy → Type 0
  ClaimsTunnel [] = ⊥
  ClaimsTunnel (p ∷ ps) =
      ((p.deleting ≡ false) × NamesTunnel p.status.blocked_tunnels) ⊎ ClaimsTunnel ps

  put_iff :
      {A : Type 0} (k : Text) (a : A) (m : Map Text A)
      → (find text_discrete x (put text_discrete k a m) ≢ none)
        ↔ ((k ≡ x) ⊎ (find text_discrete x m ≢ none))
  put_iff k a m = elim (text_discrete k x) [
    | yes same ↦ (λ h. inl same, λ h e. ground (arith, e, same, find-put text_discrete x k a m))
    | no other ↦ (
      λ h. inr (λ e. h (ground (arith, e, other, find-put text_discrete x k a m))),
      λ h. elim h [
        | inl same ↦ absurd (other same)
        | inr i ↦ λ e. i (ground (arith, e, other, find-put text_discrete x k a m))
      ],
    )
  ]

  desired_ips_iff :
      (raws : List Text) (m : Map Text Ip)
      → (find text_discrete x (desired_ips net raws m) ≢ none)
        ↔ (NamesSource raws ⊎ (find text_discrete x m ≢ none))
  unfolding desired_ips
  desired_ips_iff [] m = (λ h. inr h, λ h. elim h [ inl i ↦ absurd i | inr i ↦ i ])
  desired_ips_iff (raw ∷ raws) m = elim (Option-cases (net.parse_ip raw)) [
    | inl e ↦ rw (e, desired_ips) (skipped (λ (ip, i, j). cc (i)) (desired_ips_iff raws m))
    | inr (ip, e) ↦
        rw (e, desired_ips)
          (added (λ j. (ip, refl, j)) (λ (ip', i, j). cc (i, j)) (put_iff (net.ip_string ip) ip m)
            (desired_ips_iff raws (put text_discrete (net.ip_string ip) ip m)))
  ]

  desired_tunnels_iff :
      (entries : List Text) (m : Map Text BlockedTunnel)
      → (find text_discrete x (desired_tunnels net entries m) ≢ none)
        ↔ (NamesTunnel entries ⊎ (find text_discrete x m ≢ none))
  unfolding desired_tunnels
  desired_tunnels_iff [] m = (λ h. inr h, λ h. elim h [ inl i ↦ absurd i | inr i ↦ i ])
  desired_tunnels_iff (entry ∷ entries) m = elim (Option-cases (parse_tunnel net entry)) [
    | inl e ↦
        rw (e, desired_tunnels)
          (skipped (λ (ip, teid, i, j, l). cc (i)) (desired_tunnels_iff entries m))
    | inr ((ip, teid), e) ↦ elim (Bool-cases (teid == 0)) [
      | inl z ↦
          rw (e, z, desired_tunnels)
            (skipped (λ (ip', teid', i, j, l). true≢false (sym z ∙ (same_teid i ∙ j)))
              (desired_tunnels_iff entries m))
      | inr z ↦
          rw (e, z, desired_tunnels)
            (added (λ j. (ip, teid, refl, z, j)) (λ (ip', teid', i, j, l). same_key i ∙ l)
              (put_iff (format_tunnel (net.ip_string ip) teid) (record { ip = ip; teid = teid }) m)
              (desired_tunnels_iff entries _))
    ]
  ]
    where
      true≢false : true ≢ false
      true≢false e = cc

      same_teid :
          {ip ip' : Ip} {teid teid' : ℕ}
          → ◌≡◌ {A = Option (Ip × ℕ)} (some (ip, teid)) (some (ip', teid'))
          → (teid == 0) ≡ (teid' == 0)
      same_teid h = cc

      same_key :
          {ip ip' : Ip} {teid teid' : ℕ}
          → ◌≡◌ {A = Option (Ip × ℕ)} (some (ip, teid)) (some (ip', teid'))
          → format_tunnel (net.ip_string ip) teid ≡ format_tunnel (net.ip_string ip') teid'
      same_key h = cc

  -- A text is a key of what the policies want exactly if one of them claims it.
  pub desired_enforcement_iff :
      (policies : List Policy) (ips : Map Text Ip) (ts : Map Text BlockedTunnel)
      → ((find text_discrete x (desired_enforcement net policies ips ts).0 ≢ none)
          ↔ (ClaimsSource policies ⊎ (find text_discrete x ips ≢ none)))
        × ((find text_discrete x (desired_enforcement net policies ips ts).1 ≢ none)
            ↔ (ClaimsTunnel policies ⊎ (find text_discrete x ts ≢ none)))
  unfolding desired_enforcement
  desired_enforcement_iff [] ips ts = (
    (λ h. inr h, λ h. elim h [ inl i ↦ absurd i | inr i ↦ i ]),
    (λ h. inr h, λ h. elim h [ inl i ↦ absurd i | inr i ↦ i ]),
  )
  desired_enforcement_iff (policy ∷ policies) ips ts = elim (Bool-cases policy.deleting) [
    | inl e ↦ rw e (
        let (s, t) = desired_enforcement_iff policies ips ts in
        (skipped (λ (f, i). cc (f)) s, skipped (λ (f, i). cc (f)) t))
    | inr e ↦ rw e (
        let s' = desired_ips_iff policy.status.blocked_source_ips ips in
        let t' = desired_tunnels_iff policy.status.blocked_tunnels ts in
        let (s, t) = desired_enforcement_iff policies _ _ in
        (added (λ i. (refl, i)) (λ (f, i). i) s' s, added (λ i. (refl, i)) (λ (f, i). i) t' t))
  ]
