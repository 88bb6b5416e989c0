-- ===== src/Controller/Drift/Replay.antt =====
-- Two syncs of BlocklistReconciler (pkg/controller/blocklist_reconciler.go) that follow each other.
use sentinel5g.Prelude.{
  ◌≡◌, ◌≢◌, ◌⊎◌, inl, inr, ◌↔◌, Bool, true, List, [], ◌++◌, none, some, Text, text_discrete, refl,
  sym, subst, ◌∙◌,
}
use sentinel5g.Prelude.Map.{Map, find}
use sentinel5g.Ebpf.Interface.{Ip, BlocklistUpdater}
use sentinel5g.Controller.Api.{Policy}
use sentinel5g.Controller.Tunnels.{Addresses}
use sentinel5g.Controller.Drift.{
  BlockedTunnel, Inspector, Progress, Synced, correct, desired_enforcement, actual_ips,
  actual_tunnels, sync,
}
use sentinel5g.Controller.Drift.Claimed.{ClaimsSource, ClaimsTunnel, desired_enforcement_iff}
use sentinel5g.Controller.Drift.Half.{IsKeyed}
use sentinel5g.Controller.Drift.Convergence.{correct_again}
use sentinel5g.Controller.Drift.Whole.{
  sources, tunnels, tunnel_key, IsKeyedBy, Inspected, IsClean, passes, sync-passes, correct-frame,
  actual_ips-IsKeyedBy, actual_tunnels-IsKeyedBy, desired_enforcement-IsKeyedBy,
  contains-append_left, contains-append_right,
}

module _ {K : Type 0} (net : Addresses) (ebpf : BlocklistUpdater K) (inspector : Inspector K)
    (laws : Inspected net ebpf inspector) (policies : List Policy) where
  open laws use {
    source_laws, tunnel_laws, source_named, tunnel_named, block_apart, unblock_apart,
    block_tunnel_apart, unblock_tunnel_apart, sources_read, tunnels_read,
  }

  abbrev IsWanted : K → Type 0
  IsWanted k =
      ((x : Text)
        → (source_laws.holds x k ≡ true)
          ↔ (find text_discrete x (desired_enforcement net policies [] []).0 ≢ none))
      × ((x : Text)
          → (tunnel_laws.holds x k ≡ true)
            ↔ (find text_discrete x (desired_enforcement net policies [] []).1 ≢ none))

  -- The kernel holds exactly the sources and the tunnels that the policies claim.
  abbrev pub IsEnforced : K → Type 0
  IsEnforced k =
      ((x : Text) → (source_laws.holds x k ≡ true) ↔ ClaimsSource net x policies)
      × ((x : Text) → (tunnel_laws.holds x k ≡ true) ↔ ClaimsTunnel net x policies)

  IsWanted-IsEnforced : (k : K) → IsWanted k → IsEnforced k
  unfolding find
  IsWanted-IsEnforced k (s, t) = (
    λ x. through (s x) (desired_enforcement_iff net x policies [] []).0 (λ h. h refl),
    λ x. through (t x) (desired_enforcement_iff net x policies [] []).1 (λ h. h refl),
  )
    where
      through : {A B C D : Type 0} → A ↔ B → B ↔ (C ⊎ D) → (D → ⊥) → A ↔ C
      through (ab, ba) (bc, cb) never =
          (λ a. elim (bc (ab a)) [ inl c ↦ c | inr d ↦ absurd (never d) ], λ c. ba (cb (inl c)))

  claims-IsKeyedBy :
      IsKeyedBy net.ip_string (desired_enforcement net policies [] []).0
      × IsKeyedBy (tunnel_key net) (desired_enforcement net policies [] []).1
  unfolding find
  claims-IsKeyedBy =
      desired_enforcement-IsKeyedBy net policies [] [] (λ x a e. absurd (cc)) (λ x a e. absurd (cc))

  source-IsKeyed :
      (m : Map Text Ip) → IsKeyedBy net.ip_string m → IsKeyed (sources ebpf) source_laws m
  source-IsKeyed m h x a e = source_named a ∙ h x a e

  tunnel-IsKeyed :
      (m : Map Text BlockedTunnel)
      → IsKeyedBy (tunnel_key net) m
      → IsKeyed (tunnels ebpf) tunnel_laws m
  tunnel-IsKeyed m h x a e = tunnel_named a ∙ h x a e

  sources-IsKeyed : (ips : List Ip) → IsKeyed (sources ebpf) source_laws (actual_ips net ips [])
  unfolding find
  sources-IsKeyed ips = source-IsKeyed _ (actual_ips-IsKeyedBy net ips [] (λ x a e. absurd (cc)))

  tunnels-IsKeyed :
      (ts : List BlockedTunnel) → IsKeyed (tunnels ebpf) tunnel_laws (actual_tunnels net ts [])
  unfolding find
  tunnels-IsKeyed ts = tunnel-IsKeyed _ (actual_tunnels-IsKeyedBy net ts [] (λ x a e. absurd (cc)))

  -- The pass over the tunnels leaves the sources alone, and the other way round.
  sources_stay :
      (previous : List Text) (want actual : Map Text BlockedTunnel) (k : K) (x : Text)
      → source_laws.holds x (correct (tunnels ebpf) previous want actual k).kernel
        ≡ source_laws.holds x k
  sources_stay previous want actual k x =
      correct-frame (tunnels ebpf) (source_laws.holds x)
        (λ (t : BlockedTunnel) (k : K). block_tunnel_apart t.ip t.teid k x)
        (λ (t : BlockedTunnel) (k : K). unblock_tunnel_apart t.ip t.teid k x) previous want actual k

  tunnels_stay :
      (previous : List Text) (want actual : Map Text Ip) (k : K) (x : Text)
      → tunnel_laws.holds x (correct (sources ebpf) previous want actual k).kernel
        ≡ tunnel_laws.holds x k
  tunnels_stay previous want actual k x =
      correct-frame (sources ebpf) (tunnel_laws.holds x) (λ (ip : Ip) (k : K). block_apart ip k x)
        (λ (ip : Ip) (k : K). unblock_apart ip k x) previous want actual k

  same_reading : {b c : Bool} {A : Type 0} → A ↔ (b ≡ true) → c ≡ b → A ↔ (c ≡ true)
  same_reading h e = (λ a. e ∙ h.0 a, λ i. h.1 (sym e ∙ i))

  module _ (previous : List Text) (k : K) (ips ips' : List Ip) (ts ts' : List BlockedTunnel)
      (read : inspector.blocked_ips k ≡ some ips)
      (seen : inspector.blocked_tunnels k ≡ some ts) where
    abbrev first : Progress K × Progress K
    first = passes net ebpf inspector policies ips ts previous k

    abbrev second : Progress K × Progress K
    second =
        passes net ebpf inspector policies ips' ts' (first.1.unclaimed ++ first.0.unclaimed)
          first.1.kernel

    passes-IsWanted :
        inspector.blocked_ips first.1.kernel ≡ some ips'
        → inspector.blocked_tunnels first.1.kernel ≡ some ts'
        → IsClean (some first)
        → IsClean (some second)
        → IsWanted second.1.kernel
    passes-IsWanted read' seen' clean clean' = (
      λ x.
          subst
            (λ b.
              (b ≡ true) ↔ (find text_discrete x (desired_enforcement net policies [] []).0 ≢ none))
            (sym (sources_stay noted want.1 (actual_tunnels net ts' []) second.0.kernel x))
            (correct_again (sources ebpf) source_laws previous noted want.0 (actual_ips net ips [])
              (actual_ips net ips' []) k first.1.kernel x (source-IsKeyed want.0 claims-IsKeyedBy.0)
              (sources-IsKeyed ips') (λ y. sources_read k ips y read)
              (λ y. sources_read first.1.kernel ips' y read') clean.0 clean'.0
              (sources_stay previous want.1 (actual_tunnels net ts []) first.0.kernel x)
              (contains-append_right _ first.1.unclaimed first.0.unclaimed)),
      λ x.
          correct_again (tunnels ebpf) tunnel_laws previous noted want.1 (actual_tunnels net ts [])
            (actual_tunnels net ts' []) first.0.kernel second.0.kernel x
            (tunnel-IsKeyed want.1 claims-IsKeyedBy.1) (tunnels-IsKeyed ts')
            (λ y.
              same_reading (tunnels_read k ts y seen)
                (tunnels_stay previous want.0 (actual_ips net ips []) k y))
            (λ y.
              same_reading (tunnels_read first.1.kernel ts' y seen')
                (tunnels_stay noted want.0 (actual_ips net ips' []) first.1.kernel y))
            clean.1 clean'.1 (tunnels_stay noted want.0 (actual_ips net ips' []) first.1.kernel x)
            (contains-append_left _ first.1.unclaimed first.0.unclaimed),
    )
      where
        noted : List Text
        noted = first.1.unclaimed ++ first.0.unclaimed

        want : Map Text Ip × Map Text BlockedTunnel
        want = desired_enforcement net policies [] []

  -- Two syncs in a row, on the same policies, neither of which reports an error: the kernel then holds
  -- exactly the sources and the tunnels that the statuses of the policies claim, those of the policies
  -- that are being deleted and the entries that do not parse left out, whatever it held before, and
  -- whatever an earlier sync had noted. The calls and the reads of the kernel do what they say, and a call for a
  -- source touches no tunnel nor the other way round.
  pub sync-IsEnforced :
      (previous : List Text) (k : K)
      → let first = sync net ebpf inspector (some policies) previous k in
        let second = sync net ebpf inspector (some policies) first.unclaimed first.kernel in
        IsClean first.report → IsClean second.report → IsEnforced second.kernel
  sync-IsEnforced previous k clean =
      let (ips, ts, read, seen, ran) = sync-passes net ebpf inspector policies previous k clean in
      subst
        (λ (r : Synced K).
          IsClean (sync net ebpf inspector (some policies) r.unclaimed r.kernel).report
          → IsEnforced (sync net ebpf inspector (some policies) r.unclaimed r.kernel).kernel)
        (sym ran)
        (λ clean'.
          let p = passes net ebpf inspector policies ips ts previous k in
          let (ips', ts', read', seen', ran') =
            sync-passes net ebpf inspector policies (p.1.unclaimed ++ p.0.unclaimed) p.1.kernel
              clean' in
          subst (λ (r : Synced K). IsEnforced r.kernel) (sym ran')
            (IsWanted-IsEnforced _ (
              passes-IsWanted previous k ips ips' ts ts' read seen read' seen'
                (subst (λ (r : Synced K). IsClean r.report) ran clean)
                (subst (λ (r : Synced K). IsClean r.report) ran' clean'))))
