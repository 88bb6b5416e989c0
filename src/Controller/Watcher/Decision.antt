-- ===== src/Controller/Watcher/Decision.antt =====
-- What applyPolicy (pkg/controller/threat_score_watcher.go) decides to do on a score: the guards that
-- the status written ahead and the actions share.
use sentinel5g.Prelude.{◌≡◌, ◌≢◌, ◌↔◌, true, some, arith}
use sentinel5g.Events.{ThreatScoreEvent}
use sentinel5g.Ebpf.Interface.{Ip}
use sentinel5g.Controller.Api.{Policy}
use sentinel5g.Controller.Tunnels.{Addresses}
use sentinel5g.Controller.Watcher.{when}
use sentinel5g.Controller.Watcher.Apply.{intent_of}

module _ {F : Type 0} (net : Addresses) (policy : Policy) (event : ThreatScoreEvent F) where
  -- A tunnel is to be blocked exactly if the policy asks for it, the score names a tunnel and its
  -- source is an address.
  pub tunnel_iff :
      (ip : Ip)
      → ((intent_of net policy event).tunnel ≡ some ip) ↔ (
          (policy.spec.actions.ebpf_block_tunnel ≡ true)
          × (event.teid ≢ 0)
          × (net.parse_ip event.source_ip ≡ some ip))
  unfolding intent_of when
  tunnel_iff ip = (
    λ h. (ground (arith, h), ground (arith, h), ground (arith, h)),
    λ h. ground (arith, h.0, h.1, h.2),
  )

  -- A source is to be blocked exactly if the policy asks for it and the source is an address.
  pub source_iff :
      (ip : Ip)
      → ((intent_of net policy event).source ≡ some ip)
        ↔ ((policy.spec.actions.ebpf_block ≡ true) × (net.parse_ip event.source_ip ≡ some ip))
  unfolding intent_of when
  source_iff ip = (λ h. (ground (arith, h), ground (arith, h)), λ h. ground (arith, h.0, h.1))
