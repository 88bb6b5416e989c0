-- ===== src/Controller/Reconciler/Release.antt =====
-- The loops that lift what a policy blocked (tryDeEscalate and finalize of
-- pkg/controller/telecomsecuritypolicy_controller.go): what is out of the kernel once they are done.
use sentinel5g.Prelude.{
  ℕ, ◌≡◌, inl, inr, Bool, true, false, List, [], ◌∷◌, none, some, Text, arith, refl, Option-cases,
}
use sentinel5g.Ebpf.Interface.{Ip, BlocklistUpdater}
use sentinel5g.Controller.Api.{Policy}
use sentinel5g.Controller.Tunnels.{Addresses, parse_tunnel}
use sentinel5g.Controller.Watcher.{contains}
use sentinel5g.Controller.Reconciler.{unblock_sources, unblock_tunnels}

-- What the end of a mitigation asks of the kernel: a call that succeeds leaves the entry out, no
-- call brings an entry in, and the two maps are apart.
pub record Releasing {K : Type 0} (ebpf : BlocklistUpdater K) : Type 0 where
  pub holds : Ip → K → Bool
  pub holds_tunnel : Ip → ℕ → K → Bool
  pub unblock_gone :
      (ip : Ip) (k : K) → (ebpf.unblock ip k).1 ≡ none → holds ip (ebpf.unblock ip k).0 ≡ false
  pub unblock_brings_none :
      (ip x : Ip) (k : K) → holds x k ≡ false → holds x (ebpf.unblock ip k).0 ≡ false
  pub unblock_tunnel_gone :
      (ip : Ip) (teid : ℕ) (k : K)
      → (ebpf.unblock_tunnel ip teid k).1 ≡ none
      → holds_tunnel ip teid (ebpf.unblock_tunnel ip teid k).0 ≡ false
  pub unblock_tunnel_brings_none :
      (ip x : Ip) (teid y : ℕ) (k : K)
      → holds_tunnel x y k ≡ false
      → holds_tunnel x y (ebpf.unblock_tunnel ip teid k).0 ≡ false
  pub unblock_tunnel_apart :
      (ip x : Ip) (teid : ℕ) (k : K) → holds x (ebpf.unblock_tunnel ip teid k).0 ≡ holds x k

module _ {K : Type 0} (net : Addresses) (ebpf : BlocklistUpdater K) (laws : Releasing ebpf) where
  open laws use {
    holds, holds_tunnel, unblock_gone, unblock_brings_none, unblock_tunnel_gone,
    unblock_tunnel_brings_none, unblock_tunnel_apart,
  }

  -- None of the entries that the status records is in the kernel.
  abbrev pub IsLifted : Policy → K → Type 0
  IsLifted policy k =
      ((raw : Text) (ip : Ip)
        → contains raw policy.status.blocked_source_ips ≡ true
        → net.parse_ip raw ≡ some ip
        → holds ip k ≡ false)
      × ((entry : Text) (ip : Ip) (teid : ℕ)
          → contains entry policy.status.blocked_tunnels ≡ true
          → parse_tunnel net entry ≡ some (ip, teid)
          → holds_tunnel ip teid k ≡ false)

  pub unblock_sources-brings_none :
      (raws : List Text) (x : Ip) (k : K)
      → holds x k ≡ false
      → holds x (unblock_sources net ebpf raws k).0 ≡ false
  unfolding unblock_sources
  unblock_sources-brings_none [] x k h = h
  unblock_sources-brings_none (raw ∷ raws) x k h = elim (Option-cases (net.parse_ip raw)) [
    | inl e ↦ ground (arith, e, h, unblock_sources-brings_none raws x k)
    | inr (ip, e) ↦ ground (
      arith,
      e,
      h,
      unblock_brings_none ip x k,
      unblock_sources-brings_none raws x (ebpf.unblock ip k).0,
    )
  ]

  pub unblock_sources-gone :
      (raws : List Text) (raw : Text) (ip : Ip) (k : K)
      → (unblock_sources net ebpf raws k).1 ≡ true
      → contains raw raws ≡ true
      → net.parse_ip raw ≡ some ip
      → holds ip (unblock_sources net ebpf raws k).0 ≡ false
  unfolding unblock_sources contains
  unblock_sources-gone [] raw ip k done there parses = absurd (cc)
  unblock_sources-gone (x ∷ raws) raw ip k done there parses =
      elim (Option-cases (net.parse_ip x)) [
        | inl e ↦ ground (arith, e, done, there, parses, unblock_sources-gone raws raw ip k)
        | inr (y, e) ↦ ground (
          arith,
          e,
          done,
          there,
          parses,
          unblock_gone y k,
          unblock_sources-brings_none raws ip (ebpf.unblock y k).0,
          unblock_sources-gone raws raw ip (ebpf.unblock y k).0,
        )
      ]

  pub unblock_tunnels-apart :
      (entries : List Text) (x : Ip) (k : K)
      → holds x (unblock_tunnels net ebpf entries k).0 ≡ holds x k
  unfolding unblock_tunnels
  unblock_tunnels-apart [] x k = refl
  unblock_tunnels-apart (entry ∷ entries) x k = elim (Option-cases (parse_tunnel net entry)) [
    | inl e ↦ ground (arith, e, unblock_tunnels-apart entries x k)
    | inr ((ip, teid), e) ↦ ground (
      arith,
      e,
      unblock_tunnel_apart ip x teid k,
      unblock_tunnels-apart entries x (ebpf.unblock_tunnel ip teid k).0,
    )
  ]

  pub unblock_tunnels-brings_none :
      (entries : List Text) (x : Ip) (y : ℕ) (k : K)
      → holds_tunnel x y k ≡ false
      → holds_tunnel x y (unblock_tunnels net ebpf entries k).0 ≡ false
  unfolding unblock_tunnels
  unblock_tunnels-brings_none [] x y k h = h
  unblock_tunnels-brings_none (entry ∷ entries) x y k h =
      elim (Option-cases (parse_tunnel net entry)) [
        | inl e ↦ ground (arith, e, h, unblock_tunnels-brings_none entries x y k)
        | inr ((ip, teid), e) ↦ ground (
          arith,
          e,
          h,
          unblock_tunnel_brings_none ip x teid y k,
          unblock_tunnels-brings_none entries x y (ebpf.unblock_tunnel ip teid k).0,
        )
      ]

  pub unblock_tunnels-gone :
      (entries : List Text) (entry : Text) (ip : Ip) (teid : ℕ) (k : K)
      → (unblock_tunnels net ebpf entries k).1 ≡ true
      → contains entry entries ≡ true
      → parse_tunnel net entry ≡ some (ip, teid)
      → holds_tunnel ip teid (unblock_tunnels net ebpf entries k).0 ≡ false
  unfolding unblock_tunnels contains
  unblock_tunnels-gone [] entry ip teid k done there parses = absurd (cc)
  unblock_tunnels-gone (x ∷ entries) entry ip teid k done there parses =
      elim (Option-cases (parse_tunnel net x)) [
        | inl e ↦
            ground (arith, e, done, there, parses, unblock_tunnels-gone entries entry ip teid k)
        | inr ((y, z), e) ↦ ground (
          arith,
          e,
          done,
          there,
          parses,
          unblock_tunnel_gone y z k,
          unblock_tunnels-brings_none entries ip teid (ebpf.unblock_tunnel y z k).0,
          unblock_tunnels-gone entries entry ip teid (ebpf.unblock_tunnel y z k).0,
        )
      ]
