-- ===== src/Controller/Reconciler/OverLoader.antt =====
-- The end of a mitigation (pkg/controller/telecomsecuritypolicy_controller.go) over the loader's
-- Unblock and UnblockTunnel (pkg/ebpf/loader_linux.go): what is gone from the kernel's maps.
use sentinel5g.Prelude.{
  ℕ, ◌+◌, ◌≤◌, ◌≡◌, ◌≢◌, inl, inr, Bool, false, Option, none, some, arith, refl, Option-cases,
}
use sentinel5g.Ebpf.Interface.{Ip}
use sentinel5g.Ebpf.Loader.{
  MapName, MapKey, delete_failed, KernelMaps, blocklist_map_and_key, tunnel_map_and_key, delete_at,
  delete_error, loader,
}
use sentinel5g.Controller.Api.{Policy}
use sentinel5g.Controller.Reconciler.{Reply, Cluster, Reconciler}
use sentinel5g.Controller.Reconciler.Lift.{try_de_escalate, dwell}
use sentinel5g.Controller.Reconciler.Release.{Releasing, IsLifted}
use sentinel5g.Controller.Reconciler.Deescalation.{try_de_escalate-IsLifted}

-- What is asked of Delete: the key is gone unless it failed, no entry comes in, and no other map is
-- touched.
pub record MapLaws {K : Type 0} (maps : KernelMaps K) : Type 0 where
  pub has : MapName → MapKey → K → Bool
  pub delete_gone :
      (m : MapName) (key : MapKey) (k : K)
      → (maps.delete m key k).1 ≢ delete_failed
      → has m key (maps.delete m key k).0 ≡ false
  pub delete_brings_none :
      (m n : MapName) (key x : MapKey) (k : K)
      → has n x k ≡ false
      → has n x (maps.delete m key k).0 ≡ false
  pub delete_apart :
      (m n : MapName) (key x : MapKey) (k : K) → m ≢ n → has n x (maps.delete m key k).0 ≡ has n x k

maps_apart :
    (ip x : Ip) (teid : ℕ) (m n : MapName) (key key' : MapKey)
    → tunnel_map_and_key ip teid ≡ some (m, key)
    → blocklist_map_and_key x ≡ some (n, key')
    → m ≢ n
unfolding tunnel_map_and_key blocklist_map_and_key
maps_apart ip x teid m n key key' e e' = ground (arith, e, e')

module _ {K : Type 0} (maps : KernelMaps K) (laws : MapLaws maps) where
  open laws use {has, delete_gone, delete_brings_none, delete_apart}

  abbrev pub has_entry : Option (MapName × MapKey) → K → Bool
  has_entry none k = false
  has_entry (some (m, key)) k = has m key k

  pub gone :
      (at : Option (MapName × MapKey)) (k : K)
      → (delete_at maps at k).1 ≡ none
      → has_entry at (delete_at maps at k).0 ≡ false
  unfolding delete_at delete_error
  gone none k e = refl
  gone (some (m, key)) k e = ground (arith, e, delete_gone m key k)

  pub brings_none :
      (at other : Option (MapName × MapKey)) (k : K)
      → has_entry other k ≡ false
      → has_entry other (delete_at maps at k).0 ≡ false
  unfolding delete_at
  brings_none none other k e = e
  brings_none (some (m, key)) none k e = refl
  brings_none (some (m, key)) (some (n, x)) k e = delete_brings_none m n key x k e

  pub stays :
      (ip x : Ip) (teid : ℕ) (k : K)
      → has_entry (blocklist_map_and_key x) (delete_at maps (tunnel_map_and_key ip teid) k).0
        ≡ has_entry (blocklist_map_and_key x) k
  unfolding delete_at
  stays ip x teid k = elim (Option-cases (tunnel_map_and_key ip teid)) [
    | inl e ↦ ground (arith, e)
    | inr ((m, key), e) ↦ elim (Option-cases (blocklist_map_and_key x)) [
      | inl e' ↦ ground (arith, e')
      | inr ((n, key'), e') ↦
          ground
            (arith, e, e', delete_apart m n key key' k (maps_apart ip x teid m n key key' e e'))
    ]
  ]

  abbrev pub loader_releases : Releasing (loader maps)
  loader_releases = record {
    holds = λ ip k. has_entry (blocklist_map_and_key ip) k;
    holds_tunnel = λ ip teid k. has_entry (tunnel_map_and_key ip teid) k;
    unblock_gone = λ ip k e. gone (blocklist_map_and_key ip) k e;
    unblock_brings_none =
        λ ip x k e. brings_none (blocklist_map_and_key ip) (blocklist_map_and_key x) k e;
    unblock_tunnel_gone = λ ip teid k e. gone (tunnel_map_and_key ip teid) k e;
    unblock_tunnel_brings_none =
        λ ip x teid y k e. brings_none (tunnel_map_and_key ip teid) (tunnel_map_and_key x y) k e;
    unblock_tunnel_apart = λ ip x teid k. stays ip x teid k;
  }

  -- Over the loader's maps too, a de-escalation whose dwell time is over and that reports no error
  -- leaves no entry for a source or a tunnel that the status recorded, in either family's maps.
  pub try_de_escalate-loader :
      {M : Type 0} (r : Reconciler K M)
      → r.ebpf ≡ some (loader maps)
      → (now last : ℕ) (reply : Reply) (policy : Policy) (c : Cluster K M)
      → policy.status.last_mitigation_time ≡ some last
      → last + dwell r ≤ now
      → (try_de_escalate r now reply policy c).failure ≡ none
      → IsLifted r.net
          (loader maps)
          loader_releases
          policy
          (try_de_escalate r now reply policy c).cluster.kernel
  try_de_escalate-loader r uses now last reply policy c e over ok =
      (try_de_escalate-IsLifted r (loader maps) loader_releases uses now last reply policy c e over
        ok).0
