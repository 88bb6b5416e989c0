-- ===== src/Controller/Reconciler/Deescalation.antt =====
-- When a mitigation ends (tryDeEscalate and finalize of
-- pkg/controller/telecomsecuritypolicy_controller.go), and what is gone from the kernel by then.
use sentinel5g.Prelude.{
  ℕ, ◌+◌, ◌<◌, ◌≡◌, ◌≢◌, ◌⊎◌, inl, inr, true, [], none, some, arith, refl, Option-cases, ap, ◌∙◌,
  subst, sym, ◌≤◌,
}
use sentinel5g.Prelude.Int.{set_or, set_or-eq}
use sentinel5g.Prelude.Map.{find, find-put}
use sentinel5g.Ebpf.Interface.{BlocklistUpdater}
use sentinel5g.Controller.Names.{name_discrete}
use sentinel5g.Controller.Api.{Policy, monitoring}
use sentinel5g.Controller.Reconciler.{
  Reply, Cluster, Reconciler, unblock_sources, unblock_tunnels, policy_finalizer,
}
use sentinel5g.Controller.Reconciler.Lift.{
  unblock_all, dwell, settle, lift, lifted, try_de_escalate, release_object, finalize,
}
use sentinel5g.Controller.Reconciler.Release.{
  Releasing, IsLifted, unblock_sources-gone, unblock_tunnels-apart, unblock_tunnels-gone,
}

module _ {K M : Type 0} (r : Reconciler K M) where
  -- The API server has the policy in Monitoring with nothing recorded as blocked, and otherwise with
  -- the metadata, the spec and the rest of the status that it had.
  abbrev pub IsCleared : Policy → Cluster K M → Type 0
  IsCleared policy c =
      (p : Policy) × (find name_discrete policy.key c.store ≡ some p)
      × (p.status.phase ≡ monitoring)
      × (p.status.blocked_source_ips ≡ [])
      × (p.status.blocked_tunnels ≡ [])
      × (p.key ≡ policy.key)
      × (p.spec ≡ policy.spec)
      × (p.finalizers ≡ policy.finalizers)
      × (p.status.observed_threat_score ≡ policy.status.observed_threat_score)
      × (p.status.last_mitigation_time ≡ policy.status.last_mitigation_time)
      × (p.status.conditions ≡ policy.status.conditions)

  lifted-IsCleared :
      (policy : Policy) (c : Cluster K M)
      → find name_discrete policy.key c.store ≡ some (lifted r policy)
      → IsCleared policy c
  unfolding lifted
  lifted-IsCleared policy c e =
      (lifted r policy, e, refl, refl, refl, refl, refl, refl, refl, refl, refl)

  try_de_escalate-stores :
      (now last : ℕ) (reply : Reply) (policy : Policy) (c : Cluster K M)
      → policy.status.last_mitigation_time ≡ some last
      → last + dwell r ≤ now
      → (try_de_escalate r now reply policy c).failure ≡ none
      → find name_discrete policy.key (try_de_escalate r now reply policy c).cluster.store
        ≡ some (lifted r policy)
  unfolding try_de_escalate lift settle
  try_de_escalate-stores now last reply policy c e h ok =
      ground
        (arith, e, h, ok, find-put name_discrete policy.key policy.key (lifted r policy) c.store)

  dwell-eq : dwell r ≡ set_or r.de_escalation_dwell 300000000000
  unfolding dwell
  dwell-eq = set_or-eq r.de_escalation_dwell 300000000000

  waits :
      (now last : ℕ) (reply : Reply) (policy : Policy) (c : Cluster K M)
      → policy.status.last_mitigation_time ≡ some last
      → now < last + dwell r
      → ((try_de_escalate r now reply policy c).cluster ≡ c)
        × (now + (try_de_escalate r now reply policy c).requeue_after ≡ last + dwell r)
        × ((try_de_escalate r now reply policy c).failure ≡ none)
  unfolding try_de_escalate
  waits now last reply policy c e h = ground (arith, e, h)

  no_requeue :
      (now last : ℕ) (reply : Reply) (policy : Policy) (c : Cluster K M)
      → policy.status.last_mitigation_time ≡ some last
      → last + dwell r ≤ now
      → (try_de_escalate r now reply policy c).requeue_after ≡ 0
  unfolding try_de_escalate lift settle
  no_requeue now last reply policy c e h = ground (arith, e, h)

  -- A mitigation ends at its last mitigation time plus the dwell time, which is the one configured, or
  -- five minutes where that is not positive. Whenever the policy is looked at before, nothing at all
  -- is changed, and it is to be looked at again exactly at that end. From then on it is not asked for
  -- again, and unless the attempt reports a failure the API server has the policy in Monitoring, with
  -- nothing recorded as blocked.
  pub try_de_escalate-on_time :
      (last : ℕ) (reply : Reply) (policy : Policy) (c : Cluster K M)
      → policy.status.last_mitigation_time ≡ some last
      → ((now : ℕ)
          → now < last + set_or r.de_escalation_dwell 300000000000
          → ((try_de_escalate r now reply policy c).cluster ≡ c)
            × (now + (try_de_escalate r now reply policy c).requeue_after
                ≡ last + set_or r.de_escalation_dwell 300000000000)
            × ((try_de_escalate r now reply policy c).failure ≡ none))
        × ((now : ℕ)
            → last + set_or r.de_escalation_dwell 300000000000 ≤ now
            → ((try_de_escalate r now reply policy c).requeue_after ≡ 0)
              × (((try_de_escalate r now reply policy c).failure ≢ none)
                  ⊎ IsCleared policy (try_de_escalate r now reply policy c).cluster))
  try_de_escalate-on_time last reply policy c e = (
    λ now h. rw (← dwell-eq) (waits now last reply policy c e (rw dwell-eq h)),
    λ now h.
        let over : last + dwell r ≤ now = rw dwell-eq h in
        (
          no_requeue now last reply policy c e over,
          elim (Option-cases (try_de_escalate r now reply policy c).failure) [
            | inl ok ↦ inr (
                lifted-IsCleared policy (try_de_escalate r now reply policy c).cluster
                  (try_de_escalate-stores now last reply policy c e over ok))
            | inr (failure, f) ↦ inl (λ ok. cc (f, ok))
          ],
        ),
  )

  lift-keeps_status :
      (reply : Reply) (policy : Policy) (c : Cluster K M)
      → (lift r reply policy c).failure ≢ none
      → ((lift r reply policy c).cluster.store ≡ c.store)
        × ((lift r reply policy c).cluster.index ≡ c.index)
  unfolding lift settle
  lift-keeps_status reply policy c h = ground (arith, h)

  module _ (ebpf : BlocklistUpdater K) (laws : Releasing ebpf) (uses : r.ebpf ≡ some ebpf) where
    unblock_all-IsLifted :
        (policy : Policy) (k : K)
        → (unblock_all r policy k).1 ≡ none
        → IsLifted r.net ebpf laws policy (unblock_all r policy k).0
    unblock_all-IsLifted policy k h =
        let k1 = (unblock_sources r.net ebpf policy.status.blocked_source_ips k) in
        let k2 = (unblock_tunnels r.net ebpf policy.status.blocked_tunnels k1.0) in
        let (e, d1, d2) = steps in
        (
          λ raw ip there parses.
              ap (laws.holds ip) e
              ∙ unblock_tunnels-apart r.net ebpf laws policy.status.blocked_tunnels ip k1.0
              ∙ unblock_sources-gone r.net ebpf laws policy.status.blocked_source_ips raw ip k d1
                  there parses,
          λ entry ip teid there parses.
              ap (laws.holds_tunnel ip teid) e
              ∙ unblock_tunnels-gone r.net ebpf laws policy.status.blocked_tunnels entry ip teid
                  k1.0 d2 there parses,
        )
      where
        steps :
            ((unblock_all r policy k).0
              ≡ (unblock_tunnels r.net ebpf policy.status.blocked_tunnels
                  (unblock_sources r.net ebpf policy.status.blocked_source_ips k).0).0)
            × ((unblock_sources r.net ebpf policy.status.blocked_source_ips k).1 ≡ true)
            × ((unblock_tunnels r.net ebpf policy.status.blocked_tunnels
                  (unblock_sources r.net ebpf policy.status.blocked_source_ips k).0).1
                ≡ true)
        steps = unfold unblock_all in ground (arith, uses, h)

    -- With the kernel's blocklist attached, whose calls do what they say: a de-escalation of a policy
    -- whose dwell time since its last mitigation is over and that reports no error has taken every
    -- source and every tunnel that the status recorded out of the kernel, and the API server has the
    -- policy in Monitoring, with nothing recorded as blocked and the rest of it as it was.
    pub try_de_escalate-IsLifted :
        (now last : ℕ) (reply : Reply) (policy : Policy) (c : Cluster K M)
        → policy.status.last_mitigation_time ≡ some last
        → last + dwell r ≤ now
        → (try_de_escalate r now reply policy c).failure ≡ none
        → IsLifted r.net ebpf laws policy (try_de_escalate r now reply policy c).cluster.kernel
          × IsCleared policy (try_de_escalate r now reply policy c).cluster
    try_de_escalate-IsLifted now last reply policy c e h ok =
        let (same, clean) = steps in
        (
          subst (IsLifted r.net ebpf laws policy) (sym same)
              (unblock_all-IsLifted policy c.kernel clean),
          lifted-IsCleared policy (try_de_escalate r now reply policy c).cluster
              (try_de_escalate-stores now last reply policy c e h ok),
        )
      where
        steps :
            ((try_de_escalate r now reply policy c).cluster.kernel
              ≡ (unblock_all r policy c.kernel).0)
            × ((unblock_all r policy c.kernel).1 ≡ none)
        steps = unfold try_de_escalate in unfold lift in unfold settle in ground (arith, e, h, ok)

    -- A policy that is being deleted loses its finalizer, and so can go, only when every source and
    -- every tunnel that its status recorded is out of the kernel; on an error it keeps it.
    pub finalize-IsLifted :
        (reply : Reply) (policy : Policy) (c : Cluster K M)
        → r.library.contains_finalizer policy policy_finalizer ≡ true
        → (IsLifted r.net ebpf laws policy (finalize r reply policy c).cluster.kernel
            × (find name_discrete policy.key (finalize r reply policy c).cluster.store
                ≡ some (r.library.remove_finalizer policy policy_finalizer)))
          ⊎ ((finalize r reply policy c).failure ≢ none)
            × ((finalize r reply policy c).cluster.store ≡ c.store)
            × ((finalize r reply policy c).cluster.index ≡ c.index)
    finalize-IsLifted reply policy c has = elim (Option-cases (finalize r reply policy c).failure) [
      | inl ok ↦
          let (same, clean, there) = steps ok in
          inl (
            subst (IsLifted r.net ebpf laws policy) (sym same)
                (unblock_all-IsLifted policy c.kernel clean),
            there,
          )
      | inr (failure, e) ↦ inr (kept (λ f. cc))
    ]
      where
        steps :
            (finalize r reply policy c).failure ≡ none
            → ((finalize r reply policy c).cluster.kernel ≡ (unblock_all r policy c.kernel).0)
              × ((unblock_all r policy c.kernel).1 ≡ none)
              × (find name_discrete policy.key (finalize r reply policy c).cluster.store
                  ≡ some (r.library.remove_finalizer policy policy_finalizer))
        steps ok =
            unfold finalize in
            unfold release_object in
            ground (
              arith,
              has,
              ok,
              find-put name_discrete policy.key policy.key
                  (r.library.remove_finalizer policy policy_finalizer) c.store,
            )

        kept :
            (finalize r reply policy c).failure ≢ none
            → ((finalize r reply policy c).failure ≢ none)
              × ((finalize r reply policy c).cluster.store ≡ c.store)
              × ((finalize r reply policy c).cluster.index ≡ c.index)
        kept failed = unfold finalize in unfold release_object in ground (arith, has, failed)

  -- A de-escalation that fails leaves the status claiming all that it claimed, in the API server
  -- and in the index.
  pub try_de_escalate_failed :
      (now : ℕ) (reply : Reply) (policy : Policy) (c : Cluster K M)
      → (try_de_escalate r now reply policy c).failure ≢ none
      → ((try_de_escalate r now reply policy c).cluster.store ≡ c.store)
        × ((try_de_escalate r now reply policy c).cluster.index ≡ c.index)
  unfolding try_de_escalate
  try_de_escalate_failed now reply policy c h = ground (arith, h, lift-keeps_status reply policy c)
