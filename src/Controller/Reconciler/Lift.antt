-- ===== src/Controller/Reconciler/Lift.antt =====
-- tryDeEscalate and finalize of pkg/controller/telecomsecuritypolicy_controller.go: how a mitigation
-- is lifted.
use sentinel5g.Prelude.{ℕ, ◌+◌, Bool, true, not, [], Option, none, some, if◌then◌else◌}
use sentinel5g.Prelude.Int.{pos, sub_ℕ, ltb_ℤ, pos_part}
use sentinel5g.Prelude.Map.{put}
use sentinel5g.Controller.Names.{name_discrete}
use sentinel5g.Controller.Api.{Policy, monitoring}
use sentinel5g.Controller.PolicyIndex.{put_policy, remove_policy}
use sentinel5g.Controller.Watcher.{first_match_labels}
use sentinel5g.Controller.Reconciler.{
  Reply, ReconcileError, Cluster, Reconciled, Reconciler, policy_finalizer,
  default_de_escalation_dwell, unblock_sources, unblock_tunnels, give_up, finish, accepted,
  conflict, refused, unblock_failed, unblock_tunnel_failed, release_failed, last_write_failed,
}

module _ {K M : Type 0} (r : Reconciler K M) where
  open r use {net, library}

  unfoldable pub dwell : ℕ
  dwell =
      if ltb_ℤ (pos 0) r.de_escalation_dwell
      then pos_part r.de_escalation_dwell
      else default_de_escalation_dwell

  -- The kernel's part of lifting what a policy blocked, with the error that ended it.
  unfoldable pub unblock_all : Policy → K → K × Option ReconcileError
  unblock_all policy k = elim r.ebpf [
    | none ↦ (k, none)
    | some ebpf ↦
        let (k1, done) = unblock_sources net ebpf policy.status.blocked_source_ips k in
        let (k2, done') = unblock_tunnels net ebpf policy.status.blocked_tunnels k1 in
        if done
        then (if done' then (k2, none) else (k2, some unblock_tunnel_failed))
        else (k1, some unblock_failed)
  ]

  -- The mesh's part; the Boolean is whether it succeeded.
  unfoldable pub release : Policy → M → M × Bool
  release policy m = elim r.adapter [
    | none ↦ (m, true)
    | some adapter ↦ elim (first_match_labels policy.spec.target_workloads) [
      | none ↦ (m, true)
      | some selector ↦ adapter.release policy.key.namespace selector m
    ]
  ]

  -- The policy that a de-escalation leaves.
  unfoldable pub lifted : Policy → Policy
  lifted policy = record policy {
    status = record (policy.status) {
      phase = monitoring;
      blocked_source_ips = [];
      blocked_tunnels = [];
    };
  }

  -- The end of tryDeEscalate, once kernel and mesh have been released.
  unfoldable pub settle : Reply → Policy → Cluster K M → Reconciled K M
  settle accepted policy c =
      finish
        (record c {
          store = put name_discrete policy.key (lifted policy) c.store;
          index = put_policy (lifted policy) c.index;
        })
        0
  settle conflict policy c = give_up c last_write_failed
  settle refused policy c = give_up c last_write_failed

  -- The body of tryDeEscalate, once the dwell time is over.
  unfoldable pub lift : Reply → Policy → Cluster K M → Reconciled K M
  lift reply policy c =
      let (k, e) = unblock_all policy c.kernel in
      let (m, done) =
        if policy.spec.actions.isolate_pod then release policy c.mesh else (c.mesh, true) in
      elim e [
        | some failure ↦ give_up (record c { kernel = k }) failure
        | none ↦
            if done
            then settle reply policy (record c { kernel = k; mesh = m })
            else give_up (record c { kernel = k; mesh = m }) release_failed
      ]

  -- tryDeEscalate
  unfoldable pub try_de_escalate : ℕ → Reply → Policy → Cluster K M → Reconciled K M
  try_de_escalate now reply policy c = elim policy.status.last_mitigation_time [
    | none ↦ finish c 0
    | some last ↦
        let remaining = sub_ℕ (dwell + last) now in
        if ltb_ℤ (pos 0) remaining then finish c (pos_part remaining) else lift reply policy c
  ]

  -- The last write of a finalization.
  unfoldable pub release_object : Reply → Policy → Cluster K M → Reconciled K M
  release_object accepted policy c =
      finish
        (record c {
          store =
              put name_discrete policy.key (library.remove_finalizer policy policy_finalizer)
                c.store;
          index = remove_policy policy.key c.index;
        })
        0
  release_object conflict policy c = give_up c last_write_failed
  release_object refused policy c = give_up c last_write_failed

  -- finalize
  unfoldable pub finalize : Reply → Policy → Cluster K M → Reconciled K M
  finalize reply policy c =
      let (m, done) = release policy c.mesh in
      let (k, e) = unblock_all policy c.kernel in
      if not (library.contains_finalizer policy policy_finalizer)
      then finish c 0
      else if not done
      then give_up (record c { mesh = m }) release_failed
      else elim e [
        | some failure ↦ give_up (record c { mesh = m; kernel = k }) failure
        | none ↦ release_object reply policy (record c { mesh = m; kernel = k })
      ]
