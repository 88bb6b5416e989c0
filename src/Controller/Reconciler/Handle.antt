-- ===== src/Controller/Reconciler/Handle.antt =====
-- Reconcile of pkg/controller/telecomsecuritypolicy_controller.go, with reportScoringPipeline.
use sentinel5g.Prelude.{ℕ, none, some, if◌then◌else◌, ite}
use sentinel5g.Prelude.Map.{find, put}
use sentinel5g.Controller.Names.{NamespacedName, name_discrete}
use sentinel5g.Controller.Api.{
  Policy, Condition, unset, pending, monitoring, mitigating, phase_discrete,
}
use sentinel5g.Controller.PolicyIndex.{put_policy, remove_policy}
use sentinel5g.Controller.Scoring.{
  Reason, scores_received, awaiting_first_score, no_threat_scores_received, Tracker,
}
use sentinel5g.Controller.Scoring
use sentinel5g.Controller.Reconciler.{
  Reply, Replies, Cluster, Reconciled, Reconciler, policy_finalizer,
  condition_scoring_pipeline_ready, with_sooner_requeue, reason_text, is_ready, says_same, give_up,
  finish, accepted, conflict, refused, get_failed, finalizer_failed, status_failed,
  condition_failed,
}
use sentinel5g.Controller.Reconciler.Lift.{try_de_escalate, finalize}

module _ {K M : Type 0} (r : Reconciler K M) where
  open r use {library}

  -- reportScoringPipeline: the delay until the answer may change, the policy after it, and the error.
  unfoldable pub report_scoring_pipeline :
      ℕ → Reply → Policy → Cluster K M → Policy × Reconciled K M
  report_scoring_pipeline now reply policy c = elim r.scoring [
    | none ↦ (policy, finish c 0)
    | some tracker ↦
        let (reason, retry_after) = Scoring.status now tracker in
        let condition : Condition = record {
          kind = condition_scoring_pipeline_ready;
          holds = is_ready reason;
          reason = reason_text reason;
        } in
        let next = record policy {
          status = record (policy.status) {
            conditions = library.set_condition policy.status.conditions condition;
          };
        } in
        if says_same
          (library.find_condition policy.status.conditions condition_scoring_pipeline_ready)
          condition
        then (policy, finish c retry_after)
        else elim reply [
          | accepted ↦ (
            next,
            finish
                (record c {
                  store = put name_discrete next.key next c.store;
                  index = put_policy next c.index;
                })
                retry_after,
          )
          | conflict ↦ (next, finish c 1000000000)
          | refused ↦ (next, give_up c condition_failed)
        ]
  ]

  -- The last part of Reconcile, for a policy that has a phase.
  unfoldable pub watch : ℕ → Replies → Policy → Cluster K M → Reconciled K M
  watch now replies policy c =
      let (next, scored) = report_scoring_pipeline now replies.condition_write policy c in
      let lifting = try_de_escalate r now replies.last_write next scored.cluster in
      elim scored.failure [
        | some failure ↦ scored
        | none ↦
            ite (phase_discrete next.status.phase mitigating)
              (record lifting {
                requeue_after = with_sooner_requeue lifting.requeue_after scored.requeue_after;
              })
              (finish scored.cluster (with_sooner_requeue 0 scored.requeue_after))
      ]

  unfoldable pub monitored : Policy → Policy
  monitored policy = record policy { status = record (policy.status) { phase = monitoring } }

  -- The start of a policy: from no phase or Pending to Monitoring.
  unfoldable pub begin : ℕ → Replies → Policy → Cluster K M → Reconciled K M
  begin now replies policy c = elim policy.status.phase [
    | unset ↦ start replies.phase_write
    | pending ↦ start replies.phase_write
    | _ ↦ watch now replies policy c
  ]
    where
      start : Reply → Reconciled K M
      start accepted = watch now replies (monitored policy) (record c {
        store = put name_discrete policy.key (monitored policy) c.store;
        index = put_policy (monitored policy) c.index;
      })
      start conflict = give_up c status_failed
      start refused = give_up c status_failed

  -- A policy that is not being deleted: its finalizer first.
  unfoldable pub adopt : ℕ → Replies → Policy → Cluster K M → Reconciled K M
  adopt now replies policy c =
      if library.contains_finalizer policy policy_finalizer
      then begin now replies policy (record c { index = put_policy policy c.index })
      else (let named = library.add_finalizer policy policy_finalizer in
          elim replies.finalizer_write [
            | accepted ↦ begin now replies named (record c {
              store = put name_discrete policy.key named c.store;
              index = put_policy named c.index;
            })
            | conflict ↦ give_up c finalizer_failed
            | refused ↦ give_up c finalizer_failed
          ])

  -- Reconcile
  unfoldable pub reconcile : ℕ → Replies → NamespacedName → Cluster K M → Reconciled K M
  reconcile now replies key c =
      if replies.readable
      then (elim (find name_discrete key c.store) [
        | none ↦ finish (record c { index = remove_policy key c.index }) 0
        | some policy ↦
            if policy.deleting
            then finalize r replies.last_write policy c
            else adopt now replies policy c
      ])
      else give_up c get_failed
