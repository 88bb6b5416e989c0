-- ===== src/Controller/Reconciler/Quiet.antt =====
-- What Reconcile (pkg/controller/telecomsecuritypolicy_controller.go) leaves alone.
use sentinel5g.Prelude.{ℕ, ◌≡◌, ◌≢◌, false, some, Text, arith, ap, sym, ◌∙◌}
use sentinel5g.Prelude.Map.{find, put}
use sentinel5g.Controller.Names.{NamespacedName, name_discrete}
use sentinel5g.Controller.Api.{Policy, mitigating}
use sentinel5g.Controller.PolicyIndex.{put_policy}
use sentinel5g.Controller.Reconciler.{Reconciler, Cluster, Replies, Reply, policy_finalizer}
use sentinel5g.Controller.Reconciler.Handle.{
  report_scoring_pipeline, watch, monitored, begin, adopt, reconcile,
}

-- The kernel and the mesh are as they were.
abbrev pub SameWorld : {K M : Type 0} → Cluster K M → Cluster K M → Type 0
SameWorld c c' = (c'.kernel ≡ c.kernel) × (c'.mesh ≡ c.mesh)

module _ {K M : Type 0} (r : Reconciler K M) where
  report-SameWorld :
      (now : ℕ) (reply : Reply) (policy : Policy) (c : Cluster K M)
      → ((report_scoring_pipeline r now reply policy c).0.status.phase ≡ policy.status.phase)
        × SameWorld c (report_scoring_pipeline r now reply policy c).1.cluster
  unfolding report_scoring_pipeline
  report-SameWorld now reply policy c = ground arith

  watch-SameWorld :
      (now : ℕ) (replies : Replies) (policy : Policy) (c : Cluster K M)
      → policy.status.phase ≢ mitigating
      → SameWorld c (watch r now replies policy c).cluster
  unfolding watch
  watch-SameWorld now replies policy c calm =
      ground (arith, calm, report-SameWorld now replies.condition_write policy c)

  begin-SameWorld :
      (now : ℕ) (replies : Replies) (policy : Policy) (c : Cluster K M)
      → policy.status.phase ≢ mitigating
      → SameWorld c (begin r now replies policy c).cluster
  unfolding begin monitored
  begin-SameWorld now replies policy c calm =
      let next = monitored r policy in
      ground (
        arith,
        calm,
        watch-SameWorld now replies policy c calm,
        watch-SameWorld now replies next (record c {
          store = put name_discrete policy.key next c.store;
          index = put_policy next c.index;
        }),
      )

  -- Reconcile touches neither the kernel nor the mesh for a policy that is neither being deleted
  -- nor Mitigating, whatever the API server replies, if adding a finalizer leaves the status alone.
  pub reconcile-SameWorld :
      (now : ℕ) (replies : Replies) (key : NamespacedName) (policy : Policy) (c : Cluster K M)
      → ((p : Policy) (name : Text) → (r.library.add_finalizer p name).status ≡ p.status)
      → find name_discrete key c.store ≡ some policy
      → policy.deleting ≡ false
      → policy.status.phase ≢ mitigating
      → SameWorld c (reconcile r now replies key c).cluster
  unfolding reconcile adopt
  reconcile-SameWorld now replies key policy c keeps there live calm =
      let named = r.library.add_finalizer policy policy_finalizer in
      let calm' : named.status.phase ≢ mitigating =
        λ e. calm (ap (λ s. s.phase) (sym (keeps policy policy_finalizer)) ∙ e) in
      ground (
        arith,
        there,
        live,
        begin-SameWorld now replies policy (record c { index = put_policy policy c.index }) calm,
        begin-SameWorld now replies named
            (record c {
              store = put name_discrete policy.key named c.store;
              index = put_policy named c.index;
            })
            calm',
      )
