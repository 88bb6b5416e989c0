-- ===== src/Controller/Metrics/Gauges.antt =====
-- The phase gauge of pkg/controller/metrics.go, over the phases that the operator reports and the
-- policies that it forgets.
use sentinel5g.Prelude.{
  ℕ, ◌≡◌, ◌≢◌, ◌⊎◌, inl, inr, refl, arith, sym, ap, ◌∙◌, List, [], ◌∷◌, Option, none, some, ite,
  if_pos, if_neg,
}
use sentinel5g.Controller.Names.{NamespacedName, name_discrete}
use sentinel5g.Controller.Api.{
  Phase, unset, pending, monitoring, alerting, mitigating, degraded, phase_discrete,
}
use sentinel5g.Controller.Metrics.{
  Labels, GaugeVec, CounterVec, GaugeLaws, Registry, all_policy_phases, phase_value,
  labels_discrete, set_phases, set_policy_phase, forget_policy_metrics,
}

pub data Update : Type 0 where
  reported : NamespacedName → Phase → Update
  forgotten : NamespacedName → Update

abbrev pub Listed : Phase → List Phase → Type 0
Listed q [] = ⊥
Listed q (p ∷ ps) = (p ≡ q) ⊎ Listed q ps

-- The phase reported of a policy since it was last forgotten. The newest update stands first.
unfoldable pub latest : NamespacedName → List Update → Option Phase
latest policy [] = none
latest policy (reported k phase ∷ earlier) =
    ite (name_discrete k policy) (some phase) (latest policy earlier)
latest policy (forgotten k ∷ earlier) = ite (name_discrete k policy) none (latest policy earlier)

-- What the gauge of a policy is to read at the first phase, where it is in the second, if in any: 1
-- if they are the same phase, and 0 if not.
unfoldable pub one_hot : Phase → Option Phase → Option ℕ
one_hot q none = none
one_hot q (some phase) = some (ite (phase_discrete q phase) 1 0)

all-Listed : (q : Phase) → q ≢ unset → Listed q all_policy_phases
all-Listed unset h = absurd (h refl)
all-Listed pending h = inl refl
all-Listed monitoring h = inr (inl refl)
all-Listed alerting h = inr (inr (inl refl))
all-Listed mitigating h = inr (inr (inr (inl refl)))
all-Listed degraded h = inr (inr (inr (inr (inl refl))))

module _ {G C T : Type 0} (gauges : GaugeVec G) (crossings : CounterVec C)
    (throttled : CounterVec T) where
  unfoldable pub apply_updates : List Update → Registry G C T → Registry G C T
  apply_updates [] r = r
  apply_updates (reported k phase ∷ earlier) r =
      set_policy_phase gauges k phase (apply_updates earlier r)
  apply_updates (forgotten k ∷ earlier) r =
      forget_policy_metrics gauges crossings throttled k (apply_updates earlier r)

module _ {G C T : Type 0} (gauges : GaugeVec G) (laws : GaugeLaws gauges) (crossings : CounterVec C)
    (throttled : CounterVec T) where
  at : NamespacedName → Phase → G → Option ℕ
  at policy q g = laws.read (record { policy = policy; phase = q }) g

  set-read_same : (l : Labels) (n : ℕ) (g : G) → laws.read l (gauges.set l n g) ≡ some n
  set-read_same l n g =
      laws.read_set l l n g ∙ if_pos (labels_discrete l l) refl (some n) (laws.read l g)

  set-read_other :
      (l j : Labels) (n : ℕ) (g : G) → l ≢ j → laws.read j (gauges.set l n g) ≡ laws.read j g
  set-read_other l j n g apart =
      laws.read_set l j n g ∙ if_neg (labels_discrete l j) apart (some n) (laws.read j g)

  read_same :
      (policy : NamespacedName) (p q phase : Phase) (g : G)
      → (p ≡ q) ⊎ (at policy q g ≡ some (phase_value q phase))
      → at policy q (gauges.set (record { policy = policy; phase = p }) (phase_value p phase) g)
        ≡ some (phase_value q phase)
  unfolding at
  read_same policy p q phase g h =
      let l : Phase → Labels = λ x. record { policy = policy; phase = x } in
      let n = phase_value p phase in
      elim (phase_discrete p q) [
        | yes same ↦
            ap (λ x. laws.read (l x) (gauges.set (l p) n g)) (sym same)
            ∙ set-read_same (l p) n g
            ∙ ap (λ x. some (phase_value x phase)) same
        | no apart ↦
            set-read_other (l p) (l q) n g (λ e. apart (ap (λ (x : Labels). x.phase) e))
            ∙ elim h [ inl same ↦ absurd (apart same) | inr before ↦ before ]
      ]

  -- A phase of the list, or one that already has its value, has it after the loop.
  set_phases-same :
      (policy : NamespacedName) (q phase : Phase) (ps : List Phase) (g : G)
      → Listed q ps ⊎ (at policy q g ≡ some (phase_value q phase))
      → at policy q (set_phases gauges policy phase ps g) ≡ some (phase_value q phase)
  unfolding set_phases
  set_phases-same policy q phase [] g (inl h) = absurd h
  set_phases-same policy q phase [] g (inr h) = h
  set_phases-same policy q phase (p ∷ ps) g h =
      set_phases-same policy q phase ps
        (gauges.set (record { policy = policy; phase = p }) (phase_value p phase) g)
        (elim h [
          | inl (inl same) ↦ inr (read_same policy p q phase g (inl same))
          | inl (inr later) ↦ inl later
          | inr before ↦ inr (read_same policy p q phase g (inr before))
        ])

  set_phases-other :
      (policy other : NamespacedName) (q phase : Phase) (ps : List Phase) (g : G)
      → policy ≢ other
      → at other q (set_phases gauges policy phase ps g) ≡ at other q g
  unfolding set_phases at
  set_phases-other policy other q phase [] g h = refl
  set_phases-other policy other q phase (p ∷ ps) g h =
      set_phases-other policy other q phase ps
        (gauges.set (record { policy = policy; phase = p }) (phase_value p phase) g) h
      ∙ set-read_other (record { policy = policy; phase = p })
          (record { policy = other; phase = q }) (phase_value p phase) g
          (λ e. h (ap (λ (x : Labels). x.policy) e))

  -- Begin with no series. After any updates, the gauge of a policy at one of the five phases reads 1 if
  -- that is the phase last reported of the policy, 0 if another one is, and nothing if the policy was
  -- since forgotten or never reported.
  pub apply_updates-reads :
      (updates : List Update) (r : Registry G C T) (policy : NamespacedName) (q : Phase)
      → q ≢ unset
      → ((j : Labels) → laws.read j r.policy_phase ≡ none)
      → laws.read
          (record { policy = policy; phase = q })
          (apply_updates gauges crossings throttled updates r).policy_phase
        ≡ one_hot q (latest policy updates)
  unfolding apply_updates latest one_hot phase_value set_policy_phase forget_policy_metrics at
  apply_updates-reads [] r policy q known fresh = fresh (record { policy = policy; phase = q })
  apply_updates-reads (reported k phase ∷ earlier) r policy q known fresh =
      let before = apply_updates-reads earlier r policy q known fresh in
      let g = (apply_updates gauges crossings throttled earlier r).policy_phase in
      elim (name_discrete k policy) [
        | yes same ↦
            ap (λ x. at x q (set_phases gauges k phase all_policy_phases g)) (sym same)
            ∙ set_phases-same k q phase all_policy_phases g (inl (all-Listed q known))
            ∙ ap (one_hot q)
                (sym (if_pos (name_discrete k policy) same (some phase) (latest policy earlier)))
        | no apart ↦
            set_phases-other k policy q phase all_policy_phases g apart
            ∙ before
            ∙ ap (one_hot q)
                (sym (if_neg (name_discrete k policy) apart (some phase) (latest policy earlier)))
      ]
  apply_updates-reads (forgotten k ∷ earlier) r policy q known fresh =
      let before = apply_updates-reads earlier r policy q known fresh in
      laws.read_delete k (record { policy = policy; phase = q })
        (apply_updates gauges crossings throttled earlier r).policy_phase
      ∙ ground (arith, before)
