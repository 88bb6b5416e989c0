-- ===== src/Controller/PolicyIndex/View.antt =====
-- The policy index (pkg/controller/policy_index.go) against its flat view: one policy at most under
-- each namespace and name.
use sentinel5g.Prelude.{
  true, false, List, [], ◌∷◌, Option, none, some, Text, text_discrete, if◌then◌else◌, ite, ◌≡◌, ◌⊎◌,
  inl, inr, arith, refl, Option-cases, Bool-cases, subst,
}
use sentinel5g.Prelude.Map.{Map, IsMap, find, put, del, find-put, find-del, put-IsMap}
use sentinel5g.Controller.Names.{NamespacedName, name_discrete}
use sentinel5g.Controller.Api.{Policy}
use sentinel5g.Controller.PolicyIndex.{
  PolicyIndex, ByName, in_namespace, put_policy, shrink, remove_policy, select, selector_matches,
}

-- What the index holds under a key.
unfoldable pub held : NamespacedName → PolicyIndex → Option Policy
held key idx = find text_discrete key.name (in_namespace key.namespace idx)

-- A Put is a write of the flat view.
pub held-put_policy :
    (key : NamespacedName) (policy : Policy) (idx : PolicyIndex)
    → held key (put_policy policy idx)
      ≡ ite (name_discrete policy.key key) (some policy) (held key idx)
unfolding held put_policy in_namespace
held-put_policy key policy idx = ground (
  arith,
  find-put text_discrete key.namespace policy.key.namespace
      (put text_discrete policy.key.name policy (in_namespace policy.key.namespace idx)) idx,
  find-put text_discrete key.name policy.key.name policy (in_namespace policy.key.namespace idx),
)

find_nothing : (name : Text) → find {V = Policy} text_discrete name [] ≡ none
unfolding find
find_nothing name = refl

find-shrink :
    (j namespace : Text) (name : Text) (by_name : ByName) (idx : PolicyIndex)
    → find text_discrete name (in_namespace j (shrink namespace by_name idx))
      ≡ ite
          (text_discrete namespace j)
          (find text_discrete name by_name)
          (find text_discrete name (in_namespace j idx))
unfolding shrink in_namespace
find-shrink j namespace name [] idx =
    unfold find in ground (arith, find-del text_discrete j namespace idx)
find-shrink j namespace name (e ∷ by_name) idx =
    ground (arith, find-put text_discrete j namespace (e ∷ by_name) idx)

-- A Remove is a deletion from it.
pub held-remove_policy :
    (j key : NamespacedName) (idx : PolicyIndex)
    → held j (remove_policy key idx) ≡ ite (name_discrete key j) none (held j idx)
unfolding held remove_policy in_namespace
held-remove_policy j key idx = elim (Option-cases (find text_discrete key.namespace idx)) [
  | inl e ↦ ground (arith, e, find_nothing key.name)
  | inr (by_name, e) ↦ ground (
    arith,
    e,
    find-shrink j.namespace key.namespace j.name (del text_discrete key.name by_name) idx,
    find-del text_discrete j.name key.name by_name,
  )
]

-- Names are keys: within a namespace each stands once.
abbrev pub IsValid : PolicyIndex → Type 0
IsValid idx = (namespace : Text) → IsMap text_discrete (in_namespace namespace idx)

IsMap-ite :
    {A : Type 0} (d : Dec A) (a b : ByName)
    → IsMap text_discrete a
    → IsMap text_discrete b
    → IsMap text_discrete (ite d a b)
IsMap-ite (yes p) a b va vb = va
IsMap-ite (no n) a b va vb = vb

in_namespace-put :
    (j namespace : Text) (by_name : ByName) (idx : PolicyIndex)
    → in_namespace j (put text_discrete namespace by_name idx)
      ≡ ite (text_discrete namespace j) by_name (in_namespace j idx)
unfolding in_namespace
in_namespace-put j namespace by_name idx =
    ground (arith, find-put text_discrete j namespace by_name idx)

pub put_policy-IsValid :
    (policy : Policy) (idx : PolicyIndex) → IsValid idx → IsValid (put_policy policy idx)
unfolding put_policy
put_policy-IsValid policy idx v namespace = rw in_namespace-put (
    IsMap-ite _ _ _
      (put-IsMap text_discrete policy.key.name policy (in_namespace policy.key.namespace idx)
        (v policy.key.namespace))
      (v namespace))

-- A Put or a Remove, as the reconciler and the watcher make them.
pub data Write : Type 0 where
  puts : Policy → Write
  removes : NamespacedName → Write

unfoldable pub write_all : PolicyIndex → List Write → PolicyIndex
write_all idx [] = idx
write_all idx (puts p ∷ ws) = write_all (put_policy p idx) ws
write_all idx (removes k ∷ ws) = write_all (remove_policy k idx) ws

abbrev pub Listed : Policy → List Policy → Type 0
Listed p [] = ⊥
Listed p (x ∷ xs) = (x ≡ p) ⊎ Listed p xs

pub select_sound :
    (p : Policy) (m : ByName) (labels : Map Text Text)
    → IsMap text_discrete m
    → Listed p (select m labels)
    → (name : Text) × (find text_discrete name m ≡ some p)
      × (selector_matches p.spec.target_workloads labels ≡ true)
unfolding select find
select_sound p [] labels v h = absurd h
select_sound p ((name, x) ∷ m) labels v h =
    let later : Listed p (select m labels)
        → (j : Text) × (ite (text_discrete name j) (some x) (find text_discrete j m) ≡ some p)
          × (selector_matches p.spec.target_workloads labels ≡ true) =
      λ l. let (j, e, hit) = select_sound p m labels v.1 l in (j, ground (arith, e, v.0), hit) in
    cases later (Bool-cases (selector_matches x.spec.target_workloads labels)) h
  where
    cases :
        (Listed p (select m labels)
          → (j : Text) × (ite (text_discrete name j) (some x) (find text_discrete j m) ≡ some p)
            × (selector_matches p.spec.target_workloads labels ≡ true))
        → (selector_matches x.spec.target_workloads labels ≡ true)
          ⊎ (selector_matches x.spec.target_workloads labels ≡ false)
        → Listed p (select ((name, x) ∷ m) labels)
        → (j : Text) × (ite (text_discrete name j) (some x) (find text_discrete j m) ≡ some p)
          × (selector_matches p.spec.target_workloads labels ≡ true)
    cases later (inr miss) l = later (rw miss at l)
    cases later (inl hit) l =
        elim (subst (λ b. Listed p (if b then x ∷ select m labels else select m labels)) hit l) [
          | inl e ↦ (name, ground (arith, e), rw (← e) hit)
          | inr l ↦ later l
        ]

-- What a sequence of writes leaves under a key: its last Put, unless it was removed since. Nothing else
-- is known of the writes to other keys.
unfoldable pub recorded : NamespacedName → Option Policy → List Write → Option Policy
recorded key before [] = before
recorded key before (puts p ∷ ws) = recorded key (ite (name_discrete p.key key) (some p) before) ws
recorded key before (removes k ∷ ws) = recorded key (ite (name_discrete k key) none before) ws
