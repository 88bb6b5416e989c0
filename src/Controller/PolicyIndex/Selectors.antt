-- ===== src/Controller/PolicyIndex/Selectors.antt =====
-- Which workloads a selector takes (selectorMatchesOne of pkg/controller/policy_index.go).
use sentinel5g.Prelude.{
  true, List, [], ◌∷◌, Text, codes, if◌then◌else◌, ◌≡◌, ◌≢◌, ◌↔◌, ◌⊎◌, inl, inr, arith, refl,
  Bool-cases,
}
use sentinel5g.Prelude.Map.{Map}
use sentinel5g.Controller.Api.{WorkloadSelector}
use sentinel5g.Controller.PolicyIndex.{
  label, all_labels, no_labels, selector_matches_one, selector_matches,
}

-- Every wanted label has the wanted value; a missing one reads as empty.
abbrev pub Carries : Map Text Text → Map Text Text → Type 0
Carries labels [] = Unit {0}
Carries labels ((k, v) ∷ wanted) = (label k labels ≡ v) × Carries labels wanted

-- A selector says something, and the workload carries all that it says.
abbrev pub Selects : WorkloadSelector → Map Text Text → Type 0
Selects sel labels =
    ((sel.app ≢ []) ⊎ (sel.match_labels ≢ []))
    × ((sel.app ≢ []) → label (codes "app") labels ≡ sel.app)
    × Carries labels sel.match_labels

abbrev pub SomeSelects : List WorkloadSelector → Map Text Text → Type 0
SomeSelects [] labels = ⊥
SomeSelects (sel ∷ sels) labels = Selects sel labels ⊎ SomeSelects sels labels

all_labels_iff :
    (wanted labels : Map Text Text) → (all_labels wanted labels ≡ true) ↔ Carries labels wanted
unfolding all_labels
all_labels_iff [] labels = (λ _. tt, λ _. refl)
all_labels_iff ((k, v) ∷ wanted) labels =
    let rest = all_labels_iff wanted labels in
    (λ h. ground (arith, h, rest.0), λ h. ground (arith, h, rest.1))

no_labels_iff : (wanted : Map Text Text) → (no_labels wanted ≡ true) ↔ (wanted ≡ [])
unfolding no_labels
no_labels_iff [] = (λ _. refl, λ _. refl)
no_labels_iff (e ∷ wanted) = (λ h. cc, λ h. cc)

selector_matches_one_iff :
    (sel : WorkloadSelector) (labels : Map Text Text)
    → (selector_matches_one sel labels ≡ true) ↔ Selects sel labels
unfolding selector_matches_one
selector_matches_one_iff sel labels =
    let every = all_labels_iff sel.match_labels labels in
    let nothing = no_labels_iff sel.match_labels in
    (
      λ h. (ground (arith, h, nothing.1), ground (arith, h), ground (arith, h, every.0)),
      λ h. ground (arith, h.0, h.1, h.2, every.1, nothing.0),
    )

-- A list of selectors takes a workload exactly if one of them says something and the workload
-- carries all of it. An empty selector takes nothing, and neither does an empty list.
pub selector_matches_iff :
    (sels : List WorkloadSelector) (labels : Map Text Text)
    → (selector_matches sels labels ≡ true) ↔ SomeSelects sels labels
unfolding selector_matches
selector_matches_iff [] labels = (λ h. cc, λ h. absurd h)
selector_matches_iff (sel ∷ sels) labels =
    let one = selector_matches_one_iff sel labels in
    let rest = selector_matches_iff sels labels in
    (λ h. either h one rest, λ h. ground (arith, h, one.1, rest.1))
  where
    either :
        (if selector_matches_one sel labels then true else selector_matches sels labels) ≡ true
        → ((selector_matches_one sel labels ≡ true) ↔ Selects sel labels)
        → ((selector_matches sels labels ≡ true) ↔ SomeSelects sels labels)
        → Selects sel labels ⊎ SomeSelects sels labels
    either h one rest = elim (Bool-cases (selector_matches_one sel labels)) [
      | inl hit ↦ inl (one.0 hit)
      | inr miss ↦ inr (rest.0 (ground (arith, h, miss)))
    ]
