-- ===== src/Controller/PolicyIndex.antt =====
-- pkg/controller/policy_index.go: the cache of policies, by namespace and then by name. Go walks
-- a namespace's policies in a random order; here it is the order of the list.
pub mod Selectors
pub mod View
use sentinel5g.Prelude.{
  Bool, true, false, List, [], ◌∷◌, Option, none, some, Text, codes, text_discrete, if◌then◌else◌,
  ◌&&◌, ◌||◌, ite,
}
use sentinel5g.Prelude.Map.{Map, find, put, del}
use sentinel5g.Controller.Names.{NamespacedName}
use sentinel5g.Controller.Api.{WorkloadSelector, Policy}

abbrev pub ByName : Type 0
ByName = Map Text Policy

abbrev pub PolicyIndex : Type 0
PolicyIndex = Map Text ByName

-- byNamespace[namespace]: nil, which holds nothing, where it is missing.
unfoldable pub in_namespace : Text → PolicyIndex → ByName
in_namespace namespace idx = elim (find text_discrete namespace idx) [
  | none ↦ []
  | some by_name ↦ by_name
]

-- Put: the policy is a copy, as every value is here.
unfoldable pub put_policy : Policy → PolicyIndex → PolicyIndex
put_policy policy idx =
    put text_discrete policy.key.namespace
      (put text_discrete policy.key.name policy (in_namespace policy.key.namespace idx)) idx

-- The namespace after a delete, itself deleted if that left it empty.
unfoldable pub shrink : Text → ByName → PolicyIndex → PolicyIndex
shrink namespace [] idx = del text_discrete namespace idx
shrink namespace (e ∷ by_name) idx = put text_discrete namespace (e ∷ by_name) idx

-- Remove
unfoldable pub remove_policy : NamespacedName → PolicyIndex → PolicyIndex
remove_policy key idx = elim (find text_discrete key.namespace idx) [
  | none ↦ idx
  | some by_name ↦ shrink key.namespace (del text_discrete key.name by_name) idx
]

-- labels[k], which is empty where it is missing.
unfoldable pub label : Text → Map Text Text → Text
label k labels = elim (find text_discrete k labels) [ none ↦ [] | some v ↦ v ]

unfoldable pub all_labels : Map Text Text → Map Text Text → Bool
all_labels [] labels = true
all_labels ((k, v) ∷ wanted) labels =
    ite (text_discrete (label k labels) v) (all_labels wanted labels) false

unfoldable pub no_labels : Map Text Text → Bool
no_labels [] = true
no_labels (e ∷ wanted) = false

-- selectorMatchesOne
unfoldable pub selector_matches_one : WorkloadSelector → Map Text Text → Bool
selector_matches_one sel labels =
    ite (text_discrete sel.app [])
      (if no_labels sel.match_labels then false else all_labels sel.match_labels labels)
      (ite (text_discrete (label (codes "app") labels) sel.app) (all_labels sel.match_labels labels)
        false)

-- selectorMatches
unfoldable pub selector_matches : List WorkloadSelector → Map Text Text → Bool
selector_matches [] labels = false
selector_matches (sel ∷ sels) labels =
    if selector_matches_one sel labels then true else selector_matches sels labels

unfoldable pub select : ByName → Map Text Text → List Policy
select [] labels = []
select ((name, policy) ∷ rest) labels =
    let found = select rest labels in
    if selector_matches policy.spec.target_workloads labels then policy ∷ found else found

-- MatchingPolicies
unfoldable pub matching_policies : Text → Map Text Text → PolicyIndex → List Policy
matching_policies namespace labels idx = select (in_namespace namespace idx) labels
