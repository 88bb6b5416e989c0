-- ===== src/Controller/Watcher/Snapshot.antt =====
-- The policies that handle (pkg/controller/threat_score_watcher.go) takes from the index.
use sentinel5g.Prelude.{
  ◌≡◌, ◌≢◌, ◌⊎◌, inl, inr, true, false, List, [], ◌∷◌, some, Text, text_discrete, arith, ap,
  Bool-cases,
}
use sentinel5g.Prelude.Map.{Map, IsMap, find}
use sentinel5g.Controller.Names.{NamespacedName}
use sentinel5g.Controller.Api.{Policy}
use sentinel5g.Controller.PolicyIndex.{select, selector_matches}
use sentinel5g.Controller.PolicyIndex.View.{Listed, select_sound}

-- No two of the policies share a key.
abbrev pub Distinct : List Policy → Type 0
Distinct [] = Unit {0}
Distinct (p ∷ ps) = ((q : Policy) → Listed q ps → q.key ≢ p.key) × Distinct ps

pub select-Distinct :
    (m : Map Text Policy) (labels : Map Text Text)
    → IsMap text_discrete m
    → ((j : Text) (p : Policy) → find text_discrete j m ≡ some p → p.key.name ≡ j)
    → Distinct (select m labels)
unfolding select find
select-Distinct [] labels v named = tt
select-Distinct ((name, p) ∷ m) labels v named =
    let rest = select-Distinct m labels v.1 later in
    cases rest (Bool-cases (selector_matches p.spec.target_workloads labels))
  where
    later : (j : Text) (q : Policy) → find text_discrete j m ≡ some q → q.key.name ≡ j
    later j q e = named j q (ground (arith, e, v.0))

    others : (q : Policy) → Listed q (select m labels) → q.key ≢ p.key
    others q l same =
        let (j, e, _) = select_sound q m labels v.1 l in
        let here : p.key.name ≡ name = named name p (ground arith) in
        let there = later j q e in
        ground (arith, here, there, e, v.0, ap (λ (k : NamespacedName). k.name) same)

    cases :
        Distinct (select m labels)
        → (selector_matches p.spec.target_workloads labels ≡ true)
          ⊎ (selector_matches p.spec.target_workloads labels ≡ false)
        → Distinct (select ((name, p) ∷ m) labels)
    cases rest (inl hit) = rw hit (others, rest)
    cases rest (inr miss) = rw miss rest
