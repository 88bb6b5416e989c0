-- ===== src/Mesh/Order.antt =====
-- quarantineName of pkg/mesh/istio_adapter.go: the name does not depend on the order in which Go walks
-- the selector's map.
use mathlib.Core.List.{Permᴰ}
use sentinel5g.Prelude.{
  ◌≡◌, refl, arith, ap, sym, subst, ◌∙◌, List, [], ◌∷◌, ◌++◌, Text, codes, text_discrete,
}
use sentinel5g.Prelude.Map.{Map, IsMap, find}
use sentinel5g.Controller.Drift.{sorted_keys}
use sentinel5g.Controller.Drift.Order.{insert_text-swap}
use sentinel5g.Mesh.Adapters.{value_of, selector_text, quarantine_name, fnv32a, hex_padded}

sorted_keys-Perm : (m m' : Map Text Text) → Permᴰ m m' → sorted_keys m ≡ sorted_keys m'
unfolding sorted_keys
sorted_keys-Perm [] [] Permᴰ.nil = refl
sorted_keys-Perm ((k, a) ∷ m) ((k', a') ∷ m') (Permᴰ.cons e p) =
    cc (ap (λ (x : Text × Text). x.0) e, sorted_keys-Perm m m' p)
sorted_keys-Perm ((k, a) ∷ (j, b) ∷ m) ((j', b') ∷ (k', a') ∷ _) (Permᴰ.swap e e') =
    insert_text-swap k j (sorted_keys m)
    ∙ cc (ap (λ (x : Text × Text). x.0) e, ap (λ (x : Text × Text). x.0) e')
sorted_keys-Perm m m' (Permᴰ.trans {l₂ = l} p q) = sorted_keys-Perm m l p ∙ sorted_keys-Perm l m' q

-- Two entries under two keys may change places.
find-swap :
    (k a j b : Text) (m : Map Text Text)
    → IsMap text_discrete ((k, a) ∷ (j, b) ∷ m)
    → ((x : Text)
        → find text_discrete x ((k, a) ∷ (j, b) ∷ m) ≡ find text_discrete x ((j, b) ∷ (k, a) ∷ m))
      × IsMap text_discrete ((j, b) ∷ (k, a) ∷ m)
unfolding find
find-swap k a j b m (absent, (absent', v)) =
    (λ x. ground (arith, absent), (ground (arith, absent, absent'), (ground (arith, absent), v)))

-- The same entries in another order are the same map.
find-Perm :
    (m m' : Map Text Text)
    → Permᴰ m m'
    → IsMap text_discrete m
    → ((x : Text) → find text_discrete x m ≡ find text_discrete x m') × IsMap text_discrete m'
unfolding find
find-Perm [] [] Permᴰ.nil v = (λ x. refl, v)
find-Perm (a ∷ m) (a' ∷ m') (Permᴰ.cons e p) (absent, v) =
    let (same, v') = find-Perm m m' p v in
    (
      λ x. cc (e, same x),
      (sym (same a'.0) ∙ (ap (λ y. find text_discrete y.0 m) (sym e) ∙ absent), v'),
    )
find-Perm (a ∷ b ∷ m) (b' ∷ a' ∷ _) (Permᴰ.swap e e') v =
    let (same, v') = find-swap a.0 a.1 b.0 b.1 m v in
    let entries : (b ∷ a ∷ m) ≡ (b' ∷ a' ∷ m) = cc (e, e') in
    (λ x. same x ∙ ap (find text_discrete x) entries, subst (IsMap text_discrete) entries v')
find-Perm m m' (Permᴰ.trans {l₂ = l} p q) v =
    let (same, v') = find-Perm m l p v in
    let (same', v'') = find-Perm l m' q v' in (λ x. same x ∙ same' x, v'')

selector_text-same :
    (m m' : Map Text Text) (keys : List Text)
    → ((x : Text) → find text_discrete x m ≡ find text_discrete x m')
    → selector_text m keys ≡ selector_text m' keys
unfolding selector_text value_of
selector_text-same m m' [] same = refl
selector_text-same m m' (k ∷ keys) same = cc (same k, selector_text-same m m' keys same)

-- A selector in which each label stands once and one with the same entries in another order name the
-- same quarantine.
pub quarantine_name-Perm :
    (selector selector' : Map Text Text)
    → IsMap text_discrete selector
    → Permᴰ selector selector'
    → quarantine_name selector ≡ quarantine_name selector'
unfolding quarantine_name
quarantine_name-Perm selector selector' v p =
    let text : selector_text selector (sorted_keys selector)
        ≡ selector_text selector' (sorted_keys selector') =
      selector_text-same selector selector' (sorted_keys selector)
        (find-Perm selector selector' p v).0
      ∙ ap (selector_text selector') (sorted_keys-Perm selector selector' p) in
    ap (λ t. codes "sentinel5g-quarantine-" ++ hex_padded 8 (fnv32a 2166136261 t)) text
