-- ===== src/Controller/Drift/Half.antt =====
-- One family of BlocklistReconciler.Sync (pkg/controller/blocklist_reconciler.go): what one pass
-- adds, removes and leaves alone, over any kernel that keeps to `Lawful`.
use sentinel5g.Prelude.{
  ◌≡◌, ◌≢◌, ◌⊎◌, inl, inr, Bool, true, false, List, [], ◌∷◌, ◌++◌, none, some, Text, text_discrete,
  ite, arith, refl, Option-cases,
}
use sentinel5g.Prelude.Map.{Map, find}
use sentinel5g.Controller.Watcher.{contains}
use sentinel5g.Controller.Drift.{
  Family, Progress, sorted_keys, insert_text, add_one, remove_one, error_list,
}

-- What a pass asks of the kernel's map of a family: an entry is there after an addition that
-- succeeds and gone after a removal that succeeds, no addition takes an entry away, no removal
-- brings one, and neither touches another entry.
pub record Lawful {K A : Type 0} (family : Family K A) : Type 0 where
  pub key_of : A → Text
  pub holds : Text → K → Bool
  pub add_there :
      (a : A) (k : K) → (family.add a k).1 ≡ none → holds (key_of a) (family.add a k).0 ≡ true
  pub add_keeps : (a : A) (k : K) (x : Text) → holds x k ≡ true → holds x (family.add a k).0 ≡ true
  pub add_others :
      (a : A) (k : K) (x : Text) → x ≢ key_of a → holds x (family.add a k).0 ≡ holds x k
  pub remove_gone :
      (a : A) (k : K)
      → (family.remove a k).1 ≡ none
      → holds (key_of a) (family.remove a k).0 ≡ false
  pub remove_brings_none :
      (a : A) (k : K) (x : Text) → holds x k ≡ false → holds x (family.remove a k).0 ≡ false
  pub remove_others :
      (a : A) (k : K) (x : Text) → x ≢ key_of a → holds x (family.remove a k).0 ≡ holds x k

contains-insert_text :
    (x y : Text) (ys : List Text)
    → contains x (insert_text y ys) ≡ ite (text_discrete y x) true (contains x ys)
unfolding contains insert_text
contains-insert_text x y [] = refl
contains-insert_text x y (z ∷ ys) = ground (arith, contains-insert_text x y ys)

pub contains-sorted_keys :
    {A : Type 0} (x : Text) (m : Map Text A)
    → find text_discrete x m ≢ none
    → contains x (sorted_keys m) ≡ true
unfolding sorted_keys find
contains-sorted_keys x [] h = absurd (h refl)
contains-sorted_keys x ((k, a) ∷ m) h =
    ground (arith, h, contains-insert_text x k (sorted_keys m), contains-sorted_keys x m)

module _ {K A : Type 0} (family : Family K A) (laws : Lawful family) where
  open laws use {
    key_of, holds, add_there, add_keeps, add_others, remove_gone, remove_brings_none, remove_others,
  }

  -- Each entry stands under its own text.
  abbrev pub IsKeyed : Map Text A → Type 0
  IsKeyed m = (x : Text) (a : A) → find text_discrete x m ≡ some a → key_of a ≡ x

  module _ (desired actual : Map Text A) where
    pub add_one-keeps :
        (p : Progress K) (key x : Text)
        → holds x p.kernel ≡ true
        → holds x (add_one family desired actual p key).kernel ≡ true
    unfolding add_one
    add_one-keeps p key x h = elim (Option-cases (find text_discrete key desired)) [
      | inl e ↦ ground (arith, e, h)
      | inr (a, e) ↦ ground (arith, e, h, add_keeps a p.kernel x h)
    ]

    pub add_one-adds :
        (p : Progress K) (x : Text)
        → IsKeyed desired
        → (add_one family desired actual p x).errors ≡ []
        → find text_discrete x desired ≢ none
        → (find text_discrete x actual ≢ none → holds x p.kernel ≡ true)
        → holds x (add_one family desired actual p x).kernel ≡ true
    unfolding add_one error_list
    add_one-adds p x keyed h wanted accurate = elim (Option-cases (find text_discrete x actual)) [
      | inr (a, e) ↦ ground (arith, e, accurate)
      | inl absent ↦ elim (Option-cases (find text_discrete x desired)) [
        | inl e ↦ absurd (wanted e)
        | inr (a, e) ↦ ground (arith, h, absent, e, keyed x a e, add_there a p.kernel)
      ]
    ]

    pub add_one-others :
        (p : Progress K) (key x : Text)
        → IsKeyed desired
        → find text_discrete x desired ≡ none
        → holds x (add_one family desired actual p key).kernel ≡ holds x p.kernel
    unfolding add_one
    add_one-others p key x keyed h = elim (Option-cases (find text_discrete key desired)) [
      | inl e ↦ ground (arith, e)
      | inr (a, e) ↦ ground (arith, e, h, keyed key a e, add_others a p.kernel x)
    ]

    pub add_one-errors :
        (p : Progress K) (key : Text)
        → (add_one family desired actual p key).errors ≡ []
        → p.errors ≡ []
    unfolding add_one error_list
    add_one-errors p key h = ground (arith, h)

    pub remove_one-errors :
        (previous : List Text) (p : Progress K) (key : Text)
        → (remove_one family previous desired actual p key).errors ≡ []
        → p.errors ≡ []
    unfolding remove_one error_list
    remove_one-errors previous p key h = ground (arith, h)

    pub remove_one-keeps :
        (previous : List Text) (p : Progress K) (key x : Text)
        → IsKeyed actual
        → (find text_discrete x desired ≢ none) ⊎ (contains (family.prefix ++ x) previous ≡ false)
        → holds x (remove_one family previous desired actual p key).kernel ≡ holds x p.kernel
    unfolding remove_one
    remove_one-keeps previous p key x keyed h =
        elim (Option-cases (find text_discrete key actual)) [
          | inl e ↦ ground (arith, e)
          | inr (a, e) ↦ ground (arith, e, h, keyed key a e, remove_others a p.kernel x)
        ]

    pub remove_one-brings_none :
        (previous : List Text) (p : Progress K) (key x : Text)
        → holds x p.kernel ≡ false
        → holds x (remove_one family previous desired actual p key).kernel ≡ false
    unfolding remove_one
    remove_one-brings_none previous p key x h =
        elim (Option-cases (find text_discrete key actual)) [
          | inl e ↦ ground (arith, e, h)
          | inr (a, e) ↦ ground (arith, e, h, remove_brings_none a p.kernel x h)
        ]

    pub remove_one-removes :
        (previous : List Text) (p : Progress K) (x : Text)
        → IsKeyed actual
        → (remove_one family previous desired actual p x).errors ≡ []
        → find text_discrete x desired ≡ none
        → contains (family.prefix ++ x) previous ≡ true
        → find text_discrete x actual ≢ none
        → holds x (remove_one family previous desired actual p x).kernel ≡ false
    unfolding remove_one error_list
    remove_one-removes previous p x keyed h unwanted twice there =
        elim (Option-cases (find text_discrete x actual)) [
          | inl e ↦ absurd (there e)
          | inr (a, e) ↦ ground (arith, h, e, unwanted, twice, keyed x a e, remove_gone a p.kernel)
        ]

    pub remove_one-notes :
        (previous : List Text) (p : Progress K) (x : Text)
        → find text_discrete x desired ≡ none
        → contains (family.prefix ++ x) (remove_one family previous desired actual p x).unclaimed
          ≡ true
    unfolding remove_one contains
    remove_one-notes previous p x unwanted = ground (arith, unwanted)

    pub remove_one-remembers :
        (previous : List Text) (p : Progress K) (key y : Text)
        → contains y p.unclaimed ≡ true
        → contains y (remove_one family previous desired actual p key).unclaimed ≡ true
    unfolding remove_one contains
    remove_one-remembers previous p key y h = ground (arith, h)
