-- ===== src/Controller/Drift/Convergence.antt =====
-- BlocklistReconciler.Sync (pkg/controller/blocklist_reconciler.go) over a whole pass of one
-- family, and over two passes that follow each other.
use sentinel5g.Prelude.{
  ◌≡◌, refl, ◌≢◌, ◌⊎◌, inl, inr, ◌↔◌, true, false, List, [], ◌∷◌, ◌++◌, none, Text, text_discrete,
  arith, Bool-cases, ◌∙◌, subst, sym,
}
use sentinel5g.Prelude.Map.{Map, find}
use sentinel5g.Controller.Watcher.{contains}
use sentinel5g.Controller.Drift.{
  Family, Progress, sorted_keys, add_one, remove_one, each, correct, start,
}
use sentinel5g.Controller.Drift.Half.{
  Lawful, IsKeyed, contains-sorted_keys, add_one-keeps, add_one-adds, add_one-others,
  add_one-errors, remove_one-errors, remove_one-keeps, remove_one-brings_none, remove_one-removes,
  remove_one-notes, remove_one-remembers,
}

module _ {K A : Type 0} (family : Family K A) where
  pub each-keeps :
      (P : Progress K → Type 0) (f : Progress K → Text → Progress K)
      → ((p : Progress K) (key : Text) → P p → P (f p key))
      → (p : Progress K) (keys : List Text) → P p
      → P (each family f p keys)
  unfolding each
  each-keeps P f step p [] h = h
  each-keeps P f step p (key ∷ keys) h = each-keeps P f step (f p key) keys (step p key h)

  each-errors :
      (f : Progress K → Text → Progress K)
      → ((p : Progress K) (key : Text) → (f p key).errors ≡ [] → p.errors ≡ [])
      → (p : Progress K) (keys : List Text) → (each family f p keys).errors ≡ []
      → p.errors ≡ []
  unfolding each
  each-errors f step p [] h = h
  each-errors f step p (key ∷ keys) h = step p key (each-errors f step (f p key) keys h)

  -- What holds after every run of the loop from some key on, if that key's step brings it about.
  each-brings :
      (P Q : Progress K → Type 0) (f : Progress K → Text → Progress K) (x : Text)
      → ((p : Progress K) (key : Text) → P p → P (f p key))
      → ((p : Progress K) (key : Text) → Q p → Q (f p key))
      → ((p : Progress K) (key : Text) → (f p key).errors ≡ [] → p.errors ≡ [])
      → ((p : Progress K) → P p → (f p x).errors ≡ [] → Q (f p x))
      → (p : Progress K) (keys : List Text) → contains x keys ≡ true
      → (each family f p keys).errors ≡ []
      → P p
      → Q (each family f p keys)
  unfolding each contains
  each-brings P Q f x keepP keepQ errors here p [] c h i = absurd (cc)
  each-brings P Q f x keepP keepQ errors here p (key ∷ keys) c h i = elim (text_discrete key x) [
    | yes e ↦ each-keeps Q f keepQ (f p key) keys (
        subst (λ (k : Text). Q (f p k)) (sym e)
          (here p i
            (subst (λ (k : Text). (f p k).errors ≡ []) e (each-errors f errors (f p key) keys h))))
    | no n ↦
        each-brings P Q f x keepP keepQ errors here (f p key) keys (ground (arith, c, n)) h
          (keepP p key i)
  ]

module _ {K A : Type 0} (family : Family K A) (laws : Lawful family) where
  open laws use {key_of, holds}

  -- A pass takes no entry from the kernel that a policy claims, nor one that the pass before did
  -- not already find unclaimed, whichever of its calls fail.
  pub correct-keeps :
      (previous : List Text) (desired actual : Map Text A) (k : K) (x : Text)
      → IsKeyed family laws actual
      → (find text_discrete x desired ≢ none) ⊎ (contains (family.prefix ++ x) previous ≡ false)
      → holds x k ≡ true
      → holds x (correct family previous desired actual k).kernel ≡ true
  unfolding correct start
  correct-keeps previous desired actual k x keyed h there =
      each-keeps family (λ (p : Progress K). holds x p.kernel ≡ true)
        (remove_one family previous desired actual)
        (λ (p : Progress K) (key : Text) (i : holds x p.kernel ≡ true).
          remove_one-keeps family laws desired actual previous p key x keyed h ∙ i)
        (each family (add_one family desired actual) (start family k) (sorted_keys desired))
        (sorted_keys actual)
        (each-keeps family (λ (p : Progress K). holds x p.kernel ≡ true)
          (add_one family desired actual)
          (λ (p : Progress K) (key : Text). add_one-keeps family laws desired actual p key x)
          (start family k) (sorted_keys desired) there)

  -- After a pass without an error every claimed entry is in the kernel.
  pub correct-restores :
      (previous : List Text) (desired actual : Map Text A) (k : K) (x : Text)
      → IsKeyed family laws desired
      → IsKeyed family laws actual
      → (find text_discrete x actual ≢ none → holds x k ≡ true)
      → (correct family previous desired actual k).errors ≡ []
      → find text_discrete x desired ≢ none
      → holds x (correct family previous desired actual k).kernel ≡ true
  unfolding correct start
  correct-restores previous desired actual k x keyed keyed' accurate clean wanted =
      each-keeps family (λ (p : Progress K). holds x p.kernel ≡ true)
        (remove_one family previous desired actual)
        (λ (p : Progress K) (key : Text) (i : holds x p.kernel ≡ true).
          remove_one-keeps family laws desired actual previous p key x keyed' (inl wanted) ∙ i)
        (each family (add_one family desired actual) (start family k) (sorted_keys desired))
        (sorted_keys actual)
        (each-brings family
          (λ (p : Progress K). find text_discrete x actual ≢ none → holds x p.kernel ≡ true)
          (λ (p : Progress K). holds x p.kernel ≡ true) (add_one family desired actual) x
          (λ (p : Progress K) (key : Text)
              (i : find text_discrete x actual ≢ none → holds x p.kernel ≡ true)
              (t : find text_discrete x actual ≢ none).
            add_one-keeps family laws desired actual p key x (i t))
          (λ (p : Progress K) (key : Text). add_one-keeps family laws desired actual p key x)
          (add_one-errors family laws desired actual)
          (λ (p : Progress K) (i : find text_discrete x actual ≢ none → holds x p.kernel ≡ true)
              (c : (add_one family desired actual p x).errors ≡ []).
            add_one-adds family laws desired actual p x keyed c wanted i)
          (start family k) (sorted_keys desired) (contains-sorted_keys x desired wanted)
          (each-errors family (remove_one family previous desired actual)
            (remove_one-errors family laws desired actual previous) _ (sorted_keys actual) clean)
          accurate)

  correct-out :
      (previous : List Text) (desired actual : Map Text A) (k : K) (x : Text)
      → IsKeyed family laws desired
      → find text_discrete x desired ≡ none
      → holds x k ≡ false
      → holds x (correct family previous desired actual k).kernel ≡ false
  unfolding correct start
  correct-out previous desired actual k x keyed unwanted out =
      each-keeps family (λ (p : Progress K). holds x p.kernel ≡ false)
        (remove_one family previous desired actual)
        (λ (p : Progress K) (key : Text).
          remove_one-brings_none family laws desired actual previous p key x)
        (each family (add_one family desired actual) (start family k) (sorted_keys desired))
        (sorted_keys actual)
        (each-keeps family (λ (p : Progress K). holds x p.kernel ≡ false)
          (add_one family desired actual)
          (λ (p : Progress K) (key : Text) (i : holds x p.kernel ≡ false).
            add_one-others family laws desired actual p key x keyed unwanted ∙ i)
          (start family k) (sorted_keys desired) out)

  correct-removes :
      (previous : List Text) (desired actual : Map Text A) (k : K) (x : Text)
      → IsKeyed family laws actual
      → (correct family previous desired actual k).errors ≡ []
      → find text_discrete x desired ≡ none
      → contains (family.prefix ++ x) previous ≡ true
      → find text_discrete x actual ≢ none
      → holds x (correct family previous desired actual k).kernel ≡ false
  unfolding correct start
  correct-removes previous desired actual k x keyed clean unwanted twice there =
      each-brings family (λ (p : Progress K). Unit) (λ (p : Progress K). holds x p.kernel ≡ false)
        (remove_one family previous desired actual) x
        (λ (p : Progress K) (key : Text) (i : Unit). tt)
        (λ (p : Progress K) (key : Text).
          remove_one-brings_none family laws desired actual previous p key x)
        (remove_one-errors family laws desired actual previous)
        (λ (p : Progress K) (i : Unit)
            (c : (remove_one family previous desired actual p x).errors ≡ []).
          remove_one-removes family laws desired actual previous p x keyed c unwanted twice there)
        _ (sorted_keys actual) (contains-sorted_keys x actual there) clean tt

  correct-notes :
      (previous : List Text) (desired actual : Map Text A) (k : K) (x : Text)
      → (correct family previous desired actual k).errors ≡ []
      → find text_discrete x desired ≡ none
      → find text_discrete x actual ≢ none
      → contains (family.prefix ++ x) (correct family previous desired actual k).unclaimed ≡ true
  unfolding correct start
  correct-notes previous desired actual k x clean unwanted there =
      each-brings family (λ (p : Progress K). Unit)
        (λ (p : Progress K). contains (family.prefix ++ x) p.unclaimed ≡ true)
        (remove_one family previous desired actual) x
        (λ (p : Progress K) (key : Text) (i : Unit). tt)
        (λ (p : Progress K) (key : Text).
          remove_one-remembers family laws desired actual previous p key (family.prefix ++ x))
        (remove_one-errors family laws desired actual previous)
        (λ (p : Progress K) (i : Unit)
            (c : (remove_one family previous desired actual p x).errors ≡ []).
          remove_one-notes family laws desired actual previous p x unwanted)
        _ (sorted_keys actual) (contains-sorted_keys x actual there) clean tt

  -- The map read from the kernel has exactly the entries that the kernel holds.
  abbrev pub IsReadOf : Map Text A → K → Type 0
  IsReadOf actual k = (x : Text) → (find text_discrete x actual ≢ none) ↔ (holds x k ≡ true)

  -- The second of two passes, with the keys noted by the first among those that it takes for noted,
  -- and a kernel that the first left as far as the entry goes.
  pub correct_again :
      (previous noted : List Text) (desired first second : Map Text A) (k k2 : K) (x : Text)
      → IsKeyed family laws desired
      → IsKeyed family laws second
      → IsReadOf first k
      → IsReadOf second k2
      → (correct family previous desired first k).errors ≡ []
      → (correct family noted desired second k2).errors ≡ []
      → holds x k2 ≡ holds x (correct family previous desired first k).kernel
      → (contains (family.prefix ++ x) (correct family previous desired first k).unclaimed ≡ true
          → contains (family.prefix ++ x) noted ≡ true)
      → (holds x (correct family noted desired second k2).kernel ≡ true)
        ↔ (find text_discrete x desired ≢ none)
  correct_again previous noted desired first second k k2 x kd keyed r1 r2 c1 c2 same notes = (
    λ there. λ unwanted.
        true≢false (sym there ∙ gone unwanted (Bool-cases (holds x k)) (Bool-cases (holds x k2))),
    λ wanted. correct-restores noted desired second k2 x kd keyed (r2 x).0 c2 wanted,
  )
    where
      true≢false : true ≢ false
      true≢false e = cc

      gone :
          find text_discrete x desired ≡ none
          → (holds x k ≡ true) ⊎ (holds x k ≡ false)
          → (holds x k2 ≡ true) ⊎ (holds x k2 ≡ false)
          → holds x (correct family noted desired second k2).kernel ≡ false
      gone unwanted _ (inr out) = correct-out noted desired second k2 x kd unwanted out
      gone unwanted (inr out) (inl was) =
          absurd
            (true≢false (sym was ∙ (same ∙ correct-out previous desired first k x kd unwanted out)))
      gone unwanted (inl was) (inl still) =
          correct-removes noted desired second k2 x keyed c2 unwanted
            (notes (correct-notes previous desired first k x c1 unwanted ((r1 x).1 was)))
            ((r2 x).1 still)

  -- Two passes without an error, on the same claims and each with a true reading of the kernel,
  -- leave the kernel with exactly the entries that are claimed, whatever it held before.
  pub correct_converges :
      (previous : List Text) (desired first second : Map Text A) (k : K) (x : Text)
      → IsKeyed family laws desired
      → IsKeyed family laws first
      → IsKeyed family laws second
      → IsReadOf first k
      → IsReadOf second (correct family previous desired first k).kernel
      → (correct family previous desired first k).errors ≡ []
      → (correct family
          (correct family previous desired first k).unclaimed
          desired
          second
          (correct family previous desired first k).kernel).errors
        ≡ []
      → (holds x
            (correct family
              (correct family previous desired first k).unclaimed
              desired
              second
              (correct family previous desired first k).kernel).kernel
          ≡ true)
        ↔ (find text_discrete x desired ≢ none)
  correct_converges previous desired first second k x kd k1 k2 r1 r2 c1 c2 =
      correct_again previous (correct family previous desired first k).unclaimed desired first
        second k (correct family previous desired first k).kernel x kd k2 r1 r2 c1 c2 refl (λ h. h)
