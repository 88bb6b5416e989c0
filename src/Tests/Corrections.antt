-- ===== src/Tests/Corrections.antt =====
-- A pass of pkg/controller/blocklist_reconciler.go on small kernels.
use sentinel5g.Prelude.{
  ◌≡◌, ◌≢◌, inr, Bool, true, false, [], ◌∷◌, none, some, Text, text_discrete, refl, arith, codes,
}
use sentinel5g.Prelude.Map.{Map, find, find-put, find-del}
use sentinel5g.Controller.Watcher.{contains}
use sentinel5g.Controller.Drift.{Family, correct}
use sentinel5g.Controller.Drift.Half.{Lawful, IsKeyed}
use sentinel5g.Controller.Drift.Convergence.{correct-keeps}
use sentinel5g.Tests.Fixtures.{Kernel, kernel_maps, source_a, source_b}

abbrev sources : Family Kernel Text
sources = record { prefix = codes "ip:"; add = kernel_maps.block; remove = kernel_maps.unblock }

abbrev has_source : Text → Kernel → Bool
has_source x k = elim (find text_discrete x k.0) [ none ↦ false | some v ↦ true ]

add_there :
    (a : Text) (k : Kernel) → (sources.add a k).1 ≡ none → has_source a (sources.add a k).0 ≡ true
add_there a k e = ground (arith, find-put text_discrete a a a k.0)

add_keeps :
    (a : Text) (k : Kernel) (x : Text)
    → has_source x k ≡ true
    → has_source x (sources.add a k).0 ≡ true
add_keeps a k x e = ground (arith, e, find-put text_discrete x a a k.0)

add_others :
    (a : Text) (k : Kernel) (x : Text) → x ≢ a → has_source x (sources.add a k).0 ≡ has_source x k
add_others a k x n = ground (arith, n, find-put text_discrete x a a k.0)

remove_gone :
    (a : Text) (k : Kernel)
    → (sources.remove a k).1 ≡ none
    → has_source a (sources.remove a k).0 ≡ false
remove_gone a k e = ground (arith, find-del text_discrete a a k.0)

remove_brings_none :
    (a : Text) (k : Kernel) (x : Text)
    → has_source x k ≡ false
    → has_source x (sources.remove a k).0 ≡ false
remove_brings_none a k x e = ground (arith, e, find-del text_discrete x a k.0)

remove_others :
    (a : Text) (k : Kernel) (x : Text)
    → x ≢ a
    → has_source x (sources.remove a k).0 ≡ has_source x k
remove_others a k x n = ground (arith, n, find-del text_discrete x a k.0)

abbrev in_sources : Lawful sources
in_sources = record {
  key_of = λ a. a;
  holds = has_source;
  add_there = add_there;
  add_keeps = add_keeps;
  add_others = add_others;
  remove_gone = remove_gone;
  remove_brings_none = remove_brings_none;
  remove_others = remove_others;
}

-- Claimed is the first source; the kernel holds the second.
abbrev claimed : Map Text Text
claimed = (source_a, source_a) ∷ []

abbrev held : Map Text Text
held = (source_b, source_b) ∷ []

abbrev stale_kernel : Kernel
stale_kernel = (held, [])

held-IsKeyed : IsKeyed sources in_sources held
unfolding find
held-IsKeyed x a h = ground (arith, h)

correct-keeps_example :
    has_source source_b (correct sources [] claimed held stale_kernel).kernel ≡ true
unfolding contains find text_discrete
correct-keeps_example =
    correct-keeps sources in_sources [] claimed held stale_kernel source_b held-IsKeyed (inr refl)
      refl
