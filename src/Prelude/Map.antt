-- ===== src/Prelude/Map.antt =====
-- Go's maps, as association lists over a decidable equality of keys. A key stands once.
use Prim.Native.Nat.{◌+◌, ◌≤◌}
use mathlib.Core.Path.{◌≡◌, refl}
use mathlib.Core.Logic.{◌≢◌, ite}
use mathlib.Core.List.{List, [], ◌∷◌}
use mathlib.Core.Option.{Option, none, some}
use native.Mathlib.Omega.{arith}
use sentinel5g.Prelude.Lists.{length}

abbrev pub Map {ℓ} : Type ℓ → Type ℓ → Type ℓ
Map K V = List (K × V)

module _ {ℓ} {K V : Type ℓ} (dec : Discrete K) where
  -- m[k], with whether it is there.
  unfoldable pub find : K → Map K V → Option V
  find k [] = none
  find k ((j, v) ∷ m) = ite (dec j k) (some v) (find k m)

  -- m[k] = v
  unfoldable pub put : K → V → Map K V → Map K V
  put k v [] = (k, v) ∷ []
  put k v ((j, w) ∷ m) = ite (dec j k) ((k, v) ∷ m) ((j, w) ∷ put k v m)

  -- delete(m, k)
  unfoldable pub del : K → Map K V → Map K V
  del k [] = []
  del k ((j, w) ∷ m) = ite (dec j k) (del k m) ((j, w) ∷ del k m)

  abbrev pub IsMap : Map K V → Type ℓ
  IsMap [] = Unit
  IsMap ((k, v) ∷ m) = (find k m ≡ none) × IsMap m

  pub find-put :
      (j k : K) (v : V) (m : Map K V) → find j (put k v m) ≡ ite (dec k j) (some v) (find j m)
  unfolding find put
  find-put j k v [] = refl
  find-put j k v ((i, w) ∷ m) = ground (arith, find-put j k v m)

  pub find-del : (j k : K) (m : Map K V) → find j (del k m) ≡ ite (dec k j) none (find j m)
  unfolding find del
  find-del j k [] = ground arith
  find-del j k ((i, w) ∷ m) = ground (arith, find-del j k m)

  pub put-IsMap : (k : K) (v : V) (m : Map K V) → IsMap m → IsMap (put k v m)
  unfolding find put
  put-IsMap k v [] h = (refl, tt)
  put-IsMap k v ((i, w) ∷ m) h = ground (arith, put-IsMap k v m h.1, find-put i k v m)

  pub del-IsMap : (k : K) (m : Map K V) → IsMap m → IsMap (del k m)
  unfolding find del
  del-IsMap k [] h = tt
  del-IsMap k ((i, w) ∷ m) h = ground (arith, del-IsMap k m h.1, find-del i k m)

  pub length-put_new :
      (k : K) (v : V) (m : Map K V) → find k m ≡ none → length (put k v m) ≡ length m + 1
  unfolding find put
  length-put_new k v [] h = omega arith
  length-put_new k v ((i, w) ∷ m) h = ground (arith, length-put_new k v m)

  pub length-put_old :
      (k : K) (v : V) (m : Map K V) → find k m ≢ none → length (put k v m) ≡ length m
  unfolding find put
  length-put_old k v [] h = absurd (h refl)
  length-put_old k v ((i, w) ∷ m) h = ground (arith, length-put_old k v m)

  pub del_absent : (k : K) (m : Map K V) → find k m ≡ none → del k m ≡ m
  unfolding find del
  del_absent k [] h = refl
  del_absent k ((i, w) ∷ m) h = ground (arith, del_absent k m)

  pub length-del :
      (k : K) (m : Map K V) → IsMap m → find k m ≢ none → length (del k m) + 1 ≡ length m
  unfolding find del
  length-del k [] d h = absurd (h refl)
  length-del k ((i, w) ∷ m) d h = ground (arith, length-del k m d.1, del_absent k m)

  pub length-del-le : (k : K) (m : Map K V) → length (del k m) ≤ length m
  unfolding del
  length-del-le k [] = omega arith
  length-del-le k ((i, w) ∷ m) = ground (arith, length-del-le k m)
