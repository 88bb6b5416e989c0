-- ===== src/Controller/Drift/Order.antt =====
-- Go's order of strings, and sortedKeys of pkg/controller/blocklist_reconciler.go.
use sentinel5g.Prelude.{◌≡◌, refl, arith, true, false, List, [], ◌∷◌, Text}
use sentinel5g.Controller.Drift.{text_le, insert_text}

text_le-total : (x y : Text) → text_le x y ≡ false → text_le y x ≡ true
unfolding text_le
text_le-total [] y h = absurd (cc)
text_le-total (a ∷ x) [] h = refl
text_le-total (a ∷ x) (b ∷ y) h = ground (arith, h, text_le-total x y)

text_le-antisymmetric : (x y : Text) → text_le x y ≡ true → text_le y x ≡ true → x ≡ y
unfolding text_le
text_le-antisymmetric [] [] h k = refl
text_le-antisymmetric [] (b ∷ y) h k = absurd (cc)
text_le-antisymmetric (a ∷ x) [] h k = absurd (cc)
text_le-antisymmetric (a ∷ x) (b ∷ y) h k = ground (arith, h, k, text_le-antisymmetric x y)

text_le-transitive : (x y z : Text) → text_le x y ≡ true → text_le y z ≡ true → text_le x z ≡ true
unfolding text_le
text_le-transitive [] y z h k = refl
text_le-transitive (a ∷ x) [] z h k = absurd (cc)
text_le-transitive (a ∷ x) (b ∷ y) [] h k = absurd (cc)
text_le-transitive (a ∷ x) (b ∷ y) (c ∷ z) h k = ground (arith, h, k, text_le-transitive x y z)

-- Two texts may be inserted in either order.
pub insert_text-swap :
    (x y : Text) (l : List Text) → insert_text x (insert_text y l) ≡ insert_text y (insert_text x l)
unfolding insert_text
insert_text-swap x y [] = ground (arith, text_le-total x y, text_le-antisymmetric x y)
insert_text-swap x y (z ∷ l) = ground (
  arith,
  insert_text-swap x y l,
  text_le-total x y,
  text_le-antisymmetric x y,
  text_le-transitive x y z,
  text_le-transitive y x z,
  text_le-total x z,
  text_le-total y z,
)
