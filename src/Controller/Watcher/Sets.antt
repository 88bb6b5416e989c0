-- ===== src/Controller/Watcher/Sets.antt =====
-- Blocked entries as sets (appendUnique and equalStringSet of
-- pkg/controller/threat_score_watcher.go).
use sentinel5g.Prelude.{
  ◌+◌, ◌≡◌, true, false, List, [], ◌∷◌, Text, text_discrete, ite, length, arith, refl,
}
use sentinel5g.Controller.Watcher.{append_unique, contains, all_in, equal_string_set}

-- What a set holds after an entry has been appended to it.
pub contains-append_unique :
    (y x : Text) (xs : List Text)
    → contains y (append_unique xs x) ≡ ite (text_discrete x y) true (contains y xs)
unfolding contains append_unique
contains-append_unique y x [] = refl
contains-append_unique y x (z ∷ xs) = ground (arith, contains-append_unique y x xs)

pub contains-append_unique_self :
    (x : Text) (xs : List Text) → contains x (append_unique xs x) ≡ true
contains-append_unique_self x xs = ground (arith, contains-append_unique x x xs)

-- An entry that is there already is not appended again.
pub append_unique_old : (x : Text) (xs : List Text) → contains x xs ≡ true → append_unique xs x ≡ xs
unfolding contains append_unique
append_unique_old x [] h = cc
append_unique_old x (z ∷ xs) h = ground (arith, h, append_unique_old x xs)

length-append_unique_new :
    (x : Text) (xs : List Text)
    → contains x xs ≡ false
    → length (append_unique xs x) ≡ length xs + 1
unfolding contains append_unique
length-append_unique_new x [] h = omega arith
length-append_unique_new x (z ∷ xs) h = ground (arith, h, length-append_unique_new x xs)

-- A set that an entry leaves equal held the entry.
pub equal_string_set-append_unique :
    (x : Text) (xs : List Text)
    → equal_string_set xs (append_unique xs x) ≡ true
    → contains x xs ≡ true
unfolding equal_string_set
equal_string_set-append_unique x xs h = ground (arith, h, length-append_unique_new x xs)

all_in_self :
    (ys xs : List Text)
    → ((x : Text) → contains x xs ≡ true → contains x ys ≡ true)
    → all_in ys xs ≡ true
unfolding all_in
all_in_self ys [] h = refl
all_in_self ys (x ∷ xs) h = ground (
  arith,
  h x (unfold contains in ground arith),
  all_in_self ys xs (λ z e. h z (unfold contains in ground (arith, e))),
)

pub equal_string_set_refl : (xs : List Text) → equal_string_set xs xs ≡ true
unfolding equal_string_set
equal_string_set_refl xs = ground (arith, all_in_self xs xs (λ x e. e))
