-- ===== src/Prelude/Fifo.antt =====
-- The bounded first-in first-out table that both flood detectors keep: a map, and a ring buffer
-- of its keys in insertion order, so that a full table evicts its oldest key.
use Prim.Native.Nat.{ℕ, ◌+◌, ◌%◌, ◌≤◌, ◌<◌}
use mathlib.Core.Path.{◌≡◌, refl, sym, ap, ◌∙◌}
use mathlib.Core.Logic.{◌≢◌, ◌⊎◌, inl, inr, ite}
use mathlib.Core.List.{List, []}
use mathlib.Core.Option.{none, some}
use native.Mathlib.Omega.{arith}
use native.Mathlib.Decide.{dec_lt, ℕ_discrete}
use native.Mathlib.Nat.{mod-lt, mod-eq_of_lt}
use sentinel5g.Prelude.Tests.{leb, if◌then◌else◌}
use sentinel5g.Prelude.Lists.{
  length, get_elem?, get_or, set, replicate, length-set, length-replicate, get_elem?-set_self,
  get_elem?-set_ne, get_elem?-get_or,
}
use sentinel5g.Prelude.Map.{
  Map, IsMap, find, put, del, find-put, find-del, put-IsMap, del-IsMap, length-put_new, length-del,
  length-put_old,
}

pub record Fifo {ℓ} (K V : Type ℓ) : Type ℓ where
  pub entries : Map K V
  pub order : List K
  pub next : ℕ

-- `zero_key` is Go's zero value, which fills the ring at first.
unfoldable pub empty {ℓ} : {K V : Type ℓ} → K → ℕ → Fifo K V
empty zero_key capacity = record { entries = []; order = replicate capacity zero_key; next = 0 }

module _ {ℓ} {K V : Type ℓ} (dec : Discrete K) where
  -- The table with room for one more key: full, it gives up the key at the cursor.
  unfoldable pub room_for : K → Fifo K V → Map K V
  room_for zero_key f =
      if leb (length f.order) (length f.entries)
      then del dec (get_or f.order f.next zero_key) f.entries
      else f.entries

  -- Enter a key that the table does not hold.
  unfoldable pub admit : K → K → V → Fifo K V → Fifo K V
  unfolding room_for
  admit zero_key k v f = record {
    entries = put dec k v (room_for zero_key f);
    order = set f.order f.next k;
    next = (f.next + 1) % length f.order;
  }

  -- Overwrite the value of a key that the table holds.
  unfoldable pub update : K → V → Fifo K V → Fifo K V
  update k v f = record f { entries = put dec k v f.entries }

  pub record IsFifo (f : Fifo K V) : Type ℓ where
    pub distinct : IsMap dec f.entries
    pub in_ring : f.next < length f.order
    pub bounded : length f.entries ≤ length f.order
    pub filling : length f.entries < length f.order → f.next ≡ length f.entries
    pub held :
        (i : ℕ) (k : K)
        → i < length f.entries
        → get_elem? f.order i ≡ some k
        → find dec k f.entries ≢ none
    pub apart :
        (i j : ℕ) (k : K)
        → i < j
        → j < length f.entries
        → get_elem? f.order i ≡ some k
        → get_elem? f.order j ≢ some k

  room_for-del :
      (z : K) (f : Fifo K V)
      → length f.order ≤ length f.entries
      → room_for z f ≡ del dec (get_or f.order f.next z) f.entries
  unfolding room_for
  room_for-del z f h = ground arith

  pub room_for-keep :
      (z : K) (f : Fifo K V) → length f.entries < length f.order → room_for z f ≡ f.entries
  unfolding room_for
  room_for-keep z f h = ground arith

  -- To make room invents nothing.
  pub find-room_for :
      (z k : K) (v : V) (f : Fifo K V)
      → find dec k (room_for z f) ≡ some v
      → find dec k f.entries ≡ some v
  unfolding room_for
  find-room_for z k v f h = ground (arith, h, find-del dec k (get_or f.order f.next z) f.entries)

  -- What a table holds after another key has come in.
  pub find-admit :
      (j z k : K) (v : V) (f : Fifo K V)
      → find dec j (admit z k v f).entries ≡ ite (dec k j) (some v) (find dec j (room_for z f))
  unfolding admit
  find-admit j z k v f = find-put dec j k v (room_for z f)

  module _ (z : K) (f : Fifo K V) (inv : IsFifo f) where
    -- The key at the cursor of a full table is in it.
    oldest_held :
        length f.order ≤ length f.entries → find dec (get_or f.order f.next z) f.entries ≢ none
    oldest_held full =
        inv.held f.next (get_or f.order f.next z) (omega (arith, inv.in_ring))
          (get_elem?-get_or f.order f.next z inv.in_ring)

    pub room_for-IsMap : IsMap dec (room_for z f)
    unfolding room_for
    room_for-IsMap =
        ground (arith, inv.distinct, del-IsMap dec (get_or f.order f.next z) f.entries inv.distinct)

    -- What is given up makes room for exactly one key; a table that is not full gives up none.
    pub length-room_for :
        (length f.entries < length f.order) × (length (room_for z f) ≡ length f.entries)
        ⊎ (length f.entries ≡ length f.order) × (length (room_for z f) + 1 ≡ length f.order)
    length-room_for = elim (dec_lt (length f.entries) (length f.order)) [
      | yes lt ↦ inl (lt, ap length (room_for-keep z f lt))
      | no ge ↦
          let full : length f.order ≤ length f.entries = omega arith in
          inr (
            omega (arith, inv.bounded),
            omega (
              arith,
              inv.bounded,
              ap length (room_for-del z f full),
              length-del dec (get_or f.order f.next z) f.entries inv.distinct (oldest_held full),
            ),
          )
    ]

    -- Every other slot keeps its key.
    room_for-held :
        (i : ℕ) (k : K)
        → i ≢ f.next
        → i < length (room_for z f) + 1
        → get_elem? f.order i ≡ some k
        → find dec k (room_for z f) ≢ none
    room_for-held i k ne lt at = elim length-room_for [
      | inl (free, same) ↦
          rw (room_for-keep z f free) (inv.held i k (omega (arith, inv.filling free)) at)
      | inr (full, same) ↦
          rw (room_for-del z f (omega arith), find-del dec k (get_or f.order f.next z) f.entries)
            (kept full same (dec (get_or f.order f.next z) k))
    ]
      where
        at_cursor : get_elem? f.order f.next ≡ some (get_or f.order f.next z)
        at_cursor = get_elem?-get_or f.order f.next z inv.in_ring

        differ :
            length f.entries ≡ length f.order
            → length (room_for z f) + 1 ≡ length f.order
            → get_or f.order f.next z ≢ k
        differ full same e = elim (dec_lt i f.next) [
          | yes below ↦
              inv.apart i f.next k below (omega (arith, inv.in_ring)) at (at_cursor ∙ ap some e)
          | no above ↦ inv.apart f.next i k (omega arith) (omega arith) (at_cursor ∙ ap some e) at
        ]

        kept :
            length f.entries ≡ length f.order
            → length (room_for z f) + 1 ≡ length f.order
            → (d : Dec (get_or f.order f.next z ≡ k)) → ite d none (find dec k f.entries) ≢ none
        kept full same (yes e) = absurd (differ full same e)
        kept full same (no n) = inv.held i k (omega arith) at

  module _ (z k : K) (v : V) (f : Fifo K V) (inv : IsFifo f)
      (new : find dec k f.entries ≡ none) where
    room_for_new : find dec k (room_for z f) ≡ none
    unfolding room_for
    room_for_new = ground (arith, new, find-del dec k (get_or f.order f.next z) f.entries)

    pub length-admit : length (admit z k v f).entries ≡ length (room_for z f) + 1
    unfolding admit
    length-admit = length-put_new dec k v (room_for z f) room_for_new

    -- The new key stands in no slot but the cursor's.
    elsewhere : (i : ℕ) → i ≢ f.next → i < length (room_for z f) + 1 → get_elem? f.order i ≢ some k
    elsewhere i ne lt at = room_for-held z f inv i k ne lt at room_for_new

    admit-held :
        (i : ℕ) (j : K)
        → i < length (room_for z f) + 1
        → get_elem? (set f.order f.next k) i ≡ some j
        → find dec j (admit z k v f).entries ≢ none
    admit-held i j lt at = elim (ℕ_discrete i f.next) [
      | yes e ↦
          let here : k ≡ j =
            ground (arith, at, e, get_elem?-set_self f.order f.next k inv.in_ring) in
          rw (find-admit j z k v f) (ground (arith, here))
      | no n ↦
          let kept : find dec j (room_for z f) ≢ none =
            room_for-held z f inv i j n lt
              (sym (get_elem?-set_ne f.order f.next i k (λ e. n (sym e))) ∙ at) in
          rw (find-admit j z k v f) (ground (arith, kept))
    ]

    admit-apart :
        (i j : ℕ) (x : K)
        → i < j
        → j < length (room_for z f) + 1
        → get_elem? (set f.order f.next k) i ≡ some x
        → get_elem? (set f.order f.next k) j ≢ some x
    admit-apart i j x below lt at at' = elim (ℕ_discrete i f.next) [
      | yes e ↦
          elsewhere j (λ e'. omega arith) lt
            (old j (λ e'. omega arith) at' ∙ ap some (sym (mine i e at)))
      | no n ↦ elim (ℕ_discrete j f.next) [
        | yes e ↦ elsewhere i n (omega arith) (old i n at ∙ ap some (sym (mine j e at')))
        | no n' ↦ inv.apart i j x below (inside n') (old i n at) (old j n' at')
      ]
    ]
      where
        old :
            (m : ℕ)
            → m ≢ f.next
            → get_elem? (set f.order f.next k) m ≡ some x
            → get_elem? f.order m ≡ some x
        old m n e = sym (get_elem?-set_ne f.order f.next m k (λ e. n (sym e))) ∙ e

        mine : (m : ℕ) → m ≡ f.next → get_elem? (set f.order f.next k) m ≡ some x → k ≡ x
        mine m e h = ground (arith, h, e, get_elem?-set_self f.order f.next k inv.in_ring)

        inside : j ≢ f.next → j < length f.entries
        inside n = ground (arith, length-room_for z f inv, inv.filling)

    -- A new key leaves the table within its capacity, its ring an index of what it holds.
    pub admit-IsFifo : IsFifo (admit z k v f)
    unfolding admit
    admit-IsFifo = record {
      distinct = put-IsMap dec k v (room_for z f) (room_for-IsMap z f inv);
      in_ring = rw (length-set f.order f.next k) (mod-lt (f.next + 1) (omega (arith, inv.in_ring)));
      bounded =
          omega (
            arith,
            length-admit,
            length-room_for z f inv,
            length-set f.order f.next k,
            inv.bounded,
          );
      filling = λ lt. free (
          omega (
            arith,
            lt,
            length-put_new dec k v (room_for z f) room_for_new,
            length-set f.order f.next k,
          ));
      held = λ i j lt at. admit-held i j (omega (arith, length-admit)) at;
      apart = λ i j x below lt at. admit-apart i j x below (omega (arith, length-admit)) at;
    }
      where
        free :
            length (room_for z f) + 1 < length f.order
            → (f.next + 1) % length f.order ≡ length (put dec k v (room_for z f))
        free lt = elim (length-room_for z f inv) [
          | inl (room, same) ↦
              mod-eq_of_lt (omega (arith, inv.filling room))
              ∙ omega (arith, inv.filling room, length-put_new dec k v (room_for z f) room_for_new)
          | inr (full, same) ↦ absurd (omega arith)
        ]

  pub empty-IsFifo : (z : K) (capacity : ℕ) → 0 < capacity → IsFifo (empty z capacity)
  unfolding empty
  empty-IsFifo z capacity h = record {
    distinct = tt;
    in_ring = omega (arith, length-replicate capacity z);
    bounded = omega arith;
    filling = λ _. refl;
    held = λ i k lt _. elim lt [ ];
    apart = λ i j k _ lt _. elim lt [ ];
  }

  -- To overwrite a value moves no key.
  pub update-IsFifo :
      (k : K) (v : V) (f : Fifo K V)
      → IsFifo f
      → find dec k f.entries ≢ none
      → IsFifo (update k v f)
  unfolding update
  update-IsFifo k v f inv old =
      let same : length (put dec k v f.entries) ≡ length f.entries =
        length-put_old dec k v f.entries old in
      record {
        distinct = put-IsMap dec k v f.entries inv.distinct;
        in_ring = inv.in_ring;
        bounded = omega (arith, inv.bounded);
        filling = λ lt. inv.filling (omega arith) ∙ sym same;
        held = λ i j lt at.
            let kept : find dec j f.entries ≢ none = inv.held i j (omega arith) at in
            rw (find-put dec j k v f.entries) (ground (arith, kept));
        apart = λ i j x below lt at. inv.apart i j x below (omega arith) at;
      }
