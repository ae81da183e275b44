-- ===== src/Containers/Samples.antt =====
-- Instances of the interfaces, at which the theorems can be evaluated.
use mathlib.Core.Option.{some-injective}
use esp_csi_rs_core.Common.{
  ℕ, ◌≤◌, ◌<◌, ◌≡◌, ◌≢◌, refl, sym, ap, ◌∙◌, false, Bool-cases, inl, inr, List, [], ◌∷◌, ◌++◌,
  Option, none, some, arith, length, ltb, if◌then◌else◌, lt→ltb,
}
use esp_csi_rs_core.Common.Mac.{Mac, mac_eq, mac_eq_iff, mac_eq_refl}
use esp_csi_rs_core.Containers.{BoundedQueue, BoundedMap}

module _ {A : Type 0} (size : ℕ) where
  unfoldable pub push : A → List A → Option (List A)
  push a q = if ltb (length q) size then some (q ++ (a ∷ [])) else none

  unfoldable pub pop : List A → Option (A × List A)
  pop [] = none
  pop (a ∷ q) = some (a, q)

  pub push_room :
      (a : A) (q : List A)
      → length q < size
      → (r : List A) × (push a q ≡ some r) × (r ≡ q ++ (a ∷ []))
  unfolding push
  push_room a q h = (q ++ (a ∷ []), rw (push, lt→ltb (length q) size h) refl, refl)

  pub push_full : (a : A) (q : List A) → size ≤ length q → push a q ≡ none
  unfolding push
  push_full a q h = let e : ltb (length q) size ≡ false = ground arith in rw (push, e) refl

  pub pop_empty : (q : List A) → q ≡ [] → pop q ≡ none
  unfolding pop
  pop_empty q e = ap pop e

  pub pop_first :
      (a : A) (rest q : List A) → q ≡ a ∷ rest → (r : List A) × (pop q ≡ some (a, r)) × (r ≡ rest)
  unfolding pop
  pop_first a rest q e = (rest, ap pop e, refl)

  -- A queue of `size` items as a list.
  abbrev pub list_queue : BoundedQueue A (List A)
  list_queue = record {
    capacity = size;
    to_list = λ q. q;
    enqueue = push;
    dequeue = pop;
    enqueue_room = push_room;
    enqueue_full = push_full;
    dequeue_empty = pop_empty;
    dequeue_first = pop_first;
  }

abbrev pub Table : Type 0
Table = Mac → Option ℕ

unfoldable pub table_insert : Mac → ℕ → Table → Option Table
table_insert k v t = some (λ j. if mac_eq k j then some v else t j)

pub lookup_same : (k : Mac) (v : ℕ) (t r : Table) → table_insert k v t ≡ some r → r k ≡ some v
unfolding table_insert
lookup_same k v t r h =
    sym (ap (λ f. f k) (some-injective (λ j. if mac_eq k j then some v else t j) r h))
    ∙ ap (λ b. if b then some v else t k) (mac_eq_refl k)

pub lookup_other :
    (j k : Mac) (v : ℕ) (t r : Table) → table_insert k v t ≡ some r → j ≢ k → r j ≡ t j
unfolding table_insert
lookup_other j k v t r h n =
    sym (ap (λ f. f j) (some-injective (λ i. if mac_eq k i then some v else t i) r h))
    ∙ elim (Bool-cases (mac_eq k j)) [
      | inl e ↦ let (to, _) = mac_eq_iff k j in absurd (n (sym (to e)))
      | inr e ↦ ap (λ b. if b then some v else t j) e
    ]

pub insert_some : (k : Mac) (v : ℕ) (t : Table) → (r : Table) × (table_insert k v t ≡ some r)
unfolding table_insert
insert_some k v t = (λ j. if mac_eq k j then some v else t j, refl)

-- A map from addresses as a function, which is never full.
abbrev pub function_map : BoundedMap Mac ℕ Table
function_map = record {
  empty = λ _. none;
  get = λ k t. t k;
  insert = table_insert;
  get_empty = λ k. refl;
  insert_empty = λ k v. insert_some k v (λ _. none);
  insert_held = λ k v t _. insert_some k v t;
  get_insert = lookup_same;
  get_insert_ne = lookup_other;
}
