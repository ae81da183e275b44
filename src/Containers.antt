-- ===== src/Containers.antt =====
-- The containers that the crate takes from `heapless` and `embassy-sync`, as interfaces: the model
-- takes them as parameters, with the documented behaviour that the code relies on as laws.
pub mod Samples
use esp_csi_rs_core.Common.{
  ℕ, ◌+◌, ◌≤◌, ◌<◌, ◌≡◌, ◌≢◌, List, [], ◌∷◌, ◌++◌, Option, none, some, length,
}

-- `heapless::mpmc::Q32`, `Q16` and `embassy_sync::channel::Channel`: a FIFO of bounded capacity
-- whose `enqueue` (`try_send`) hands the item back when it is full.
pub record BoundedQueue (A Q : Type 0) : Type 0 where
  pub capacity : ℕ
  pub to_list : Q → List A
  pub enqueue : A → Q → Option Q
  pub dequeue : Q → Option (A × Q)
  pub enqueue_room :
      (a : A) (q : Q)
      → length (to_list q) < capacity
      → (r : Q) × (enqueue a q ≡ some r) × (to_list r ≡ to_list q ++ (a ∷ []))
  pub enqueue_full : (a : A) (q : Q) → capacity ≤ length (to_list q) → enqueue a q ≡ none
  pub dequeue_empty : (q : Q) → to_list q ≡ [] → dequeue q ≡ none
  pub dequeue_first :
      (a : A) (rest : List A) (q : Q)
      → to_list q ≡ a ∷ rest
      → (r : Q) × (dequeue q ≡ some (a, r)) × (to_list r ≡ rest)

-- `heapless::LinearMap`: `insert` replaces the value of a key that it holds, and fails for a new
-- key when the map is full; `clear` is `empty`.
pub record BoundedMap (K V M : Type 0) : Type 0 where
  pub empty : M
  pub get : K → M → Option V
  pub insert : K → V → M → Option M
  pub get_empty : (k : K) → get k empty ≡ none
  pub insert_empty : (k : K) (v : V) → (m : M) × (insert k v empty ≡ some m)
  pub insert_held : (k : K) (v : V) (m : M) → get k m ≢ none → (r : M) × (insert k v m ≡ some r)
  pub get_insert : (k : K) (v : V) (m r : M) → insert k v m ≡ some r → get k r ≡ some v
  pub get_insert_ne :
      (j k : K) (v : V) (m r : M) → insert k v m ≡ some r → j ≢ k → get j r ≡ get j m
