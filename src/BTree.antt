-- ===== src/BTree.antt =====
-- github.com/tidwall/btree: the ordered map `btree.Map[uint64, V]`, which the program only calls.
-- It is a parameter of the model, with the behaviour that its documentation states as laws: the map
-- holds one value for each key, `Ascend(pivot)` visits the entries from the pivot on in the order of
-- their keys, and `Descend(pivot)` those up to the pivot in the opposite order.
mod Entries
pub mod Assoc
pub use Entries.*
use akavefs.Prelude.{ℕ, ◌≡◌, List, [], Option}
use mathlib.Core.List.{reverse}

pub record BTree : Type 1 where
  pub Map : Type 0 → Type 0
  pub empty : {V : Type 0} → Map V
  pub get : {V : Type 0} → Map V → ℕ → Option V
  pub set : {V : Type 0} → Map V → ℕ → V → Map V
  pub delete : {V : Type 0} → Map V → ℕ → Map V
  pub ascend : {V : Type 0} → Map V → ℕ → List (ℕ × V)
  pub descend : {V : Type 0} → Map V → ℕ → List (ℕ × V)
  pub ascend-IsSorted : {V : Type 0} (m : Map V) → IsSorted (ascend m 0)
  pub ascend-from : {V : Type 0} (m : Map V) (pivot : ℕ) → ascend m pivot ≡ from pivot (ascend m 0)
  pub descend-upto :
      {V : Type 0} (m : Map V) (pivot : ℕ) → descend m pivot ≡ reverse (upto pivot (ascend m 0))
  pub get-lookup : {V : Type 0} (m : Map V) (k : ℕ) → get m k ≡ lookup k (ascend m 0)
  pub ascend-empty : {V : Type 0} → ascend (empty {V = V}) 0 ≡ []
  pub ascend-set :
      {V : Type 0} (m : Map V) (k : ℕ) (v : V) → ascend (set m k v) 0 ≡ insert k v (ascend m 0)
  pub ascend-delete :
      {V : Type 0} (m : Map V) (k : ℕ) → ascend (delete m k) 0 ≡ remove k (ascend m 0)
