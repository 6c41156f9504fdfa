-- ===== src/Prelude/Maps.antt =====
-- std::map and std::set over unsigned keys. Both are lists in ascending order of the keys, so that
-- a loop over the list visits the entries in the order of the C++ iterator.
use Prim.Native.Nat.{zero, ℕ}
use mathlib.Core.Path.{◌≡◌, refl}
use mathlib.Core.Bool.{Bool, false, ◌&&◌, ◌||◌, not}
use mathlib.Core.List.{List, [], ◌∷◌}
use mathlib.Core.Option.{Option, none, some}
use native.Mathlib.Omega.{arith}
use peer_to_peer_network_ove.Prelude.Lists.{length}
use peer_to_peer_network_ove.Prelude.Tests.{ltb, ◌==◌, if◌then◌else◌, is_some}
use Prim.Native.Nat.{suc}
use Prim.Native.Nat.{◌<◌}
use Prim.Native.Nat.{◌≤◌}
use mathlib.Core.Bool.{true}

-- std::set<NodeID>: find, insert and erase.
abbrev pub mem : ℕ → List ℕ → Bool
mem k [] = false
mem k (x ∷ xs) = x == k || mem k xs

unfoldable pub insert_set : ℕ → List ℕ → List ℕ
insert_set k [] = k ∷ []
insert_set k (x ∷ xs) =
    if ltb k x then k ∷ x ∷ xs else if x == k then x ∷ xs else x ∷ insert_set k xs

pub erase_set : ℕ → List ℕ → List ℕ
erase_set k [] = []
erase_set k (x ∷ xs) = if x == k then erase_set k xs else x ∷ erase_set k xs

pub mem-insert_set : (j k : ℕ) (s : List ℕ) → mem j (insert_set k s) ≡ (k == j || mem j s)
unfolding insert_set
mem-insert_set j k [] = refl
mem-insert_set j k (x ∷ xs) = ground (arith, mem-insert_set j k xs)

pub mem-erase_set : (j k : ℕ) (s : List ℕ) → mem j (erase_set k s) ≡ (not (k == j) && mem j s)
unfolding erase_set
mem-erase_set j k [] = ground arith
mem-erase_set j k (x ∷ xs) = ground (arith, mem-erase_set j k xs)

-- std::map<NodeID, V>.
abbrev pub Map {ℓ} : Type ℓ → Type ℓ
Map V = List (ℕ × V)

module _ {ℓ} {V : Type ℓ} where
  abbrev pub lookup : ℕ → Map V → Option V
  lookup k [] = none
  lookup k ((j, v) ∷ m) = if j == k then some v else lookup k m

  abbrev pub contains : ℕ → Map V → Bool
  contains k m = is_some (lookup k m)

  unfoldable pub insert : ℕ → V → Map V → Map V
  insert k v [] = (k, v) ∷ []
  insert k v ((j, w) ∷ m) =
      if ltb k j then (k, v) ∷ (j, w) ∷ m else if j == k then (k, v) ∷ m else (j, w) ∷ insert k v m

  unfoldable pub erase : ℕ → Map V → Map V
  erase k [] = []
  erase k ((j, w) ∷ m) = if j == k then erase k m else (j, w) ∷ erase k m

  -- `for (auto& pair : m) pair.second = f(pair.second);`
  pub map_values : (V → V) → Map V → Map V
  map_values f [] = []
  map_values f ((j, w) ∷ m) = (j, f w) ∷ map_values f m

  abbrev pub keys : Map V → List ℕ
  keys [] = []
  keys ((j, w) ∷ m) = j ∷ keys m

  pub lookup-insert :
      (j k : ℕ) (v : V) (m : Map V)
      → lookup j (insert k v m) ≡ (if k == j then some v else lookup j m)
  unfolding insert
  lookup-insert j k v [] = refl
  lookup-insert j k v ((i, w) ∷ m) = ground (arith, lookup-insert j k v m)

  pub lookup-erase :
      (j k : ℕ) (m : Map V) → lookup j (erase k m) ≡ (if k == j then none else lookup j m)
  unfolding erase
  lookup-erase j k [] = ground arith
  lookup-erase j k ((i, w) ∷ m) = ground (arith, lookup-erase j k m)

  pub mem-keys : (j : ℕ) (m : Map V) → mem j (keys m) ≡ contains j m
  mem-keys j [] = refl
  mem-keys j ((i, w) ∷ m) = ground (arith, mem-keys j m)

  pub lookup-map_values :
      (f : V → V) (j : ℕ) (m : Map V)
      → lookup j (map_values f m) ≡ elim (lookup j m) [ none ↦ none | some v ↦ some (f v) ]
  unfolding map_values
  lookup-map_values f j [] = refl
  lookup-map_values f j ((i, w) ∷ m) = ground (arith, lookup-map_values f j m)

  pub length-insert :
      (k : ℕ) (v : V) (m : Map V) → lookup k m ≡ none → length (insert k v m) ≡ suc (length m)
  unfolding insert
  length-insert k v [] h = refl
  length-insert k v ((i, w) ∷ m) h = ground (arith, length-insert k v m)

  -- The loop that erases entries through an iterator.
  unfoldable pub erase_if : (ℕ → V → Bool) → Map V → Map V
  erase_if p [] = []
  erase_if p ((j, w) ∷ m) = if p j w then erase_if p m else (j, w) ∷ erase_if p m

  -- The order of std::map: the keys ascend, and are above `k`.
  abbrev pub Above : ℕ → Map V → Type 0
  Above k [] = Unit {0}
  Above k ((j, w) ∷ m) = (k < j) × Above j m

  abbrev pub Ascending : Map V → Type 0
  Ascending [] = Unit {0}
  Ascending ((j, w) ∷ m) = Above j m

  pub lookup-Above : (j k : ℕ) (m : Map V) → Above k m → j ≤ k → lookup j m ≡ none
  lookup-Above j k [] a h = refl
  lookup-Above j k ((i, w) ∷ m) a h = ground (arith, lookup-Above j i m a.1)

  Above-mono : (j k : ℕ) (m : Map V) → Above k m → j ≤ k → Above j m
  Above-mono j k [] a h = tt
  Above-mono j k ((i, w) ∷ m) a h = (omega arith, a.1)

  pub Above-Ascending : (k : ℕ) (m : Map V) → Above k m → Ascending m
  Above-Ascending k [] a = tt
  Above-Ascending k ((i, w) ∷ m) a = a.1

  insert-Above : (j k : ℕ) (v : V) (m : Map V) → Above k m → k < j → Above k (insert j v m)
  unfolding insert
  insert-Above j k v [] a h = (h, tt)
  insert-Above j k v ((i, w) ∷ m) a h = ground (arith, insert-Above j i v m a.1)

  pub insert-Ascending : (j : ℕ) (v : V) (m : Map V) → Ascending m → Ascending (insert j v m)
  unfolding insert
  insert-Ascending j v [] a = tt
  insert-Ascending j v ((i, w) ∷ m) a = ground (arith, insert-Above j i v m a)

  erase-Above : (j k : ℕ) (m : Map V) → Above k m → Above k (erase j m)
  unfolding erase
  erase-Above j k [] a = tt
  erase-Above j k ((i, w) ∷ m) a = ground (arith, erase-Above j i m a.1, Above-mono k i (erase j m))

  pub erase-Ascending : (j : ℕ) (m : Map V) → Ascending m → Ascending (erase j m)
  unfolding erase
  erase-Ascending j [] a = tt
  erase-Ascending j ((i, w) ∷ m) a =
      ground (arith, erase-Above j i m a, erase-Ascending j m (Above-Ascending i m a))

  erase_if-Above : (p : ℕ → V → Bool) (k : ℕ) (m : Map V) → Above k m → Above k (erase_if p m)
  unfolding erase_if
  erase_if-Above p k [] a = tt
  erase_if-Above p k ((i, w) ∷ m) a =
      ground (arith, erase_if-Above p i m a.1, Above-mono k i (erase_if p m))

  -- In an ascending map the loop erases exactly the entries that pass the test.
  pub lookup-erase_if :
      (p : ℕ → V → Bool) (j : ℕ) (m : Map V)
      → Ascending m
      → lookup j (erase_if p m)
        ≡ elim (lookup j m) [ none ↦ none | some v ↦ if p j v then none else some v ]
  unfolding erase_if
  lookup-erase_if p j [] a = refl
  lookup-erase_if p j ((i, w) ∷ m) a =
      ground (arith, lookup-erase_if p j m (Above-Ascending i m a), lookup-Above j i m a)

  pub erase_if-Ascending : (p : ℕ → V → Bool) (m : Map V) → Ascending m → Ascending (erase_if p m)
  unfolding erase_if
  erase_if-Ascending p [] a = tt
  erase_if-Ascending p ((i, w) ∷ m) a =
      ground (arith, erase_if-Above p i m a, erase_if-Ascending p m (Above-Ascending i m a))

  length-erase : (k : ℕ) (m : Map V) → length (erase k m) ≤ length m
  unfolding erase
  length-erase k [] = omega arith
  length-erase k ((j, w) ∷ m) = ground (arith, length-erase k m)

  length-erase_lt : (k : ℕ) (m : Map V) → contains k m ≡ true → suc (length (erase k m)) ≤ length m
  unfolding erase
  length-erase_lt k [] h = ground arith
  length-erase_lt k ((j, w) ∷ m) h = ground (arith, length-erase k m, length-erase_lt k m)

  -- A map with the keys below `n` has at least `n` entries.
  pub length-contains : (n : ℕ) (m : Map V) → ((k : ℕ) → k < n → contains k m ≡ true) → n ≤ length m
  length-contains zero m h = omega arith
  length-contains (suc n) m h =
      let smaller =
        length-contains n (erase n m)
          (λ k b. ground (arith, lookup-erase k n m, h k (omega arith))) in
      omega (arith, smaller, length-erase_lt n m (h n (omega arith)))
