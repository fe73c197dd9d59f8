-- ===== src/Common/Maps.antt =====
-- Hash maps and hash sets (`HashMap`, `DashMap`, `HashSet`) as association lists and lists: every
-- key stands once, and the order of the list stands for the order in which the table iterates.
use Prim.Native.Nat.{ℕ, suc, ◌≤◌, ◌<◌}
use mathlib.Core.Path.{◌≡◌, refl}
use mathlib.Core.Logic.{◌≢◌, ite, ◌⊎◌, inl, inr}
use mathlib.Core.Bool.{Bool, true, false}
use mathlib.Core.Option.{Option, none, some}
use mathlib.Core.List.{List, [], ◌∷◌}
use native.Mathlib.Omega.{arith}
use native.Mathlib.Decide.{ℕ_discrete}
use basis_rust_server.Common.Tests.{if◌then◌else◌}
use basis_rust_server.Common.Lists.{length}

abbrev pub is_some {ℓ} : {A : Type ℓ} → Option A → Bool
is_some none = false
is_some (some a) = true

-- The types that can be keys of a table.
pub record Key {ℓ} (K : Type ℓ) : Type ℓ where
  pub same : Discrete K

instance abbrev pub nat_key : Key ℕ
unfolding ℕ_discrete
nat_key = record { same = ℕ_discrete }

unfoldable pub text_discrete : Discrete (List ℕ)
text_discrete = hlevel ℕ_discrete

instance abbrev pub text_key : Key (List ℕ)
text_key = record { same = text_discrete }

abbrev pub Map : Type 0 → Type 0 → Type 0
Map K V = List (K × V)

module _ {K V : Type 0} ⦃d : Key K⦄ where
  unfoldable pub lookup : K → Map K V → Option V
  lookup k [] = none
  lookup k ((j, w) ∷ m) = ite (d.same j k) (some w) (lookup k m)

  unfoldable pub insert : K → V → Map K V → Map K V
  insert k v [] = (k, v) ∷ []
  insert k v ((j, w) ∷ m) = ite (d.same j k) ((k, v) ∷ m) ((j, w) ∷ insert k v m)

  unfoldable pub remove : K → Map K V → Map K V
  remove k [] = []
  remove k ((j, w) ∷ m) = ite (d.same j k) (remove k m) ((j, w) ∷ remove k m)

  abbrev pub contains_key : K → Map K V → Bool
  contains_key k m = is_some (lookup k m)

  pub lookup-insert :
      (k j : K) (v : V) (m : Map K V)
      → lookup j (insert k v m) ≡ ite (d.same k j) (some v) (lookup j m)
  unfolding lookup insert
  lookup-insert k j v [] = refl
  lookup-insert k j v ((i, w) ∷ m) = ground (arith, lookup-insert k j v m)

  pub lookup-remove :
      (k j : K) (m : Map K V) → lookup j (remove k m) ≡ ite (d.same k j) none (lookup j m)
  unfolding lookup remove
  lookup-remove k j [] = ground arith
  lookup-remove k j ((i, w) ∷ m) = ground (arith, lookup-remove k j m)

  pub lookup-insert_self : (k : K) (v : V) (m : Map K V) → lookup k (insert k v m) ≡ some v
  lookup-insert_self k v m = ground (arith, lookup-insert k k v m)

  pub lookup-insert_ne :
      (k j : K) (v : V) (m : Map K V) → k ≢ j → lookup j (insert k v m) ≡ lookup j m
  lookup-insert_ne k j v m h = ground (arith, lookup-insert k j v m)

  pub lookup-remove_self : (k : K) (m : Map K V) → lookup k (remove k m) ≡ none
  lookup-remove_self k m = ground (arith, lookup-remove k k m)

  pub lookup-remove_ne : (k j : K) (m : Map K V) → k ≢ j → lookup j (remove k m) ≡ lookup j m
  lookup-remove_ne k j m h = ground (arith, lookup-remove k j m)

  -- Where an entry of a changed table comes from.
  pub insert-cases :
      (k j : K) (v w : V) (m : Map K V)
      → lookup j (insert k v m) ≡ some w
      → ((k ≡ j) × (v ≡ w)) ⊎ ((k ≢ j) × (lookup j m ≡ some w))
  insert-cases k j v w m e = elim (d.same k j) [
    | yes p ↦ inl (ground (arith, lookup-insert k j v m))
    | no n ↦ inr (ground (arith, lookup-insert k j v m))
  ]

  pub remove-cases :
      (k j : K) (w : V) (m : Map K V)
      → lookup j (remove k m) ≡ some w
      → (k ≢ j) × (lookup j m ≡ some w)
  remove-cases k j w m e = ground (arith, lookup-remove k j m)

-- A `HashSet` as a list without repetitions.
module _ {K : Type 0} ⦃d : Key K⦄ where
  unfoldable pub member : K → List K → Bool
  member k [] = false
  member k (j ∷ s) = ite (d.same j k) true (member k s)

  unfoldable pub add : K → List K → List K
  add k [] = k ∷ []
  add k (j ∷ s) = ite (d.same j k) (j ∷ s) (j ∷ add k s)

  unfoldable pub discard : K → List K → List K
  discard k [] = []
  discard k (j ∷ s) = ite (d.same j k) (discard k s) (j ∷ discard k s)

  pub member-add : (k j : K) (s : List K) → member j (add k s) ≡ ite (d.same k j) true (member j s)
  unfolding member add
  member-add k j [] = refl
  member-add k j (i ∷ s) = ground (arith, member-add k j s)

  pub member-discard :
      (k j : K) (s : List K) → member j (discard k s) ≡ ite (d.same k j) false (member j s)
  unfolding member discard
  member-discard k j [] = ground arith
  member-discard k j (i ∷ s) = ground (arith, member-discard k j s)

-- `retain` by the key.
module _ {K V : Type 0} ⦃d : Key K⦄ where
  unfoldable pub retain_keys : (K → Bool) → Map K V → Map K V
  retain_keys keep [] = []
  retain_keys keep ((j, w) ∷ m) = if keep j then (j, w) ∷ retain_keys keep m else retain_keys keep m

  pub lookup-retain_keys :
      (keep : K → Bool) (k : K) (m : Map K V)
      → lookup k (retain_keys keep m) ≡ (if keep k then lookup k m else none)
  unfolding lookup retain_keys
  lookup-retain_keys keep k [] = ground arith
  lookup-retain_keys keep k ((i, w) ∷ m) = ground (arith, lookup-retain_keys keep k m)

-- Sizes.
module _ {K V : Type 0} ⦃d : Key K⦄ where
  pub length-insert-le : (k : K) (v : V) (m : Map K V) → length (insert k v m) ≤ suc (length m)
  unfolding insert
  length-insert-le k v [] = omega arith
  length-insert-le k v ((i, w) ∷ m) = ground (arith, length-insert-le k v m)

  pub length-remove-le : (k : K) (m : Map K V) → length (remove k m) ≤ length m
  unfolding remove
  length-remove-le k [] = omega arith
  length-remove-le k ((i, w) ∷ m) = ground (arith, length-remove-le k m)

  pub length-remove-lt :
      (k : K) (m : Map K V) → contains_key k m ≡ true → length (remove k m) < length m
  unfolding lookup remove
  length-remove-lt k [] h = cc
  length-remove-lt k ((i, w) ∷ m) h = ground (arith, length-remove-lt k m, length-remove-le k m)

  pub length-retain_keys-le :
      (keep : K → Bool) (m : Map K V) → length (retain_keys keep m) ≤ length m
  unfolding retain_keys
  length-retain_keys-le keep [] = omega arith
  length-retain_keys-le keep ((i, w) ∷ m) = ground (arith, length-retain_keys-le keep m)

-- What a `HashMap` is: no key stands twice.
module _ {K V : Type 0} ⦃d : Key K⦄ where
  abbrev pub HasKeysOnce : Map K V → Type 0
  unfolding lookup
  HasKeysOnce [] = Unit {0}
  HasKeysOnce ((k, v) ∷ m) = (lookup k m ≡ none) × HasKeysOnce m

-- `iter().filter(..).map(key)`.
module _ {K V : Type 0} where
  unfoldable pub keys_where : (V → Bool) → Map K V → List K
  keys_where test [] = []
  keys_where test ((k, v) ∷ m) = if test v then k ∷ keys_where test m else keys_where test m

abbrev pub holds_of : {V : Type 0} → (V → Bool) → Option V → Bool
holds_of test none = false
holds_of test (some v) = test v

module _ {K V : Type 0} ⦃d : Key K⦄ where
  pub member-keys_where :
      (test : V → Bool) (k : K) (m : Map K V)
      → HasKeysOnce m
      → member k (keys_where test m) ≡ holds_of test (lookup k m)
  unfolding lookup member keys_where
  member-keys_where test k [] h = refl
  member-keys_where test k ((j, w) ∷ m) h = ground (arith, member-keys_where test k m h.1)

-- `for key in keys { table.remove(&key) }`.
module _ {K V : Type 0} ⦃d : Key K⦄ where
  unfoldable pub remove_keys : List K → Map K V → Map K V
  remove_keys [] m = m
  remove_keys (key ∷ keys) m = remove_keys keys (remove key m)

  pub lookup-remove_keys :
      (keys : List K) (k : K) (m : Map K V)
      → lookup k (remove_keys keys m) ≡ (if member k keys then none else lookup k m)
  unfolding remove_keys member
  lookup-remove_keys [] k m = refl
  lookup-remove_keys (key ∷ keys) k m =
      ground (arith, lookup-remove_keys keys k (remove key m), lookup-remove key k m)
