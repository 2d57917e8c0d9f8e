-- ===== src/Prelude/Map.antt =====
-- `HashMap` and `BTreeMap` as association lists in the order of the first insertion of a key.
use mathlib.Core.Path.{◌≡◌, refl}
use mathlib.Core.Option.{Option, none, some}
use mathlib.Core.List.{List, [], ◌∷◌}
use native.Mathlib.Omega.{arith}
use cinquain.Prelude.Tests.{if◌then◌else◌}
use cinquain.Prelude.Eqs.{Eq, ◌==◌, contains, distinct}
use mathlib.Core.Bool.{true, false, not, ◌||◌, ◌&&◌}

abbrev pub keys {ℓ} : {K V : Type ℓ} → List (K × V) → List K
keys [] = []
keys ((k, v) ∷ m) = k ∷ keys m

abbrev pub or_else {ℓ} : {V : Type ℓ} → Option V → Option V → Option V
or_else none o = o
or_else (some v) o = some v

module _ {ℓ} {K V : Type ℓ} ⦃e : Eq K⦄ where
  unfoldable pub get : K → List (K × V) → Option V
  get k [] = none
  get k ((j, v) ∷ m) = if j == k then some v else get k m

  unfoldable pub insert : K → V → List (K × V) → List (K × V)
  insert key value [] = (key, value) ∷ []
  insert key value ((other, old) ∷ rest) =
      if other == key then (key, value) ∷ rest else (other, old) ∷ insert key value rest

  -- `HashMap::extend`.
  unfoldable pub extend : List (K × V) → List (K × V) → List (K × V)
  unfolding insert
  extend m [] = m
  extend m ((k, v) ∷ n) = extend (insert k v m) n

  pub get-insert :
      (k j : K) (v : V) (m : List (K × V))
      → get j (insert k v m) ≡ (if k == j then some v else get j m)
  unfolding get insert
  get-insert k j v [] = refl
  get-insert k j v ((i, w) ∷ m) =
      ground (arith, e.beq_iff k j, e.beq_iff i k, e.beq_iff i j, get-insert k j v m)

  pub get-inserted : (k : K) (v : V) (m : List (K × V)) → get k (insert k v m) ≡ some v
  get-inserted k v m = ground (arith, get-insert k k v m, e.beq_iff k k)

  pub get-of_not_key : (k : K) (m : List (K × V)) → contains (keys m) k ≡ false → get k m ≡ none
  unfolding get contains
  get-of_not_key k [] h = refl
  get-of_not_key k ((j, v) ∷ m) h = ground (arith, get-of_not_key k m)

  -- Every entry is the one that its key finds: the keys are distinct.
  abbrev pub Finds : List (K × V) → List (K × V) → Type ℓ
  Finds m [] = Unit
  Finds m ((k, v) ∷ rest) = (get k m ≡ some v) × Finds m rest

  Finds-cons :
      (k : K) (v : V) (m rest : List (K × V))
      → contains (keys rest) k ≡ false
      → Finds m rest
      → Finds ((k, v) ∷ m) rest
  unfolding get contains
  Finds-cons k v m [] n f = tt
  Finds-cons k v m ((j, w) ∷ rest) n f =
      (ground (arith, f.0, e.beq_iff k j, e.beq_iff j k), Finds-cons k v m rest (ground arith) f.1)

  pub Finds-all : (m : List (K × V)) → distinct (keys m) ≡ true → Finds m m
  unfolding get distinct
  Finds-all [] d = tt
  Finds-all ((k, v) ∷ m) d = (
    ground (arith, e.beq_iff k k),
    Finds-cons k v m m (ground arith) (Finds-all m (ground arith)),
  )

  pub contains-keys-insert :
      (k j : K) (v : V) (m : List (K × V))
      → contains (keys (insert k v m)) j ≡ (k == j || contains (keys m) j)
  unfolding insert contains
  contains-keys-insert k j v [] = refl
  contains-keys-insert k j v ((i, w) ∷ m) =
      ground (arith, contains-keys-insert k j v m, e.beq_iff i k, e.beq_iff i j, e.beq_iff k j)

  pub distinct-keys-insert :
      (k : K) (v : V) (m : List (K × V))
      → distinct (keys m) ≡ true
      → distinct (keys (insert k v m)) ≡ true
  unfolding insert distinct contains
  distinct-keys-insert k v [] d = refl
  distinct-keys-insert k v ((i, w) ∷ m) d = ground (
    arith,
    distinct-keys-insert k v m,
    contains-keys-insert k i v m,
    e.beq_iff i k,
    e.beq_iff k i,
  )

  -- `extend` prefers the values of the map that is added.
  pub get-extend :
      (j : K) (m n : List (K × V))
      → distinct (keys n) ≡ true
      → get j (extend m n) ≡ or_else (get j n) (get j m)
  unfolding extend get distinct
  get-extend j m [] d = refl
  get-extend j m ((k, v) ∷ n) d =
      ground (
        arith,
        get-extend j (insert k v m) n,
        get-insert k j v m,
        get-of_not_key j n,
        e.beq_iff k j,
      )

  -- `HashMap::remove`.
  unfoldable pub delete : K → List (K × V) → List (K × V)
  delete key [] = []
  delete key ((other, value) ∷ rest) =
      let later = delete key rest in if other == key then later else (other, value) ∷ later

  pub get-delete :
      (k j : K) (m : List (K × V)) → get j (delete k m) ≡ (if k == j then none else get j m)
  unfolding get delete
  get-delete k j [] = ground arith
  get-delete k j ((i, w) ∷ m) =
      ground (arith, get-delete k j m, e.beq_iff i k, e.beq_iff i j, e.beq_iff k j)

  pub contains-keys-delete :
      (k j : K) (m : List (K × V))
      → contains (keys (delete k m)) j ≡ (not (k == j) && contains (keys m) j)
  unfolding delete contains
  contains-keys-delete k j [] = ground arith
  contains-keys-delete k j ((i, w) ∷ m) =
      ground (arith, contains-keys-delete k j m, e.beq_iff i k, e.beq_iff i j, e.beq_iff k j)
