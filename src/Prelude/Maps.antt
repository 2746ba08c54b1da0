-- ===== src/Prelude/Maps.antt =====
-- Go maps with text keys, as association lists: an insertion replaces in place, so that the keys
-- stay distinct; ranging over a map while deleting is `retain`.
use mathlib.Core.Path.{◌≡◌, refl}
use mathlib.Core.Logic.{◌≢◌}
use mathlib.Core.Bool.{Bool, true, false}
use mathlib.Core.Option.{Option, none, some}
use mathlib.Core.List.{List, [], ◌∷◌}
use native.Mathlib.Omega.{arith}
use secure_network.Prelude.Tests.{Bytes, ◌==◌, eq_iff, eq_refl, if◌then◌else◌}

abbrev pub Map {ℓ} : Type ℓ → Type ℓ
Map V = List (Bytes × V)

abbrev pub is_some {ℓ} : {A : Type ℓ} → Option A → Bool
is_some none = false
is_some (some a) = true

-- Keep a value that passes the test.
abbrev pub only_if {ℓ} : {A : Type ℓ} → (A → Bool) → Option A → Option A
only_if p none = none
only_if p (some a) = if p a then some a else none

module _ {ℓ} {V : Type ℓ} where
  unfoldable pub insert : Bytes → V → Map V → Map V
  insert key value [] = (key, value) ∷ []
  insert key value ((other, held) ∷ rest) =
      let later = insert key value rest in
      if other == key then (key, value) ∷ rest else (other, held) ∷ later

  unfoldable pub delete : Bytes → Map V → Map V
  delete key [] = []
  delete key ((other, held) ∷ rest) =
      let later = delete key rest in if other == key then later else (other, held) ∷ later

  unfoldable pub retain : (V → Bool) → Map V → Map V
  retain p [] = []
  retain p ((other, held) ∷ rest) =
      let later = retain p rest in if p held then (other, held) ∷ later else later

  unfoldable pub lookup : Bytes → Map V → Option V
  lookup key [] = none
  lookup key ((other, held) ∷ rest) =
      let later = lookup key rest in if other == key then some held else later

  pub lookup-delete :
      (gone key : Bytes) (m : Map V)
      → lookup key (delete gone m) ≡ (if gone == key then none else lookup key m)
  unfolding lookup delete
  lookup-delete gone key [] = ground arith
  lookup-delete gone key ((other, held) ∷ rest) =
      ground
        (arith, lookup-delete gone key rest, eq_iff gone key, eq_iff other key, eq_iff other gone)

  pub lookup-insert :
      (new key : Bytes) (value : V) (m : Map V)
      → lookup key (insert new value m) ≡ (if new == key then some value else lookup key m)
  unfolding lookup insert
  lookup-insert new key value [] = refl
  lookup-insert new key value ((other, held) ∷ rest) =
      ground (
        arith,
        lookup-insert new key value rest,
        eq_iff new key,
        eq_iff other key,
        eq_iff other new,
      )

  pub lookup-insert_ne :
      (new key : Bytes) (value : V) (m : Map V)
      → new ≢ key
      → lookup key (insert new value m) ≡ lookup key m
  lookup-insert_ne new key value m ne =
      ground (arith, lookup-insert new key value m, eq_iff new key)

  pub lookup-insert_self :
      (key : Bytes) (value : V) (m : Map V) → lookup key (insert key value m) ≡ some value
  lookup-insert_self key value m = ground (arith, eq_refl key, lookup-insert key key value m)

  -- No key stands twice.
  abbrev pub IsDistinct : Map V → Type ℓ
  IsDistinct [] = Unit
  IsDistinct ((k, v) ∷ m) = (lookup k m ≡ none) × IsDistinct m

  pub insert-IsDistinct : (k : Bytes) (v : V) (m : Map V) → IsDistinct m → IsDistinct (insert k v m)
  unfolding insert lookup
  insert-IsDistinct k v [] d = (refl, tt)
  insert-IsDistinct k v ((j, w) ∷ m) d =
      ground (arith, eq_iff j k, eq_iff k j, insert-IsDistinct k v m d.1, lookup-insert k j v m)

  pub delete-IsDistinct : (k : Bytes) (m : Map V) → IsDistinct m → IsDistinct (delete k m)
  unfolding delete
  delete-IsDistinct k [] d = tt
  delete-IsDistinct k ((j, w) ∷ m) d =
      ground (arith, delete-IsDistinct k m d.1, lookup-delete k j m)

  pub lookup-retain_absent :
      (p : V → Bool) (j : Bytes) (m : Map V) → lookup j m ≡ none → lookup j (retain p m) ≡ none
  unfolding lookup retain
  lookup-retain_absent p j [] h = refl
  lookup-retain_absent p j ((i, w) ∷ m) h = ground (arith, lookup-retain_absent p j m)

  pub lookup-retain :
      (p : V → Bool) (j : Bytes) (m : Map V)
      → IsDistinct m
      → lookup j (retain p m) ≡ only_if p (lookup j m)
  unfolding lookup retain
  lookup-retain p j [] d = refl
  lookup-retain p j ((i, w) ∷ m) d =
      ground (arith, eq_iff i j, lookup-retain p j m d.1, lookup-retain_absent p j m)

  pub retain-IsDistinct : (p : V → Bool) (m : Map V) → IsDistinct m → IsDistinct (retain p m)
  unfolding retain
  retain-IsDistinct p [] d = tt
  retain-IsDistinct p ((j, w) ∷ m) d =
      ground (arith, retain-IsDistinct p m d.1, lookup-retain_absent p j m)

module _ {ℓ κ} {V : Type ℓ} (P : Bytes → V → Type κ) where
  abbrev pub AllEntries : Map V → Type κ
  AllEntries [] = Unit
  AllEntries ((k, v) ∷ m) = P k v × AllEntries m

  pub AllEntries-insert :
      (k : Bytes) (v : V) (m : Map V) → P k v → AllEntries m → AllEntries (insert k v m)
  unfolding insert
  AllEntries-insert k v [] p h = (p, tt)
  AllEntries-insert k v ((j, w) ∷ m) p h = ground (arith, AllEntries-insert k v m p h.1)

  pub AllEntries-delete : (k : Bytes) (m : Map V) → AllEntries m → AllEntries (delete k m)
  unfolding delete
  AllEntries-delete k [] h = tt
  AllEntries-delete k ((j, w) ∷ m) h = ground (arith, AllEntries-delete k m h.1)

  pub AllEntries-retain : (p : V → Bool) (m : Map V) → AllEntries m → AllEntries (retain p m)
  unfolding retain
  AllEntries-retain p [] h = tt
  AllEntries-retain p ((j, w) ∷ m) h = ground (arith, AllEntries-retain p m h.1)

  pub AllEntries-lookup :
      (k : Bytes) (m : Map V) {v : V} → lookup k m ≡ some v → AllEntries m → P k v
  unfolding lookup
  AllEntries-lookup k [] e h = ground arith
  AllEntries-lookup k ((j, w) ∷ m) {v} e h =
      ground (arith, eq_iff j k, AllEntries-lookup k m {v = v})

pub AllEntries-delete_ne {ℓ κ ν} :
    {V : Type ℓ} (P : Bytes → V → Type κ) (Q : Bytes → V → Type ν) (key : Bytes) (m : Map V)
    → ((k : Bytes) (v : V) → k ≢ key → P k v → Q k v)
    → AllEntries P m
    → AllEntries Q (delete key m)
unfolding delete
AllEntries-delete_ne P Q key [] keep h = tt
AllEntries-delete_ne P Q key ((j, w) ∷ m) keep h = ground (
  arith,
  eq_iff j key,
  AllEntries-delete_ne P Q key m keep h.1,
  λ (ne : j ≢ key). keep j w ne h.0,
)

pub AllEntries-map {ℓ κ ν} :
    {V : Type ℓ} (P : Bytes → V → Type κ) (Q : Bytes → V → Type ν) (m : Map V)
    → ((k : Bytes) (v : V) → P k v → Q k v)
    → AllEntries P m
    → AllEntries Q m
AllEntries-map P Q [] keep h = tt
AllEntries-map P Q ((j, w) ∷ m) keep h = (keep j w h.0, AllEntries-map P Q m keep h.1)

pub AllEntries-retain_passes {ℓ} :
    {V : Type ℓ} (p : V → Bool) (m : Map V) → AllEntries (λ k v. p v ≡ true) (retain p m)
unfolding retain
AllEntries-retain_passes p [] = tt
AllEntries-retain_passes p ((j, w) ∷ m) = ground (arith, AllEntries-retain_passes p m)
