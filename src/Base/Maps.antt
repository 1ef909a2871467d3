-- ===== src/Base/Maps.antt =====
-- Go maps with text keys, as association lists; the order of the list is one order of iteration.
use Prim.Native.String.{String}
use mathlib.Core.Path.{◌≡◌, refl, ap}
use mathlib.Core.Bool.{false}
use mathlib.Core.Option.{Option, none, some}
use mathlib.Core.List.{List, [], ◌∷◌}
use native.Mathlib.Omega.{arith}
use text.Mathlib.Text.{◌==◌}
use text.Mathlib.TextEquality.{eq_iff}
use nukara.Base.Tests.{if◌then◌else◌, Bool-cases}
use mathlib.Core.Logic.{inl, inr}

pub record Map {ℓ} (V : Type ℓ) : Type ℓ where
  pub entries : List (String × V)

module _ {ℓ} {V : Type ℓ} where
  unfoldable pub find : String → List (String × V) → Option V
  find k [] = none
  find k ((j, v) ∷ m) = if j == k then some v else find k m

  unfoldable pub store_at : String → V → List (String × V) → List (String × V)
  store_at k v [] = (k, v) ∷ []
  store_at k v ((j, w) ∷ m) = if j == k then (k, v) ∷ m else (j, w) ∷ store_at k v m

  unfoldable pub without : String → List (String × V) → List (String × V)
  without k [] = []
  without k ((j, v) ∷ m) = let rest = without k m in if j == k then rest else (j, v) ∷ rest

  unfoldable pub values_of : List (String × V) → List V
  values_of [] = []
  values_of ((k, v) ∷ m) = v ∷ values_of m

  -- `map[string]V{}`
  unfoldable pub empty_map : Map V
  empty_map = record { entries = [] }

  -- `v, ok := m[k]`
  unfoldable pub get : Map V → String → Option V
  unfolding find
  get m k = find k m.entries

  -- `m[k] = v`
  unfoldable pub put : Map V → String → V → Map V
  unfolding store_at
  put m k v = record { entries = store_at k v m.entries }

  -- `delete(m, k)`
  unfoldable pub delete : Map V → String → Map V
  unfolding without
  delete m k = record { entries = without k m.entries }

  -- `for _, v := range m`
  unfoldable pub values : Map V → List V
  unfolding values_of
  values m = values_of m.entries

  -- `m[k]`, with the zero value `d` for a missing key.
  abbrev pub get_or : Map V → String → V → V
  get_or m k d = elim (get m k) [ none ↦ d | some v ↦ v ]

  pub find-store_at :
      (k j : String) (v : V) (m : List (String × V))
      → find j (store_at k v m) ≡ (if k == j then some v else find j m)
  unfolding find store_at
  find-store_at k j v [] = refl
  find-store_at k j v ((i, w) ∷ m) =
      ground (arith, eq_iff k j, eq_iff i k, eq_iff i j, find-store_at k j v m)

  pub find-without :
      (k j : String) (m : List (String × V))
      → find j (without k m) ≡ (if k == j then none else find j m)
  unfolding find without
  find-without k j [] = ground arith
  find-without k j ((i, w) ∷ m) =
      ground (arith, eq_iff k j, eq_iff i k, eq_iff i j, find-without k j m)

  pub get-empty : (k : String) → get empty_map k ≡ none
  unfolding get empty_map
  get-empty k = refl

  pub get-put :
      (m : Map V) (k j : String) (v : V) → get (put m k v) j ≡ (if k == j then some v else get m j)
  unfolding get put
  get-put m k j v = find-store_at k j v m.entries

  pub get-delete :
      (m : Map V) (k j : String) → get (delete m k) j ≡ (if k == j then none else get m j)
  unfolding get delete
  get-delete m k j = find-without k j m.entries

  without-store_at :
      (k : String) (v : V) (m : List (String × V)) → without k (store_at k v m) ≡ without k m
  unfolding store_at without
  without-store_at k v [] = ground (arith, eq_iff k k)
  without-store_at k v ((i, w) ∷ m) = ground (arith, eq_iff k k, eq_iff i k, without-store_at k v m)

  -- A write changes no entry but its own.
  pub delete-put : (m : Map V) (k : String) (v : V) → delete (put m k v) k ≡ delete m k
  unfolding delete put
  delete-put m k v = ap (λ es. record { entries = es }) (without-store_at k v m.entries)

  pub get-put_self : (m : Map V) (k : String) (v : V) → get (put m k v) k ≡ some v
  get-put_self m k v = ground (arith, get-put m k k v, eq_iff k k)

  pub get-put_at : (m : Map V) (k j : String) (v : V) → j ≡ k → get (put m k v) j ≡ some v
  get-put_at m k j v e = ground (arith, get-put m k j v, eq_iff k j)

  pub get-put_other :
      (m : Map V) (k j : String) (v : V) → (k == j) ≡ false → get (put m k v) j ≡ get m j
  get-put_other m k j v e = ground (arith, get-put m k j v)

pub get_or-put {ℓ} :
    {V : Type ℓ} (m : Map V) (k j : String) (v d : V)
    → get_or (put m k v) j d ≡ (if k == j then v else get_or m j d)
get_or-put m k j v d = elim (Bool-cases (k == j)) [
  | inl e ↦ rw (get-put m k j v, e, get_or) refl
  | inr e ↦ rw (get-put m k j v, e, get_or) refl
]

pub get_or-delete {ℓ} :
    {V : Type ℓ} (m : Map V) (k j : String) (d : V)
    → get_or (delete m k) j d ≡ (if k == j then d else get_or m j d)
get_or-delete m k j d = elim (Bool-cases (k == j)) [
  | inl e ↦ rw (get-delete m k j, e, get_or) refl
  | inr e ↦ rw (get-delete m k j, e, get_or) refl
]

pub get_or-found {ℓ} :
    {V : Type ℓ} (m : Map V) (k : String) (d v : V) → get m k ≡ some v → get_or m k d ≡ v
get_or-found m k d v e = rw (e, get_or)

pub ruleset map_laws = (get-empty, get-put, get-delete)
