-- ===== src/Base/Dict.antt =====
-- Maps keyed by text (`HashMap`, `BTreeMap`, `DashMap`) as association lists in key
-- order, the order that `BTreeMap` iterates in (the other two promise none).
use Prim.Native.Nat.{Ordering}
use Prim.Native.String.{String, compare}
use text.Mathlib.Text.{◌==◌ as str_eq}
use text.Mathlib.TextEquality.{eq_iff as str_eq_iff}
use mathlib.Core.Path.{◌≡◌, refl, subst, subst₂}
use mathlib.Core.Logic.{inl, inr}
use mathlib.Core.Bool.{Bool, true}
use mathlib.Core.List.{List, [], ◌∷◌}
use mathlib.Core.Option.{Option, none, some}
use native.Mathlib.Omega.{arith}
use package.moaray.Base.Lists.{All, any}
use package.moaray.Base.Tests.{if◌then◌else◌, Bool-cases}

abbrev pub Dict : Type 0 → Type 0
Dict V = List (String × V)

module _ {V : Type 0} where
  unfoldable pub get : Dict V → String → Option V
  get [] k = none
  get ((j, v) ∷ m) k = if str_eq j k then some v else get m k

  -- A later insertion under the same key replaces the value; keys stay in ascending order.
  unfoldable pub insert : Dict V → String → V → Dict V
  insert [] k v = (k, v) ∷ []
  insert ((j, w) ∷ m) k v =
      let later = insert m k v in
      elim (compare k j) [
        | Ordering.lt ↦ (k, v) ∷ (j, w) ∷ m
        | Ordering.eq ↦ (k, v) ∷ m
        | Ordering.gt ↦ (j, w) ∷ later
      ]

  unfoldable pub values : Dict V → List V
  values [] = []
  values ((k, v) ∷ m) = v ∷ values m

  -- Every entry satisfies a predicate of its key and its value.
  abbrev pub Entries {κ} : (String → V → Type κ) → Dict V → Type κ
  Entries P [] = Unit
  Entries P ((k, v) ∷ m) = P k v × Entries P m

  unfoldable pub retain : (String → Bool) → Dict V → Dict V
  retain p [] = []
  retain p ((j, w) ∷ m) = let rest = retain p m in if p j then (j, w) ∷ rest else rest

  -- No key stands twice.
  abbrev pub Distinct : Dict V → Type 0
  Distinct [] = Unit
  Distinct ((k, v) ∷ m) = (get m k ≡ none) × Distinct m

  pub get-insert :
      (m : Dict V) (k j : String) (v : V)
      → get (insert m k v) j ≡ (if str_eq k j then some v else get m j)
  unfolding get insert
  get-insert [] k j v = refl
  get-insert ((i, w) ∷ m) k j v =
      ground (arith, str_eq_iff k j, str_eq_iff i k, str_eq_iff i j, get-insert m k j v)

  pub get-retain :
      (p : String → Bool) (m : Dict V) (k : String)
      → get (retain p m) k ≡ (if p k then get m k else none)
  unfolding get retain
  get-retain p [] k = ground arith
  get-retain p ((j, w) ∷ m) k = ground (arith, str_eq_iff j k, get-retain p m k)

  pub insert-Entries {κ} :
      (P : String → V → Type κ) (m : Dict V) (k : String) (v : V)
      → P k v
      → Entries P m
      → Entries P (insert m k v)
  unfolding insert
  insert-Entries P [] k v p h = (p, tt)
  insert-Entries P ((j, w) ∷ m) k v p h = ground (arith, insert-Entries P m k v p h.1)

  pub get-Entries {κ} :
      (P : String → V → Type κ) (m : Dict V) (k : String) {v : V}
      → Entries P m
      → get m k ≡ some v
      → P k v
  unfolding get
  get-Entries P [] k h e = cc
  get-Entries P ((j, w) ∷ m) k h e = elim (Bool-cases (str_eq j k)) [
    | inl same ↦ subst₂ P ((str_eq_iff j k).0 same) (cc) h.0
    | inr other ↦ get-Entries P m k h.1 (ground arith)
  ]

  pub get-values {κ} :
      (P : V → Type κ) (m : Dict V) (k : String) {v : V} → All P (values m) → get m k ≡ some v → P v
  unfolding get values
  get-values P [] k h e = cc
  get-values P ((j, w) ∷ m) k h e = elim (Bool-cases (str_eq j k)) [
    | inl same ↦ subst P (cc) h.0
    | inr other ↦ get-values P m k h.1 (ground arith)
  ]

  pub any-values :
      (p : V → Bool) (m : Dict V) (k : String) {v : V}
      → get m k ≡ some v
      → p v ≡ true
      → any p (values m) ≡ true
  unfolding get values
  any-values p [] k e h = cc
  any-values p ((j, w) ∷ m) k {v} e h =
      ground (arith, λ (x : get m k ≡ some v). any-values p m k x h)

  pub insert-Distinct :
      (m : Dict V) (k : String) (v : V) → get m k ≡ none → Distinct m → Distinct (insert m k v)
  unfolding insert get
  insert-Distinct [] k v e d = (refl, tt)
  insert-Distinct ((j, w) ∷ m) k v e d = ground (
    arith,
    str_eq_iff j k,
    str_eq_iff k j,
    get-insert m k j v,
    λ (x : get m k ≡ none). insert-Distinct m k v x d.1,
  )

module _ {V W : Type 0} where
  unfoldable pub map_values : (V → W) → Dict V → Dict W
  map_values f [] = []
  map_values f ((k, v) ∷ m) = (k, f v) ∷ map_values f m

  pub get-map_values :
      (f : V → W) (m : Dict V) (k : String) {v : V}
      → get m k ≡ some v
      → get (map_values f m) k ≡ some (f v)
  unfolding map_values get
  get-map_values f [] k e = cc
  get-map_values f ((j, w) ∷ m) k {v} e =
      ground (arith, λ (x : get m k ≡ some v). get-map_values f m k x)

  -- What stands in the mapped map comes from an entry of the map.
  pub get-map_values-some :
      (f : V → W) (m : Dict V) (k : String) (w : W)
      → get (map_values f m) k ≡ some w
      → (v : V) × (get m k ≡ some v) × (f v ≡ w)
  unfolding map_values get
  get-map_values-some f [] k w e = cc
  get-map_values-some f ((j, u) ∷ m) k w e = elim (Bool-cases (str_eq j k)) [
    | inl same ↦ (u, ground (arith, same), ground (arith, same, e))
    | inr other ↦
        let (v, here, at) = get-map_values-some f m k w (ground (arith, other, e)) in
        (v, ground (arith, other, here), at)
  ]
