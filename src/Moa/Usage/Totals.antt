-- ===== src/Moa/Usage/Totals.antt =====
-- crates/moaray-moa/src/orchestrator.rs: the usage of an answer is the sum, field by field.
use moaray.Base.{
  String, str_eq, ◌≡◌, refl, Option, none, some, List, [], ◌∷◌, ◌++◌, unwrap_or, arith, ap, sym,
  ◌∙◌, Bool-cases, inl, inr, if◌then◌else◌, str_eq_iff,
}
use moaray.Base.Int.{ℤ, pos, Fits, wrapping_add}
use moaray.Base.Dict
use moaray.Base.Dict.{Dict}
use moaray.Core.Json.{Json}
use moaray.Moa.Usage.{◌>>=?◌, add_field, add_fields, add_usages, sum_usage}

pub wrapping_add-Fits : (a b : ℤ) → Fits 64 (wrapping_add a b)
unfolding wrapping_add
wrapping_add-Fits a b = ground arith

-- Numbers added one after the other to a total that may not be there yet.
abbrev pub added : Option ℤ → List ℤ → Option ℤ
added total [] = total
added total (z ∷ zs) = added (some (wrapping_add (unwrap_or total (pos 0)) z)) zs

pub added-append :
    (total : Option ℤ) (xs ys : List ℤ) → added total (xs ++ ys) ≡ added (added total xs) ys
added-append total [] ys = refl
added-append total (x ∷ xs) ys =
    added-append (some (wrapping_add (unwrap_or total (pos 0)) x)) xs ys

abbrev pub if_some : Option ℤ → List ℤ
if_some none = []
if_some (some z) = z ∷ []

module _ (J : Json) where
  -- The integers that an object holds under a key, and those of a list of objects.
  abbrev pub integers : String → Dict J.Value → List ℤ
  integers k [] = []
  integers k ((j, v) ∷ obj) =
      let rest = integers k obj in if str_eq j k then if_some (J.as_i64 v) ++ rest else rest

  abbrev pub integers_of : String → List J.Value → List ℤ
  integers_of k [] = []
  integers_of k (u ∷ us) = integers k (unwrap_or (J.as_object u) []) ++ integers_of k us

  -- What stands in an object for a total that may not be there.
  abbrev pub written : Option ℤ → Option J.Value
  written none = none
  written (some z) = some (J.from_i64 z)

  FitsIfThere : Option ℤ → Type 0
  FitsIfThere none = Unit
  FitsIfThere (some z) = Fits 64 z

  added-Fits : (total : Option ℤ) (zs : List ℤ) → FitsIfThere total → FitsIfThere (added total zs)
  unfolding FitsIfThere
  added-Fits total [] f = f
  added-Fits total (z ∷ zs) f =
      added-Fits (some (wrapping_add (unwrap_or total (pos 0)) z)) zs
        (wrapping_add-Fits (unwrap_or total (pos 0)) z)

  -- The total that is read back is the one that was written.
  read_total : (total : Option ℤ) → FitsIfThere total → (written total >>=? J.as_i64) ≡ total
  unfolding FitsIfThere
  read_total none f = refl
  read_total (some z) f = J.as_i64-from_i64 z f

  add_field-written :
      (acc : Dict J.Value) (k j : String) (n total : Option ℤ)
      → FitsIfThere total
      → Dict.get acc k ≡ written total
      → Dict.get (add_field J acc j n) k
        ≡ written (added total (if str_eq j k then if_some n else []))
  unfolding add_field
  add_field-written acc k j none total f e = ground (arith, e)
  add_field-written acc k j (some z) total f e =
      let cur = unwrap_or (Dict.get acc j >>=? J.as_i64) (pos 0) in
      let put = Dict.get-insert acc j k (J.from_i64 (wrapping_add cur z)) in
      elim (Bool-cases (str_eq j k)) [
        | inr other ↦ rw other (ground (arith, put, other, e))
        | inl same ↦
            let back : (Dict.get acc j >>=? J.as_i64) ≡ total =
              ap (λ x. Dict.get acc x >>=? J.as_i64) ((str_eq_iff j k).0 same)
              ∙ ap (λ o. o >>=? J.as_i64) e
              ∙ read_total total f in
            rw same (
              ground (arith, put, same)
              ∙ ap (λ o. some (J.from_i64 (wrapping_add (unwrap_or o (pos 0)) z))) back)
      ]

  add_fields-written :
      (acc obj : Dict J.Value) (k : String) (total : Option ℤ)
      → FitsIfThere total
      → Dict.get acc k ≡ written total
      → Dict.get (add_fields J acc obj) k ≡ written (added total (integers k obj))
  unfolding add_fields
  add_fields-written acc [] k total f e = e
  add_fields-written acc ((j, v) ∷ obj) k total f e =
      let one = if str_eq j k then if_some (J.as_i64 v) else [] in
      add_fields-written (add_field J acc j (J.as_i64 v)) obj k (added total one)
        (added-Fits total one f) (add_field-written acc k j (J.as_i64 v) total f e)
      ∙ ap written (sym (added-append total one (integers k obj)) ∙ ap (added total) joined)
    where
      joined :
          (if str_eq j k then if_some (J.as_i64 v) else []) ++ integers k obj
          ≡ integers k ((j, v) ∷ obj)
      joined = ground arith

  add_usages-written :
      (acc : Dict J.Value) (us : List J.Value) (k : String) (total : Option ℤ)
      → FitsIfThere total
      → Dict.get acc k ≡ written total
      → Dict.get (add_usages J acc us) k ≡ written (added total (integers_of k us))
  unfolding add_usages
  add_usages-written acc [] k total f e = e
  add_usages-written acc (u ∷ us) k total f e =
      let obj = unwrap_or (J.as_object u) [] in
      add_usages-written (add_fields J acc obj) us k (added total (integers k obj))
        (added-Fits total (integers k obj) f) (add_fields-written acc obj k total f e)
      ∙ ap written (sym (added-append total (integers k obj) (integers_of k us)))

  -- The sum of usage objects is an object. What stands in it under a key is the sum, in 64 bits, of the
  -- integers that the objects hold under it; where no object holds an integer, nothing stands.
  pub sum_usage-added :
      (us : List J.Value)
      → (obj : Dict J.Value) × (J.as_object (sum_usage J us) ≡ some obj)
        × ((k : String) → Dict.get obj k ≡ written (added none (integers_of k us)))
  unfolding sum_usage FitsIfThere Dict.get
  sum_usage-added us = (
    add_usages J [] us,
    J.as_object-object (add_usages J [] us),
    λ k. add_usages-written [] us k none tt refl,
  )
