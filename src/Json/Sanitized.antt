-- ===== src/Json/Sanitized.antt =====
-- What passes the scan of a response.
use cuna_lib_ts.Base.{
  if◌then◌else◌, ◌≡◌, refl, Bool, false, ◌||◌, ◌↔◌, none, some, List, [], ◌∷◌, ◌++◌, any, Text,
  arith, All, sym, ◌∙◌,
}
use cuna_lib_ts.Boundary.Escapes.{Platform, contains_prohibited_marker}
use cuna_lib_ts.Json.{
  Json, null, boolean, number, string, array, object, Items, nil, cons, Fields, end, field,
  contains_marker, some_item, some_field, sanitize_wire,
}

-- Every string of a value, at any depth: string values and property names.
unfoldable mutual
  pub texts : Json → List Text
  texts null = []
  texts (boolean b) = []
  texts (number n) = []
  texts (string s) = s ∷ []
  texts (array items) = texts_items items
  texts (object fields) = texts_fields fields

  pub texts_items : Items → List Text
  texts_items nil = []
  texts_items (cons value items) = texts value ++ texts_items items

  pub texts_fields : Fields → List Text
  texts_fields end = []
  texts_fields (field key nested fields) = key ∷ (texts nested ++ texts_fields fields)

any-append {ℓ} :
    {A : Type ℓ} (p : A → Bool) (xs ys : List A) → any p (xs ++ ys) ≡ (any p xs || any p ys)
any-append p [] ys = refl
any-append p (x ∷ xs) ys = ground (arith, any-append p xs ys)

module _ (platform : Platform) where
  abbrev prohibited : Text → Bool
  prohibited = contains_prohibited_marker platform

  mutual
    unfolding contains_marker some_item some_field texts texts_items texts_fields

    marker-texts : (value : Json) → contains_marker platform value ≡ any prohibited (texts value)
    marker-texts null = refl
    marker-texts (boolean b) = refl
    marker-texts (number n) = refl
    marker-texts (string s) = ground arith
    marker-texts (array items) = items-texts items
    marker-texts (object fields) = fields-texts fields

    items-texts : (items : Items) → some_item platform items ≡ any prohibited (texts_items items)
    items-texts nil = refl
    items-texts (cons value items) = ground (
      arith,
      any-append prohibited (texts value) (texts_items items),
      marker-texts value,
      items-texts items,
    )

    fields-texts :
        (fields : Fields) → some_field platform fields ≡ any prohibited (texts_fields fields)
    fields-texts end = refl
    fields-texts (field key nested fields) = ground (
      arith,
      any-append prohibited (texts nested) (texts_fields fields),
      marker-texts nested,
      fields-texts fields,
    )

  abbrev IsClean : Text → Type 0
  IsClean s = contains_prohibited_marker platform s ≡ false

  any→All : (ts : List Text) → any prohibited ts ≡ false → All IsClean ts
  any→All [] h = tt
  any→All (t ∷ ts) h = (ground arith, any→All ts (ground arith))

  All→any : (ts : List Text) → All IsClean ts → any prohibited ts ≡ false
  All→any [] h = refl
  All→any (t ∷ ts) (p, h) = ground (arith, All→any ts h)

  passed : (b : Bool) (value : Json) → (if b then none else some value) ≡ some value → b ≡ false
  passed b value h = ground arith

  -- The scan passes a value, unchanged, exactly if no string value and no property name in it, at
  -- any depth, holds a prohibited marker.
  pub sanitize_wire-iff-clean :
      (value : Json)
      → (sanitize_wire platform value ≡ some value)
        ↔ All (λ s. contains_prohibited_marker platform s ≡ false) (texts value)
  unfolding sanitize_wire
  sanitize_wire-iff-clean value = (
    λ e.
        any→All (texts value)
          (sym (marker-texts value) ∙ passed (contains_marker platform value) value e),
    λ h. rw (marker-texts value ∙ All→any (texts value) h),
  )
