-- ===== src/Json.antt =====
-- What `JSON.parse` returns, and the scan that a response passes before it is decoded:
-- src/internal/sanitize.ts.
pub mod Sanitized
mod Tests
use cuna_lib_ts.Base.{ℕ, Bool, false, ◌||◌, if◌then◌else◌, Option, none, some, Text}
use cuna_lib_ts.Boundary.Escapes.{Platform, contains_prohibited_marker}

-- A number: a natural one, -(n + 1), or one that is no integer, which no code looks into.
pub data Number : Type 0 where
  whole : ℕ → Number
  minus_suc : ℕ → Number
  fraction : ℕ → Number

mutual
  pub data Json : Type 0 where
    null : Json
    boolean : Bool → Json
    number : Number → Json
    string : Text → Json
    array : Items → Json
    object : Fields → Json

  pub data Items : Type 0 where
    nil : Items
    cons : Json → Items → Items

  -- The own enumerable properties, in the order of `Object.entries`.
  pub data Fields : Type 0 where
    end : Fields
    field : Text → Json → Fields → Fields

module _ (platform : Platform) where
  unfoldable mutual
    pub contains_marker : Json → Bool
    contains_marker null = false
    contains_marker (boolean b) = false
    contains_marker (number n) = false
    contains_marker (string s) = contains_prohibited_marker platform s
    contains_marker (array items) = some_item items
    contains_marker (object fields) = some_field fields

    -- `value.some(containsMarker)`
    pub some_item : Items → Bool
    some_item nil = false
    some_item (cons value items) = contains_marker value || some_item items

    -- `Object.entries(value).some(…)`
    pub some_field : Fields → Bool
    some_field end = false
    some_field (field key nested fields) =
        (contains_prohibited_marker platform key || contains_marker nested) || some_field fields

  -- `none` is the `TypeError`.
  unfoldable pub sanitize_wire : Json → Option Json
  unfolding contains_marker
  sanitize_wire value = if contains_marker value then none else some value
