-- ===== src/Base.antt =====
-- The names that every other module shares: the libraries', passed on, and those of the children.
mod Tests
mod Lists
mod Strings
pub use Tests.*
pub use Lists.*
unfoldable pub use Strings.*
pub use Prim.Native.Nat.{ℕ, zero, suc, ◌+◌, ◌-◌, ◌*◌, ◌/◌, ◌%◌, ◌^◌, ◌≤◌, ◌<◌, min}
pub use Prim.Native.String.{String}
pub use mathlib.Core.Path.{◌≡◌, refl, sym, ap, ◌∙◌}
pub use mathlib.Core.Logic.{◌≢◌, ◌↔◌, ◌⊎◌, inl, inr}
pub use mathlib.Core.Bool.{Bool, true, false, not, ◌&&◌, ◌||◌}
pub use mathlib.Core.Option.{Option, none, some}
pub use mathlib.Core.List.{List, [], ◌∷◌, ◌++◌, map}
pub use native.Mathlib.Omega.{arith}

-- What a test comes to, once its outcome is known.
pub else_of {ℓ} : {X : Type ℓ} (b : Bool) (x y z : X) → b ≡ false → (if b then x else y) ≡ z → y ≡ z
else_of true x y z e h = cc
else_of false x y z e h = h

pub then_of {ℓ} : {X : Type ℓ} (b : Bool) (x y z : X) → b ≡ true → (if b then x else y) ≡ z → x ≡ z
then_of true x y z e h = h
then_of false x y z e h = cc
