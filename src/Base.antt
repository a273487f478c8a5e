-- ===== src/Base.antt =====
-- What the modules of the library share: the libraries' names, tests on numbers, lists indexed by
-- native numbers, and the exceptions that the Python code raises.
mod Tests
mod Lists
mod Counting
mod Exceptions
pub use Tests.*
pub use Lists.*
pub use Counting.*
pub use Exceptions.*
pub use Prim.Native.Nat.{ℕ, zero, suc, ◌+◌, ◌-◌, ◌*◌, ◌/◌, ◌%◌, ◌^◌, ◌≤◌, ◌<◌, min, max}
pub use mathlib.Core.Path.{◌≡◌, refl, sym, ap, ap₂, subst, ◌∙◌, ◌≡⟨◌⟩◌, ◌∎}
pub use mathlib.Core.Logic.{◌≢◌, ◌↔◌, ◌⊎◌, inl, inr}
pub use mathlib.Core.Bool.{Bool, true, false, not, ◌&&◌, ◌||◌}
pub use mathlib.Core.Option.{Option, none, some}
pub use mathlib.Core.List.{List, [], ◌∷◌, ◌++◌, map, append-nil, append_assoc, reverse}
pub use native.Mathlib.Omega.{arith}
