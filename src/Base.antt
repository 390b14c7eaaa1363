-- ===== src/Base.antt =====
-- Names and notation that every module shares: the library's, passed on, and those of the children.
mod Tests
mod Lists
mod Sort
mod Search
mod Keys
mod Errors
mod Transaction
mod Triples
pub use Tests.*
pub use Lists.*
unfoldable pub use Sort.*
pub use Search.*
pub use Keys.*
pub use Errors.*
pub use Transaction.*
pub use Triples.*
pub use Prim.Native.Nat.{ℕ, zero, suc, ◌+◌, ◌-◌, ◌*◌, ◌/◌, ◌%◌, ◌≤◌, ◌<◌}
pub use Prim.Native.String.{String}
pub use mathlib.Core.Path.{◌≡◌, refl, sym, ap, subst, ◌∙◌}
pub use mathlib.Core.Logic.{◌≢◌, ◌↔◌, ◌⊎◌, inl, inr}
pub use mathlib.Core.Bool.{Bool, true, false, not, ◌&&◌, ◌||◌}
pub use mathlib.Core.Option.{Option, none, some}
pub use mathlib.Core.List.{List, [], ◌∷◌, ◌++◌, map, append-nil, append_assoc, Mem}
pub use native.Mathlib.Omega.{arith}
