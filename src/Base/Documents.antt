-- ===== src/Base/Documents.antt =====
-- A JavaScript value that may be JSON: a finite number is its text, and `foreign` is every value
-- that is not JSON (a function, `undefined`, an object with a prototype of its own). A key stands
-- once in an object.
use Prim.Native.String.{String}
use crm_silmer.Base.Tests.{text_eq, nat_eq, ◌==◌, if◌then◌else◌, is_some}
use crm_silmer.Base.Lists.{length, all}
use Prim.Native.Nat.{ℕ, zero, suc}
use mathlib.Core.Bool.{Bool, ◌&&◌}
use mathlib.Core.Option.{Option, some, none}
use mathlib.Core.List.{List, [], ◌∷◌}

mutual
  pub data Json : Type 0 where
    null : Json
    bool : Bool → Json
    number : String → Json
    not_finite : Json
    text : String → Json
    array : Items → Json
    object : Fields → Json
    foreign : Json

  pub data Items : Type 0 where
    nil : Items
    item : Json → Items → Items

  pub data Fields : Type 0 where
    end : Fields
    field : String → Json → Fields → Fields

unfoldable pub get : String → Fields → Option Json
get k end = none
get k (field j v fs) = if j == k then some v else get k fs

abbrev pub nth_item : ℕ → Items → Option Json
nth_item n nil = none
nth_item zero (item v vs) = some v
nth_item (suc n) (item v vs) = nth_item n vs

abbrev pub keys : Fields → List String
keys end = []
keys (field k v fs) = k ∷ keys fs

-- `assertExactKeys`: as many keys as expected, and each of those.
unfoldable pub has_exactly : List String → Fields → Bool
unfolding get
has_exactly expected fs =
    length (keys fs) == length expected && all (λ k. is_some (get k fs)) expected

-- A step from a value into it, and what stands at the end of a path.
pub data PathStep : Type 0 where
  at_key : String → PathStep
  at_index : ℕ → PathStep

abbrev pub step_into : PathStep → Json → Option Json
step_into (at_key k) (object fs) = get k fs
step_into (at_index n) (array vs) = nth_item n vs
step_into s v = none
