-- ===== src/Prelude/Json.antt =====
-- JSON values, as a JSON column stores them, and Python's equality on them: the order of the keys
-- of an object does not matter, and `True == 1`.
use ticket_sandbox.Prelude.Tests.{nat_beq, if◌then◌else◌}
use ticket_sandbox.Prelude.Text.{Text, text_beq}
use mathlib.Core.Bool.{Bool, true, false, ◌&&◌}
use mathlib.Core.Option.{Option, none, some}
use Prim.Native.Nat.{ℕ, suc}

mutual
  pub data Json : Type 0 where
    null : Json
    boolean : Bool → Json
    number : ℕ → Json
    text : Text → Json
    array : Items → Json
    object : Fields → Json

  pub data Items : Type 0 where
    end : Items
    item : Json → Items → Items

  pub data Fields : Type 0 where
    empty : Fields
    field : Text → Json → Fields → Fields

-- `value.get(key)` of an object.
abbrev pub get_field : Text → Fields → Option Json
get_field k empty = none
get_field k (field j v fs) = if text_beq k j then some v else get_field k fs

abbrev pub size : Fields → ℕ
size empty = 0
size (field k v fs) = suc (size fs)

abbrev as_number : Bool → ℕ
as_number true = 1
as_number false = 0

unfoldable mutual
  unfolding text_beq

  pub json_eq : Json → Json → Bool
  json_eq null null = true
  json_eq (boolean a) (boolean b) = nat_beq (as_number a) (as_number b)
  json_eq (boolean a) (number n) = nat_beq (as_number a) n
  json_eq (number n) (boolean b) = nat_beq n (as_number b)
  json_eq (number a) (number b) = nat_beq a b
  json_eq (text s) (text t) = text_beq s t
  json_eq (array xs) (array ys) = items_eq xs ys
  json_eq (object fs) (object gs) = nat_beq (size fs) (size gs) && within fs gs
  json_eq _ _ = false

  pub items_eq : Items → Items → Bool
  items_eq end end = true
  items_eq (item x xs) (item y ys) = json_eq x y && items_eq xs ys
  items_eq _ _ = false

  pub within : Fields → Fields → Bool
  within empty gs = true
  within (field k v fs) gs =
      elim (get_field k gs) [ none ↦ false | some w ↦ json_eq v w ] && within fs gs
