-- ===== src/Value.antt =====
-- The values that `Any` stands for in policy/bundle.py, engine/compiler.py, engine/evaluator.py and
-- routes/decide.py: what a JSON text decodes to. Numbers are integers.
use Prim.Native.Nat.{ℕ, suc}
use Prim.Native.String.{String}
use mathlib.Core.Bool.{Bool, true, false, ◌&&◌}
use mathlib.Core.Option.{Option, none, some}
use text.Mathlib.Text.{◌==◌}
use trustmodel_edge.Prelude.Tests.{nat_eq, if◌then◌else◌}
use trustmodel_edge.Prelude.Int.{ℤ, pos, eq_ℤ}

mutual
  pub data Value : Type 0 where
    null : Value
    bool : Bool → Value
    int : ℤ → Value
    str : String → Value
    list : Items → Value
    dict : Entries → Value

  pub data Entries : Type 0 where
    no_entries : Entries
    entry : String → Value → Entries → Entries

  pub data Items : Type 0 where
    no_items : Items
    item : Value → Items → Items

abbrev pub bit : Bool → ℤ
bit true = pos 1
bit false = pos 0

-- A number equals another one, and a Boolean of that value.
abbrev num_eq : ℤ → Value → Bool
num_eq n (bool b) = eq_ℤ n (bit b)
num_eq n (int m) = eq_ℤ n m
num_eq n _ = false

unfoldable pub get_field : String → Entries → Option Value
get_field k no_entries = none
get_field k (entry j v fs) = if j == k then some v else get_field k fs

unfoldable count_fields : Entries → ℕ
count_fields no_entries = 0
count_fields (entry j v fs) = suc (count_fields fs)

-- Python's `v == w`. Two dicts are equal if they have the same keys with equal values, in any order.
unfoldable mutual
  unfolding get_field count_fields

  pub value_eq : Value → Value → Bool
  value_eq null null = true
  value_eq (bool b) w = num_eq (bit b) w
  value_eq (int n) w = num_eq n w
  value_eq (str s) (str t) = s == t
  value_eq (list xs) (list ys) = items_eq xs ys
  value_eq (dict fs) (dict gs) = nat_eq (count_fields fs) (count_fields gs) && fields_in fs gs
  value_eq _ _ = false

  pub items_eq : Items → Items → Bool
  items_eq no_items no_items = true
  items_eq (item x xs) (item y ys) = value_eq x y && items_eq xs ys
  items_eq _ _ = false

  pub fields_in : Entries → Entries → Bool
  fields_in no_entries gs = true
  fields_in (entry k v fs) gs =
      elim (get_field k gs) [ none ↦ false | some w ↦ value_eq v w ] && fields_in fs gs

-- `v is True`
abbrev pub is_true : Value → Bool
is_true (bool true) = true
is_true _ = false

-- `bool(v)`
abbrev pub truthy : Value → Bool
truthy null = false
truthy (bool b) = b
truthy (int n) = if eq_ℤ n (pos 0) then false else true
truthy (str s) = if s == "" then false else true
truthy (list no_items) = false
truthy (list (item _ _)) = true
truthy (dict no_entries) = false
truthy (dict (entry _ _ _)) = true

-- How Python writes values as texts, as far as the program leaves it to Python: `str(v)` of a value
-- that is no text, and the `repr` of a text.
pub record PyText : Type 0 where
  pub text_of : Value → String
  pub repr : String → String

-- `str(v)`: a text is itself.
abbrev pub str_of : PyText → Value → String
str_of py (str s) = s
str_of py v = py.text_of v

-- `d.get(k)` on a dict of values: a missing key reads as null.
abbrev pub or_null : Option Value → Value
or_null none = null
or_null (some v) = v
