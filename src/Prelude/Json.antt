-- ===== src/Prelude/Json.antt =====
-- JSON values, as `JSON.parse` gives them; numbers are natural ones, the only ones in use.
use Prim.Native.Nat.{ℕ}
use Prim.Native.String.{String}
use mathlib.Core.Bool.{Bool}
use mathlib.Core.Option.{Option, none, some}
use text.Mathlib.Text.{◌==◌ as str_eq}
use nodejs_advanced_homework.Prelude.Tests.{if◌then◌else◌}

mutual
  pub data Json : Type 0 where
    null : Json
    bool : Bool → Json
    num : ℕ → Json
    str : String → Json
    arr : Items → Json
    obj : Fields → Json

  pub data Items : Type 0 where
    nil : Items
    cons : Json → Items → Items

  pub data Fields : Type 0 where
    end : Fields
    field : String → Json → Fields → Fields

-- `o.name` on a parsed value: `none` is undefined. On null it throws, which `none` also stands for:
-- the one caller catches that and answers as for undefined.
abbrev pub get_field : String → Fields → Option Json
get_field name end = none
get_field name (field k v fs) = if str_eq k name then some v else get_field name fs

abbrev pub member : String → Json → Option Json
member name (obj fs) = get_field name fs
member name null = none
member name (bool b) = none
member name (num n) = none
member name (str s) = none
member name (arr xs) = none

-- `typeof v === 'string'`, with the string
abbrev pub as_string : Option Json → Option String
as_string (some (str s)) = some s
as_string (some null) = none
as_string (some (bool b)) = none
as_string (some (num n)) = none
as_string (some (arr xs)) = none
as_string (some (obj fs)) = none
as_string none = none

-- `typeof v === 'number'`, with the number
abbrev pub as_number : Option Json → Option ℕ
as_number (some (num n)) = some n
as_number (some null) = none
as_number (some (bool b)) = none
as_number (some (str s)) = none
as_number (some (arr xs)) = none
as_number (some (obj fs)) = none
as_number none = none
