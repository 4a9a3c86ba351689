-- ===== src/Common/Tri.antt =====
-- SQL's three-valued logic: a comparison with NULL is unknown, and a WHERE clause keeps the rows
-- for which its condition holds, so neither a condition nor its NOT keeps an unknown row.
use Prim.Native.Nat.{ℕ}
use Prim.Native.String.{String}
use mathlib.Core.Bool.{Bool, true, false}
use mathlib.Core.Option.{Option, none, some}
use text.Mathlib.Text.{◌==◌ as str_eq}
use brainstorm_server.Common.Tests.{leb, ltb}

pub data Tri : Type 0 where
  holds fails unknown : Tri

abbrev pub of_bool : Bool → Tri
of_bool true = holds
of_bool false = fails

abbrev pub and3 : Tri → Tri → Tri
and3 fails b = fails
and3 holds b = b
and3 unknown fails = fails
and3 unknown _ = unknown

abbrev pub or3 : Tri → Tri → Tri
or3 holds b = holds
or3 fails b = b
or3 unknown holds = holds
or3 unknown _ = unknown

abbrev pub not3 : Tri → Tri
not3 holds = fails
not3 fails = holds
not3 unknown = unknown

-- What a WHERE clause keeps.
abbrev pub keeps : Tri → Bool
keeps holds = true
keeps _ = false

-- `column == value`, `column <= value` and `column < value` for a column that may be NULL.
abbrev pub sql_eq : Option String → String → Tri
sql_eq none v = unknown
sql_eq (some a) v = of_bool (str_eq a v)

abbrev pub sql_le : Option ℕ → ℕ → Tri
sql_le none v = unknown
sql_le (some a) v = of_bool (leb a v)

abbrev pub sql_lt : Option ℕ → ℕ → Tri
sql_lt none v = unknown
sql_lt (some a) v = of_bool (ltb a v)

abbrev pub is_null {ℓ} : {A : Type ℓ} → Option A → Tri
is_null none = holds
is_null (some a) = fails

abbrev pub is_not_null {ℓ} : {A : Type ℓ} → Option A → Tri
is_not_null none = fails
is_not_null (some a) = holds
