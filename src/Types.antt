-- ===== src/Types.antt =====
-- `get_type` of pginternal.c: the code by which a column of a PostgreSQL type is cast. The codes
-- are sums of bits: 8 is in the text based ones, 16 in arrays.
pub mod Laws
mod Tests
use Prim.Native.Nat.{bit_and, bit_or}
use py_gre_sql.Base.{
  ℕ, Bool, true, false, not, ◌||◌, List, [], ◌∷◌, map, Option, none, some, ◌==◌, if◌then◌else◌,
}
use py_gre_sql.Oids.{
  int2_oid, int4_oid, cid_oid, oid_oid, xid_oid, int8_oid, float4_oid, float8_oid, numeric_oid,
  cash_oid, bool_oid, bytea_oid, json_oid, jsonb_oid, bpchar_oid, char_oid, text_oid, varchar_oid,
  name_oid, regtype_oid, int2_array_oid, int4_array_oid, cid_array_oid, oid_array_oid,
  xid_array_oid, int8_array_oid, float4_array_oid, float8_array_oid, numeric_array_oid,
  money_array_oid, bool_array_oid, bytea_array_oid, json_array_oid, jsonb_array_oid,
  bpchar_array_oid, char_array_oid, text_array_oid, varchar_array_oid, name_array_oid,
  regtype_array_oid,
}
use py_gre_sql.Settings.{Settings}

abbrev pub pygres_int : ℕ
pygres_int = 1

abbrev pub pygres_long : ℕ
pygres_long = 2

abbrev pub pygres_float : ℕ
pygres_float = 3

abbrev pub pygres_decimal : ℕ
pygres_decimal = 4

abbrev pub pygres_money : ℕ
pygres_money = 5

abbrev pub pygres_bool : ℕ
pygres_bool = 6

abbrev pub pygres_text : ℕ
pygres_text = 8

abbrev pub pygres_bytea : ℕ
pygres_bytea = 9

abbrev pub pygres_json : ℕ
pygres_json = 10

abbrev pub pygres_other : ℕ
pygres_other = 11

abbrev pub pygres_array : ℕ
pygres_array = 16

-- the labels in front of one branch of a switch
abbrev pub one_of : ℕ → List ℕ → Bool
one_of t [] = false
one_of t (x ∷ xs) = t == x || one_of t xs

abbrev pub is_set {ℓ} : {A : Type ℓ} → Option A → Bool
is_set none = false
is_set (some a) = true

module _ {Obj : Type 0} (g : Settings Obj) where
  abbrev money_type : ℕ
  money_type = if not (g.decimal_point == 0) then pygres_money else pygres_text

  abbrev bytea_type : ℕ
  bytea_type = if g.bytea_escaped then pygres_text else pygres_bytea

  abbrev json_type : ℕ
  json_type = if is_set g.jsondecode then pygres_json else pygres_text

  abbrev array_type : ℕ → ℕ
  array_type t = if g.array_as_text then pygres_text else bit_or t pygres_array

  -- the labels of the array types
  pub get_array_type : ℕ → ℕ
  get_array_type t =
      if one_of t
        (int2_array_oid ∷ int4_array_oid ∷ cid_array_oid ∷ oid_array_oid ∷ xid_array_oid ∷ [])
      then array_type pygres_int
      else if t == int8_array_oid
      then array_type pygres_long
      else if one_of t (float4_array_oid ∷ float8_array_oid ∷ [])
      then array_type pygres_float
      else if t == numeric_array_oid
      then array_type pygres_decimal
      else if t == money_array_oid
      then array_type money_type
      else if t == bool_array_oid
      then array_type pygres_bool
      else if t == bytea_array_oid
      then array_type bytea_type
      else if one_of t (json_array_oid ∷ jsonb_array_oid ∷ [])
      then array_type json_type
      else if one_of t (
          bpchar_array_oid ∷ char_array_oid ∷ text_array_oid ∷ varchar_array_oid ∷ name_array_oid
          ∷ regtype_array_oid ∷ [])
      then array_type pygres_text
      else pygres_other

  unfoldable pub get_type : ℕ → ℕ
  get_type t =
      if one_of t (int2_oid ∷ int4_oid ∷ cid_oid ∷ oid_oid ∷ xid_oid ∷ [])
      then pygres_int
      else if t == int8_oid
      then pygres_long
      else if one_of t (float4_oid ∷ float8_oid ∷ [])
      then pygres_float
      else if t == numeric_oid
      then pygres_decimal
      else if t == cash_oid
      then money_type
      else if t == bool_oid
      then pygres_bool
      else if t == bytea_oid
      then bytea_type
      else if one_of t (json_oid ∷ jsonb_oid ∷ [])
      then json_type
      else if one_of t
          (bpchar_oid ∷ char_oid ∷ text_oid ∷ varchar_oid ∷ name_oid ∷ regtype_oid ∷ [])
      then pygres_text
      else get_array_type t

  -- `get_col_types`, over the types that `PQftype` gives for the columns
  unfoldable pub get_col_types : List ℕ → List ℕ
  get_col_types types = map get_type types
