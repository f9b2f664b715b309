-- ===== src/Oids.antt =====
-- The type OIDs of pgtypes.h that `get_type` and `format_result` tell apart.
use py_gre_sql.Base.{ℕ}

abbrev pub int2_oid : ℕ
int2_oid = 21

abbrev pub int4_oid : ℕ
int4_oid = 23

abbrev pub cid_oid : ℕ
cid_oid = 29

abbrev pub oid_oid : ℕ
oid_oid = 26

abbrev pub xid_oid : ℕ
xid_oid = 28

abbrev pub int8_oid : ℕ
int8_oid = 20

abbrev pub float4_oid : ℕ
float4_oid = 700

abbrev pub float8_oid : ℕ
float8_oid = 701

abbrev pub numeric_oid : ℕ
numeric_oid = 1700

abbrev pub cash_oid : ℕ
cash_oid = 790

abbrev pub bool_oid : ℕ
bool_oid = 16

abbrev pub bytea_oid : ℕ
bytea_oid = 17

abbrev pub json_oid : ℕ
json_oid = 114

abbrev pub jsonb_oid : ℕ
jsonb_oid = 3802

abbrev pub bpchar_oid : ℕ
bpchar_oid = 1042

abbrev pub char_oid : ℕ
char_oid = 18

abbrev pub text_oid : ℕ
text_oid = 25

abbrev pub varchar_oid : ℕ
varchar_oid = 1043

abbrev pub name_oid : ℕ
name_oid = 19

abbrev pub regtype_oid : ℕ
regtype_oid = 2206

abbrev pub int2_array_oid : ℕ
int2_array_oid = 1005

abbrev pub int4_array_oid : ℕ
int4_array_oid = 1007

abbrev pub cid_array_oid : ℕ
cid_array_oid = 1012

abbrev pub oid_array_oid : ℕ
oid_array_oid = 1028

abbrev pub xid_array_oid : ℕ
xid_array_oid = 1011

abbrev pub int8_array_oid : ℕ
int8_array_oid = 1016

abbrev pub float4_array_oid : ℕ
float4_array_oid = 1021

abbrev pub float8_array_oid : ℕ
float8_array_oid = 1022

abbrev pub numeric_array_oid : ℕ
numeric_array_oid = 1231

abbrev pub money_array_oid : ℕ
money_array_oid = 791

abbrev pub bool_array_oid : ℕ
bool_array_oid = 1000

abbrev pub bytea_array_oid : ℕ
bytea_array_oid = 1001

abbrev pub json_array_oid : ℕ
json_array_oid = 199

abbrev pub jsonb_array_oid : ℕ
jsonb_array_oid = 3807

abbrev pub bpchar_array_oid : ℕ
bpchar_array_oid = 1014

abbrev pub char_array_oid : ℕ
char_array_oid = 1002

abbrev pub text_array_oid : ℕ
text_array_oid = 1009

abbrev pub varchar_array_oid : ℕ
varchar_array_oid = 1015

abbrev pub name_array_oid : ℕ
name_array_oid = 1003

abbrev pub regtype_array_oid : ℕ
regtype_array_oid = 2211
