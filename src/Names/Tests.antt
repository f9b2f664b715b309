-- ===== src/Names/Tests.antt =====
-- The attributes of the objects.
use py_gre_sql.Base.{
  pos, true, false, [], ◌∷◌, Bytes, Option, none, some, codes, ◌≡◌, refl, if◌then◌else◌,
}
use py_gre_sql.Python.Demo.{demo}
use py_gre_sql.Libpq.Demo.{server}
use py_gre_sql.Outcome.{null_access}
use py_gre_sql.Format.{print_decimal}
use py_gre_sql.Names.{eq_bytes, object, parent_connection, none_while_pending, generic}
use py_gre_sql.Source.{Source, result_dml, check_source_obj, check_cnx_obj}
use py_gre_sql.Source.Attributes.{source_getattr}
use py_gre_sql.Large.{Large, check_lo_obj}
use py_gre_sql.Large.Attributes.{large_getattr, large_str}
use py_gre_sql.Conn.{ConnObject, Return, gives, raises, undefined, not_connected}
use py_gre_sql.Conn.Attributes.{ConnInfo, conn_getattr, conn_field, shown_host, get_ssl_attributes}
use py_gre_sql.Conn.Notice.{Diagnostics, Notice, notice_getattr, notice_str}

abbrev connection : ConnObject demo server
connection = record {
  base = record { valid = true; cnx = some 7; date_format = none };
  cast_hook = none;
  notice_receiver = none;
}

abbrev closed : ConnObject demo server
closed = record connection { base = record { valid = true; cnx = none; date_format = none } }

-- a network socket of the local host
abbrev local : ConnInfo server
local = record {
  host = λ c. some (codes "/tmp");
  port = λ c. codes " 5432x";
  db = λ c. codes "d";
  options = λ c. [];
  status_ok = λ c. true;
  user = λ c. codes "u";
  protocol_version = λ c. pos 3;
  server_version = λ c. pos 120000;
  backend_pid = λ c. pos 99;
  ssl_in_use = λ c. true;
  ssl_attribute_names = λ c. codes "key" ∷ codes "bits" ∷ [];
  ssl_attribute = λ c name. if eq_bytes name (codes "key") then some (codes "v") else none;
}

attribute : ConnObject demo server → Bytes → Return (Option Bytes)
unfolding conn_getattr conn_field eq_bytes shown_host get_ssl_attributes
attribute self name = conn_getattr demo server local self name

attributes :
    (attribute connection (codes "host") ≡ gives (some (codes "localhost")))
    × (attribute connection (codes "port") ≡ gives (some (5432 ∷ [])))
    × (attribute connection (codes "ssl_attributes") ≡ gives (some (codes "key:v;bits:None;")))
    × (attribute closed (codes "host") ≡ raises not_connected)
    × (attribute closed (codes "close") ≡ gives none)
unfolding attribute
attributes = (refl, refl, refl, refl, refl)

abbrev diagnostics : Diagnostics server
diagnostics = record { error_message = λ r. codes "m"; error_field = λ r code. none }

abbrev notice : Notice server
notice = record { pgcnx = none; res = some 1 }

-- In Python 3, `str` of a notice reads a null pointer.
str_of_notice : notice_str demo server diagnostics notice ≡ undefined null_access
unfolding notice_str notice_getattr
str_of_notice = refl

notice_text :
    notice_getattr demo server diagnostics notice (some (codes "message"))
    ≡ gives (object (codes "m"))
unfolding notice_getattr eq_bytes
notice_text = refl

abbrev source : Source server
source = record {
  valid = true;
  pgcnx = record { valid = true; cnx = some 7; date_format = none };
  result = none;
  encoding = 6;
  result_type = result_dml;
  arraysize = pos 1;
  current_row = pos 0;
  max_row = 5;
  num_fields = 0;
}

abbrev broken : Source server
broken = record source { valid = false }

source_attributes :
    (source_getattr demo server source (codes "resulttype") ≡ object (2 ∷ []))
    × (source_getattr demo server source (codes "pgcnx") ≡ parent_connection)
    × (source_getattr demo server broken (codes "pgcnx") ≡ none_while_pending)
    × (source_getattr demo server source (codes "fetch") ≡ generic)
unfolding source_getattr eq_bytes check_source_obj check_cnx_obj
source_attributes = (refl, refl, refl, refl)

abbrev large : Large server
large = record { pgcnx = source.pgcnx; lo_oid = 17; lo_fd = pos 3 }

large_attributes :
    (large_getattr demo server large (codes "oid") ≡ object (17 ∷ []))
    × (large_getattr demo server (record large { lo_oid = 0 }) (codes "oid")
        ≡ object (codes "None"))
    × (large_str large ≡ codes "Opened large object, oid 17")
unfolding large_getattr eq_bytes check_lo_obj check_cnx_obj large_str print_decimal
large_attributes = (refl, refl, refl)
