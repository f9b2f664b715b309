-- ===== src/Connect/Tests.antt =====
-- Connections with and without default parameters, and the theorems on them at concrete inputs.
use py_gre_sql.Base.{
  ℕ, pos, negsuc, true, false, [], ◌∷◌, Option, none, some, codes, ◌≡◌, ◌≢◌, refl, arith,
}
use py_gre_sql.Python.Demo.{demo, demo_settings}
use py_gre_sql.Libpq.Demo.{server}
use py_gre_sql.Format.{print_decimal}
use py_gre_sql.Conn.{ConnObject}
use py_gre_sql.Connect.{
  Defaults, initial, set_defport, set_defhost, ConnectArgs, params, Keywords, keywords, int_text,
  to_int, Connector, connected, pg_connect,
}
use py_gre_sql.Connect.Missing.{set_defport-pg_connect, set_defhost-pg_connect}

-- each connection is good
abbrev network : Connector server
network = record { connect_params = λ kw. 7; start_params = λ kw. 8; is_bad = λ c. false }

abbrev no_args : ConnectArgs
no_args = record {
  dbname = none;
  host = none;
  port = negsuc 0;
  opt = none;
  user = none;
  passwd = none;
  nowait = false;
}

abbrev with_port : Option ℕ → Defaults
with_port port = record initial { port = port }

abbrev with_host : Defaults
with_host = record initial { host = some (codes "db") }

sent : Defaults → ConnectArgs → Keywords
unfolding params keywords int_text to_int print_decimal
sent d a = keywords (params d a)

sends :
    (sent (with_port (some 5432)) (record no_args { dbname = some (codes "x") })
      ≡ (codes "dbname", codes "x") ∷ (codes "port", codes "5432") ∷ [])
    × (sent with_host no_args ≡ [])
    × (sent (with_port (some 4294967295)) (record no_args { host = some (codes "h") })
        ≡ (codes "host", codes "h") ∷ [])
unfolding sent
sends = (refl, refl, refl)

set_defport-pg_connect_example :
    pg_connect demo (demo_settings none) server network (with_port (some 5433)) (some no_args)
    ≡ pg_connect demo
        (demo_settings none)
        server
        network
        initial
        (some (record no_args { port = pos 5433 }))
unfolding set_defport
set_defport-pg_connect_example =
    set_defport-pg_connect demo (demo_settings none) server network initial (with_port (some 5433))
      none 5433 no_args (omega arith) refl refl

abbrev connection : ConnObject demo server
connection = record {
  base = record { valid = true; cnx = some 7; date_format = none };
  cast_hook = none;
  notice_receiver = none;
}

set_defhost-pg_connect_example :
    pg_connect demo (demo_settings none) server network with_host (some no_args)
    ≢ connected connection
unfolding set_defhost
set_defhost-pg_connect_example =
    set_defhost-pg_connect demo (demo_settings none) server network initial with_host none
      (codes "db") no_args connection refl refl
