-- ===== src/Connect/Missing.antt =====
-- What the default connection parameters do to `pg_connect`.
use py_gre_sql.Base.{
  ℕ, pos, negsuc, ◌<◌, Bool, true, false, Bytes, Option, none, some, ◌≡◌, ◌≢◌, refl, arith,
  Bool-cases, inl, inr, ap,
}
use py_gre_sql.Settings.{Settings}
use py_gre_sql.Python.{Python}
use py_gre_sql.Libpq.{Libpq}
use py_gre_sql.Conn.{ConnObject}
use py_gre_sql.Connect.{
  Defaults, set_defhost, set_defport, ConnectArgs, to_int, params, Connector, Connected, connected,
  keywords, pg_connect, default_port, connection_result, opened,
}

to_int-small : (n : ℕ) → n < 2147483648 → to_int n ≡ pos n
unfolding to_int
to_int-small n h = ground arith

-- the state behind a setter that returns
abbrev behind {ℓ} : {A : Type ℓ} → Defaults → Option (Defaults × A) → Defaults
behind d none = d
behind d (some (e, old)) = e

default_port-pos : (n : ℕ) (o : Option ℕ) → default_port (pos n) o ≡ pos n
default_port-pos n none = refl
default_port-pos n (some m) = refl

port-params :
    (d : Defaults) (n : ℕ) (a : ConnectArgs)
    → n < 2147483648
    → a.port ≡ negsuc 0
    → params (record d { port = some n }) a ≡ params d (record a { port = pos n })
unfolding params
port-params d n a small missing = rw (missing, to_int-small n small, default_port-pos n d.port) refl

module _ (py : Python) (g : Settings py.Obj) (pq : Libpq) (connector : Connector pq) where
  -- A default port below 2^31 does what the same port does as an argument, whatever the other
  -- arguments and defaults are.
  pub set_defport-pg_connect :
      (d e : Defaults) (old : Option ℕ) (n : ℕ) (a : ConnectArgs)
      → n < 2147483648
      → set_defport d (some (pos n)) ≡ some (e, old)
      → a.port ≡ negsuc 0
      → pg_connect py g pq connector e (some a)
        ≡ pg_connect py g pq connector d (some (record a { port = pos n }))
  unfolding pg_connect set_defport params
  set_defport-pg_connect d e old n a small set missing =
      let same : record d { port = some n } ≡ e = ap (behind d) set in
      rw (← same, port-params d n a small missing) refl

  -- whether a connection object is connection_result without an exception
  abbrev is_connected : Connected py pq → Bool
  is_connected (connected c) = true
  is_connected _ = false

  pending-connection_result :
      (c : pq.Conn) → is_connected (connection_result py g pq connector true c) ≡ false
  pending-connection_result c = elim (Bool-cases (connector.is_bad c)) [
    | inl e ↦ rw e refl
    | inr e ↦ rw e refl
  ]

  host-pending :
      (d : Defaults) (s : Bytes) (a : ConnectArgs)
      → a.host ≡ none
      → (params (record d { host = some s }) a).pending ≡ true
  unfolding params
  host-pending d s a missing = rw missing refl

  -- Once a default host is set, no connection is connection_result to a call that does not give the host:
  -- it ends with an exception, even where libpq has made the connection.
  pub set_defhost-pg_connect :
      (d e : Defaults) (old : Option Bytes) (s : Bytes) (a : ConnectArgs) (c : ConnObject py pq)
      → set_defhost d (some (some s)) ≡ some (e, old)
      → a.host ≡ none
      → pg_connect py g pq connector e (some a) ≢ connected c
  unfolding pg_connect set_defhost params keywords
  set_defhost-pg_connect d e old s a c set missing =
      let same : record d { host = some s } ≡ e = ap (behind d) set in
      let kw = keywords (params e a) in
      let pending : (params e a).pending ≡ true = rw (← same) (host-pending d s a missing) in
      let none_made : is_connected (pg_connect py g pq connector e (some a)) ≡ false =
        rw pending (pending-connection_result (opened py g pq connector a.nowait kw)) in
      λ made. absurd (cc)
