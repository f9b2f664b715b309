-- ===== src/Lib.antt =====
-- PyGreSQL: the C part, which turns the text that PostgreSQL sends into Python objects.
--
-- The program. A query's result is a table of texts. For each column `get_type` (pginternal.c)
-- chooses a code from the type's OID and the module's settings, which the functions set_... and
-- get_... of pgmodule.c write and read. The casts turn a text into an object by that code; arrays,
-- records and hstore values have parsers of their own, which call the casts for their elements. A
-- failed command becomes an exception of the DB-API by its SQLSTATE. The DB-API module runs its
-- commands through a source object (pgsource.c), which keeps the last result and a current row; a
-- large object (pglarge.c) is a descriptor on the server. The classic module executes a query on a
-- connection object (pgconn.c) and gets a query object (pgquery.c), which holds the result or, for
-- an asynchronous query, fetches one result after the other.
--
-- The files.
--   Base        names of the libraries, tests on native numbers, bytes and lists of bytes
--   Outcome     how a parser ends: a value, an error, a fault, or too little fuel
--   Scan        the scanning loops of the parsers; Quoting: quoted texts with backslashes
--   Dimensions  the start of `cast_array`; Array: its loop
--   Record      `cast_record`
--   Hstore      `cast_hstore`
--   Oids        pgtypes.h; Types: `get_type`, `get_col_types`
--   Settings    the module variables of pgmodule.c with their setters and getters
--   DateStyle   `date_style_to_format`, `date_format_to_style`
--   Python      the functions of CPython and libpq that the casts call, a parameter
--   Convert     `cast_bytea_text`, `cast_sized_text`, `cast_other`, `cast_sized_simple`,
--               `cast_unsized_simple`
--   Elements    what `cast_array` does with an element; Record/Cast: what `cast_record` does with a
--               field
--   Errors      `get_error_type`, `set_error`, `set_error_msg_and_state`, `set_error_msg`
--   Names       names and values of attributes; Source/Attributes, Large/Attributes,
--               Conn/Attributes: the look-ups
--   Libpq       the functions of libpq that a source calls, a parameter
--   Source      pgsource.c: the object, its checks, `close`; Source/Execute, Source/Fetch (with the
--               moves), Source/Copy (`putdata`, `getdata`) and Source/Fields: its other methods
--   Large       pglarge.c: large objects, over the lo_ functions as a parameter
--   Format      `format_result`: a result as a table of text
--   Conn        pgconn.c: what a query uses of a connection; Conn/Execute (`_conn_query` and its
--               callers), Conn/Prepare (prepared statements), Conn/Insert (`inserttable`, with the
--               text format of COPY in Conn/Insert/Text), Conn/Attributes, Conn/Methods (the other
--               methods)
--   Conn/Notice pgnotice.c, and `notice_receiver` of pginternal.c
--   Query       pgquery.c: the query object and the fetching of asynchronous results; Query/Rows
--               (the methods that give rows), Query/Helpers (those that call functions of the
--               Python module), Query/Fields (names and other information on fields)
--   Functions   pgmodule.c: the escape functions of the module and `pg_cast_array`, `pg_cast_record`
--               and `pg_cast_hstore`
--   Connect     pgmodule.c: `pg_connect` and the default connection parameters
--
-- How state corresponds. A byte is a number and a text a list of them. A pointer of a parser is the
-- list of the bytes between it and `end`, so `s == end` is the empty list; where the code reads the
-- byte at `end`, that byte is an argument. A pointer that moves past `end`, a write past a buffer
-- and a use of bytes that were never written are faults of the model. The lists of a parser are
-- lists of objects; reference counts and failed allocations are left out. Where the code goes on
-- with the bytes of a text that cannot be decoded, and leaves the exception of the decoder set, the
-- bytes are the objects `bytes_while_pending` of Python, which carry it. The module variables are
-- the record Settings, passed to what reads them. A method of a source or a large object takes the
-- object and gives the new one with its reply; the connection object, which other objects share, is
-- part of it, and may change between two calls.
--
-- Fuel. The loops of the parsers take one more round than the text has bytes, which is enough as
-- each round passes at least one byte; `out_of_fuel` is no error that a theorem allows.
--
-- Not modelled: the lists of attribute names (`__dir__`), the release of objects, the Python modules
-- pg.py and pgdb.py, and Python 2.
pub mod Base
pub mod Outcome
pub mod Scan
pub mod Quoting
pub mod Dimensions
pub mod Array
pub mod Record
pub mod Hstore
pub mod Oids
pub mod Types
pub mod Settings
pub mod DateStyle
pub mod Python
pub mod Convert
pub mod Elements
pub mod Errors
pub mod Names
pub mod Libpq
pub mod Source
pub mod Large
pub mod Format
pub mod Conn
pub mod Query
pub mod Functions
pub mod Connect
