-- ===== src/PgTypes/Parsed.antt =====
-- `STRING_TO_OID` of src/pg_types.cpp.
use qbm_pgsql.Prelude.{ℕ, List, [], ◌∷◌, codes}
use qbm_pgsql.PgTypes.Oids.{Oid}

unfoldable pub string_to_oid : List (List ℕ × Oid)
string_to_oid =
    (codes "boolean", Oid.boolean)
    ∷ (codes "bytea", Oid.bytea)
    ∷ (codes "char", Oid.char_)
    ∷ (codes "name", Oid.name)
    ∷ (codes "int8", Oid.int8)
    ∷ (codes "int2", Oid.int2)
    ∷ (codes "int2_vector", Oid.int2_vector)
    ∷ (codes "int4", Oid.int4)
    ∷ (codes "regproc", Oid.regproc)
    ∷ (codes "text", Oid.text)
    ∷ (codes "oid", Oid.oid_t)
    ∷ (codes "tid", Oid.tid)
    ∷ (codes "xid", Oid.xid)
    ∷ (codes "cid", Oid.cid)
    ∷ (codes "oid_vector", Oid.oid_vector)
    ∷ (codes "json", Oid.json)
    ∷ (codes "xml", Oid.xml)
    ∷ (codes "pg_node_tree", Oid.pg_node_tree)
    ∷ (codes "pg_ddl_command", Oid.pg_ddl_command)
    ∷ (codes "point", Oid.point)
    ∷ (codes "lseg", Oid.lseg)
    ∷ (codes "path", Oid.path)
    ∷ (codes "box", Oid.box)
    ∷ (codes "polygon", Oid.polygon)
    ∷ (codes "line", Oid.line)
    ∷ (codes "float4", Oid.float4)
    ∷ (codes "float8", Oid.float8)
    ∷ (codes "abstime", Oid.abstime)
    ∷ (codes "reltime", Oid.reltime)
    ∷ (codes "tinterval", Oid.tinterval)
    ∷ (codes "unknown", Oid.unknown)
    ∷ (codes "circle", Oid.circle)
    ∷ (codes "cash", Oid.cash)
    ∷ (codes "macaddr", Oid.macaddr)
    ∷ (codes "inet", Oid.inet)
    ∷ (codes "cidr", Oid.cidr)
    ∷ (codes "int2_array", Oid.int2_array)
    ∷ (codes "int4_array", Oid.int4_array)
    ∷ (codes "text_array", Oid.text_array)
    ∷ (codes "oid_array", Oid.oid_array)
    ∷ (codes "float4_array", Oid.float4_array)
    ∷ (codes "acl_item", Oid.acl_item)
    ∷ (codes "cstring_array", Oid.cstring_array)
    ∷ (codes "bpchar", Oid.bpchar)
    ∷ (codes "varchar", Oid.varchar)
    ∷ (codes "date", Oid.date)
    ∷ (codes "time", Oid.time)
    ∷ (codes "timestamp", Oid.timestamp)
    ∷ (codes "timestamptz", Oid.timestamptz)
    ∷ (codes "interval", Oid.interval)
    ∷ (codes "timetz", Oid.timetz)
    ∷ (codes "bit", Oid.bit)
    ∷ (codes "varbit", Oid.varbit)
    ∷ (codes "numeric", Oid.numeric)
    ∷ (codes "refcursor", Oid.refcursor)
    ∷ (codes "regprocedure", Oid.regprocedure)
    ∷ (codes "regoper", Oid.regoper)
    ∷ (codes "regoperator", Oid.regoperator)
    ∷ (codes "regclass", Oid.regclass)
    ∷ (codes "regtype", Oid.regtype)
    ∷ (codes "regrole", Oid.regrole)
    ∷ (codes "regtypearray", Oid.regtypearray)
    ∷ (codes "uuid", Oid.uuid)
    ∷ (codes "lsn", Oid.lsn)
    ∷ (codes "tsvector", Oid.tsvector)
    ∷ (codes "gtsvector", Oid.gtsvector)
    ∷ (codes "tsquery", Oid.tsquery)
    ∷ (codes "regconfig", Oid.regconfig)
    ∷ (codes "regdictionary", Oid.regdictionary)
    ∷ (codes "jsonb", Oid.jsonb)
    ∷ (codes "int4_range", Oid.int4_range)
    ∷ (codes "record", Oid.record_)
    ∷ (codes "record_array", Oid.record_array)
    ∷ (codes "cstring", Oid.cstring)
    ∷ (codes "any", Oid.any)
    ∷ (codes "any_array", Oid.any_array)
    ∷ (codes "void", Oid.void_)
    ∷ (codes "trigger", Oid.trigger)
    ∷ (codes "evttrigger", Oid.evttrigger)
    ∷ (codes "language_handler", Oid.language_handler)
    ∷ (codes "internal", Oid.internal)
    ∷ (codes "opaque", Oid.opaque)
    ∷ (codes "any_element", Oid.any_element)
    ∷ (codes "any_non_array", Oid.any_non_array)
    ∷ (codes "any_enum", Oid.any_enum)
    ∷ (codes "fdw_handler", Oid.fdw_handler)
    ∷ (codes "any_range", Oid.any_range)
    ∷ []
