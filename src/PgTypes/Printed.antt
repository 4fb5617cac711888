-- ===== src/PgTypes/Printed.antt =====
-- `OID_TO_STRING` of src/pg_types.cpp.
use qbm_pgsql.Prelude.{ℕ, List, [], ◌∷◌, codes}
use qbm_pgsql.PgTypes.Oids.{Oid}

unfoldable pub oid_to_string : List (Oid × List ℕ)
oid_to_string =
    (Oid.boolean, codes "boolean")
    ∷ (Oid.bytea, codes "bytea")
    ∷ (Oid.char_, codes "char")
    ∷ (Oid.name, codes "name")
    ∷ (Oid.int8, codes "int8")
    ∷ (Oid.int2, codes "int2")
    ∷ (Oid.int2_vector, codes "int2_vector")
    ∷ (Oid.int4, codes "int4")
    ∷ (Oid.regproc, codes "regproc")
    ∷ (Oid.text, codes "text")
    ∷ (Oid.oid_t, codes "oid")
    ∷ (Oid.tid, codes "tid")
    ∷ (Oid.xid, codes "xid")
    ∷ (Oid.cid, codes "cid")
    ∷ (Oid.oid_vector, codes "oid_vector")
    ∷ (Oid.json, codes "json")
    ∷ (Oid.xml, codes "xml")
    ∷ (Oid.pg_node_tree, codes "pg_node_tree")
    ∷ (Oid.pg_ddl_command, codes "pg_ddl_command")
    ∷ (Oid.point, codes "point")
    ∷ (Oid.lseg, codes "lseg")
    ∷ (Oid.path, codes "path")
    ∷ (Oid.box, codes "box")
    ∷ (Oid.polygon, codes "polygon")
    ∷ (Oid.line, codes "line")
    ∷ (Oid.float4, codes "float4")
    ∷ (Oid.float8, codes "float8")
    ∷ (Oid.abstime, codes "abstime")
    ∷ (Oid.reltime, codes "reltime")
    ∷ (Oid.tinterval, codes "tinterval")
    ∷ (Oid.unknown, codes "unknown")
    ∷ (Oid.circle, codes "circle")
    ∷ (Oid.cash, codes "cash")
    ∷ (Oid.macaddr, codes "macaddr")
    ∷ (Oid.inet, codes "inet")
    ∷ (Oid.cidr, codes "cidr")
    ∷ (Oid.int2_array, codes "int2_array")
    ∷ (Oid.int4_array, codes "int4_array")
    ∷ (Oid.text_array, codes "text_array")
    ∷ (Oid.oid_array, codes "oid_array")
    ∷ (Oid.float4_array, codes "float4_array")
    ∷ (Oid.acl_item, codes "acl_item")
    ∷ (Oid.cstring_array, codes "cstring_array")
    ∷ (Oid.bpchar, codes "bpchar")
    ∷ (Oid.varchar, codes "varchar")
    ∷ (Oid.date, codes "date")
    ∷ (Oid.time, codes "time")
    ∷ (Oid.timestamp, codes "timestamp")
    ∷ (Oid.timestamptz, codes "timestamptz")
    ∷ (Oid.interval, codes "interval")
    ∷ (Oid.timetz, codes "timetz")
    ∷ (Oid.bit, codes "bit")
    ∷ (Oid.varbit, codes "varbit")
    ∷ (Oid.numeric, codes "numeric")
    ∷ (Oid.refcursor, codes "refcursor")
    ∷ (Oid.regprocedure, codes "regprocedure")
    ∷ (Oid.regoper, codes "regoper")
    ∷ (Oid.regoperator, codes "regoperator")
    ∷ (Oid.regclass, codes "regclass")
    ∷ (Oid.regtype, codes "regtype")
    ∷ (Oid.regrole, codes "regrole")
    ∷ (Oid.regtypearray, codes "regtypearray")
    ∷ (Oid.uuid, codes "uuid")
    ∷ (Oid.lsn, codes "lsn")
    ∷ (Oid.tsvector, codes "tsvector")
    ∷ (Oid.gtsvector, codes "gtsvector")
    ∷ (Oid.tsquery, codes "tsquery")
    ∷ (Oid.regconfig, codes "regconfig")
    ∷ (Oid.regdictionary, codes "regdictionary")
    ∷ (Oid.jsonb, codes "jsonb")
    ∷ (Oid.int4_range, codes "int4_range")
    ∷ (Oid.record_, codes "record")
    ∷ (Oid.record_array, codes "record_array")
    ∷ (Oid.cstring, codes "cstring")
    ∷ (Oid.any, codes "any")
    ∷ (Oid.any_array, codes "any_array")
    ∷ (Oid.void_, codes "void")
    ∷ (Oid.trigger, codes "trigger")
    ∷ (Oid.evttrigger, codes "evttrigger")
    ∷ (Oid.language_handler, codes "language_handler")
    ∷ (Oid.internal, codes "internal")
    ∷ (Oid.opaque, codes "opaque")
    ∷ (Oid.any_element, codes "any_element")
    ∷ (Oid.any_non_array, codes "any_non_array")
    ∷ (Oid.any_enum, codes "any_enum")
    ∷ (Oid.fdw_handler, codes "fdw_handler")
    ∷ (Oid.any_range, codes "any_range")
    ∷ []
