-- ===== src/PgTypes/Oids.antt =====
-- `oid` of src/pg_types.h: the enumerators and their numbers.
use qbm_pgsql.Prelude.{ℕ}

-- The enumerator `record` has an underscore added, as `void_` and `char_` have in the source.
pub data Oid : Type 0 where
  boolean bytea char_ name int8 int2 int2_vector int4 regproc text oid_t tid xid cid oid_vector json
        xml pg_node_tree pg_ddl_command point lseg path box polygon line float4 float8 abstime
        reltime tinterval unknown circle cash macaddr inet cidr int2_array int4_array text_array
        oid_array float4_array acl_item cstring_array bpchar varchar date time timestamp timestamptz
        interval timetz bit varbit numeric refcursor regprocedure regoper regoperator regclass
        regtype regrole regtypearray uuid lsn tsvector gtsvector tsquery regconfig regdictionary
        jsonb int4_range record_ record_array cstring any any_array void_ trigger evttrigger
        language_handler internal opaque any_element any_non_array any_enum fdw_handler any_range :
      Oid

unfoldable pub underlying : Oid → ℕ
underlying boolean = 16
underlying bytea = 17
underlying char_ = 18
underlying name = 19
underlying int8 = 20
underlying int2 = 21
underlying int2_vector = 22
underlying int4 = 23
underlying regproc = 24
underlying text = 25
underlying oid_t = 26
underlying tid = 27
underlying xid = 28
underlying cid = 29
underlying oid_vector = 30
underlying json = 114
underlying xml = 142
underlying pg_node_tree = 194
underlying pg_ddl_command = 32
underlying point = 600
underlying lseg = 601
underlying path = 602
underlying box = 603
underlying polygon = 604
underlying line = 628
underlying float4 = 700
underlying float8 = 701
underlying abstime = 702
underlying reltime = 703
underlying tinterval = 704
underlying unknown = 705
underlying circle = 718
underlying cash = 790
underlying macaddr = 829
underlying inet = 869
underlying cidr = 650
underlying int2_array = 1005
underlying int4_array = 1007
underlying text_array = 1009
underlying oid_array = 1028
underlying float4_array = 1021
underlying acl_item = 1033
underlying cstring_array = 1263
underlying bpchar = 1042
underlying varchar = 1043
underlying date = 1082
underlying time = 1083
underlying timestamp = 1114
underlying timestamptz = 1184
underlying interval = 1186
underlying timetz = 1266
underlying bit = 1560
underlying varbit = 1562
underlying numeric = 1700
underlying refcursor = 1790
underlying regprocedure = 2202
underlying regoper = 2203
underlying regoperator = 2204
underlying regclass = 2205
underlying regtype = 2206
underlying regrole = 4096
underlying regtypearray = 2211
underlying uuid = 2950
underlying lsn = 3220
underlying tsvector = 3614
underlying gtsvector = 3642
underlying tsquery = 3615
underlying regconfig = 3734
underlying regdictionary = 3769
underlying jsonb = 3802
underlying int4_range = 3904
underlying record_ = 2249
underlying record_array = 2287
underlying cstring = 2275
underlying any = 2276
underlying any_array = 2277
underlying void_ = 2278
underlying trigger = 2279
underlying evttrigger = 3838
underlying language_handler = 2280
underlying internal = 2281
underlying opaque = 2282
underlying any_element = 2283
underlying any_non_array = 2776
underlying any_enum = 3500
underlying fdw_handler = 3115
underlying any_range = 3831
