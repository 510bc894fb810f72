-- ===== src/Pg/Table.antt =====
-- pg/definitions.h: the definitions of the built-in types of PostgreSQL, in the order of the source.
use ozo_pg.Base.{List, [], ◌∷◌, none, some}
use ozo_pg.Pg.Definition.{TypeDefinition, define, dynamic_size, null_size, bytes}

-- From `null` to `cstring`.
abbrev pub first_definitions : List TypeDefinition
first_definitions =
    define "null" 0 none null_size
    ∷ define "aclitem" 1033 (some 1034) (bytes 12)
    ∷ define "any" 2276 none (bytes 4)
    ∷ define "anyarray" 2277 none dynamic_size
    ∷ define "anyelement" 2283 none (bytes 4)
    ∷ define "anyenum" 3500 none (bytes 4)
    ∷ define "anynonarray" 2776 none (bytes 4)
    ∷ define "anyrange" 3831 none dynamic_size
    ∷ define "bit" 1560 (some 1561) dynamic_size
    ∷ define "bool" 16 (some 1000) (bytes 1)
    ∷ define "box" 603 (some 1020) (bytes 32)
    ∷ define "bpchar" 1042 (some 1014) dynamic_size
    ∷ define "bytea" 17 (some 1001) dynamic_size
    ∷ define "char" 18 (some 1002) (bytes 1)
    ∷ define "cid" 29 (some 1012) (bytes 4)
    ∷ define "cidr" 650 (some 651) dynamic_size
    ∷ define "circle" 718 (some 719) (bytes 24)
    ∷ define "cstring" 2275 (some 1263) dynamic_size
    ∷ []

-- From `date` to `jsonpath`.
abbrev pub second_definitions : List TypeDefinition
second_definitions =
    define "date" 1082 (some 1182) (bytes 4)
    ∷ define "daterange" 3912 (some 3913) dynamic_size
    ∷ define "event_trigger" 3838 none (bytes 4)
    ∷ define "fdw_handler" 3115 none (bytes 4)
    ∷ define "float4" 700 (some 1021) (bytes 4)
    ∷ define "float8" 701 (some 1022) (bytes 8)
    ∷ define "gtsvector" 3642 (some 3644) dynamic_size
    ∷ define "index_am_handler" 325 none (bytes 4)
    ∷ define "inet" 869 (some 1041) dynamic_size
    ∷ define "int2" 21 (some 1005) (bytes 2)
    ∷ define "int2vector" 22 (some 1006) dynamic_size
    ∷ define "int4" 23 (some 1007) (bytes 4)
    ∷ define "int4range" 3904 (some 3905) dynamic_size
    ∷ define "int8" 20 (some 1016) (bytes 8)
    ∷ define "int8range" 3926 (some 3927) dynamic_size
    ∷ define "interval" 1186 (some 1187) (bytes 16)
    ∷ define "json" 114 (some 199) dynamic_size
    ∷ define "jsonb" 3802 (some 3807) dynamic_size
    ∷ define "jsonpath" 4072 (some 4073) dynamic_size
    ∷ []

-- From `language_handler` to `pg_ndistinct`.
abbrev pub third_definitions : List TypeDefinition
third_definitions =
    define "language_handler" 2280 none (bytes 4)
    ∷ define "line" 628 (some 629) (bytes 24)
    ∷ define "lseg" 601 (some 1018) (bytes 32)
    ∷ define "macaddr" 829 (some 1040) (bytes 6)
    ∷ define "macaddr8" 774 (some 775) (bytes 8)
    ∷ define "money" 790 (some 791) (bytes 8)
    ∷ define "name" 19 (some 1003) dynamic_size
    ∷ define "numeric" 1700 (some 1231) dynamic_size
    ∷ define "numrange" 3906 (some 3907) dynamic_size
    ∷ define "oid" 26 (some 1028) (bytes 4)
    ∷ define "oidvector" 30 (some 1013) dynamic_size
    ∷ define "opaque" 2282 none (bytes 4)
    ∷ define "path" 602 (some 1019) dynamic_size
    ∷ define "pg_attribute" 75 none dynamic_size
    ∷ define "pg_class" 83 none dynamic_size
    ∷ define "pg_dependencies" 3402 none dynamic_size
    ∷ define "pg_lsn" 3220 (some 3221) (bytes 8)
    ∷ define "pg_mcv_list" 5017 none dynamic_size
    ∷ define "pg_ndistinct" 3361 none dynamic_size
    ∷ []

-- From `pg_node_tree` to `text`.
abbrev pub fourth_definitions : List TypeDefinition
fourth_definitions =
    define "pg_node_tree" 194 none dynamic_size
    ∷ define "pg_proc" 81 none dynamic_size
    ∷ define "pg_type" 71 none dynamic_size
    ∷ define "point" 600 (some 1017) (bytes 16)
    ∷ define "polygon" 604 (some 1027) dynamic_size
    ∷ define "record" 2249 none dynamic_size
    ∷ define "refcursor" 1790 (some 2201) dynamic_size
    ∷ define "regclass" 2205 (some 2210) (bytes 4)
    ∷ define "regconfig" 3734 (some 3735) (bytes 4)
    ∷ define "regdictionary" 3769 (some 3770) (bytes 4)
    ∷ define "regnamespace" 4089 (some 4090) (bytes 4)
    ∷ define "regoper" 2203 (some 2208) (bytes 4)
    ∷ define "regoperator" 2204 (some 2209) (bytes 4)
    ∷ define "regproc" 24 (some 1008) (bytes 4)
    ∷ define "regprocedure" 2202 (some 2207) (bytes 4)
    ∷ define "regrole" 4096 (some 4097) (bytes 4)
    ∷ define "regtype" 2206 (some 2211) (bytes 4)
    ∷ define "table_am_handler" 269 none (bytes 4)
    ∷ define "text" 25 (some 1009) dynamic_size
    ∷ []

-- From `tid` to `xml`.
abbrev pub fifth_definitions : List TypeDefinition
fifth_definitions =
    define "tid" 27 (some 1010) (bytes 6)
    ∷ define "time" 1083 (some 1183) (bytes 8)
    ∷ define "timestamp" 1114 (some 1115) (bytes 8)
    ∷ define "timestamptz" 1184 (some 1185) (bytes 8)
    ∷ define "timetz" 1266 (some 1270) (bytes 12)
    ∷ define "trigger" 2279 none (bytes 4)
    ∷ define "tsm_handler" 3310 none (bytes 4)
    ∷ define "tsquery" 3615 (some 3645) dynamic_size
    ∷ define "tsrange" 3908 (some 3909) dynamic_size
    ∷ define "tstzrange" 3910 (some 3911) dynamic_size
    ∷ define "tsvector" 3614 (some 3643) dynamic_size
    ∷ define "txid_snapshot" 2970 (some 2949) dynamic_size
    ∷ define "unknown" 705 none dynamic_size
    ∷ define "uuid" 2950 (some 2951) (bytes 16)
    ∷ define "varbit" 1562 (some 1563) dynamic_size
    ∷ define "varchar" 1043 (some 1015) dynamic_size
    ∷ define "void" 2278 none (bytes 4)
    ∷ define "xid" 28 (some 1011) (bytes 4)
    ∷ define "xml" 142 (some 143) dynamic_size
    ∷ []
