-- ===== src/SqlState/PrintedMore.antt =====
-- `STATE_TO_CODESTR` of src/sqlstates.cpp, classes 42 to XX.
use qbm_pgsql.Prelude.{ℕ, List, [], ◌∷◌, codes}
use qbm_pgsql.SqlState.States.{Code}

-- Classes 42 and 44.
abbrev pub access_classes_printed : List (Code × List ℕ)
access_classes_printed =
    (Code.syntax_error_or_access_rule_violation, codes "42000")
    ∷ (Code.syntax_error, codes "42601")
    ∷ (Code.insufficient_privilege, codes "42501")
    ∷ (Code.cannot_coerce, codes "42846")
    ∷ (Code.grouping_error, codes "42803")
    ∷ (Code.windowing_error, codes "42P20")
    ∷ (Code.invalid_recursion, codes "42P19")
    ∷ (Code.invalid_foreign_key, codes "42830")
    ∷ (Code.invalid_name, codes "42602")
    ∷ (Code.name_too_long, codes "42622")
    ∷ (Code.reserved_name, codes "42939")
    ∷ (Code.datatype_mismatch, codes "42804")
    ∷ (Code.indeterminate_datatype, codes "42P18")
    ∷ (Code.collation_mismatch, codes "42P21")
    ∷ (Code.indeterminate_collation, codes "42P22")
    ∷ (Code.wrong_object_type, codes "42809")
    ∷ (Code.undefined_column, codes "42703")
    ∷ (Code.undefined_function, codes "42883")
    ∷ (Code.undefined_table, codes "42P01")
    ∷ (Code.undefined_parameter, codes "42P02")
    ∷ (Code.undefined_object, codes "42704")
    ∷ (Code.duplicate_column, codes "42701")
    ∷ (Code.duplicate_cursor, codes "42P03")
    ∷ (Code.duplicate_database, codes "42P04")
    ∷ (Code.duplicate_function, codes "42723")
    ∷ (Code.duplicate_prepared_statement, codes "42P05")
    ∷ (Code.duplicate_schema, codes "42P06")
    ∷ (Code.duplicate_table, codes "42P07")
    ∷ (Code.duplicate_alias, codes "42712")
    ∷ (Code.duplicate_object, codes "42710")
    ∷ (Code.ambiguous_column, codes "42702")
    ∷ (Code.ambiguous_function, codes "42725")
    ∷ (Code.ambiguous_parameter, codes "42P08")
    ∷ (Code.ambiguous_alias, codes "42P09")
    ∷ (Code.invalid_column_reference, codes "42P10")
    ∷ (Code.invalid_column_definition, codes "42611")
    ∷ (Code.invalid_cursor_definition, codes "42P11")
    ∷ (Code.invalid_database_definition, codes "42P12")
    ∷ (Code.invalid_function_definition, codes "42P13")
    ∷ (Code.invalid_prepared_statement_definition, codes "42P14")
    ∷ (Code.invalid_schema_definition, codes "42P15")
    ∷ (Code.invalid_table_definition, codes "42P16")
    ∷ (Code.invalid_object_definition, codes "42P17")
    ∷ (Code.with_check_option_violation, codes "44000")
    ∷ []

-- Classes 53 to F0.
abbrev pub system_classes_printed : List (Code × List ℕ)
system_classes_printed =
    (Code.insufficient_resources, codes "53000")
    ∷ (Code.disk_full, codes "53100")
    ∷ (Code.out_of_memory, codes "53200")
    ∷ (Code.too_many_connections, codes "53300")
    ∷ (Code.configuration_limit_exceeded, codes "53400")
    ∷ (Code.program_limit_exceeded, codes "54000")
    ∷ (Code.statement_too_complex, codes "54001")
    ∷ (Code.too_many_columns, codes "54011")
    ∷ (Code.too_many_arguments, codes "54023")
    ∷ (Code.object_not_in_prerequisite_state, codes "55000")
    ∷ (Code.object_in_use, codes "55006")
    ∷ (Code.cant_change_runtime_param, codes "55P02")
    ∷ (Code.lock_not_available, codes "55P03")
    ∷ (Code.operator_intervention, codes "57000")
    ∷ (Code.query_canceled, codes "57014")
    ∷ (Code.admin_shutdown, codes "57P01")
    ∷ (Code.crash_shutdown, codes "57P02")
    ∷ (Code.cannot_connect_now, codes "57P03")
    ∷ (Code.database_dropped, codes "57P04")
    ∷ (Code.system_error, codes "58000")
    ∷ (Code.io_error, codes "58030")
    ∷ (Code.undefined_file, codes "58P01")
    ∷ (Code.duplicate_file, codes "58P02")
    ∷ (Code.config_file_error, codes "F0000")
    ∷ (Code.lock_file_exists, codes "F0001")
    ∷ []

-- Classes HV, P0 and XX.
abbrev pub foreign_classes_printed : List (Code × List ℕ)
foreign_classes_printed =
    (Code.fdw_error, codes "HV000")
    ∷ (Code.fdw_column_name_not_found, codes "HV005")
    ∷ (Code.fdw_dynamic_parameter_value_needed, codes "HV002")
    ∷ (Code.fdw_function_sequence_error, codes "HV010")
    ∷ (Code.fdw_inconsistent_descriptor_information, codes "HV021")
    ∷ (Code.fdw_invalid_attribute_value, codes "HV024")
    ∷ (Code.fdw_invalid_column_name, codes "HV007")
    ∷ (Code.fdw_invalid_column_number, codes "HV008")
    ∷ (Code.fdw_invalid_data_type, codes "HV004")
    ∷ (Code.fdw_invalid_data_type_descriptors, codes "HV006")
    ∷ (Code.fdw_invalid_descriptor_field_identifier, codes "HV091")
    ∷ (Code.fdw_invalid_handle, codes "HV00B")
    ∷ (Code.fdw_invalid_option_index, codes "HV00C")
    ∷ (Code.fdw_invalid_option_name, codes "HV00D")
    ∷ (Code.fdw_invalid_string_length_or_buffer_length, codes "HV090")
    ∷ (Code.fdw_invalid_string_format, codes "HV00A")
    ∷ (Code.fdw_invalid_use_of_null_pointer, codes "HV009")
    ∷ (Code.fdw_too_many_handles, codes "HV014")
    ∷ (Code.fdw_out_of_memory, codes "HV001")
    ∷ (Code.fdw_no_schemas, codes "HV00P")
    ∷ (Code.fdw_option_name_not_found, codes "HV00J")
    ∷ (Code.fdw_reply_handle, codes "HV00K")
    ∷ (Code.fdw_schema_not_found, codes "HV00Q")
    ∷ (Code.fdw_table_not_found, codes "HV00R")
    ∷ (Code.fdw_unable_to_create_execution, codes "HV00L")
    ∷ (Code.fdw_unable_to_create_reply, codes "HV00M")
    ∷ (Code.fdw_unable_to_establish_connection, codes "HV00N")
    ∷ (Code.plpgsql_error, codes "P0000")
    ∷ (Code.raise_exception, codes "P0001")
    ∷ (Code.no_data_found, codes "P0002")
    ∷ (Code.too_many_rows, codes "P0003")
    ∷ (Code.internal_error, codes "XX000")
    ∷ (Code.data_corrupted, codes "XX001")
    ∷ (Code.index_corrupted, codes "XX002")
    ∷ []
