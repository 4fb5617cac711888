-- ===== src/SqlState/Printed.antt =====
-- `STATE_TO_CODESTR` of src/sqlstates.cpp, classes 00 to 40.
use qbm_pgsql.Prelude.{ℕ, List, [], ◌∷◌, codes}
use qbm_pgsql.SqlState.States.{Code}

-- Classes 00 to 21.
abbrev pub completion_classes_printed : List (Code × List ℕ)
completion_classes_printed =
    (Code.successful_completion, codes "00000")
    ∷ (Code.warning, codes "01000")
    ∷ (Code.dynamic_result_sets_returned, codes "0100C")
    ∷ (Code.implicit_zero_bit_padding, codes "01008")
    ∷ (Code.null_value_eliminated_in_set_function, codes "01003")
    ∷ (Code.privilege_not_granted, codes "01007")
    ∷ (Code.privilege_not_revoked, codes "01006")
    ∷ (Code.string_data_right_truncation, codes "01004")
    ∷ (Code.deprecated_feature, codes "01P01")
    ∷ (Code.no_data, codes "02000")
    ∷ (Code.no_additional_dynamic_result_sets_returned, codes "02001")
    ∷ (Code.sql_statement_not_yet_complete, codes "03000")
    ∷ (Code.connection_exception, codes "08000")
    ∷ (Code.connection_does_not_exist, codes "08003")
    ∷ (Code.connection_failure, codes "08006")
    ∷ (Code.sqlclient_unable_to_establish_sqlconnection, codes "08001")
    ∷ (Code.sqlserver_rejected_establishment_of_sqlconnection, codes "08004")
    ∷ (Code.transaction_resolution_unknown, codes "08007")
    ∷ (Code.protocol_violation, codes "08P01")
    ∷ (Code.triggered_action_exception, codes "09000")
    ∷ (Code.feature_not_supported, codes "0A000")
    ∷ (Code.invalid_transaction_initiation, codes "0B000")
    ∷ (Code.locator_exception, codes "0F000")
    ∷ (Code.invalid_locator_specification, codes "0F001")
    ∷ (Code.invalid_grantor, codes "0L000")
    ∷ (Code.invalid_grant_operation, codes "0LP01")
    ∷ (Code.invalid_role_specification, codes "0P000")
    ∷ (Code.diagnostics_exception, codes "0Z000")
    ∷ (Code.stacked_diagnostics_accessed_without_active_handler, codes "0Z002")
    ∷ (Code.case_not_found, codes "20000")
    ∷ (Code.cardinality_violation, codes "21000")
    ∷ []

-- Class 22, exceptions of data.
abbrev pub data_classes_printed : List (Code × List ℕ)
data_classes_printed =
    (Code.data_exception, codes "22000")
    ∷ (Code.array_subscript_error, codes "2202E")
    ∷ (Code.character_not_in_repertoire, codes "22021")
    ∷ (Code.datetime_field_overflow, codes "22008")
    ∷ (Code.division_by_zero, codes "22012")
    ∷ (Code.error_in_assignment, codes "22005")
    ∷ (Code.escape_character_conflict, codes "2200B")
    ∷ (Code.indicator_overflow, codes "22022")
    ∷ (Code.interval_field_overflow, codes "22015")
    ∷ (Code.invalid_argument_for_logarithm, codes "2201E")
    ∷ (Code.invalid_argument_for_ntile_function, codes "22014")
    ∷ (Code.invalid_argument_for_nth_value_function, codes "22016")
    ∷ (Code.invalid_argument_for_power_function, codes "2201F")
    ∷ (Code.invalid_argument_for_width_bucket_function, codes "2201G")
    ∷ (Code.invalid_character_value_for_cast, codes "22018")
    ∷ (Code.invalid_datetime_format, codes "22007")
    ∷ (Code.invalid_escape_character, codes "22019")
    ∷ (Code.invalid_escape_octet, codes "2200D")
    ∷ (Code.invalid_escape_sequence, codes "22025")
    ∷ (Code.nonstandard_use_of_escape_character, codes "22P06")
    ∷ (Code.invalid_indicator_parameter_value, codes "22010")
    ∷ (Code.invalid_parameter_value, codes "22023")
    ∷ (Code.invalid_regular_expression, codes "2201B")
    ∷ (Code.invalid_row_count_in_limit_clause, codes "2201W")
    ∷ (Code.invalid_row_count_in_result_offset_clause, codes "2201X")
    ∷ (Code.invalid_time_zone_displacement_value, codes "22009")
    ∷ (Code.invalid_use_of_escape_character, codes "2200C")
    ∷ (Code.most_specific_type_mismatch, codes "2200G")
    ∷ (Code.null_value_not_allowed, codes "22004")
    ∷ (Code.null_value_no_indicator_parameter, codes "22002")
    ∷ (Code.numeric_value_out_of_range, codes "22003")
    ∷ (Code.string_data_length_mismatch, codes "22026")
    ∷ (Code.string_data_right_truncation, codes "22001")
    ∷ (Code.substring_error, codes "22011")
    ∷ (Code.trim_error, codes "22027")
    ∷ (Code.unterminated_c_string, codes "22024")
    ∷ (Code.zero_length_character_string, codes "2200F")
    ∷ (Code.floating_point_exception, codes "22P01")
    ∷ (Code.invalid_text_representation, codes "22P02")
    ∷ (Code.invalid_binary_representation, codes "22P03")
    ∷ (Code.bad_copy_file_format, codes "22P04")
    ∷ (Code.untranslatable_character, codes "22P05")
    ∷ (Code.not_an_xml_document, codes "2200L")
    ∷ (Code.invalid_xml_document, codes "2200M")
    ∷ (Code.invalid_xml_content, codes "2200N")
    ∷ (Code.invalid_xml_comment, codes "2200S")
    ∷ (Code.invalid_xml_processing_instruction, codes "2200T")
    ∷ []

-- Classes 23 to 40.
abbrev pub integrity_classes_printed : List (Code × List ℕ)
integrity_classes_printed =
    (Code.integrity_constraint_violation, codes "23000")
    ∷ (Code.restrict_violation, codes "23001")
    ∷ (Code.not_null_violation, codes "23502")
    ∷ (Code.foreign_key_violation, codes "23503")
    ∷ (Code.unique_violation, codes "23505")
    ∷ (Code.check_violation, codes "23514")
    ∷ (Code.exclusion_violation, codes "23P01")
    ∷ (Code.invalid_cursor_state, codes "24000")
    ∷ (Code.invalid_transaction_state, codes "25000")
    ∷ (Code.active_sql_transaction, codes "25001")
    ∷ (Code.branch_transaction_already_active, codes "25002")
    ∷ (Code.held_cursor_requires_same_isolation_level, codes "25008")
    ∷ (Code.inappropriate_access_mode_for_branch_transaction, codes "25003")
    ∷ (Code.inappropriate_isolation_level_for_branch_transaction, codes "25004")
    ∷ (Code.no_active_sql_transaction_for_branch_transaction, codes "25005")
    ∷ (Code.read_only_sql_transaction, codes "25006")
    ∷ (Code.schema_and_data_statement_mixing_not_supported, codes "25007")
    ∷ (Code.no_active_sql_transaction, codes "25P01")
    ∷ (Code.in_failed_sql_transaction, codes "25P02")
    ∷ (Code.invalid_sql_statement_name, codes "26000")
    ∷ (Code.triggered_data_change_violation, codes "27000")
    ∷ (Code.invalid_authorization_specification, codes "28000")
    ∷ (Code.invalid_password, codes "28P01")
    ∷ (Code.dependent_privilege_descriptors_still_exist, codes "2B000")
    ∷ (Code.dependent_objects_still_exist, codes "2BP01")
    ∷ (Code.invalid_transaction_termination, codes "2D000")
    ∷ (Code.sql_routine_exception, codes "2F000")
    ∷ (Code.function_executed_no_return_statement, codes "2F005")
    ∷ (Code.modifying_sql_data_not_permitted, codes "2F002")
    ∷ (Code.prohibited_sql_statement_attempted, codes "2F003")
    ∷ (Code.reading_sql_data_not_permitted, codes "2F004")
    ∷ (Code.invalid_cursor_name, codes "34000")
    ∷ (Code.external_routine_exception, codes "38000")
    ∷ (Code.containing_sql_not_permitted, codes "38001")
    ∷ (Code.modifying_sql_data_not_permitted, codes "38002")
    ∷ (Code.prohibited_sql_statement_attempted, codes "38003")
    ∷ (Code.reading_sql_data_not_permitted, codes "38004")
    ∷ (Code.external_routine_invocation_exception, codes "39000")
    ∷ (Code.invalid_sqlstate_returned, codes "39001")
    ∷ (Code.null_value_not_allowed, codes "39004")
    ∷ (Code.trigger_protocol_violated, codes "39P01")
    ∷ (Code.srf_protocol_violated, codes "39P02")
    ∷ (Code.savepoint_exception, codes "3B000")
    ∷ (Code.invalid_savepoint_specification, codes "3B001")
    ∷ (Code.invalid_catalog_name, codes "3D000")
    ∷ (Code.invalid_schema_name, codes "3F000")
    ∷ (Code.transaction_rollback, codes "40000")
    ∷ (Code.transaction_integrity_constraint_violation, codes "40002")
    ∷ (Code.serialization_failure, codes "40001")
    ∷ (Code.statement_completion_unknown, codes "40003")
    ∷ (Code.deadlock_detected, codes "40P01")
    ∷ []
