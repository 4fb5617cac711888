-- ===== src/SqlState/States.antt =====
-- `sqlstate::code` of src/sqlstates.h: the states that the client knows.

pub data Code : Type 0 where
  unknown_code successful_completion warning dynamic_result_sets_returned : Code
  implicit_zero_bit_padding null_value_eliminated_in_set_function privilege_not_granted : Code
  privilege_not_revoked string_data_right_truncation deprecated_feature no_data : Code
  no_additional_dynamic_result_sets_returned sql_statement_not_yet_complete : Code
  connection_exception connection_does_not_exist connection_failure : Code
  sqlclient_unable_to_establish_sqlconnection : Code
  sqlserver_rejected_establishment_of_sqlconnection transaction_resolution_unknown : Code
  protocol_violation triggered_action_exception feature_not_supported : Code
  invalid_transaction_initiation locator_exception invalid_locator_specification : Code
  invalid_grantor invalid_grant_operation invalid_role_specification : Code
  diagnostics_exception stacked_diagnostics_accessed_without_active_handler : Code
  case_not_found cardinality_violation data_exception array_subscript_error : Code
  character_not_in_repertoire datetime_field_overflow division_by_zero : Code
  error_in_assignment escape_character_conflict indicator_overflow : Code
  interval_field_overflow invalid_argument_for_logarithm : Code
  invalid_argument_for_ntile_function invalid_argument_for_nth_value_function : Code
  invalid_argument_for_power_function invalid_argument_for_width_bucket_function : Code
  invalid_character_value_for_cast invalid_datetime_format invalid_escape_character : Code
  invalid_escape_octet invalid_escape_sequence nonstandard_use_of_escape_character : Code
  invalid_indicator_parameter_value invalid_parameter_value invalid_regular_expression : Code
  invalid_row_count_in_limit_clause invalid_row_count_in_result_offset_clause : Code
  invalid_time_zone_displacement_value invalid_use_of_escape_character : Code
  most_specific_type_mismatch null_value_not_allowed null_value_no_indicator_parameter : Code
  numeric_value_out_of_range string_data_length_mismatch substring_error trim_error : Code
  unterminated_c_string zero_length_character_string floating_point_exception : Code
  invalid_text_representation invalid_binary_representation bad_copy_file_format : Code
  untranslatable_character not_an_xml_document invalid_xml_document invalid_xml_content : Code
  invalid_xml_comment invalid_xml_processing_instruction integrity_constraint_violation : Code
  restrict_violation not_null_violation foreign_key_violation unique_violation : Code
  check_violation exclusion_violation invalid_cursor_state invalid_transaction_state : Code
  active_sql_transaction branch_transaction_already_active : Code
  held_cursor_requires_same_isolation_level : Code
  inappropriate_access_mode_for_branch_transaction : Code
  inappropriate_isolation_level_for_branch_transaction : Code
  no_active_sql_transaction_for_branch_transaction read_only_sql_transaction : Code
  schema_and_data_statement_mixing_not_supported no_active_sql_transaction : Code
  in_failed_sql_transaction invalid_sql_statement_name triggered_data_change_violation : Code
  invalid_authorization_specification invalid_password : Code
  dependent_privilege_descriptors_still_exist dependent_objects_still_exist : Code
  invalid_transaction_termination sql_routine_exception : Code
  function_executed_no_return_statement modifying_sql_data_not_permitted : Code
  prohibited_sql_statement_attempted reading_sql_data_not_permitted invalid_cursor_name : Code
  external_routine_exception containing_sql_not_permitted : Code
  external_routine_invocation_exception invalid_sqlstate_returned : Code
  trigger_protocol_violated srf_protocol_violated savepoint_exception : Code
  invalid_savepoint_specification invalid_catalog_name invalid_schema_name : Code
  transaction_rollback transaction_integrity_constraint_violation serialization_failure : Code
  statement_completion_unknown deadlock_detected syntax_error_or_access_rule_violation : Code
  syntax_error insufficient_privilege cannot_coerce grouping_error windowing_error : Code
  invalid_recursion invalid_foreign_key invalid_name name_too_long reserved_name : Code
  datatype_mismatch indeterminate_datatype collation_mismatch indeterminate_collation : Code
  wrong_object_type undefined_column undefined_function undefined_table : Code
  undefined_parameter undefined_object duplicate_column duplicate_cursor : Code
  duplicate_database duplicate_function duplicate_prepared_statement duplicate_schema : Code
  duplicate_table duplicate_alias duplicate_object ambiguous_column ambiguous_function : Code
  ambiguous_parameter ambiguous_alias invalid_column_reference : Code
  invalid_column_definition invalid_cursor_definition invalid_database_definition : Code
  invalid_function_definition invalid_prepared_statement_definition : Code
  invalid_schema_definition invalid_table_definition invalid_object_definition : Code
  with_check_option_violation insufficient_resources disk_full out_of_memory : Code
  too_many_connections configuration_limit_exceeded program_limit_exceeded : Code
  statement_too_complex too_many_columns too_many_arguments : Code
  object_not_in_prerequisite_state object_in_use cant_change_runtime_param : Code
  lock_not_available operator_intervention query_canceled admin_shutdown crash_shutdown : Code
  cannot_connect_now database_dropped system_error io_error undefined_file : Code
  duplicate_file config_file_error lock_file_exists fdw_error fdw_column_name_not_found : Code
  fdw_dynamic_parameter_value_needed fdw_function_sequence_error : Code
  fdw_inconsistent_descriptor_information fdw_invalid_attribute_value : Code
  fdw_invalid_column_name fdw_invalid_column_number fdw_invalid_data_type : Code
  fdw_invalid_data_type_descriptors fdw_invalid_descriptor_field_identifier : Code
  fdw_invalid_handle fdw_invalid_option_index fdw_invalid_option_name : Code
  fdw_invalid_string_length_or_buffer_length fdw_invalid_string_format : Code
  fdw_invalid_use_of_null_pointer fdw_too_many_handles fdw_out_of_memory fdw_no_schemas : Code
  fdw_option_name_not_found fdw_reply_handle fdw_schema_not_found fdw_table_not_found : Code
  fdw_unable_to_create_execution fdw_unable_to_create_reply : Code
  fdw_unable_to_establish_connection plpgsql_error raise_exception no_data_found : Code
  too_many_rows internal_error data_corrupted index_corrupted : Code
