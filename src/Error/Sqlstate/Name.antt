-- ===== src/Error/Sqlstate/Name.antt =====
-- error.h, the cases of the switch in `sqlstate::impl::category::message`, in the order of the source.
use Prim.Native.String.{String}
use ozo_pg.Base.{ℕ, List, [], ◌∷◌, ◌++◌}

-- The first half of the cases.
abbrev pub first_names : List (ℕ × String)
first_names =
    (0, "successful_completion")
    ∷ (46656, "warning")
    ∷ (46668, "dynamic_result_sets_returned")
    ∷ (46664, "implicit_zero_bit_padding")
    ∷ (46659, "null_value_eliminated_in_set_function")
    ∷ (46663, "privilege_not_granted")
    ∷ (46662, "privilege_not_revoked")
    ∷ (46660, "string_data_right_truncation_warning")
    ∷ (79057, "deprecated_feature")
    ∷ (93312, "no_data")
    ∷ (93313, "no_additional_dynamic_result_sets_returned")
    ∷ (139968, "sql_statement_not_yet_complete")
    ∷ (373248, "connection_exception")
    ∷ (373251, "connection_does_not_exist")
    ∷ (373254, "connection_failure")
    ∷ (373249, "sqlclient_unable_to_establish_sqlconnection")
    ∷ (373252, "sqlserver_rejected_establishment_of_sqlconnection")
    ∷ (373255, "transaction_resolution_unknown")
    ∷ (405649, "protocol_violation")
    ∷ (419904, "triggered_action_exception")
    ∷ (466560, "feature_not_supported")
    ∷ (513216, "invalid_transaction_initiation")
    ∷ (699840, "locator_exception")
    ∷ (699841, "invalid_locator_specification")
    ∷ (979776, "invalid_grantor")
    ∷ (1012177, "invalid_grant_operation")
    ∷ (1166400, "invalid_role_specification")
    ∷ (1632960, "diagnostics_exception")
    ∷ (1632962, "stacked_diagnostics_accessed_without_active_handler")
    ∷ (3359232, "case_not_found")
    ∷ (3405888, "cardinality_violation")
    ∷ (3452544, "data_exception")
    ∷ (3452630, "array_subscript_error")
    ∷ (3452617, "character_not_in_repertoire")
    ∷ (3452552, "datetime_field_overflow")
    ∷ (3452582, "division_by_zero")
    ∷ (3452549, "error_in_assignment")
    ∷ (3452555, "escape_character_conflict")
    ∷ (3452618, "indicator_overflow")
    ∷ (3452585, "interval_field_overflow")
    ∷ (3452594, "invalid_argument_for_logarithm")
    ∷ (3452584, "invalid_argument_for_ntile_function")
    ∷ (3452586, "invalid_argument_for_nth_value_function")
    ∷ (3452595, "invalid_argument_for_power_function")
    ∷ (3452596, "invalid_argument_for_width_bucket_function")
    ∷ (3452588, "invalid_character_value_for_cast")
    ∷ (3452551, "invalid_datetime_format")
    ∷ (3452589, "invalid_escape_character")
    ∷ (3452557, "invalid_escape_octet")
    ∷ (3452621, "invalid_escape_sequence")
    ∷ (3484950, "nonstandard_use_of_escape_character")
    ∷ (3452580, "invalid_indicator_parameter_value")
    ∷ (3452619, "invalid_parameter_value")
    ∷ (3452591, "invalid_regular_expression")
    ∷ (3452612, "invalid_row_count_in_limit_clause")
    ∷ (3452613, "invalid_row_count_in_result_offset_clause")
    ∷ (3452553, "invalid_time_zone_displacement_value")
    ∷ (3452556, "invalid_use_of_escape_character")
    ∷ (3452560, "most_specific_type_mismatch")
    ∷ (3452548, "null_value_not_allowed")
    ∷ (3452546, "null_value_no_indicator_parameter")
    ∷ (3452547, "numeric_value_out_of_range")
    ∷ (3452622, "string_data_length_mismatch")
    ∷ (3452545, "string_data_right_truncation")
    ∷ (3452581, "substring_error")
    ∷ (3452623, "trim_error")
    ∷ (3452620, "unterminated_c_string")
    ∷ (3452559, "zero_length_character_string")
    ∷ (3484945, "floating_point_exception")
    ∷ (3484946, "invalid_text_representation")
    ∷ (3484947, "invalid_binary_representation")
    ∷ (3484948, "bad_copy_file_format")
    ∷ (3484949, "untranslatable_character")
    ∷ (3452565, "not_an_xml_document")
    ∷ (3452566, "invalid_xml_document")
    ∷ (3452567, "invalid_xml_content")
    ∷ (3452572, "invalid_xml_comment")
    ∷ (3452573, "invalid_xml_processing_instruction")
    ∷ (3499200, "integrity_constraint_violation")
    ∷ (3499201, "restrict_violation")
    ∷ (3505682, "not_null_violation")
    ∷ (3505683, "foreign_key_violation")
    ∷ (3505685, "unique_violation")
    ∷ (3505720, "check_violation")
    ∷ (3531601, "exclusion_violation")
    ∷ (3545856, "invalid_cursor_state")
    ∷ (3592512, "invalid_transaction_state")
    ∷ (3592513, "active_sql_transaction")
    ∷ (3592514, "branch_transaction_already_active")
    ∷ (3592520, "held_cursor_requires_same_isolation_level")
    ∷ (3592515, "inappropriate_access_mode_for_branch_transaction")
    ∷ (3592516, "inappropriate_isolation_level_for_branch_transaction")
    ∷ (3592517, "no_active_sql_transaction_for_branch_transaction")
    ∷ (3592518, "read_only_sql_transaction")
    ∷ (3592519, "schema_and_data_statement_mixing_not_supported")
    ∷ (3624913, "no_active_sql_transaction")
    ∷ (3624914, "in_failed_sql_transaction")
    ∷ (3639168, "invalid_sql_statement_name")
    ∷ (3685824, "triggered_data_change_violation")
    ∷ (3732480, "invalid_authorization_specification")
    ∷ (3764881, "invalid_password")
    ∷ (3872448, "dependent_privilege_descriptors_still_exist")
    ∷ (3904849, "dependent_objects_still_exist")
    ∷ (3965760, "invalid_transaction_termination")
    ∷ (4059072, "sql_routine_exception")
    ∷ (4059077, "function_executed_no_return_statement")
    ∷ (4059074, "modifying_sql_data_not_permitted")
    ∷ (4059075, "prohibited_sql_statement_attempted")
    ∷ (4059076, "reading_sql_data_not_permitted")
    ∷ (5225472, "invalid_cursor_name")
    ∷ (5412096, "external_routine_exception")
    ∷ (5412097, "containing_sql_not_permitted")
    ∷ (5412098, "modifying_sql_data_not_permitted_external")
    ∷ (5412099, "prohibited_sql_statement_attempted_external")
    ∷ (5412100, "reading_sql_data_not_permitted_external")
    ∷ (5458752, "external_routine_invocation_exception")
    ∷ []

-- The second half.
abbrev pub further_names : List (ℕ × String)
further_names =
    (5458753, "invalid_sqlstate_returned")
    ∷ (5458756, "null_value_not_allowed_external")
    ∷ (5491153, "trigger_protocol_violated")
    ∷ (5491154, "srf_protocol_violated")
    ∷ (5552064, "savepoint_exception")
    ∷ (5552065, "invalid_savepoint_specification")
    ∷ (5645376, "invalid_catalog_name")
    ∷ (5738688, "invalid_schema_name")
    ∷ (6718464, "transaction_rollback")
    ∷ (6718466, "transaction_integrity_constraint_violation")
    ∷ (6718465, "serialization_failure")
    ∷ (6718467, "statement_completion_unknown")
    ∷ (6750865, "deadlock_detected")
    ∷ (6811776, "syntax_error_or_access_rule_violation")
    ∷ (6819553, "syntax_error")
    ∷ (6818257, "insufficient_privilege")
    ∷ (6822294, "cannot_coerce")
    ∷ (6822147, "grouping_error")
    ∷ (6844248, "windowing_error")
    ∷ (6844221, "invalid_recursion")
    ∷ (6822252, "invalid_foreign_key")
    ∷ (6819554, "invalid_name")
    ∷ (6819626, "name_too_long")
    ∷ (6823557, "reserved_name")
    ∷ (6822148, "datatype_mismatch")
    ∷ (6844220, "indeterminate_datatype")
    ∷ (6844249, "collation_mismatch")
    ∷ (6844250, "indeterminate_collation")
    ∷ (6822153, "wrong_object_type")
    ∷ (6820851, "undefined_column")
    ∷ (6822435, "undefined_function")
    ∷ (6844177, "undefined_table")
    ∷ (6844178, "undefined_parameter")
    ∷ (6820852, "undefined_object")
    ∷ (6820849, "duplicate_column")
    ∷ (6844179, "duplicate_cursor")
    ∷ (6844180, "duplicate_database")
    ∷ (6820923, "duplicate_function")
    ∷ (6844181, "duplicate_prepared_statement")
    ∷ (6844182, "duplicate_schema")
    ∷ (6844183, "duplicate_table")
    ∷ (6820886, "duplicate_alias")
    ∷ (6820884, "duplicate_object")
    ∷ (6820850, "ambiguous_column")
    ∷ (6820925, "ambiguous_function")
    ∷ (6844184, "ambiguous_parameter")
    ∷ (6844185, "ambiguous_alias")
    ∷ (6844212, "invalid_column_reference")
    ∷ (6819589, "invalid_column_definition")
    ∷ (6844213, "invalid_cursor_definition")
    ∷ (6844214, "invalid_database_definition")
    ∷ (6844215, "invalid_function_definition")
    ∷ (6844216, "invalid_prepared_statement_definition")
    ∷ (6844217, "invalid_schema_definition")
    ∷ (6844218, "invalid_table_definition")
    ∷ (6844219, "invalid_object_definition")
    ∷ (6905088, "with_check_option_violation")
    ∷ (8538048, "insufficient_resources")
    ∷ (8539344, "disk_full")
    ∷ (8540640, "out_of_memory")
    ∷ (8541936, "too_many_connections")
    ∷ (8543232, "configuration_limit_exceeded")
    ∷ (8584704, "program_limit_exceeded")
    ∷ (8584705, "statement_too_complex")
    ∷ (8584741, "too_many_columns")
    ∷ (8584779, "too_many_arguments")
    ∷ (8631360, "object_not_in_prerequisite_state")
    ∷ (8631366, "object_in_use")
    ∷ (8663762, "cant_change_runtime_param")
    ∷ (8663763, "lock_not_available")
    ∷ (8724672, "operator_intervention")
    ∷ (8724712, "query_canceled")
    ∷ (8757073, "admin_shutdown")
    ∷ (8757074, "crash_shutdown")
    ∷ (8757075, "cannot_connect_now")
    ∷ (8757076, "database_dropped")
    ∷ (8771328, "system_error")
    ∷ (8771436, "io_error")
    ∷ (8803729, "undefined_file")
    ∷ (8803730, "duplicate_file")
    ∷ (25194240, "config_file_error")
    ∷ (25194241, "lock_file_exists")
    ∷ (29999808, "fdw_error")
    ∷ (29999813, "fdw_column_name_not_found")
    ∷ (29999810, "fdw_dynamic_parameter_value_needed")
    ∷ (29999844, "fdw_function_sequence_error")
    ∷ (29999881, "fdw_inconsistent_descriptor_information")
    ∷ (29999884, "fdw_invalid_attribute_value")
    ∷ (29999815, "fdw_invalid_column_name")
    ∷ (29999816, "fdw_invalid_column_number")
    ∷ (29999812, "fdw_invalid_data_type")
    ∷ (29999814, "fdw_invalid_data_type_descriptors")
    ∷ (30000133, "fdw_invalid_descriptor_field_identifier")
    ∷ (29999819, "fdw_invalid_handle")
    ∷ (29999820, "fdw_invalid_option_index")
    ∷ (29999821, "fdw_invalid_option_name")
    ∷ (30000132, "fdw_invalid_string_length_or_buffer_length")
    ∷ (29999818, "fdw_invalid_string_format")
    ∷ (29999817, "fdw_invalid_use_of_null_pointer")
    ∷ (29999848, "fdw_too_many_handles")
    ∷ (29999809, "fdw_out_of_memory")
    ∷ (29999833, "fdw_no_schemas")
    ∷ (29999827, "fdw_option_name_not_found")
    ∷ (29999828, "fdw_reply_handle")
    ∷ (29999834, "fdw_schema_not_found")
    ∷ (29999835, "fdw_table_not_found")
    ∷ (29999829, "fdw_unable_to_create_execution")
    ∷ (29999830, "fdw_unable_to_create_reply")
    ∷ (29999831, "fdw_unable_to_establish_connection")
    ∷ (41990400, "plpgsql_error")
    ∷ (41990401, "raise_exception")
    ∷ (41990402, "no_data_found")
    ∷ (41990403, "too_many_rows")
    ∷ (56966976, "internal_error")
    ∷ (56966977, "data_corrupted")
    ∷ (56966978, "index_corrupted")
    ∷ []

abbrev pub names : List (ℕ × String)
names = first_names ++ further_names
