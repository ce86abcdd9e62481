-- ===== src/Example/Running.antt =====
-- The definitions that a run of the verifier unfolds, under one name.
use whpstanding.Prelude.{◌+ℤ◌, min_ℤ, max_ℤ, keep, distinct, join}
use whpstanding.Result.{◌>>=◌, need, ◌and◌, ◌or◌, each, all_of, any_of, for_each}
use whpstanding.Text.{
  lit, text_eq, text_lt, starts_with, holds_text, has_surrogate, utf16_unit, utf16be, utf8_unit,
  utf8, digits_fuel, decimal, str_int, hex_digit, escape_char, escape, quoted, is_hex_lower,
  is_reference_char, lower_char,
}
use whpstanding.Dict.{has_text, same_texts, without, keys, get, has_key, put}
use whpstanding.Value.{
  items, of_list, entries, of_entries, number, number_eq, is_true, is_null, truthy,
  found_or_missing, lookup, as_text, as_fields, iterate, size, contains_value, contains,
  compare_numbers, le_value, lt_value, exact, dict, list, txt, value_eq, items_eq, fields_eq,
}
use whpstanding.Number.{
  is_digit, read_digits, read_decimal, as_decimal, hex_value, read_hex, without_prefix,
  read_hex_digits, as_hex, lower,
}
use whpstanding.Canonical.{
  key_lt, insert_key, sort_keys, canonical_int, canonical_str, canonical_dict, canonical,
  canonical_items, canonical_fields,
}
use whpstanding.Env.{or_raise, decode, load_key, digest, key_id}
use whpstanding.Envelope.{header, signed_part, check_signature, unseal}
use whpstanding.Trust.{
  profile_hash, contract_hash, validate, trust_bundle_schema, admit_certificates, is_authorized,
  commits, trust, find_key, revokes, iterate_or_nothing, asked_operations, with_operations, grant,
}
use whpstanding.Shape.{
  ops, op_values, check_text, check_integer, check_window, check_array, check_unique,
  check_operations, check_hash, check_reference, check_unknown, source_fields, transition_fields,
  submission_fields, epistemic_statuses, source_statuses, check_prior, check_node, check_transition,
  check_buyer_key, input_shape,
}
use whpstanding.Graph.{
  add, or_none, parents, enter, leave, visit_all, visit, visit_root, is_closed_walk, is_closed,
}
use whpstanding.Assess.{
  index_nodes, index_edges, version_key, same_version, outcome_text, components_of, conclude,
  check_submission, assess_graph, assess,
}
use whpstanding.Assess.Trace.{
  add_check, cap_expiry, allow_only, block, int_or_raise, as_int, payload_in, payload_of,
  root_matches, same_bounds, spans, cap_or_fail, record_grant, granted,
}
use whpstanding.Assess.Nodes.{block_unknowns, assess_node, assess_nodes}
use whpstanding.Assess.Passages.{
  insert_text, sort_texts, same_content, is_copy, preserves, escalates_nothing, all_found,
  composed_member, is_composition, assess_passage, assess_transition, assess_transitions,
}
use whpstanding.Finality.Calldata.{
  take, drop, hex_fuel, zeros, pad, word, body_of, topic, word_of, recovery_id, calldata,
}
use whpstanding.Discovery.{verify_discovery}
use whpstanding.Discovery.Location.{
  given, is_host, is_admitted_origin, is_plain_location, split_url,
}
use whpstanding.Discovery.Resolution.{
  later_by, is_fresh, placeholder, replace_from, count_from, matching, check_link, only,
  check_artifact, check_artifacts, check_service, verify_resolution, candidate_context,
  verify_resolution_only,
}
use whpstanding.Compare.{◌=?◌, ◌≤?◌, ◌<?◌, agree, agree_all}
use whpstanding.Mark.{
  check_value, recorded_check, source_unknowns, value_if, mark_name, result_type, result_fields,
  decision_fields, check_contract, check_environment, check_issuer, check_binding, check_replay,
  purchase_digest, check_promotion, check_retrieval, report_of, verify_result,
}
use whpstanding.Mark.Payment.{
  commerce_fields, quote_fields, expected_relationship, check_transaction_id, pays_live,
  purchase_nonce, payment_identity, verify_commerce, check_quote_time, check_payment_terms,
  check_payment_binding, check_settlement, verify_settlement,
}
use whpstanding.Registry.{
  snapshot_fields, event_fields, final_statuses, check_origin, check_command, check_step,
  check_event, check_events, last_event, timed_status, regrant, regrant_all, limit_status,
  current_status, verify_registry,
}
use whpstanding.Finality.{
  truthy_or_false, is_removed, transfer_topic, authorization_topic, select, has_topics, is_own_log,
  check_logs, call_rpc, check_finalized, recheck_chain,
}
use whpstanding.Main.{
  at_or_now, field_is, failed, attempt, read_named, result_report, resolved_report, optional,
  printed, is_technically_live, finish, discovery_step, registry_step, chain_step, verify_mark,
  verify_candidate, main,
}
use whpstanding.Example.World.{fold_bytes, toy_hash, bytes_of, sample_hash, toy_verifies, seal}

unfoldable pub running : Unit {0}
unfolding ◌+ℤ◌ min_ℤ max_ℤ keep distinct join ◌>>=◌ need ◌and◌ ◌or◌ each all_of any_of for_each lit
    text_eq text_lt starts_with holds_text has_surrogate utf16_unit utf16be utf8_unit utf8
    digits_fuel decimal str_int hex_digit escape_char escape quoted is_hex_lower is_reference_char
    lower_char has_text same_texts without keys get has_key put items of_list entries of_entries
    number number_eq is_true is_null truthy found_or_missing lookup as_text as_fields iterate size
    contains_value contains compare_numbers le_value lt_value exact dict list txt value_eq items_eq
    fields_eq is_digit read_digits read_decimal as_decimal hex_value read_hex without_prefix
    read_hex_digits as_hex lower key_lt insert_key sort_keys canonical_int canonical_str
    canonical_dict canonical canonical_items canonical_fields or_raise decode load_key digest key_id
    header signed_part check_signature unseal profile_hash contract_hash validate
    trust_bundle_schema admit_certificates is_authorized commits trust find_key revokes
    iterate_or_nothing asked_operations with_operations grant ops op_values check_text check_integer
    check_window check_array check_unique check_operations check_hash check_reference check_unknown
    source_fields transition_fields submission_fields epistemic_statuses source_statuses check_prior
    check_node check_transition check_buyer_key input_shape add or_none parents enter leave
    visit_all visit visit_root is_closed_walk is_closed index_nodes index_edges version_key
    same_version outcome_text components_of conclude check_submission assess_graph assess add_check
    cap_expiry allow_only block int_or_raise as_int payload_in payload_of root_matches same_bounds
    spans cap_or_fail record_grant granted block_unknowns assess_node assess_nodes insert_text
    sort_texts same_content is_copy preserves escalates_nothing all_found composed_member
    is_composition assess_passage assess_transition assess_transitions take drop hex_fuel zeros pad
    word body_of topic word_of recovery_id calldata verify_discovery given is_host
    is_admitted_origin is_plain_location split_url later_by is_fresh placeholder replace_from
    count_from matching check_link only check_artifact check_artifacts check_service
    verify_resolution candidate_context verify_resolution_only ◌=?◌ ◌≤?◌ ◌<?◌ agree agree_all
    check_value recorded_check source_unknowns value_if mark_name result_type result_fields
    decision_fields check_contract check_environment check_issuer check_binding check_replay
    purchase_digest check_promotion check_retrieval report_of verify_result commerce_fields
    quote_fields expected_relationship check_transaction_id pays_live purchase_nonce
    payment_identity verify_commerce check_quote_time check_payment_terms check_payment_binding
    check_settlement verify_settlement snapshot_fields event_fields final_statuses check_origin
    check_command check_step check_event check_events last_event timed_status regrant regrant_all
    limit_status current_status verify_registry truthy_or_false is_removed transfer_topic
    authorization_topic select has_topics is_own_log check_logs call_rpc check_finalized
    recheck_chain at_or_now field_is failed attempt read_named result_report resolved_report
    optional printed is_technically_live finish discovery_step registry_step chain_step verify_mark
    verify_candidate main fold_bytes toy_hash bytes_of sample_hash toy_verifies seal
running = tt
