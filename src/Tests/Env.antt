-- ===== src/Tests/Env.antt =====
-- Unicode tables that know ASCII only.
use maintainerd_sdk.Prelude.{false}
use maintainerd_sdk.Text.{
  Unicode, ◌==◌, has_prefix, has_suffix, trim_prefix, trim_suffix, contains_rune, count_byte, cut,
  split_n, join, is_ascii, to_upper, to_lower, equal_fold,
}
use maintainerd_sdk.Text.Space.{
  is_space1, is_space2, is_space3, space_width, space_width_back, skip, trim_left, trim_right,
  trim_space, fields_from, fields,
}
use maintainerd_sdk.Text.Utf8.{
  in_range, rune2, rune3, rune4, decode_rune, runes_from, runes, valid_string, is_print, all_print,
  print_string,
}
use maintainerd_sdk.Mrn.{
  is_mrn, render, mrn_to_string, pattern_to_string, split, valid_segment, segment_matches,
  path_matches, matches, valid_resource_path, valid_path_pattern, check_resource, parse,
  check_pattern, parse_pattern, match_pattern,
}
use maintainerd_sdk.Auth.{
  string_claim, claims_of, accept_token, new_verifier, parser_options, verify, scope_among,
}
use maintainerd_sdk.Auth.Bearer.{bearer}
use maintainerd_sdk.Authz.Grant.{parse_grant, parse_grants, grant_to_string}
use maintainerd_sdk.Authz.Principal.{
  is_blanket, action_covers, any_covers, has_action, scope_in, has_scope, has_any_scope,
  any_grant_allows, allows, allows_any,
}
use maintainerd_sdk.Authz.Claims.{
  permission_entries, permissions_claim, actor_kind_from_claims, principal_of_claims,
  principal_from_claims, sdk_verify,
}
use maintainerd_sdk.Authz.Surface.{
  is_grpc, actor_to_string, actor_permits, trim_slashes, trim_trailing_slash, exact_key,
  first_segment, path_has_prefix,
}
use maintainerd_sdk.Authz.Permissions.{
  find_route_key, resolve_method, resolve_route, resolve, required, exempt_method, exempt_path,
  is_exempt, add, add_exact, add_routes, add_methods, add_all, add_blanket, collect_permissions,
  declared_permissions,
}
use maintainerd_sdk.Authz.Guard.{
  mode_to_string, denial_error, guard_permissions, dev_principal, unavailable_denial, actor_message,
  unmapped_message, with_blanket, check_permission, check_surface, check_token, check_mode, check,
}
use maintainerd_sdk.Authz.Startup.{
  missing_reason, resolve_guard, warning_lines, dev_open_banner, unavailable_banner, banner_for,
  log_banner,
}
use maintainerd_sdk.Authz.Transport.{
  from_context, new_context, surface_from_request, write_json_error, write_error,
  require_permission, bearer_from_metadata, middleware, unary_interceptor, principal_stream,
  stream_interceptor,
}
use maintainerd_sdk.Text.Maps.{lookup}
use maintainerd_sdk.Text.Sorting.{str_leb, insert_sorted, sort_strings}

instance abbrev pub ascii_only : Unicode
ascii_only = record { is_print_wide = λ r. false; to_upper_wide = λ s. s; to_lower_wide = λ s. s }

-- A test that names these runs the functions on concrete inputs.
unfoldable pub run_text : Unit {0}
unfolding ◌==◌ has_prefix has_suffix trim_prefix trim_suffix contains_rune count_byte cut split_n
    join is_ascii to_upper to_lower equal_fold is_space1 is_space2 is_space3 space_width
    space_width_back skip trim_left trim_right trim_space fields_from fields in_range rune2 rune3
    rune4 decode_rune runes_from runes valid_string is_print all_print print_string
run_text = tt

unfoldable pub run_mrn : Unit {0}
unfolding run_text is_mrn render mrn_to_string pattern_to_string split valid_segment segment_matches
    path_matches matches valid_resource_path valid_path_pattern check_resource parse check_pattern
    parse_pattern match_pattern
run_mrn = tt

unfoldable pub run_authz : Unit {0}
unfolding run_mrn string_claim claims_of accept_token new_verifier parser_options verify scope_among
    bearer parse_grant parse_grants grant_to_string is_blanket action_covers any_covers has_action
    scope_in has_scope has_any_scope any_grant_allows allows allows_any permission_entries
    permissions_claim actor_kind_from_claims principal_of_claims principal_from_claims sdk_verify
    is_grpc actor_to_string actor_permits trim_slashes trim_trailing_slash exact_key first_segment
    path_has_prefix find_route_key resolve_method resolve_route resolve required exempt_method
    exempt_path is_exempt add add_exact add_routes add_methods add_all add_blanket
    collect_permissions declared_permissions mode_to_string denial_error guard_permissions
    dev_principal unavailable_denial actor_message unmapped_message with_blanket check_permission
    check_surface check_token check_mode check missing_reason resolve_guard warning_lines
    dev_open_banner unavailable_banner banner_for log_banner from_context new_context
    surface_from_request write_json_error write_error require_permission bearer_from_metadata
    middleware unary_interceptor principal_stream stream_interceptor lookup str_leb insert_sorted
    sort_strings
run_authz = tt
