-- ===== src/Mrn.antt =====
-- mrn/mrn.go: resource names, grant patterns, their parsers and the segment-aware matcher.
-- An error message quotes its input; here an error is the check that failed.
pub mod Grammar
pub mod Split
pub mod Valid
pub mod ValidPattern
pub mod Parsing
pub mod Matching
pub mod Isolation
pub mod Faults
pub mod PathErrors
pub mod Rungs
pub mod Errors
use maintainerd_sdk.Prelude.{
  ℕ, Bool, true, false, not, ◌&&◌, ◌||◌, List, [], ◌∷◌, ◌++◌, byte_eq, leb, ltb, if◌then◌else◌,
  length, take, get_or, ◌-◌, Result, ok, err, ◌>>=◌, ◌>>◌, refuse_if, map_err,
}
use maintainerd_sdk.Text.{
  Bytes, codes, ◌==◌, is_empty, has_prefix, has_suffix, trim_suffix, contains_rune, count_byte,
  split_n, Unicode,
}
use maintainerd_sdk.Text.Utf8.{valid_string, print_string}

abbrev pub prefix : Bytes
prefix = codes "mrn:"

abbrev pub star : Bytes
star = codes "*"

pub record Mrn : Type 0 where
  pub service : Bytes
  pub tenant : Bytes
  pub project : Bytes
  pub resource_path : Bytes

pub record Pattern : Type 0 where
  pub service : Bytes
  pub tenant : Bytes
  pub project : Bytes
  pub resource_path : Bytes

pub data PathError : Type 0 where
  path_required path_wildcard path_leading_slash path_not_utf8 path_unprintable : PathError
  path_wildcard_placement : PathError

pub data MrnError : Type 0 where
  no_prefix part_count service_required bad_service bad_tenant bad_project : MrnError
  bad_path : PathError → MrnError

unfoldable pub is_mrn : Bytes → Bool
is_mrn s = has_prefix s prefix

pub new : Bytes → Bytes → Bytes → Bytes → Mrn
new service tenant project resource_path = record {
  service = service;
  tenant = tenant;
  project = project;
  resource_path = resource_path;
}

-- `Prefix + service + ":" + tenant + ":" + project + ":" + path`
unfoldable pub render : Bytes → Bytes → Bytes → Bytes → Bytes
render service tenant project path =
    prefix ++ (service ++ b':' ∷ (tenant ++ b':' ∷ (project ++ b':' ∷ path)))

unfoldable pub mrn_to_string : Mrn → Bytes
mrn_to_string m = render m.service m.tenant m.project m.resource_path

unfoldable pub pattern_to_string : Pattern → Bytes
pattern_to_string p = render p.service p.tenant p.project p.resource_path

-- The head shape that both parsers share: the scheme and exactly five parts.
unfoldable pub split : Bytes → Result MrnError (List Bytes)
split s = do
  refuse_if (not (has_prefix s prefix)) no_prefix
  let parts = split_n b':' 5 s
  refuse_if (not (byte_eq (length parts) 5)) part_count
  ok parts

unfoldable pub valid_segment : Bytes → Bool
valid_segment [] = true
valid_segment (c ∷ s) =
    if leb b'a' c && leb c b'z' || (leb b'0' c && leb c b'9' || byte_eq c b'-')
    then valid_segment s
    else false

unfoldable pub segment_matches : Bytes → Bytes → Bool
segment_matches pattern value = if pattern == star then true else pattern == value

unfoldable pub path_matches : Bytes → Bytes → Bool
path_matches pattern value =
    if pattern == star
    then true
    else if has_suffix pattern star
    then has_prefix value (take (length pattern - 1) pattern)
    else pattern == value

unfoldable pub matches : Pattern → Mrn → Bool
matches p r =
    if not (segment_matches p.service r.service)
    then false
    else if not (segment_matches p.tenant r.tenant)
    then false
    else if not (segment_matches p.project r.project)
    then false
    else path_matches p.resource_path r.resource_path

module _ ⦃u : Unicode⦄ where
  unfoldable pub valid_resource_path : Bytes → Result PathError (Unit {0})
  valid_resource_path path = do
    refuse_if (path == []) path_required
    refuse_if (contains_rune path b'*') path_wildcard
    refuse_if (has_prefix path (codes "/")) path_leading_slash
    refuse_if (not (valid_string path)) path_not_utf8
    refuse_if (not (print_string path)) path_unprintable

  unfoldable pub valid_path_pattern : Bytes → Result PathError (Unit {0})
  valid_path_pattern path =
      if path == star
      then ok tt
      else if contains_rune path b'*'
      then (if ltb 1 (count_byte path b'*') || not (has_suffix path star)
          then err path_wildcard_placement
          else valid_resource_path (trim_suffix path star))
      else valid_resource_path path

  -- The checks that `mrn.Parse` makes on the parts.
  unfoldable pub check_resource : Mrn → Result MrnError Mrn
  check_resource m = do
    refuse_if (m.service == []) service_required
    refuse_if (not (valid_segment m.service)) bad_service
    refuse_if (not (valid_segment m.tenant)) bad_tenant
    refuse_if (not (valid_segment m.project)) bad_project
    map_err bad_path (valid_resource_path m.resource_path)
    ok m

  -- `mrn.Parse`
  unfoldable pub parse : Bytes → Result MrnError Mrn
  parse s = do
    parts ← split s
    check_resource (record {
      service = get_or parts 1 [];
      tenant = get_or parts 2 [];
      project = get_or parts 3 [];
      resource_path = get_or parts 4 [];
    })

  -- The checks that `mrn.ParsePattern` makes on the parts.
  unfoldable pub check_pattern : Pattern → Result MrnError Pattern
  check_pattern p = do
    refuse_if (p.service == []) service_required
    refuse_if (not (p.service == star) && not (valid_segment p.service)) bad_service
    refuse_if (not (p.tenant == star) && not (valid_segment p.tenant)) bad_tenant
    refuse_if (not (p.project == star) && not (valid_segment p.project)) bad_project
    map_err bad_path (valid_path_pattern p.resource_path)
    ok p

  -- `mrn.ParsePattern`
  unfoldable pub parse_pattern : Bytes → Result MrnError Pattern
  parse_pattern s = do
    parts ← split s
    check_pattern (record {
      service = get_or parts 1 [];
      tenant = get_or parts 2 [];
      project = get_or parts 3 [];
      resource_path = get_or parts 4 [];
    })

  -- `mrn.MatchPattern`
  unfoldable pub match_pattern : Bytes → Bytes → Result MrnError Bool
  match_pattern pattern resource = do
    p ← parse_pattern pattern
    r ← parse resource
    ok (matches p r)
