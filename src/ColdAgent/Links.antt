-- ===== src/ColdAgent/Links.antt =====
-- The tests that `Reader.resolve` of scripts/cold-agent.py makes on a resolution that it has fetched.
use whpstanding.Prelude.{
  not, ◌&&◌, ◌||◌, String, List, [], ◌∷◌, Option, none, some, all, map, if◌then◌else◌, ◌==◌,
}
use whpstanding.Result.{type_error, Result, ok, err, ◌>>=◌, ◌>>◌, need, ◌and◌, each, for_each}
use whpstanding.Text.{Text, Bytes, lit, text_eq}
use whpstanding.Dict.{Dict, get, has_key, has_text, put, keys, same_texts}
use whpstanding.Value.{
  Value, str, ◌!◌, ◌!!◌, value_eq, is_null, truthy, iterate, as_text, as_fields, found_or_missing,
}
use whpstanding.Canonical.{canonical}
use whpstanding.Env.{Env, digest}
use whpstanding.Compare.{◌=?◌, ◌≤?◌, const, agree}
use whpstanding.Discovery.Location.{given, split_url}
use whpstanding.Discovery.Resolution.{is_fresh, placeholder, replace_from, count_from}
use whpstanding.ColdAgent.{RootTrust, bootstrap_trust, grant}
use whpstanding.ColdAgent.Reader.{origin_eq, is_anonymous}
use whpstanding.ColdAgent.Action.{Agent}

-- `parse(raw)`
unfoldable pub parse : Agent → Bytes → Result Value
parse agent raw = do x ← agent.loads raw; canonical x 0; ok x

-- `if expected: need(digest(value)==expected, …)`
unfoldable pub check_expected : Env → Option Value → Value → Result (Unit {0})
check_expected env none v = ok tt
check_expected env (some h) v =
    if truthy h
    then (do d ← digest env v; need (value_eq (str d) h) "DOCUMENT_HASH_SUBSTITUTION")
    else ok tt

unfoldable pub check_test_environment : Value → Result (Unit {0})
check_test_environment sp = do
  need (← sp ! "environment" =? const "TEST") "INDEPENDENT_INSTITUTIONAL_ROOT_ADMISSION_REQUIRED"

-- a result's discovery identity, if there is one
unfoldable pub check_identity : Value → Option Value → Result (Unit {0})
check_identity sp none = ok tt
check_identity sp (some expected) =
    if truthy expected
    then for_each (λ k. do need (← sp ! k =? expected ! k) "RESOLUTION_IDENTITY_SUBSTITUTION")
        ("capability_id" ∷ "capability_class" ∷ "resolution_id" ∷ "root_key_id" ∷ [])
    else ok tt

-- The locations by kind. A kind that is no text raises here; in the code it raises when it is put in
-- the dict, or when the kinds are counted.
unfoldable pub index_locations : List Value → Dict Value → Result (Dict Value)
index_locations [] locations = ok locations
index_locations (l ∷ ls) locations = do
  kind ← as_text (← l ! "kind")
  need (not (has_key kind locations)) "DUPLICATE_IMMUTABLE_KIND"
  index_locations ls (put kind l locations)

unfoldable pub kinds : List String
kinds = "PROFILE" ∷ "CONTRACT" ∷ "SCHEMA" ∷ "VERIFIER" ∷ []

unfoldable pub read_locations : Value → Result (Dict Value)
read_locations sp = do
  locations ← index_locations (← iterate (← sp ! "artifacts")) []
  need (same_texts (keys locations) (map lit kinds)) "IMMUTABLE_MATERIAL_INCOMPLETE"
  ok locations

-- `locations[kind][name]`
unfoldable pub of_location : Dict Value → String → String → Result Value
of_location locations kind name = do l ← found_or_missing (get (lit kind) locations); l ! name

-- `expected['root_key_id'] if expected else sp['root_key_id']`
unfoldable pub expected_pin : Value → Option Value → Result Value
expected_pin sp none = sp ! "root_key_id"
expected_pin sp (some expected) =
    if truthy expected then expected ! "root_key_id" else sp ! "root_key_id"

unfoldable pub or_none : Option Value → Option Value
or_none none = none
or_none (some v) = if is_null v then none else some v

-- `grant(envelope, trust, role, now, kind, **context)`: no other keyword is taken.
unfoldable pub grant_in : Env → Value → RootTrust → Value → Value → Value → Value → Result Value
grant_in env envelope trusted role at kind context = do
  fields ← as_fields context
  (if all (λ k. has_text k (lit "scope" ∷ lit "jurisdiction" ∷ [])) (keys fields)
      then grant env envelope trusted role at kind (or_none (get (lit "scope") fields))
          (or_none (get (lit "jurisdiction") fields))
      else err type_error)

module _ (env : Env) where
  -- the root's trust in the resolution, and its times
  unfoldable pub admit_resolution : Value → Value → Value → Value → Value → Value → Result RootTrust
  admit_resolution envelope sp document program_hash pin at = do
    bundle ← sp ! "trust_bundle"
    trusted ← bootstrap_trust env bundle document program_hash pin at
    role ← document ! "bootstrap" !! "resolution_role"
    kind ← document ! "bootstrap" !! "resolution_type"
    context ← sp ! "authority_context"
    grant_in env envelope trusted role at kind context
    need (← agree sp trusted.profile "issuer" and agree sp trusted.profile "environment")
        "ISSUER_ENVIRONMENT"
    need (← is_fresh sp at) "RESOLUTION_STALE"
    need (← sp ! "valid_until" ≤? (bundle ! "status_snapshot" !! "payload" !! "valid_until"))
        "RESOLUTION_TRUST_FRESHNESS"
    ok trusted

  unfoldable pub check_service_origin : Value → Result (Unit {0})
  check_service_origin sp = do
    u ← split_url env (← sp ! "service_origin")
    need ((text_eq u.path [] || text_eq u.path (lit "/")) && not (given (some u.query)))
        "CURRENT_SERVICE_ORIGIN"

  -- the links of the service: its contract, its description, the registry of a probe, the artifacts
  unfoldable pub service_links : Value → Dict Value → Result (List Value)
  service_links sp locations = do
    contract ← sp ! "service_contract" !! "url"
    api ← sp ! "openapi" !! "url"
    template ← as_text (← sp ! "registry_template")
    urls ← each (λ (k, l). l ! "url") locations
    ok (contract ∷ api ∷ str (replace_from 0 placeholder (lit "probe") template) ∷ urls)

  unfoldable pub check_same_origin : Text × Text → Value → Result (Unit {0})
  check_same_origin current link = do
    u ← split_url env link
    need (origin_eq (u.scheme, u.netloc) current && is_anonymous u) "CURRENT_SERVICE_LINK"

  unfoldable pub check_links : Value → Dict Value → Text × Text → Result (Unit {0})
  check_links sp locations current = do
    links ← service_links sp locations
    for_each (check_same_origin current) links
    template ← as_text (← sp ! "registry_template")
    need (count_from 0 placeholder template == 1) "REGISTRY_TEMPLATE"

  -- `wanted`: the hash that each artifact must have
  unfoldable pub wanted_hashes : Value → Value → Result (List (String × Value))
  wanted_hashes document program_hash = do
    profile ← document ! "profile" !! "sha256"
    contract ← digest env document
    schema ← document ! "schema_sha256"
    ok (
        ("PROFILE", profile)
        ∷ ("CONTRACT", str contract)
        ∷ ("SCHEMA", schema)
        ∷ ("VERIFIER", program_hash)
        ∷ [])

  unfoldable pub check_commitments : Dict Value → List (String × Value) → Result (Unit {0})
  check_commitments locations wanted =
      for_each
        (λ (k, h). do
          need (← of_location locations k "sha256" =? ok h) "IMMUTABLE_COMMITMENT_SUBSTITUTION")
        wanted

  -- the contract and the profile that were fetched are the ones committed to
  unfoldable pub check_versions : Value → Value → Value → Result (Unit {0})
  check_versions resolved document profile = do
    named ← document ! "profile"
    need
        (← (ok resolved =? ok document)
          and agree profile named "id"
          and agree profile named "version")
        "IMMUTABLE_PROFILE_VERSION"
