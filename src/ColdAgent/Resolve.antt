-- ===== src/ColdAgent/Resolve.antt =====
-- `Reader.document` and `Reader.resolve` of scripts/cold-agent.py: a signed resolution and the
-- artifacts that it points to, fetched and checked.
use whpstanding.Prelude.{◌&&◌, String, [], Option, none, some, ◌==◌}
use whpstanding.Result.{ok, need}
use whpstanding.Text.{Text, Bytes, lit}
use whpstanding.Dict.{Dict}
use whpstanding.Value.{Value, str, ◌!◌, ◌!!◌, value_eq}
use whpstanding.Env.{digest}
use whpstanding.ColdAgent.{RootTrust}
use whpstanding.ColdAgent.Reader.{Response, admit, request}
use whpstanding.ColdAgent.Action.{Agent, Action, ◌>>=◌, ◌>>◌, lift, step, now}
use whpstanding.ColdAgent.Links.{
  parse, check_expected, check_test_environment, check_identity, read_locations, of_location,
  expected_pin, admit_resolution, check_service_origin, check_links, wanted_hashes,
  check_commitments, check_versions,
}

-- What `resolve` returns.
pub record Resolution : Type 0 where
  pub envelope : Value
  pub bytes : Bytes
  pub payload : Value
  pub document : Value
  pub program_hash : Value
  pub code : Bytes
  pub trusted : RootTrust
  pub profile : Value

module _ (agent : Agent) where
  abbrev pub visit_origin : Value → Action (Text × Text)
  visit_origin url = step (admit agent.env agent.net url)

  -- `self.request(url)`
  abbrev pub get_url : Value → Action Response
  get_url url = step (request agent.env agent.net url (lit "GET") none [])

  -- `self.document(url, expected)`
  unfoldable pub fetch : Value → Option Value → Action (Value × Bytes)
  fetch url expected = do
    response ← get_url url
    lift (need (response.status == 200) "DOCUMENT_UNAVAILABLE")
    v ← lift (parse agent response.body)
    lift (check_expected agent.env expected v)
    lift (ok (v, response.body))

  -- The contract and the hash of the verifier: those that are given, or those of the candidate.
  unfoldable pub find_contract : Dict Value → Option (Value × Value) → Action (Value × Value)
  find_contract locations (some known) = lift (ok known)
  find_contract locations none = do
    url ← lift (of_location locations "CONTRACT" "url")
    visit_origin url
    h ← lift (of_location locations "CONTRACT" "sha256")
    (document, raw) ← fetch url (some h)
    program_hash ← lift (of_location locations "VERIFIER" "sha256")
    lift (ok (document, program_hash))

  unfoldable pub fetch_artifact : Dict Value → String → Value → Action Value
  fetch_artifact locations kind h = do
    url ← lift (of_location locations kind "url")
    (v, raw) ← fetch url (some h)
    lift (ok v)

  -- the verifier's program, by its hash
  unfoldable pub fetch_program : Dict Value → Value → Action Bytes
  fetch_program locations program_hash = do
    url ← lift (of_location locations "VERIFIER" "url")
    response ← get_url url
    lift (
        need
          (response.status == 200 && value_eq (str (agent.env.sha256 response.body)) program_hash)
          "VERIFIER_SOURCE_HASH")
    lift (ok response.body)

  -- the artifacts, fetched from where the resolution says, and each checked by its hash
  unfoldable pub fetch_material : Dict Value → Value → Value → Action (Value × Bytes)
  fetch_material locations document program_hash = do
    wanted ← lift (wanted_hashes agent.env document program_hash)
    lift (check_commitments agent.env locations wanted)
    profile_hash ← lift (document ! "profile" !! "sha256")
    profile ← fetch_artifact locations "PROFILE" profile_hash
    contract_hash ← lift (digest agent.env document)
    resolved ← fetch_artifact locations "CONTRACT" (str contract_hash)
    schema_hash ← lift (document ! "schema_sha256")
    fetch_artifact locations "SCHEMA" schema_hash
    lift (check_versions agent.env resolved document profile)
    code ← fetch_program locations program_hash
    lift (ok (profile, code))

  -- The service that a resolution names, admitted, with all its links in its own origin.
  unfoldable pub admit_service : Value → Dict Value → Action (Unit {0})
  admit_service sp locations = do
    lift (check_service_origin agent.env sp)
    origin ← lift (sp ! "service_origin")
    current ← visit_origin origin
    lift (check_links agent.env sp locations current)

  -- `known` is the contract and the hash of the verifier, which a candidate comes without.
  unfoldable pub resolve : Value → Option Value → Option (Value × Value) → Action Resolution
  resolve url expected known = do
    visit_origin url
    (envelope, raw) ← fetch url none
    sp ← lift (envelope ! "payload")
    lift (check_test_environment sp)
    lift (check_identity sp expected)
    locations ← lift (read_locations sp)
    (document, program_hash) ← find_contract locations known
    pin ← lift (expected_pin sp expected)
    at ← now agent
    trusted ← lift (admit_resolution agent.env envelope sp document program_hash pin at)
    admit_service sp locations
    (profile, code) ← fetch_material locations document program_hash
    lift (
        ok (record {
          envelope = envelope;
          bytes = raw;
          payload = sp;
          document = document;
          program_hash = program_hash;
          code = code;
          trusted = trusted;
          profile = profile;
        }))
