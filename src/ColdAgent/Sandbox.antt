-- ===== src/ColdAgent/Sandbox.antt =====
-- `Reader.sandbox` and `Reader.verify_mark` of scripts/cold-agent.py: a downloaded verifier run on
-- files in a container, and a mark checked with it.
use whpstanding.Prelude.{
  Bool, false, not, ◌&&◌, List, [], ◌∷◌, ◌++◌, Option, none, some, map, ◌==◌, pos,
}
use whpstanding.Result.{type_error, Result, ok, err, ◌>>=◌, ◌>>◌, need, ◌and◌, for_each, each}
use whpstanding.Text.{Text, Bytes, lit, starts_with, holds_text}
use whpstanding.Dict.{Dict, put, keys}
use whpstanding.Value.{
  Value, bool, int, str, arr, obj, txt, list, dict, items, ◌!◌, ◌!!◌, value_eq, is_true, truthy,
  as_fields, as_text, of_entries,
}
use whpstanding.Env.{digest}
use whpstanding.Compare.{◌=?◌, const}
use whpstanding.ColdAgent.{bootstrap_trust, grant}
use whpstanding.ColdAgent.Reader.{invocation}
use whpstanding.ColdAgent.Action.{Agent}
use whpstanding.ColdAgent.Links.{parse}
use whpstanding.ColdAgent.Pointer.{pointer}
use whpstanding.ColdAgent.Resolve.{Resolution}
use whpstanding.Discovery.Resolution.{placeholder, replace_from}

-- what `docker run` is given before the image and the arguments, but for the mount of the files
unfoldable pub sandbox_options : List Text
sandbox_options = map lit (
    "--rm" ∷ "--network=none" ∷ "--read-only" ∷ "--cap-drop=ALL"
    ∷ "--security-opt=no-new-privileges" ∷ "--pids-limit=32" ∷ "--memory=256m" ∷ "--cpus=1"
    ∷ "--user=65534:65534" ∷ "--tmpfs=/tmp:rw,noexec,nosuid,size=16m" ∷ [])

unfoldable pub check_name : Text → Result (Unit {0})
check_name name =
    need (not (holds_text name (lit "/")) && not (starts_with name (lit "."))) "SANDBOX_FILENAME"

unfoldable pub found_image : Option Text → Result Text
found_image none = need false "GENERIC_SANDBOX_RUNTIME_REQUIRED" >> ok []
found_image (some image) = ok image

-- what is reported of the sandbox
unfoldable pub sandbox_facts : Text → Value
sandbox_facts image = obj (
    dict (
      ("image", str image)
      ∷ ("network", txt "none")
      ∷ ("root_filesystem", txt "read-only")
      ∷ ("capabilities", txt "ALL_DROPPED")
      ∷ ("uid", int (pos 65534))
      ∷ ("mounts", txt "PUBLIC_DOWNLOADED_ARTIFACTS_ONLY")
      ∷ ("producer_source", bool false)
      ∷ ("private_keys", bool false)
      ∷ []))

-- The program is put beside the files; what it prints must be a report that says `verified`.
unfoldable pub sandbox : Agent → Bytes → Dict Bytes → List Value → Result (Value × Value)
sandbox agent code files arguments = do
  let all_files = put (lit "verifier.py") code files
  for_each check_name (keys all_files)
  image ← found_image agent.image
  ran ← agent.container sandbox_options all_files arguments
  need (ran.status == 0) "INDEPENDENT_VERIFICATION_FAILED"
  report ← parse agent ran.output
  need (is_true (← report ! "verified")) "VERIFICATION_FAILED"
  ok (report, sandbox_facts image)

-- A mark that was read and whose signatures hold, as far as `verify_mark` goes before it resolves.
pub record ReadMark : Type 0 where
  pub mark : Value
  pub document : Value
  pub identity : Value
  pub verifier : Value
  pub meaning : Value

-- `{k: pointer(mark, path) for k, path in document['meaning'].items()}`
unfoldable pub read_meaning : Value → Value → Result Value
read_meaning mark document = do
  paths ← as_fields (← document ! "meaning")
  found ← each (λ (k, path). do v ← pointer mark path; ok (k, v)) paths
  ok (obj (of_entries found))

unfoldable pub read_mark : Agent → Bytes → Result ReadMark
read_mark agent raw = do
  mark ← parse agent raw
  protocol ← mark ! "payload" !! "protocol"
  document ← protocol ! "document"
  b ← document ! "bootstrap"
  identity ← pointer mark (← b ! "identity_pointer")
  bundle ← pointer mark (← b ! "authority_pointer")
  h ← digest agent.env document
  need (← ok (str h) =? protocol ! "sha256") "CONTRACT_HASH"
  verifier ← protocol ! "verifier_sha256"
  pin ← identity ! "root_key_id"
  issued ← mark ! "payload" !! "issued_at"
  trusted ← bootstrap_trust agent.env bundle document verifier pin issued
  kind ← mark ! "protected" !! "type"
  grant agent.env mark trusted (txt "ISSUER") issued kind none none
  authorization ← pointer mark (← b ! "authorization_pointer")
  need (← ok authorization =? bundle ! "profile_authorization") "HISTORICAL_AUTHORIZATION"
  meaning ← read_meaning mark document
  need
      (← (do ok (truthy (← meaning ! "establishes")))
        and (do ok (truthy (← meaning ! "does_not_establish"))))
      "MEANING_BOUNDS_REQUIRED"
  ok (record {
    mark = mark;
    document = document;
    identity = identity;
    verifier = verifier;
    meaning = meaning;
  })

-- the profile that was resolved is the one in the mark
unfoldable pub check_profile : ReadMark → Resolution → Result (Unit {0})
check_profile m resolved = do
  profile ← pointer m.mark (← m.document ! "bootstrap" !! "profile_pointer")
  need (value_eq resolved.profile profile) "EMBEDDED_PROFILE_SUBSTITUTION"

unfoldable pub registry_url : Agent → ReadMark → Resolution → Result Value
registry_url agent m resolved = do
  purchase ← pointer m.mark (← m.document ! "bootstrap" !! "purchase_id_pointer")
  template ← as_text (← resolved.payload ! "registry_template")
  quoted ← agent.quote purchase
  ok (str (replace_from 0 placeholder quoted template))

-- `v is False`
unfoldable pub is_false : Value → Bool
is_false (bool b) = not b
is_false _ = false

-- `xs + ys` of lists
unfoldable pub joined : Value → Value → Result Value
joined (arr xs) (arr ys) = ok (list (items xs ++ items ys))
joined _ _ = err type_error

unfoldable pub run_verifier : Agent → Bytes → ReadMark → Resolution → Bytes → Result (Value × Value)
run_verifier agent raw m resolved registry = do
  b ← m.document ! "bootstrap"
  template ← joined (← b ! "verifier_arguments") (← b ! "test_arguments")
  pin ← m.identity ! "root_key_id"
  arguments ← invocation template (
      (lit "{mark}", txt "/input/artifact.json")
      ∷ (lit "{registry}", txt "/input/registry.json")
      ∷ (lit "{resolution}", txt "/input/resolution.json")
      ∷ (lit "{root_pin}", pin)
      ∷ [])
  (report, facts) ←
      sandbox agent resolved.code
        ((lit "artifact.json", raw)
          ∷ (lit "registry.json", registry)
          ∷ (lit "resolution.json", resolved.bytes)
          ∷ [])
        arguments
  need
      (← (report ! "historical_issuance" =? const "VERIFIED")
        and (report ! "current_standing" =? const "ACTIVE")
        and (do ok (truthy (← report ! "current_discovery" !! "verified"))))
      "CURRENT_STANDING_NOT_ACTIVE"
  need (is_false (← report ! "live_completion_verified")) "TEST_PROMOTED_TO_LIVE"
  ok (report, facts)
