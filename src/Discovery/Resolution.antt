-- ===== src/Discovery/Resolution.antt =====
-- `verify_resolution` and `verify_resolution_only` of verify/verify_mark.py.
use whpstanding.Prelude.{
  ℕ, zero, suc, Bool, false, not, ◌&&◌, ◌||◌, some, String, List, [], ◌∷◌, ◌++◌, length, ◌==◌, ◌-◌,
  ◌+ℤ◌, pos, if◌then◌else◌,
}
use whpstanding.Result.{Result, ok, ◌>>=◌, ◌>>◌, need, ◌and◌, ◌or◌, for_each}
use whpstanding.Text.{Text, lit, text_eq, starts_with}
use whpstanding.Value.{Value, int, str, obj, txt, dict, ◌!◌, ◌!!◌, as_text, iterate}
use whpstanding.Compare.{◌=?◌, ◌≤?◌, ◌<?◌, const, text, agree, agree_all}
use whpstanding.Env.{Env, Url, digest}
use whpstanding.Trust.{validate, trust, grant, profile_hash, contract_hash}
use whpstanding.Assess.Trace.{as_int}
use whpstanding.Discovery.Location.{given, is_admitted_origin, is_plain_location, split_url}

-- `x + n` of a document's number
unfoldable pub later_by : ℕ → Value → Result Value
later_by n v = do t ← as_int v; ok (int (t +ℤ pos n))

-- `x['observed_at'] <= at + 30 and at < x['valid_until'] <= x['observed_at'] + 300`
unfoldable pub is_fresh : Value → Value → Result Bool
is_fresh x at =
    (x ! "observed_at" ≤? later_by 30 at)
    and (ok at <? x ! "valid_until")
    and (x ! "valid_until" ≤? (x ! "observed_at" >>= later_by 300))

-- The text with each `{purchase_id}` in it replaced, read from the left.
unfoldable pub placeholder : Text
placeholder = lit "{purchase_id}"

-- `skip` counts the characters that an occurrence has already used up.
unfoldable pub replace_from : ℕ → Text → Text → Text → Text
replace_from skip old new [] = []
replace_from (suc n) old new (c ∷ s) = replace_from n old new s
replace_from zero old new (c ∷ s) =
    let found = new ++ replace_from (length old - 1) old new s in
    let other = c ∷ replace_from 0 old new s in if starts_with (c ∷ s) old then found else other

-- `len` of the occurrences that do not overlap
unfoldable pub count_from : ℕ → Text → Text → ℕ
count_from skip old [] = 0
count_from (suc n) old (c ∷ s) = count_from n old s
count_from zero old (c ∷ s) =
    let found = suc (count_from (length old - 1) old s) in
    let other = count_from 0 old s in if starts_with (c ∷ s) old then found else other

-- What `verify_resolution` reports, without `verified`, which is always true.
pub record Resolved : Type 0 where
  pub resolution_id : Value
  pub capability_id : Value
  pub service_origin : Value
  pub observed_at : Value
  pub valid_until : Value

-- `[a for a in artifacts if a['kind'] == kind and a['sha256'] == h]`
unfoldable pub matching : Value → Value → List Value → Result (List Value)
matching kind h [] = ok []
matching kind h (a ∷ rest) = do
  fits ← (a ! "kind" =? ok kind) and (a ! "sha256" =? ok h)
  others ← matching kind h rest
  ok (if fits then a ∷ others else others)

-- `same(url)`: a link into the service's own origin
unfoldable pub check_link : Env → Url → Value → Result (Unit {0})
check_link env origin url = do
  u ← split_url env url
  need
      (text_eq u.scheme origin.scheme
        && text_eq u.netloc origin.netloc
        && not (given u.username)
        && not (given u.password)
        && not (given (some u.fragment)))
      "CURRENT_SERVICE_LINK"

unfoldable pub only : List Value → String → Result Value
only (a ∷ []) code = ok a
only _ code = need false code >> ok (txt "")

module _ (env : Env) where
  unfoldable pub check_artifact : Url → List Value → String → String → Value → Result (Unit {0})
  check_artifact origin artifacts kind code h = do
    found ← only (← matching (txt kind) h artifacts) code
    check_link env origin (← found ! "url")

  -- the four artifacts that the snapshot must resolve, each exactly once and by its hash
  unfoldable pub check_artifacts : Url → Value → Value → Result (Unit {0})
  check_artifacts origin sp protocol = do
    rules ← protocol ! "document" !! "schema_sha256"
    verifier ← protocol ! "verifier_sha256"
    artifacts ← iterate (← sp ! "artifacts")
    check_artifact origin artifacts "PROFILE" "IMMUTABLE_ARTIFACT_UNRESOLVED_PROFILE"
        (str profile_hash)
    check_artifact origin artifacts "CONTRACT" "IMMUTABLE_ARTIFACT_UNRESOLVED_CONTRACT"
        (str contract_hash)
    check_artifact origin artifacts "SCHEMA" "IMMUTABLE_ARTIFACT_UNRESOLVED_SCHEMA" rules
    check_artifact origin artifacts "VERIFIER" "IMMUTABLE_ARTIFACT_UNRESOLVED_VERIFIER" verifier

  -- where the service is now, and its links
  unfoldable pub check_service : Value → Text → Result Url
  check_service sp purchase = do
    origin ← split_url env (← sp ! "service_origin")
    environment ← sp ! "environment"
    need (is_admitted_origin origin environment) "CURRENT_SERVICE_ORIGIN"
    need (is_plain_location origin && (text_eq origin.path [] || text_eq origin.path (lit "/")))
        "CURRENT_SERVICE_ORIGIN"
    for_each (λ k. sp ! k !! "url" >>= check_link env origin) ("service_contract" ∷ "openapi" ∷ [])
    template ← as_text (← sp ! "registry_template")
    check_link env origin (str (replace_from 0 placeholder purchase template))
    need (count_from 0 placeholder template == 1) "REGISTRY_TEMPLATE"
    ok origin

  unfoldable pub verify_resolution : Value → Value → Text → Value → Result Resolved
  verify_resolution snapshot result pin at = do
    validate env (← env.schemas ! "resolution") snapshot
    sp ← snapshot ! "payload"
    p ← result ! "payload"
    x ← p ! "discovery"
    bundle ← sp ! "trust_bundle"
    admitted ← trust env bundle pin at
    context ← sp ! "authority_context"
    grant env admitted.keys admitted.revocations snapshot (txt "WHP-CAPABILITY-RESOLUTION-v1")
        "DISCOVERY" context at
    need (← is_fresh sp at) "RESOLUTION_STALE"
    need (← sp ! "valid_until" ≤? (bundle ! "status_snapshot" !! "payload" !! "valid_until"))
        "RESOLUTION_TRUST_FRESHNESS"
    need
        (← agree_all sp x
          ("capability_id" ∷ "capability_class" ∷ "resolution_id" ∷ "root_key_id" ∷ []))
        "RESOLUTION_IDENTITY"
    need
        (← agree sp p "environment"
          and agree p admitted.profile "environment"
          and agree sp admitted.profile "issuer")
        "RESOLUTION_ENVIRONMENT_OR_ISSUER"
    purchase ← as_text (← p ! "purchase_id")
    origin ← check_service sp purchase
    check_artifacts origin sp (← p ! "protocol")
    resolution ← sp ! "resolution_id"
    capability ← sp ! "capability_id"
    service ← sp ! "service_origin"
    observed ← sp ! "observed_at"
    until ← sp ! "valid_until"
    ok (record {
      resolution_id = resolution;
      capability_id = capability;
      service_origin = service;
      observed_at = observed;
      valid_until = until;
    })

  -- the document that stands in for a result where there is none
  unfoldable pub candidate_context : Value → Value → Result Value
  candidate_context sp document = do
    capability ← sp ! "capability_id"
    capability_class ← sp ! "capability_class"
    resolution ← sp ! "resolution_id"
    root ← sp ! "root_key_id"
    environment ← sp ! "environment"
    let identity = obj (
        dict (
          ("capability_id", capability)
          ∷ ("capability_class", capability_class)
          ∷ ("resolution_id", resolution)
          ∷ ("root_key_id", root)
          ∷ []))
    let protocol =
        obj (dict (("document", document) ∷ ("verifier_sha256", str (env.sha256 env.source)) ∷ []))
    let payload = obj (
        dict (
          ("discovery", identity)
          ∷ ("environment", environment)
          ∷ ("purchase_id", txt "catalog-discovery")
          ∷ ("protocol", protocol)
          ∷ []))
    ok (obj (dict (("payload", payload) ∷ [])))

  -- The report has the environment beside it; the other fields that are added are constants.
  unfoldable pub verify_resolution_only :
      Value → Value → Text → Bool → Value → Result (Resolved × Value)
  verify_resolution_only snapshot document pin allow_test at = do
    commitment ← digest env document
    need (← text commitment =? text contract_hash) "CONTRACT_COMMITMENT"
    rules ← digest env (← env.schemas ! "result")
    need (← document ! "schema_sha256" =? text rules) "SCHEMA_COMMITMENT"
    sp ← snapshot ! "payload"
    need (← ok allow_test or (sp ! "environment" =? const "LIVE")) "TEST_ARTIFACT_NOT_LIVE"
    context ← candidate_context sp document
    report ← verify_resolution snapshot context pin at
    environment ← sp ! "environment"
    ok (report, environment)
