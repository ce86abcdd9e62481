-- ===== src/ColdAgent/Purchase.antt =====
-- `Reader.purchase_boundary` and `Reader.from_mark` of scripts/cold-agent.py: a service's offer taken
-- as far as the terms of payment, which are never met.
use whpstanding.Prelude.{ℕ, false, [], ◌∷◌, some, ℤ, pos}
use whpstanding.Result.{ok}
use whpstanding.Text.{Text, Bytes, lit, utf8}
use whpstanding.Dict.{Dict}
use whpstanding.Value.{Value, bool, int, str, obj, dict, ◌!◌, as_text}
use whpstanding.Canonical.{canonical}
use whpstanding.Env.{digest, Url}
use whpstanding.ColdAgent.Reader.{Response, request}
use whpstanding.ColdAgent.Action.{Agent, Action, KeyPair, ◌>>=◌, ◌>>◌, lift, step}
use whpstanding.ColdAgent.Probe.{local_refs}
use whpstanding.ColdAgent.Resolve.{Resolution, fetch}
use whpstanding.ColdAgent.Offer.{
  check_purchase, check_offer, check_probe, probe_inputs, build_submission, check_about,
  build_proof, request_headers, check_terms,
}

module _ (agent : Agent) where
  unfoldable pub new_key : Action KeyPair
  new_key r = (ok (agent.new_key r), r)

  -- `secrets.token_hex(n)`
  unfoldable pub new_token : ℕ → Action Text
  new_token n r = (ok (agent.token r n), r)

  unfoldable pub seconds : Action ℤ
  seconds r = (ok (agent.clock r), r)

  -- `self.document(x['url'], x['sha256'])`
  unfoldable pub fetch_linked : Value → Action Value
  fetch_linked link = do
    url ← lift (link ! "url")
    h ← lift (link ! "sha256")
    (v, raw) ← fetch agent url (some h)
    lift (ok v)

  -- the offer, with the URL that it was found to have
  unfoldable pub read_offer : Value → Value → Action (Value × Url)
  read_offer sp purchase = do
    link ← lift (sp ! "openapi")
    api ← fetch_linked link
    offer ← lift (purchase ! "purchase")
    u ← lift (check_offer agent.env api sp offer)
    lift (ok (offer, u))

  unfoldable pub read_schema : Value → Action Value
  read_schema offer = do
    url ← lift (offer ! "input_schema")
    h ← lift (offer ! "input_schema_sha256")
    (rules, raw) ← fetch agent url (some h)
    lift (local_refs rules)
    lift (ok rules)

  -- the probe's submission, and the key that signs it
  unfoldable pub prepare : Value → Value → Value → Value → Action (Value × KeyPair × ℤ)
  prepare purchase rules external action = do
    probe ← lift (check_probe purchase)
    key ← new_key
    at ← seconds
    reference ← new_token 32
    inputs ← lift (probe_inputs agent external action key at reference)
    submission ← lift (build_submission agent probe rules key inputs)
    lift (check_about submission external action)
    lift (ok (submission, key, at))

  -- the one request that is made to the offer, with its proof
  unfoldable pub submit : Value → Value → Url → KeyPair → ℤ → Bytes → Action Response
  submit auth offer u key at body = do
    random ← new_token 16
    proof ← lift (build_proof agent auth offer u key at random body)
    url ← lift (offer ! "url")
    m ← lift (offer ! "method")
    method ← lift (as_text m)
    headers ← lift (request_headers agent auth offer proof)
    step (request agent.env agent.net url method (some body) headers)

  -- The status is the one that `check_terms` has asked for.
  unfoldable pub boundary_report : Value → Value → Value → Text → Value → Dict Value
  boundary_report object action terms request_hash provider =
      (lit "payment_status", int (pos 402))
      ∷ (lit "payment_authorizations_created", int (pos 0))
      ∷ (lit "wallet_keys_available", bool false)
      ∷ (lit "payment_terms", terms)
      ∷ (lit "probe_request_hash", str request_hash)
      ∷ (lit "external_object", object)
      ∷ (lit "contemplated_action", action)
      ∷ (lit "probe_authority_established", bool false)
      ∷ (lit "provider_id", provider)
      ∷ []

  -- the object as it is reported, with the hash of its content
  unfoldable pub object_report : Value → Action Value
  object_report external = do
    id ← lift (external ! "id")
    version ← lift (external ! "version")
    content ← lift (external ! "content")
    h ← lift (digest agent.env content)
    lift (ok (obj (dict (("id", id) ∷ ("version", version) ∷ ("content_sha256", str h) ∷ []))))

  unfoldable pub purchase_boundary : Resolution → Value → Value → Action (Dict Value)
  purchase_boundary resolved external action = do
    link ← lift (resolved.payload ! "service_contract")
    purchase ← fetch_linked link
    lift (check_purchase agent.env purchase resolved)
    (offer, u) ← read_offer resolved.payload purchase
    rules ← read_schema offer
    (submission, key, at) ← prepare purchase rules external action
    body ← lift (canonical submission 0)
    auth ← lift (purchase ! "authentication")
    response ← submit auth offer u key at (utf8 body)
    terms ← lift (check_terms agent response purchase offer action resolved (int at) (utf8 body))
    object ← object_report external
    provider ← lift (resolved.payload ! "capability_id")
    lift (ok (boundary_report object action terms (agent.env.sha256 (utf8 body)) provider))
