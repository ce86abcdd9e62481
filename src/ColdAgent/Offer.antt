-- ===== src/ColdAgent/Offer.antt =====
-- The tests that `Reader.purchase_boundary` of scripts/cold-agent.py makes, and the documents that it
-- puts together for its probe.
use whpstanding.Prelude.{
  ℕ, Bool, false, String, List, [], ◌∷◌, ◌++◌, some, map, ℤ, pos, negsuc, ◌+ℤ◌, ◌==◌, if◌then◌else◌,
}
use whpstanding.Result.{type_error, Result, ok, err, ◌>>=◌, ◌>>◌, need, ◌and◌, any_of, each}
use whpstanding.Text.{Text, Bytes, lit, utf8, lower_char}
use whpstanding.Dict.{Dict, get, has_key, put, keys, same_texts}
use whpstanding.Value.{
  Value, null, int, str, arr, obj, Items, nil, cons, Fields, end, field, txt, list, dict, ◌!◌, ◌!!◌,
  value_eq, iterate, contains, as_fields, as_text, entries, of_entries, found_or_missing,
}
use whpstanding.Canonical.{canonical}
use whpstanding.Env.{Env, Url, digest}
use whpstanding.Compare.{◌=?◌, const, text, agree, agree_all}
use whpstanding.Discovery.Location.{split_url}
use whpstanding.Trust.{validate}
use whpstanding.ColdAgent.{b64, grant}
use whpstanding.ColdAgent.Reader.{Response}
use whpstanding.ColdAgent.Action.{Agent, KeyPair}
use whpstanding.ColdAgent.Links.{parse, or_none}
use whpstanding.ColdAgent.Pointer.{pointer}
use whpstanding.ColdAgent.Sandbox.{is_false}
use whpstanding.ColdAgent.Resolve.{Resolution}

unfoldable pub check_purchase : Env → Value → Resolution → Result (Unit {0})
check_purchase env purchase resolved = do
  let sp = resolved.payload
  need (← agree_all purchase sp ("capability_id" ∷ "capability_class" ∷ [])) "SERVICE_CAPABILITY"
  contract ← purchase ! "public_contract"
  h ← digest env resolved.document
  need
      (← (contract ! "document" =? ok resolved.document)
        and (contract ! "sha256" =? text h)
        and (contract ! "verifier_sha256" =? ok resolved.program_hash))
      "CURRENT_CONTRACT_SEMANTICS"
  need (← (purchase ! "root_pin" =? sp ! "root_key_id") and agree purchase sp "environment")
      "SERVICE_ROOT_OR_ENVIRONMENT"

-- `s.rstrip('/')`
unfoldable pub strip_slashes : Text → Text
strip_slashes [] = []
strip_slashes (c ∷ s) = drop_empty c (strip_slashes s)
  where
    drop_empty : ℕ → Text → Text
    drop_empty c [] = if c == b'/' then [] else c ∷ []
    drop_empty c (d ∷ t) = c ∷ d ∷ t

-- the path that the offer names is one that the service's description has
unfoldable pub check_offer : Env → Value → Value → Value → Result Url
check_offer env api sp offer = do
  u ← split_url env (← offer ! "url")
  paths ← api ! "paths"
  need
      (← (offer ! "method" =? const "POST") and contains (str u.path) paths and (do
        methods ← as_fields paths >>= λ fields. found_or_missing (get u.path fields)
        contains (txt "post") methods))
      "PUBLISHED_PURCHASE_PATH"
  origin ← as_text (← sp ! "service_origin")
  servers ← iterate (← api ! "servers")
  need
      (← any_of
        (λ x. do
          url ← as_text (← x ! "url")
          ok (value_eq (str (strip_slashes url)) (str (strip_slashes origin))))
        servers)
      "OPENAPI_SERVICE_ORIGIN"
  ok u

-- the probe neither signs for a wallet nor appoints an authority
unfoldable pub check_probe : Value → Result Value
check_probe purchase = do
  probe ← purchase ! "cold_probe"
  need
      (← (do ok (is_false (← probe ! "wallet_signing")))
        and (do ok (is_false (← probe ! "authority_established"))))
      "PROBE_CANNOT_APPOINT_AUTHORITY"
  ok probe

unfoldable pub has_names : Fields → List String → Bool
has_names fs names = same_texts (keys (entries fs)) (map lit names)

-- `inputs[k]`, if `k in inputs`
unfoldable pub input_at : Dict Value → Value → Result Value
input_at inputs (str k) =
    need (has_key k inputs) "UNDEFINED_PROBE_INPUT" >> found_or_missing (get k inputs)
input_at inputs (arr vs) = err type_error
input_at inputs (obj fs) = err type_error
input_at inputs _ = need false "UNDEFINED_PROBE_INPUT" >> ok null

unfoldable mutual
  unfolding has_names

  -- `{'$input': k}` stands for an input.
  pub expand : Dict Value → Value → Result Value
  expand inputs (obj fs) =
      let fields = expand_fields inputs fs in
      if has_names fs ("$input" ∷ [])
      then found_or_missing (get (lit "$input") (entries fs)) >>= input_at inputs
      else (fields >>= λ gs. ok (obj gs))
  expand inputs (arr vs) = expand_items inputs vs >>= λ ws. ok (arr ws)
  expand inputs v = ok v

  pub expand_items : Dict Value → Items → Result Items
  expand_items inputs nil = ok nil
  expand_items inputs (cons v vs) =
      expand inputs v >>= λ w. expand_items inputs vs >>= λ ws. ok (cons w ws)

  pub expand_fields : Dict Value → Fields → Result Fields
  expand_fields inputs end = ok end
  expand_fields inputs (field k v fs) =
      expand inputs v >>= λ w. expand_fields inputs fs >>= λ gs. ok (field k w gs)

-- `{**d, k: v}`
unfoldable pub extended : Value → String → Value → Result Value
extended d k v = do fields ← as_fields d; ok (obj (of_entries (put (lit k) v fields)))

module _ (agent : Agent) where
  abbrev pub encoded : Bytes → Value
  encoded bytes = str (agent.env.b64encode bytes)

  -- `key.sign(canon(x).encode())`, in base64
  unfoldable pub sign_value : KeyPair → Value → Result Value
  sign_value key x = do message ← canonical x 0; ok (encoded (key.sign (utf8 message)))

  unfoldable pub probe_inputs : Value → Value → KeyPair → ℤ → Text → Result (Dict Value)
  probe_inputs external action key at reference = do
    id ← external ! "id"
    version ← external ! "version"
    content ← external ! "content"
    scope ← action ! "scope"
    jurisdiction ← action ! "jurisdiction"
    operation ← action ! "operation"
    ok (
        (lit "object_id", id)
        ∷ (lit "object_version", version)
        ∷ (lit "object_content", content)
        ∷ (lit "scope", scope)
        ∷ (lit "jurisdiction", jurisdiction)
        ∷ (lit "operation", operation)
        ∷ (lit "now_minus_1", int (at +ℤ negsuc 0))
        ∷ (lit "now_plus_60", int (at +ℤ pos 60))
        ∷ (lit "client_reference", str reference)
        ∷ (lit "public_key", encoded key.spki)
        ∷ [])

  -- the source node that the probe signs, in an envelope
  unfoldable pub signed_source : Value → KeyPair → Dict Value → Result Value
  signed_source probe key inputs = do
    protected ← extended (← probe ! "source_protected") "key_id" (str (agent.env.sha256 key.spki))
    payload ← expand inputs (← probe ! "source_payload")
    let source = obj (dict (("protected", protected) ∷ ("payload", payload) ∷ []))
    signature ← sign_value key source
    extended source "signature" signature

  unfoldable pub build_submission : Value → Value → KeyPair → Dict Value → Result Value
  build_submission probe rules key inputs = do
    source ← signed_source probe key inputs
    h ← digest agent.env (← source ! "payload")
    submission ←
        expand (put (lit "node_hash") (str h) (put (lit "signed_node") source inputs))
          (← probe ! "submission_template")
    need (agent.is_schema rules) "SchemaError"
    validate agent.env rules submission
    ok submission

-- the submission is about the object and the action that were asked for
unfoldable pub check_about : Value → Value → Value → Result (Unit {0})
check_about submission external action = do
  object ← submission ! "object"
  need (← agree_all object external ("id" ∷ "version" ∷ [])) "EXTERNAL_OBJECT_IDENTITY"
  bounds ← submission ! "bounds"
  need
      (← (submission ! "requested_operation" =? action ! "operation")
        and agree_all bounds action ("scope" ∷ "jurisdiction" ∷ []))
      "CONTEMPLATED_ACTION_IDENTITY"

-- `{k: values[v] for k, v in fields}`
unfoldable pub fill : Dict Value → Dict Value → Result (Dict Value)
fill values fields =
    each (λ (k, v). do name ← as_text v; w ← found_or_missing (get name values); ok (k, w)) fields

unfoldable pub path_of : Url → Text
path_of u = path_with u.path u.query
  where
    path_with : Text → Text → Text
    path_with path [] = path
    path_with path (c ∷ s) = path ++ b'?' ∷ c ∷ s

module _ (agent : Agent) where
  -- the proof that the request of `body` is the probe's own
  unfoldable pub build_proof : Value → Value → Url → KeyPair → ℤ → Text → Bytes → Result Value
  build_proof auth offer u key at random body = do
    need
        (← (auth ! "key_algorithm" =? const "Ed25519")
          and (auth ! "key_id" =? const "SHA256-SPKI-DER")
          and (auth ! "signed_fields" =? ok (list (txt "protected" ∷ txt "payload" ∷ []))))
        "HTTP_AUTHENTICATION_RECIPE"
    method ← offer ! "method"
    let values : Dict Value =
        (lit "HTTP-method", method)
        ∷ (lit "URL-path-and-query", str (path_of u))
        ∷ (lit "SHA256-exact-request-bytes", str (agent.env.sha256 body))
        ∷ (lit "Unix-seconds", int at)
        ∷ (lit "Unix-seconds-plus-120", int (at +ℤ pos 120))
        ∷ (lit "random-16-byte-hex", str random)
        ∷ []
    protected ← extended (← auth ! "protected") "key_id" (str (agent.env.sha256 key.spki))
    payload ← fill values (← as_fields (← auth ! "payload_fields"))
    let signed = obj (dict (("protected", protected) ∷ ("payload", obj (of_entries payload)) ∷ []))
    signature ← sign_value agent key signed
    extended signed "signature" signature

  unfoldable pub request_headers : Value → Value → Value → Result (Dict Value)
  request_headers auth offer proof = do
    content_type ← offer ! "content_type"
    name ← as_text (← auth ! "header")
    message ← canonical proof 0
    ok (put name (encoded agent (utf8 message)) ((lit "Content-Type", content_type) ∷ []))

  -- `{k.lower(): v for k, v in headers.items()}`
  unfoldable pub lower_keys : Dict Value → Dict Value → Dict Value
  lower_keys [] lowered = lowered
  lower_keys ((k, v) ∷ rest) lowered = lower_keys rest (put (map lower_char k) v lowered)

  -- the terms that a service asks for: those of its header, for the request that was made
  unfoldable pub check_terms :
      Response → Value → Value → Value → Resolution → Value → Bytes → Result Value
  check_terms response purchase offer action resolved at body = do
    need (response.status == 402) "PAYMENT_BOUNDARY_NOT_REACHED"
    terms ← parse agent response.body
    payment ← purchase ! "payment"
    name ← as_text (← payment ! "required_header")
    given ← found_or_missing (get (map lower_char name) (lower_keys response.headers []))
    stated ← parse agent (← b64 agent.env given)
    need (value_eq stated terms) "PAYMENT_HEADER_BINDING"
    quote ← pointer terms (← payment ! "quote_pointer")
    scope ← action ! "scope"
    jurisdiction ← action ! "jurisdiction"
    grant agent.env quote resolved.trusted (txt "ISSUER") at null (or_none (some scope))
        (or_none (some jurisdiction))
    need (← (quote ! "payload" !! "request_hash") =? text (agent.env.sha256 body))
        "QUOTE_INPUT_BINDING"
    required ← pointer terms (← payment ! "requirements_pointer")
    need
        (← (ok required =? offer ! "requirements")
          and (offer ! "requirements" =? (quote ! "payload" !! "payment_requirements")))
        "PUBLISHED_PAYMENT_REQUIREMENTS"
    need (← (quote ! "payload" !! "resource" !! "url") =? offer ! "url") "PAYMENT_RESOURCE_BINDING"
    ok terms
