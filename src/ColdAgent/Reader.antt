-- ===== src/ColdAgent/Reader.antt =====
-- `Reader` of scripts/cold-agent.py: the origins that it has admitted, the requests that it makes to
-- them, the arguments that it lets a downloaded verifier run with, and the recognition of a need. The
-- network is a parameter.
pub mod Safe
pub mod Admits
use whpstanding.Prelude.{
  ℕ, Bool, true, false, not, ◌&&◌, ◌||◌, String, List, [], ◌∷◌, ◌++◌, Option, none, some, length,
  leb, ◌==◌, if◌then◌else◌, pos,
}
use whpstanding.Result.{Fault, type_error, value_error, Result, ok, err, ◌>>=◌, ◌>>◌, need, ◌and◌}
use whpstanding.Text.{Text, Bytes, lit, text_eq}
use whpstanding.Dict.{Dict, get}
use whpstanding.Value.{
  Value, null, bool, int, str, arr, obj, nil, txt, dict, list, items, ◌!◌, ◌!!◌, value_eq, is_true,
  truthy, contains_value, contains, as_fields, as_text,
}
use whpstanding.Env.{Env, Url, digest}
use whpstanding.Discovery.Location.{given, is_host, split_url}
use whpstanding.Compare.{◌=?◌, const, text}

-- What the network is asked: `urllib.request.Request(url, data, headers, method)`.
pub record Request : Type 0 where
  pub url : Text
  pub method : Text
  pub body : Option Bytes
  pub headers : Dict Value

-- What it answers: the status, the headers, and the body up to one byte more than is accepted.
pub record Response : Type 0 where
  pub status : ℕ
  pub headers : Dict Value
  pub body : Bytes

-- What the opener comes to with a request: a response, also one that tells of an error, or a redirect to
-- another URL, for which it calls `redirect_request`.
pub data Answer : Type 0 where
  answered : Response → Answer
  redirected : Text → Answer

-- What comes of a request, once the reader has made some.
abbrev pub Network : Type 0
Network = List Value → Request → Result Answer

-- `NoRedirect.redirect_request`
unfoldable pub redirect_request : Text → Result Response
redirect_request url = err (value_error "REDIRECT_NOT_ALLOWED")

-- `self.opener.open`, with its handler of redirects
unfoldable pub open_answer : Answer → Result Response
unfolding redirect_request
open_answer (answered response) = ok response
open_answer (redirected url) = redirect_request url

-- A reader's `allowed`, and the `trace` that its requests leave.
pub record Reader : Type 0 where
  pub allowed : List (Text × Text)
  pub trace : List Value

abbrev pub fresh_reader : Reader
fresh_reader = record { allowed = []; trace = [] }

unfoldable pub origin_eq : Text × Text → Text × Text → Bool
origin_eq (s, n) (t, m) = text_eq s t && text_eq n m

-- `origin in self.allowed`
unfoldable pub is_allowed : Text × Text → List (Text × Text) → Bool
is_allowed o [] = false
is_allowed o (x ∷ xs) = origin_eq o x || is_allowed o xs

unfoldable pub allow : Text × Text → List (Text × Text) → List (Text × Text)
allow o xs = if is_allowed o xs then xs else o ∷ xs

-- `not u.username and not u.password and not u.fragment`
unfoldable pub is_anonymous : Url → Bool
is_anonymous u = not (given u.username) && not (given u.password) && not (given (some u.fragment))

-- `u.scheme=='https' or (u.scheme=='http' and u.hostname=='127.0.0.1')`
unfoldable pub is_secure : Url → Bool
is_secure u =
    text_eq u.scheme (lit "https")
    || (text_eq u.scheme (lit "http") && is_host u.hostname (lit "127.0.0.1"))

module _ (env : Env) (net : Network) where
  unfoldable pub admit : Value → Reader → Result ((Text × Text) × Reader)
  admit url r = do
    u ← split_url env url
    need (is_secure u) "HTTPS_OR_EXPLICIT_LOOPBACK_TEST_REQUIRED"
    need (given (some u.netloc) && is_anonymous u) "URL_INVALID"
    let o : Text × Text = (u.scheme, u.netloc)
    ok (o, record r { allowed = allow o r.allowed })

  -- what a request leaves in the trace
  unfoldable pub trace_entry : Text → Text → Response → Value
  trace_entry url method response = obj (
      dict (
        ("url", str url)
        ∷ ("method", str method)
        ∷ ("status", int (pos response.status))
        ∷ ("sha256", str (env.sha256 response.body))
        ∷ []))

  unfoldable pub request :
      Value → Text → Option Bytes → Dict Value → Reader → Result (Response × Reader)
  request url method content headers r = do
    u ← split_url env url
    need (is_allowed (u.scheme, u.netloc) r.allowed && is_anonymous u) "UNADMITTED_ORIGIN"
    location ← as_text url
    let asked : Request = record {
      url = location;
      method = method;
      body = content;
      headers = headers;
    }
    answer ← net r.trace asked
    response ← open_answer answer
    need (leb (length response.body) 2000000) "RESPONSE_SIZE"
    ok (response, record r { trace = r.trace ++ trace_entry location method response ∷ [] })

-- the options that a signed recipe may pass to a downloaded verifier
unfoldable pub allowed_options : List Value
allowed_options =
    txt "--root-pin"
    ∷ txt "--registry"
    ∷ txt "--resolution"
    ∷ txt "--allow-test"
    ∷ txt "--resolution-only"
    ∷ txt "--contract"
    ∷ []

-- `replacements.get(arg)`, for any argument that can be looked up
unfoldable pub replacement : Dict Value → Value → Result (Option Value)
replacement replacements (str s) = ok (get s replacements)
replacement replacements (arr vs) = err type_error
replacement replacements (obj fs) = err type_error
replacement replacements _ = ok none

-- one round of the loop over the template
unfoldable pub expand_argument : Value → Option Value → Result Value
expand_argument arg (some v) = ok v
expand_argument arg none =
    need (contains_value arg allowed_options) "UNSAFE_VERIFIER_ARGUMENT" >> ok arg

unfoldable pub expand_arguments : Dict Value → List Value → Result (List Value)
expand_arguments replacements [] = ok []
expand_arguments replacements (arg ∷ rest) = do
  found ← replacement replacements arg
  v ← expand_argument arg found
  vs ← expand_arguments replacements rest
  ok (v ∷ vs)

unfoldable pub invocation : Value → Dict Value → Result (List Value)
invocation (arr vs) replacements =
    need (leb (length (items vs)) 16) "VERIFIER_RECIPE" >> expand_arguments replacements (items vs)
invocation _ replacements = need false "VERIFIER_RECIPE" >> ok []

-- what the evidence must say, in order, with the result where it does not
unfoldable pub evidence_rules : List (String × Bool × String)
evidence_rules =
    ("authority_established", true, "INSUFFICIENT_AUTHORITY")
    ∷ ("provenance_sufficient", true, "PROVENANCE_INSUFFICIENT")
    ∷ ("qualifications_preserved", true, "QUALIFICATION_PRESERVATION_UNESTABLISHED")
    ∷ ("blocking_unknowns", false, "BLOCKING_UNKNOWN")
    ∷ ("independently_verifiable", true, "INDEPENDENTLY_VERIFIABLE_WARRANT_REQUIRED")
    ∷ []

-- `v is b`, for what `get` found and a bool
unfoldable pub is_bool : Option Value → Bool → Bool
is_bool (some (bool true)) b = b
is_bool (some (bool false)) b = not b
is_bool _ b = false

-- the result of the first rule that the evidence breaks
unfoldable pub first_broken : Dict Value → List (String × Bool × String) → Option String
first_broken e [] = none
first_broken e ((field, expected, code) ∷ rest) =
    let later = first_broken e rest in
    if is_bool (get (lit field) e) expected then later else some code

-- `e.get(k)==v`, where nothing is `None`
unfoldable pub or_null : Option Value → Value
or_null none = null
or_null (some v) = v

unfoldable pub or_empty : Option Value → Value
or_empty none = arr nil
or_empty (some v) = v

-- whether the evidence is about this object and this action
unfoldable pub is_about : Dict Value → Value → Value → Result Bool
is_about e external action =
    (ok (or_null (get (lit "object_id") e)) =? external ! "id")
    and (ok (or_null (get (lit "object_version") e)) =? external ! "version")
    and (do contains (← action ! "operation") (or_empty (get (lit "operations") e)))

unfoldable pub judge : Dict Value → Value → Value → Option String → Result Value
judge e external action (some code) = ok (txt code)
judge e external action none = do
  about ← is_about e external action
  ok (if about then txt "SUFFICIENT_STANDING_EVIDENCE" else txt "TRANSFORMATION_WARRANT_MISSING")

-- `result`, from the evidence that the object carries, if any
unfoldable pub recognition : Option Value → Value → Value → Result Value
recognition none external action = ok (txt "NO_STANDING_EVIDENCE")
recognition (some evidence) external action =
    if truthy evidence
    then (do e ← as_fields evidence; judge e external action (first_broken e evidence_rules))
    else ok (txt "NO_STANDING_EVIDENCE")

unfoldable pub recognize : Value → Value → Value → Result Value
recognize external action interface = do
  need
      (← (do ok (is_true (← interface ! "vendor_neutral")))
        and ((interface ! "catalog" !! "interface") =? const "capability-catalog-v1"))
      "VENDOR_NEUTRAL_INTERFACE_REQUIRED"
  fields ← as_fields external
  result ← recognition (get (lit "standing_evidence") fields) external action
  version ← interface ! "version"
  capability ← interface ! "capability"
  need (not (value_eq result (txt "SUFFICIENT_STANDING_EVIDENCE"))) "NO_NEW_CAPABILITY_REQUIRED"
  ok (
      obj (
        dict (
          ("version", version)
          ∷ ("result", result)
          ∷ ("capability_required", capability)
          ∷ ("contemplated_action", action)
          ∷ ("recognition_basis", txt "CALLER_SUPPLIED_EVIDENCE_STATUS_NOT_NEW_AUTHORITY")
          ∷ [])))
