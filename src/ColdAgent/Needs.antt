-- ===== src/ColdAgent/Needs.antt =====
-- `Reader.from_need` of scripts/cold-agent.py: a need taken to the first compatible provider whose
-- resolution and offer hold. A candidate that fails is recorded, and the next one is tried.
use whpstanding.Prelude.{
  map, true, false, not, String, List, [], ◌∷◌, ◌++◌, none, some, length, pos,
}
use whpstanding.Result.{Fault, value_error, ok, err, need}
use whpstanding.Text.{Text, lit, utf8}
use whpstanding.Dict.{Dict}
use whpstanding.Value.{Value, bool, int, str, txt, list, ◌!◌, as_text}
use whpstanding.Canonical.{canonical}
use whpstanding.Discovery.Location.{given, split_url}
use whpstanding.ColdAgent.Reader.{recognize}
use whpstanding.ColdAgent.Action.{Agent, Action, recover, ◌>>=◌, ◌>>◌, lift}
use whpstanding.ColdAgent.Sandbox.{sandbox}
use whpstanding.ColdAgent.Resolve.{resolve, fetch, visit_origin}
use whpstanding.ColdAgent.Purchase.{fetch_linked, purchase_boundary}
use whpstanding.ColdAgent.Catalog.{
  catalog_of, count_providers, has_keys, catalog_query, find_candidates, check_supported,
  resolution_arguments, check_class, check_directory,
}

-- What `from_need` returns, with the candidates that failed and how.
pub record Offered : Type 0 where
  pub report : Dict Value
  pub rejected : List (Value × Fault)

-- what a candidate that holds adds to the report
pub record Found : Type 0 where
  pub boundary : Dict Value
  pub verified : Value
  pub facts : Value

module _ (agent : Agent) (requested external action : Value) where
  -- the body of the `try`
  unfoldable pub try_candidate : Value → Action Found
  try_candidate candidate = do
    url ← lift (candidate ! "resolution_url")
    resolved ← resolve agent url none none
    lift (check_class resolved.payload requested)
    arguments ← lift (resolution_arguments resolved.document resolved.payload)
    contract ← lift (canonical resolved.document 0)
    (verified, facts) ← lift (
        sandbox agent resolved.code
          ((lit "resolution.json", resolved.bytes) ∷ (lit "contract.json", utf8 contract) ∷ [])
          arguments)
    link ← lift (resolved.payload ! "service_contract")
    purchase ← fetch_linked agent link
    lift (check_supported requested action purchase)
    boundary ← purchase_boundary agent resolved external action
    lift (ok (record { boundary = boundary; verified = verified; facts = facts }))

  -- the loop over the candidates, with the failures so far
  unfoldable pub try_all : List Value → List (Value × Fault) → Action (Found × List (Value × Fault))
  try_all [] failures r = (err (value_error "NO_VERIFIED_COMPATIBLE_PROVIDER"), r)
  try_all (c ∷ cs) failures r =
      recover (try_candidate c r) (λ found r'. (ok (found, failures), r'))
        (λ fault. try_all cs (failures ++ (c, fault) ∷ []))

unfoldable pub completed_path : List String
completed_path =
    "external object and action" ∷ "neutral need recognition" ∷ "capability catalog query"
    ∷ "compatible provider discovery" ∷ "signed current resolution" ∷ "purchase contract"
    ∷ "x402 payment boundary" ∷ []

module _ (agent : Agent) where
  -- the catalog's URL, which is admitted and has no query of its own
  unfoldable pub admit_catalog : Value → Action Text
  admit_catalog interface = do
    url ← lift (catalog_of interface)
    visit_origin agent url
    u ← lift (split_url agent.env url)
    lift (need (not (given (some u.query))) "CATALOG_INTERFACE_URL")
    lift (as_text url)

  unfoldable pub from_need : Value → Action Offered
  from_need value = do
    lift (
        need (has_keys value ("object" ∷ "action" ∷ "need_interface" ∷ []))
          "NEUTRAL_INITIAL_INPUT_ONLY")
    external ← lift (value ! "object")
    action ← lift (value ! "action")
    interface ← lift (value ! "need_interface")
    requirement ← lift (recognize external action interface)
    catalog ← admit_catalog interface
    requested ← lift (interface ! "capability")
    query ← lift (catalog_query agent requested action)
    (directory, raw) ← fetch agent (str (catalog ++ b'?' ∷ query)) none
    lift (check_directory directory interface)
    candidates ← lift (find_candidates directory requested action)
    (found, failures) ← try_all agent requested external action candidates []
    provided ← lift (count_providers directory)
    lift (
        ok (record {
          report =
              found.boundary
              ++ (lit "verified", bool true)
                ∷ (lit "test", txt "B")
                ∷ (lit "environment", txt "TEST")
                ∷ (lit "need", requirement)
                ∷ (lit "catalog_provider_count", int (pos provided))
                ∷ (lit "compatible_provider_count", int (pos (length candidates)))
                ∷ (
                  lit "provider_selection_rule",
                  txt "CAPABILITY_CLASS_PROPERTIES_SCOPE_JURISDICTION_NOT_NAME",
                )
                ∷ (lit "completed_path", list (map txt completed_path))
                ∷ (lit "independent_resolution_verifier", found.verified)
                ∷ (lit "sandbox", found.facts)
                ∷ (lit "root_admission", txt "TEST_SELF_CONSISTENT_ROOT")
                ∷ (lit "initial_provider_configuration", bool false)
                ∷ [];
          rejected = failures;
        }))
