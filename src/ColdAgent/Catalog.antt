-- ===== src/ColdAgent/Catalog.antt =====
-- The catalog of `Reader.from_need` in scripts/cold-agent.py: what is asked of it, and which of its
-- providers are candidates.
use whpstanding.Prelude.{ℕ, Bool, String, List, [], ◌∷◌, join, map}
use whpstanding.Result.{Result, ok, ◌>>=◌, ◌>>◌, need, ◌and◌, all_of, each}
use whpstanding.Text.{Text, lit}
use whpstanding.Dict.{keys, same_texts}
use whpstanding.Value.{Value, str, obj, txt, ◌!◌, ◌!!◌, iterate, contains, as_text, entries, size}
use whpstanding.Compare.{◌=?◌}
use whpstanding.Finality.{select}
use whpstanding.ColdAgent.Action.{Agent}
use whpstanding.ColdAgent.Sandbox.{joined}
use whpstanding.ColdAgent.Reader.{invocation}

-- `set(x)==set(names)`, for what is known to be a dict if anything is
unfoldable pub has_keys : Value → List String → Bool
has_keys (obj fs) names = same_texts (keys (entries fs)) (map lit names)
has_keys _ names = Bool.false

-- `all(k in x[name] for k in requested['requirements'])`
unfoldable pub meets : Value → Value → String → Result Bool
meets requested x name = do
  required ← iterate (← requested ! "requirements")
  all_of (λ k. x ! name >>= contains k) required

-- what is asked of the catalog
unfoldable pub catalog_query : Agent → Value → Value → Result Text
catalog_query agent requested action = do
  id ← requested ! "id"
  required ← each as_text (← iterate (← requested ! "requirements"))
  scope ← action ! "scope"
  jurisdiction ← action ! "jurisdiction"
  ok (
      agent.urlencode (
        (lit "capability_class", id)
        ∷ (lit "requirements", str (join (lit ",") required))
        ∷ (lit "scope", scope)
        ∷ (lit "jurisdiction", jurisdiction)
        ∷ []))

-- a provider of the class, with what is required, for the scope and the jurisdiction of the action
unfoldable pub is_compatible : Value → Value → Value → Result Bool
is_compatible requested action c =
    (c ! "capability_class" =? requested ! "id")
    and meets requested c "properties"
    and (do contains (← action ! "scope") (← c ! "scopes"))
    and (do contains (← action ! "jurisdiction") (← c ! "jurisdictions"))

unfoldable pub find_candidates : Value → Value → Value → Result (List Value)
find_candidates directory requested action = do
  providers ← iterate (← directory ! "providers")
  candidates ← select (is_compatible requested action) providers
  need (is_some_candidate candidates) "NO_COMPATIBLE_PROVIDER"
  ok candidates
  where
    is_some_candidate : List Value → Bool
    is_some_candidate [] = Bool.false
    is_some_candidate (c ∷ cs) = Bool.true

-- the service supports what is required, for the scope and the jurisdiction of the action
unfoldable pub check_supported : Value → Value → Value → Result (Unit {0})
check_supported requested action purchase = do
  need
      (← meets requested purchase "supported_properties"
        and (do contains (← action ! "scope") (← purchase ! "supported_scopes"))
        and (do contains (← action ! "jurisdiction") (← purchase ! "supported_jurisdictions")))
      "PROVIDER_CAPABILITY_MISMATCH"

-- the arguments with which a candidate's verifier checks its resolution
unfoldable pub resolution_arguments : Value → Value → Result (List Value)
resolution_arguments document sp = do
  b ← document ! "bootstrap"
  template ← joined (← b ! "resolution_arguments") (← b ! "test_arguments")
  pin ← sp ! "root_key_id"
  invocation template (
      (lit "{resolution}", txt "/input/resolution.json")
      ∷ (lit "{contract}", txt "/input/contract.json")
      ∷ (lit "{root_pin}", pin)
      ∷ [])

unfoldable pub check_class : Value → Value → Result (Unit {0})
check_class sp requested = do
  need (← sp ! "capability_class" =? requested ! "id") "DISCOVERED_CAPABILITY_CLASS"

unfoldable pub check_directory : Value → Value → Result (Unit {0})
check_directory directory interface = do
  need (← directory ! "interface" =? (interface ! "catalog" !! "interface")) "CATALOG_INTERFACE"

unfoldable pub catalog_of : Value → Result Value
catalog_of interface = interface ! "catalog" !! "url"

-- `len(directory['providers'])`
unfoldable pub count_providers : Value → Result ℕ
count_providers directory = do size (← directory ! "providers")
