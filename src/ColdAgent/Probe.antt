-- ===== src/ColdAgent/Probe.antt =====
-- The walks over documents in `Reader.purchase_boundary` of scripts/cold-agent.py, and `pairs`, which
-- puts the members of a parsed object into a dict.
use whpstanding.Prelude.{not, List, [], ◌∷◌, Option, none, some}
use whpstanding.Result.{Result, ok, ◌>>=◌, ◌>>◌, need}
use whpstanding.Text.{Text, lit, starts_with}
use whpstanding.Dict.{Dict, get, has_key, put}
use whpstanding.Value.{Value, arr, obj, Items, nil, cons, Fields, end, field, as_text, entries}

unfoldable pub pairs : List (Text × Value) → Dict Value → Result (Dict Value)
pairs [] out = ok out
pairs ((key, value) ∷ rest) out =
    need (not (has_key key out)) "DUPLICATE_JSON_KEY" >> pairs rest (put key value out)

-- `if '$ref' in x: need(x['$ref'].startswith('#/'), …)`
unfoldable pub check_local : Option Value → Result (Unit {0})
check_local none = ok tt
check_local (some v) = do
  t ← as_text v
  need (starts_with t (lit "#/")) "NONLOCAL_INPUT_SCHEMA_REFERENCE"

unfoldable mutual
  pub local_refs : Value → Result (Unit {0})
  local_refs (obj fs) = check_local (get (lit "$ref") (entries fs)) >> local_refs_fields fs
  local_refs (arr vs) = local_refs_items vs
  local_refs _ = ok tt

  pub local_refs_items : Items → Result (Unit {0})
  local_refs_items nil = ok tt
  local_refs_items (cons v vs) = local_refs v >> local_refs_items vs

  pub local_refs_fields : Fields → Result (Unit {0})
  local_refs_fields end = ok tt
  local_refs_fields (field k v fs) = local_refs v >> local_refs_fields fs
