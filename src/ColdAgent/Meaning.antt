-- ===== src/ColdAgent/Meaning.antt =====
-- What `Reader.from_mark` and `Reader.run` of scripts/cold-agent.py take from the meaning of a mark:
-- its object, its action, and whether a later need is about something else.
use whpstanding.Prelude.{Bool, not, List, [], ◌∷◌, if◌then◌else◌}
use whpstanding.Result.{key_error, Result, ok, err, ◌>>=◌, ◌or◌}
use whpstanding.Value.{Value, str, obj, dict, ◌!◌, ◌!!◌, value_eq, iterate}
use whpstanding.Env.{Env, digest}

-- `next(x['payload'] for x in nodes if digest(x['payload'])==root)`
unfoldable pub first_with : Env → Value → List Value → Result Value
first_with env root [] = err key_error
first_with env root (e ∷ es) = do
  x ← e ! "payload"
  h ← digest env x
  if value_eq (str h) root then ok x else first_with env root es

unfoldable pub find_root : Env → Value → Result Value
find_root env meaning = do
  root ← meaning ! "object" !! "root"
  nodes ← iterate (← meaning ! "provenance" !! "nodes")
  first_with env root nodes

unfoldable pub external_of : Value → Result Value
external_of node = do
  id ← node ! "id"
  version ← node ! "version"
  content ← node ! "content"
  ok (obj (dict (("id", id) ∷ ("version", version) ∷ ("content", content) ∷ [])))

unfoldable pub action_of : Value → Result Value
action_of meaning = do
  scope ← meaning ! "bounds" !! "scope"
  jurisdiction ← meaning ! "bounds" !! "jurisdiction"
  operation ← meaning ! "operation"
  ok (
      obj
        (dict (("scope", scope) ∷ ("jurisdiction", jurisdiction) ∷ ("operation", operation) ∷ [])))

-- the later need is about another object or another operation
unfoldable pub is_unsupported : Value → Value → Result Bool
is_unsupported later meaning =
    (do ok (not (value_eq (← later ! "object" !! "id") (← meaning ! "object" !! "id"))))
    or (do ok (not (value_eq (← later ! "action" !! "operation") (← meaning ! "operation"))))
