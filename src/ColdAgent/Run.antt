-- ===== src/ColdAgent/Run.antt =====
-- `Reader.from_mark` and `Reader.run` of scripts/cold-agent.py: what is done with each kind of input.
use whpstanding.Prelude.{map, true, String, List, [], ◌∷◌, ◌++◌, if◌then◌else◌}
use whpstanding.Result.{ok, need}
use whpstanding.Text.{Bytes, lit}
use whpstanding.Dict.{Dict}
use whpstanding.Value.{Value, bool, str, txt, list, ◌!◌, ◌!!◌}
use whpstanding.Env.{decode}
use whpstanding.ColdAgent.Action.{Agent, Action, ◌>>=◌, ◌>>◌, lift}
use whpstanding.ColdAgent.Links.{parse}
use whpstanding.ColdAgent.Marks.{verify_mark}
use whpstanding.ColdAgent.Meaning.{find_root, external_of, action_of, is_unsupported}
use whpstanding.ColdAgent.Purchase.{purchase_boundary}
use whpstanding.ColdAgent.Catalog.{has_keys}
use whpstanding.ColdAgent.Needs.{Offered, from_need}

-- What `run` reports: a mark's own offer, a need's, or both in order. The code adds constants to it, and
-- the trace of the reader.
pub data Report : Type 0 where
  mark_report : Dict Value → Value → Report
  need_report : Offered → Report
  joined_report : Dict Value → Value → Offered → Report

unfoldable pub mark_path : List String
mark_path =
    "Mark" ∷ "meaning" ∷ "historical verification and replay" ∷ "profile" ∷ "fresh current status"
    ∷ "canonical capability" ∷ "current discovery" ∷ "purchase contract" ∷ "x402 payment boundary"
    ∷ []

module _ (agent : Agent) where
  -- `from_mark`; what it returns has the meaning of the mark beside it.
  unfoldable pub from_mark : Bytes → Action (Dict Value × Value)
  from_mark raw = do
    v ← verify_mark agent raw
    let meaning = v.read.meaning
    node ← lift (find_root agent.env meaning)
    external ← lift (external_of node)
    action ← lift (action_of meaning)
    boundary ← purchase_boundary agent v.resolved external action
    kind ← lift (v.read.mark ! "protected" !! "type")
    name ← lift (v.resolved.document ! "artifact_types" !! "positive_name")
    lift (
        ok (
          (
            boundary
                ++ (lit "verified", bool true)
                  ∷ (lit "test", txt "A")
                  ∷ (lit "environment", txt "TEST")
                  ∷ (lit "artifact_type", kind)
                  ∷ (lit "artifact_name", name)
                  ∷ (lit "meaning", meaning)
                  ∷ (lit "completed_path", list (map txt mark_path))
                  ∷ (lit "independent_verifier", v.report)
                  ∷ (lit "sandbox", v.sandbox)
                  ∷ (lit "root_admission", txt "TEST_SELF_CONSISTENT_ROOT")
                  ∷ (lit "mark_sha256", str (agent.env.sha256 raw))
                  ∷ [],
            meaning,
          )))

  -- a mark first, and then a need that the mark does not meet
  unfoldable pub from_both : Value → Action Report
  from_both value = do
    coded ← lift (value ! "first")
    raw ← lift (decode agent.env coded)
    (first, meaning) ← from_mark raw
    later ← lift (value ! "later")
    unsupported ← lift (is_unsupported later meaning)
    lift (need unsupported "RECURSIVE_OBJECT_MUST_BE_UNSUPPORTED")
    offered ← from_need agent later
    lift (ok (joined_report first meaning offered))

  unfoldable pub run : Bytes → Action Report
  run raw = do
    value ← lift (parse agent raw)
    if has_keys value ("first" ∷ "later" ∷ [])
        then from_both value
        else if has_keys value ("object" ∷ "action" ∷ "need_interface" ∷ [])
        then (do offered ← from_need agent value; lift (ok (need_report offered)))
        else (do (first, meaning) ← from_mark raw; lift (ok (mark_report first meaning)))
