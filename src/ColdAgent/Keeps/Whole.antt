-- ===== src/ColdAgent/Keeps/Whole.antt =====
-- The methods of the reader of scripts/cold-agent.py that go through others, up to `run`.
use whpstanding.Prelude.{Bool, true, false, ℕ, ℤ, List, [], ◌∷◌, ◌++◌, All, if◌then◌else◌}
use whpstanding.Result.{Fault}
use whpstanding.Text.{Bytes}
use whpstanding.Value.{Value}
use whpstanding.Env.{Url}
use whpstanding.ColdAgent.Reader.{fresh_reader}
use whpstanding.ColdAgent.Reader.Safe.{Visited}
use whpstanding.ColdAgent.Action.{Agent, Action, KeyPair}
use whpstanding.ColdAgent.Resolve.{Resolution}
use whpstanding.ColdAgent.Marks.{verify_mark}
use whpstanding.ColdAgent.Purchase.{
  new_key, new_token, seconds, fetch_linked, read_offer, read_schema, prepare, submit,
  object_report, purchase_boundary,
}
use whpstanding.ColdAgent.Needs.{try_candidate, try_all, admit_catalog, from_need}
use whpstanding.ColdAgent.Run.{from_mark, from_both, run}
use whpstanding.ColdAgent.Keeps.{
  Keeps, Keeps-lift, Keeps-then, Keeps-bind, recover-Keeps, Keeps-admit, Keeps-request, Keeps-fetch,
  Keeps-resolve,
}

module _ (agent : Agent) where
  Keeps-verify : (raw : Bytes) → Keeps agent (verify_mark agent raw)
  unfolding verify_mark
  Keeps-verify raw = Keeps-then agent _ λ _. Keeps-then agent _ λ _.
      Keeps-bind agent (Keeps-resolve agent _ _ _) λ _. Keeps-then agent _ λ _.
        Keeps-then agent _ λ _.
          Keeps-bind agent (Keeps-fetch agent _ _) λ _. Keeps-then agent _ λ _. Keeps-lift agent _

  Keeps-key : Keeps agent (new_key agent)
  unfolding new_key
  Keeps-key = record { after = λ r s. s }

  Keeps-token : (n : ℕ) → Keeps agent (new_token agent n)
  unfolding new_token
  Keeps-token n = record { after = λ r s. s }

  Keeps-seconds : Keeps agent (seconds agent)
  unfolding seconds
  Keeps-seconds = record { after = λ r s. s }

  Keeps-linked : (link : Value) → Keeps agent (fetch_linked agent link)
  unfolding fetch_linked
  Keeps-linked link =
      Keeps-then agent _ λ _.
        Keeps-then agent _ λ _. Keeps-bind agent (Keeps-fetch agent _ _) λ _. Keeps-lift agent _

  Keeps-offer : (sp purchase : Value) → Keeps agent (read_offer agent sp purchase)
  unfolding read_offer
  Keeps-offer sp purchase = Keeps-then agent _ λ _.
      Keeps-bind agent (Keeps-linked _)
        λ _. Keeps-then agent _ λ _. Keeps-then agent _ λ _. Keeps-lift agent _

  Keeps-schema : (offer : Value) → Keeps agent (read_schema agent offer)
  unfolding read_schema
  Keeps-schema offer = Keeps-then agent _ λ _.
      Keeps-then agent _ λ _.
        Keeps-bind agent (Keeps-fetch agent _ _) λ _. Keeps-then agent _ λ _. Keeps-lift agent _

  Keeps-prepare :
      (purchase rules external action : Value)
      → Keeps agent (prepare agent purchase rules external action)
  unfolding prepare
  Keeps-prepare purchase rules external action = Keeps-then agent _ λ _.
      Keeps-bind agent Keeps-key λ _. Keeps-bind agent Keeps-seconds λ _.
        Keeps-bind agent (Keeps-token _) λ _.
          Keeps-then agent _ λ _. Keeps-then agent _ λ _. Keeps-then agent _ λ _. Keeps-lift agent _

  Keeps-submit :
      (auth offer : Value) (u : Url) (key : KeyPair) (at : ℤ) (body : Bytes)
      → Keeps agent (submit agent auth offer u key at body)
  unfolding submit
  Keeps-submit auth offer u key at body = Keeps-bind agent (Keeps-token _) λ _.
      Keeps-then agent _ λ _. Keeps-then agent _ λ _.
        Keeps-then agent _
          λ _. Keeps-then agent _ λ _. Keeps-then agent _ λ _. Keeps-request agent _ _ _ _

  Keeps-object : (external : Value) → Keeps agent (object_report agent external)
  unfolding object_report
  Keeps-object external = Keeps-then agent _ λ _.
      Keeps-then agent _ λ _. Keeps-then agent _ λ _. Keeps-then agent _ λ _. Keeps-lift agent _

  Keeps-boundary :
      (resolved : Resolution) (external action : Value)
      → Keeps agent (purchase_boundary agent resolved external action)
  unfolding purchase_boundary
  Keeps-boundary resolved external action = Keeps-then agent _ λ _.
      Keeps-bind agent (Keeps-linked _) λ _. Keeps-then agent _ λ _.
        Keeps-bind agent (Keeps-offer _ _) λ _. Keeps-bind agent (Keeps-schema _) λ _.
          Keeps-bind agent (Keeps-prepare _ _ _ _) λ _. Keeps-then agent _ λ _.
            Keeps-then agent _ λ _. Keeps-bind agent (Keeps-submit _ _ _ _ _ _) λ _.
              Keeps-then agent _ λ _.
                Keeps-bind agent (Keeps-object _) λ _. Keeps-then agent _ λ _. Keeps-lift agent _

  module _ (requested external action : Value) where
    Keeps-candidate :
        (candidate : Value) → Keeps agent (try_candidate agent requested external action candidate)
    unfolding try_candidate
    Keeps-candidate candidate = Keeps-then agent _ λ _.
        Keeps-bind agent (Keeps-resolve agent _ _ _) λ _. Keeps-then agent _ λ _.
          Keeps-then agent _ λ _. Keeps-then agent _ λ _. Keeps-then agent _ λ _.
            Keeps-then agent _ λ _. Keeps-bind agent (Keeps-linked _) λ _.
              Keeps-then agent _
                λ _. Keeps-bind agent (Keeps-boundary _ _ _) λ _. Keeps-lift agent _

    Keeps-all :
        (cs : List Value) (failures : List (Value × Fault))
        → Keeps agent (try_all agent requested external action cs failures)
    unfolding try_all
    Keeps-all [] failures = record { after = λ r s. s }
    Keeps-all (c ∷ cs) failures = record {
      after = λ r s.
          recover-Keeps agent (try_candidate agent requested external action c r) _ _
            ((Keeps-candidate c).after r s) (λ found. record { after = λ r' s'. s' })
            (λ fault. Keeps-all cs (failures ++ (c, fault) ∷ []));
    }

  Keeps-catalog : (interface : Value) → Keeps agent (admit_catalog agent interface)
  unfolding admit_catalog
  Keeps-catalog interface = Keeps-then agent _ λ _.
      Keeps-bind agent (Keeps-admit agent _)
        λ _. Keeps-then agent _ λ _. Keeps-then agent _ λ _. Keeps-lift agent _

  Keeps-need : (value : Value) → Keeps agent (from_need agent value)
  unfolding from_need
  Keeps-need value = Keeps-then agent _ λ _. Keeps-then agent _ λ _. Keeps-then agent _ λ _.
      Keeps-then agent _ λ _. Keeps-then agent _ λ _. Keeps-bind agent (Keeps-catalog _) λ _.
        Keeps-then agent _ λ _. Keeps-then agent _ λ _.
          Keeps-bind agent (Keeps-fetch agent _ _) λ _. Keeps-then agent _ λ _.
            Keeps-then agent _ λ _.
              Keeps-bind agent (Keeps-all _ _ _ _ _) λ _. Keeps-then agent _ λ _. Keeps-lift agent _

  Keeps-mark : (raw : Bytes) → Keeps agent (from_mark agent raw)
  unfolding from_mark
  Keeps-mark raw = Keeps-bind agent (Keeps-verify raw) λ _. Keeps-then agent _ λ _.
      Keeps-then agent _ λ _. Keeps-then agent _ λ _.
        Keeps-bind agent (Keeps-boundary _ _ _)
          λ _. Keeps-then agent _ λ _. Keeps-then agent _ λ _. Keeps-lift agent _

  Keeps-both : (value : Value) → Keeps agent (from_both agent value)
  unfolding from_both
  Keeps-both value = Keeps-then agent _ λ _. Keeps-then agent _ λ _.
      Keeps-bind agent (Keeps-mark _) λ _. Keeps-then agent _ λ _.
        Keeps-then agent _
          λ _. Keeps-then agent _ λ _. Keeps-bind agent (Keeps-need _) λ _. Keeps-lift agent _

  Keeps-if {ℓ} :
      {A : Type ℓ} (b : Bool) {m n : Action A}
      → Keeps agent m
      → Keeps agent n
      → Keeps agent (if b then m else n)
  Keeps-if true h k = h
  Keeps-if false h k = k

  Keeps-run : (raw : Bytes) → Keeps agent (run agent raw)
  unfolding run
  Keeps-run raw = Keeps-then agent _ λ value. Keeps-if _ (Keeps-both value) (
      Keeps-if _ (Keeps-bind agent (Keeps-need value) λ _. Keeps-lift agent _)
        (Keeps-bind agent (Keeps-mark raw) λ _. Keeps-lift agent _))

  -- Whatever the input and the network are, and whether the run returns or raises, every request that a
  -- new reader leaves in its trace went to a URL without a user, a password or a fragment, whose origin
  -- is that of an https URL, or of an http URL to 127.0.0.1, that was fit to be admitted.
  pub run-Visited : (raw : Bytes) → All (Visited agent.env) (run agent raw fresh_reader).1.trace
  run-Visited raw = ((Keeps-run raw).after fresh_reader (tt, tt)).1
