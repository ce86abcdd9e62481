-- ===== src/ColdAgent/Attempts.antt =====
-- The loop of `Reader.from_need` in scripts/cold-agent.py over the candidates of a catalog: which one it
-- takes, and what it records of those before.
use whpstanding.Prelude.{◌≡◌, refl, sym, ap, ◌∙◌, List, [], ◌∷◌, ◌++◌, ◌⊎◌, inl, inr}
use mathlib.Core.List.{append_assoc, append-nil}
use whpstanding.Result.{Fault, value_error, Result, ok, err}
use whpstanding.Value.{Value}
use whpstanding.ColdAgent.Reader.{Reader}
use whpstanding.ColdAgent.Action.{Agent, recover}
use whpstanding.ColdAgent.Needs.{Found, try_candidate, try_all}

-- what the loop returns or raises, and the reader that it leaves
abbrev pub Outcome : Type 0
Outcome = Result (Found × List (Value × Fault)) × Reader

module _ (agent : Agent) (requested external action : Value) where
  -- Candidates that failed in this order, each from the reader that the one before it left.
  pub data Rejects : List Value → Reader → List (Value × Fault) → Reader → Type 0 where
    nobody : {r : Reader} → Rejects [] r [] r
    reject :
        {c : Value} {cs : List Value} {fault : Fault} {fs : List (Value × Fault)} {r r₁ r₂ : Reader}
        → try_candidate agent requested external action c r ≡ (err fault, r₁)
        → Rejects cs r₁ fs r₂
        → Rejects (c ∷ cs) r ((c, fault) ∷ fs) r₂

  -- A candidate holds, and those before it failed.
  pub record Taken (cs : List Value) (r : Reader) (out : Outcome) (done : List (Value × Fault))
      : Type 0 where
    pub before : List Value
    pub candidate : Value
    pub after : List Value
    pub split : cs ≡ before ++ candidate ∷ after
    pub failures : List (Value × Fault)
    pub reached : Reader
    pub rejected : Rejects before r failures reached
    pub found : Found
    pub left : Reader
    pub holds : try_candidate agent requested external action candidate reached ≡ (ok found, left)
    pub returned : out ≡ (ok (found, done ++ failures), left)

  -- Every candidate failed.
  pub record Exhausted (cs : List Value) (r : Reader) (out : Outcome) : Type 0 where
    pub failures : List (Value × Fault)
    pub left : Reader
    pub rejected : Rejects cs r failures left
    pub raised : out ≡ (err (value_error "NO_VERIFIED_COMPATIBLE_PROVIDER"), left)

  -- one more candidate that failed in front
  module _ {c : Value} {cs : List Value} {fault : Fault} {r r₁ : Reader} {out : Outcome}
      (failed : try_candidate agent requested external action c r ≡ (err fault, r₁)) where
    Taken-reject :
        (done : List (Value × Fault))
        → Taken cs r₁ out (done ++ (c, fault) ∷ [])
        → Taken (c ∷ cs) r out done
    Taken-reject done t = record {
      before = c ∷ t.before;
      candidate = t.candidate;
      after = t.after;
      split = ap (λ xs. c ∷ xs) t.split;
      failures = (c, fault) ∷ t.failures;
      reached = t.reached;
      rejected = reject failed t.rejected;
      found = t.found;
      left = t.left;
      holds = t.holds;
      returned =
          t.returned ∙ ap (λ fs. (ok (t.found, fs), t.left)) (append_assoc done _ t.failures);
    }

    Exhausted-reject : Exhausted cs r₁ out → Exhausted (c ∷ cs) r out
    Exhausted-reject x = record {
      failures = (c, fault) ∷ x.failures;
      left = x.left;
      rejected = reject failed x.rejected;
      raised = x.raised;
    }

  tried :
      (cs : List Value) (done : List (Value × Fault)) (r : Reader)
      → Taken cs r (try_all agent requested external action cs done r) done
        ⊎ Exhausted cs r (try_all agent requested external action cs done r)
  unfolding try_all recover
  tried [] done r = inr (record { failures = []; left = r; rejected = nobody; raised = refl })
  tried (c ∷ cs) done r = split (λ fault. tried cs (done ++ (c, fault) ∷ [])) _ refl
    where
      split :
          ((fault : Fault) (r₁ : Reader)
            → Taken cs r₁
                (try_all agent requested external action cs (done ++ (c, fault) ∷ []) r₁)
                (done ++ (c, fault) ∷ [])
              ⊎ Exhausted cs r₁
                  (try_all agent requested external action cs (done ++ (c, fault) ∷ []) r₁))
          → (now : Result Found × Reader) → try_candidate agent requested external action c r ≡ now
          → Taken
              (c ∷ cs)
              r
              (recover now
                (λ found r'. (ok (found, done), r'))
                (λ fault. try_all agent requested external action cs (done ++ (c, fault) ∷ [])))
              done
            ⊎ Exhausted (c ∷ cs) r (
                recover now
                  (λ found r'. (ok (found, done), r'))
                  (λ fault. try_all agent requested external action cs (done ++ (c, fault) ∷ [])))
      split rest (ok found, r₁) h = inl (record {
        before = [];
        candidate = c;
        after = cs;
        split = refl;
        failures = [];
        reached = r;
        rejected = nobody;
        found = found;
        left = r₁;
        holds = h;
        returned = ap (λ fs. (ok (found, fs), r₁)) (sym (append-nil done));
      })
      split rest (err fault, r₁) h = elim (rest fault r₁) [
        | inl taken ↦ inl (Taken-reject h done taken)
        | inr exhausted ↦ inr (Exhausted-reject h exhausted)
      ]

  -- The loop takes the first candidate that holds from the reader that those before it left, and returns
  -- with it what they raised, in order; or every candidate raises, each from the reader that the one
  -- before it left, and the loop raises NO_VERIFIED_COMPATIBLE_PROVIDER.
  pub try_all-Taken :
      (cs : List Value) (r : Reader)
      → Taken cs r (try_all agent requested external action cs [] r) []
        ⊎ Exhausted cs r (try_all agent requested external action cs [] r)
  try_all-Taken cs r = tried cs [] r
