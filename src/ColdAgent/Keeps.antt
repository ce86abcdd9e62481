-- ===== src/ColdAgent/Keeps.antt =====
-- Wherever the reader of scripts/cold-agent.py goes, it stays with origins that it was right to admit:
-- an invariant of the reader, kept by every method, also when it raises.
pub mod Whole
use whpstanding.Prelude.{
  ◌≡◌, refl, sym, ap, subst, ◌∙◌, Bool, true, false, List, [], ◌∷◌, ◌++◌, Option, none, some, All,
  if◌then◌else◌, String,
}
use whpstanding.Result.{Fault, Result, ok, err}
use whpstanding.Text.{Text, Bytes}
use whpstanding.Dict.{Dict}
use whpstanding.Value.{Value}
use whpstanding.Env.{Env}
use whpstanding.ColdAgent.Reader.{Reader, admit, request}
use whpstanding.ColdAgent.Reader.Safe.{Visited, IsGuarded, admit-IsGuarded, request-Visited}
use whpstanding.ColdAgent.Action.{Agent, Action, ◌>>=◌, go_on, recover, lift, settle, step, now}
use whpstanding.ColdAgent.Resolve.{
  fetch, find_contract, fetch_artifact, fetch_program, fetch_material, admit_service, resolve,
  visit_origin, get_url,
}

module _ (agent : Agent) where
  -- Every origin that is allowed was fit to be admitted, and every request in the trace went to one.
  abbrev pub IsSound : Reader → Type 0
  IsSound r = IsGuarded agent.env r × All (Visited agent.env) r.trace

  -- The action keeps the reader so, whether it returns or raises.
  pub record Keeps {ℓ} {A : Type ℓ} (m : Action A) : Type ℓ where
    pub after : (r : Reader) → IsSound r → IsSound (m r).1

  module _ {ℓ} {A : Type ℓ} where
    pub Keeps-lift : (m : Result A) → Keeps (lift m)
    unfolding lift
    Keeps-lift m = record { after = λ r s. s }

    settle-Keeps :
        (m : Result (A × Reader)) (r : Reader)
        → IsSound r
        → ((a : A) (r' : Reader) → m ≡ ok (a, r') → IsSound r')
        → IsSound (settle m r).1
    unfolding settle
    settle-Keeps (ok (a, r')) r s h = h a r' refl
    settle-Keeps (err e) r s h = s

  All-snoc {ℓ κ} :
      {A : Type ℓ} (P : A → Type κ) (xs : List A) (x : A) → All P xs → P x → All P (xs ++ x ∷ [])
  All-snoc P [] x h p = (p, tt)
  All-snoc P (y ∷ ys) x (q, h) p = (q, All-snoc P ys x h p)

  pub Keeps-admit : (url : Value) → Keeps (visit_origin agent url)
  unfolding step
  Keeps-admit url = record {
    after = λ r s. settle-Keeps (admit agent.env agent.net url r) r s (λ o r' h.
        let (a, g, same) = admit-IsGuarded agent.env agent.net url r o r' s.0 h in
        (g, subst (All (Visited agent.env)) (sym same) s.1));
  }

  pub Keeps-request :
      (url : Value) (method : Text) (content : Option Bytes) (headers : Dict Value)
      → Keeps (step (request agent.env agent.net url method content headers))
  unfolding step
  Keeps-request url method content headers = record {
    after = λ r s.
        settle-Keeps (request agent.env agent.net url method content headers r) r s (λ answer r' h.
          let (e, v, grown, g) =
            request-Visited agent.env agent.net url r method content headers answer r' s.0 h in
          (g, subst (All (Visited agent.env)) (sym grown) (All-snoc _ r.trace e s.1 v)));
  }

  module _ {ℓ κ} {A : Type ℓ} {B : Type κ} where
    go_on-Keeps :
        (m : Result A × Reader) (f : A → Action B)
        → IsSound m.1
        → ((a : A) → Keeps (f a))
        → IsSound (go_on m f).1
    unfolding go_on
    go_on-Keeps (ok a, r) f s k = (k a).after r s
    go_on-Keeps (err e, r) f s k = s

    pub Keeps-bind :
        {m : Action A} {f : A → Action B} → Keeps m → ((a : A) → Keeps (f a)) → Keeps (m >>= f)
    unfolding ◌>>=◌
    Keeps-bind {m} {f} h k = record { after = λ r s. go_on-Keeps (m r) f (h.after r s) k }

    pub recover-Keeps :
        (m : Result A × Reader) (f : A → Action B) (next : Fault → Action B)
        → IsSound m.1
        → ((a : A) → Keeps (f a))
        → ((e : Fault) → Keeps (next e))
        → IsSound (recover m f next).1
    unfolding recover
    recover-Keeps (ok a, r) f next s k h = (k a).after r s
    recover-Keeps (err e, r) f next s k h = (h e).after r s

    -- what is read of a document changes nothing
    pub Keeps-then :
        (m : Result A) {f : A → Action B} → ((a : A) → Keeps (f a)) → Keeps (lift m >>= f)
    Keeps-then m k = Keeps-bind (Keeps-lift m) k

  pub Keeps-fetch : (url : Value) (expected : Option Value) → Keeps (fetch agent url expected)
  unfolding fetch
  Keeps-fetch url expected =
      Keeps-bind (Keeps-request _ _ _ _)
        λ response. Keeps-then _ λ _. Keeps-then _ λ v. Keeps-then _ λ _. Keeps-lift _

  Keeps-find :
      (locations : Dict Value) (known : Option (Value × Value))
      → Keeps (find_contract agent locations known)
  unfolding find_contract
  Keeps-find locations (some known) = Keeps-lift _
  Keeps-find locations none = Keeps-then _ λ url. Keeps-bind (Keeps-admit url) λ _.
      Keeps-then _ λ h. Keeps-bind (Keeps-fetch url (some h)) λ _. Keeps-then _ λ _. Keeps-lift _

  Keeps-artifact :
      (locations : Dict Value) (kind : String) (h : Value)
      → Keeps (fetch_artifact agent locations kind h)
  unfolding fetch_artifact
  Keeps-artifact locations kind h =
      Keeps-then _ λ url. Keeps-bind (Keeps-fetch url (some h)) λ _. Keeps-lift _

  Keeps-program :
      (locations : Dict Value) (program_hash : Value)
      → Keeps (fetch_program agent locations program_hash)
  unfolding fetch_program
  Keeps-program locations program_hash =
      Keeps-then _ λ url. Keeps-bind (Keeps-request _ _ _ _) λ _. Keeps-then _ λ _. Keeps-lift _

  Keeps-material :
      (locations : Dict Value) (document program_hash : Value)
      → Keeps (fetch_material agent locations document program_hash)
  unfolding fetch_material
  Keeps-material locations document program_hash = Keeps-then _ λ _. Keeps-then _ λ _.
      Keeps-then _ λ _. Keeps-bind (Keeps-artifact _ _ _) λ _. Keeps-then _ λ _.
        Keeps-bind (Keeps-artifact _ _ _) λ _. Keeps-then _ λ _.
          Keeps-bind (Keeps-artifact _ _ _)
            λ _. Keeps-then _ λ _. Keeps-bind (Keeps-program _ _) λ _. Keeps-lift _

  Keeps-service : (sp : Value) (locations : Dict Value) → Keeps (admit_service agent sp locations)
  unfolding admit_service
  Keeps-service sp locations =
      Keeps-then _ λ _. Keeps-then _ λ origin. Keeps-bind (Keeps-admit origin) λ _. Keeps-lift _

  Keeps-now : Keeps (now agent)
  unfolding now
  Keeps-now = record { after = λ r s. s }

  pub Keeps-resolve :
      (url : Value) (expected : Option Value) (known : Option (Value × Value))
      → Keeps (resolve agent url expected known)
  unfolding resolve
  Keeps-resolve url expected known = Keeps-bind (Keeps-admit url) λ _.
      Keeps-bind (Keeps-fetch url none) λ _. Keeps-then _ λ _. Keeps-then _ λ _. Keeps-then _ λ _.
        Keeps-then _ λ _. Keeps-bind (Keeps-find _ _) λ _. Keeps-then _ λ _.
          Keeps-bind Keeps-now λ _. Keeps-then _ λ _.
            Keeps-bind (Keeps-service _ _) λ _. Keeps-bind (Keeps-material _ _ _) λ _. Keeps-lift _
