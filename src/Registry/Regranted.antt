-- ===== src/Registry/Regranted.antt =====
-- What it takes that `verify_registry` of verify/verify_mark.py finds every authority of a result granted
-- again: that of the issuer, of each source and of each transition.
use whpstanding.Prelude.{
  ◌≡◌, refl, sym, subst, some, ap, ◌∙◌, false, String, List, [], ◌∷◌, All, All-imp, if◌then◌else◌,
}
use whpstanding.Result.{
  Result, ok, ◌>>=◌, ◌>>◌, for_each, Ensures, Ensures-bind, bind-ok, run-bind, ok-injective,
}
use whpstanding.Text.{Text, lit, text_eq}
use whpstanding.Dict.{Dict, get, put}
use whpstanding.Dict.Laws.{get-put, text_eq_refl}
use whpstanding.Value.{
  Value, Fields, null, bool, int, str, obj, arr, txt, ◌!◌, ◌!!◌, lookup, iterate, as_fields,
  entries, of_entries, found_or_missing,
}
use whpstanding.Env.{Env}
use whpstanding.Trust.{with_operations, grant}
use whpstanding.Trust.Granted.{IsGranted, grant_iff}
use whpstanding.Registry.{Registry, regrant, regrant_all}

module _ {A : Type 0} (f : A → Result (Unit {0})) where
  for_each-All : (xs : List A) → for_each f xs ≡ ok tt → All (λ x. f x ≡ ok tt) xs
  unfolding for_each
  for_each-All [] h = tt
  for_each-All (x ∷ xs) h = let (u, here, rest) = bind-ok (f x) _ h in (here, for_each-All xs rest)

module _ (env : Env) (g : Registry) (at bounds : Value) where
  -- The signer of the envelope `e` is granted at the time for the bounds and the operations of `e`.
  pub record Regrants (kind role : String) (e : Value) : Type 0 where
    pub operations : Value
    pub has_operations : (e ! "payload" !! "operations") ≡ ok operations
    pub ctx : Value
    pub same_scope : ctx ! "scope" ≡ bounds ! "scope"
    pub same_jurisdiction : ctx ! "jurisdiction" ≡ bounds ! "jurisdiction"
    pub asked : ctx ! "operations" ≡ ok operations
    pub certificate : Value
    pub granted :
        IsGranted env g.admitted.keys g.admitted.revocations e (txt kind) role ctx at certificate

  -- The issuer of the result, every source and every transition that it rests on are granted at the time.
  pub record Regranted (result : Value) : Type 0 where
    pub kind : Value
    pub has_kind : (result ! "protected" !! "type") ≡ ok kind
    pub certificate : Value
    pub issuer :
        IsGranted env g.admitted.keys g.admitted.revocations result kind "ISSUER" bounds at
          certificate
    pub nodes : List Value
    pub has_nodes : ((g.result ! "submission" !! "nodes") >>= iterate) ≡ ok nodes
    pub sources : All (Regrants "WHP-SOURCE-ATTESTATION-v1" "SOURCE") nodes
    pub transitions : List Value
    pub has_transitions : ((g.result ! "submission" !! "transitions") >>= iterate) ≡ ok transitions
    pub warrants : All (Regrants "WHP-TRANSITION-WARRANT-v1" "TRANSITION") transitions

entries-of_entries : (d : Dict Value) → entries (of_entries d) ≡ d
unfolding entries of_entries
entries-of_entries [] = refl
entries-of_entries ((k, v) ∷ d) = ap (λ e. (k, v) ∷ e) (entries-of_entries d)

-- `{**b, 'operations': ops}` has these operations, and at other keys what `b` has.
module _ (ops : Value) where
  put-lookup :
      (fs : Fields) (k : Text)
      → lookup (obj (of_entries (put (lit "operations") ops (entries fs)))) k
        ≡ found_or_missing (if text_eq (lit "operations") k then some ops else get k (entries fs))
  unfolding lookup
  put-lookup fs k =
      ap (λ d. found_or_missing (get k d)) (entries-of_entries _)
      ∙ ap found_or_missing (get-put (lit "operations") k ops (entries fs))

  with_operations-keeps :
      (b ctx : Value) (k : String)
      → text_eq (lit "operations") (lit k) ≡ false
      → with_operations b ops ≡ ok ctx
      → ctx ! k ≡ b ! k
  unfolding with_operations as_fields lookup ◌>>=◌
  with_operations-keeps (obj fs) ctx k other h =
      ap (λ c. lookup c (lit k)) (sym (ok-injective h))
      ∙ put-lookup fs (lit k)
      ∙ ap (λ b. found_or_missing (if b then some ops else get (lit k) (entries fs))) other
  with_operations-keeps null ctx k other h = cc
  with_operations-keeps (bool b) ctx k other h = cc
  with_operations-keeps (int n) ctx k other h = cc
  with_operations-keeps (str s) ctx k other h = cc
  with_operations-keeps (arr vs) ctx k other h = cc

  with_operations-asks :
      (b ctx : Value) → with_operations b ops ≡ ok ctx → ctx ! "operations" ≡ ok ops
  unfolding with_operations as_fields found_or_missing ◌>>=◌
  with_operations-asks (obj fs) ctx h =
      ap (λ c. lookup c (lit "operations")) (sym (ok-injective h))
      ∙ put-lookup fs (lit "operations")
      ∙ ap (λ b. found_or_missing (if b then some ops else get (lit "operations") (entries fs)))
          (text_eq_refl (lit "operations"))
  with_operations-asks null ctx h = cc
  with_operations-asks (bool b) ctx h = cc
  with_operations-asks (int n) ctx h = cc
  with_operations-asks (str s) ctx h = cc
  with_operations-asks (arr vs) ctx h = cc

module _ (env : Env) (g : Registry) (at bounds : Value)
    (has_bounds : (g.result ! "submission" !! "bounds") ≡ ok bounds) where
  Ensures-regrant :
      (kind role : String) (e : Value)
      → Ensures (regrant env g kind role at e) (λ _. Regrants env g at bounds kind role e)
  unfolding regrant
  Ensures-regrant kind role e = Ensures-bind λ b has_b. Ensures-bind λ operations has_operations.
      Ensures-bind λ ctx has_ctx. record {
        at = λ c granted.
            let same : b ≡ bounds = ok-injective (sym has_b ∙ has_bounds) in
            record {
              operations = operations;
              has_operations = has_operations;
              ctx = ctx;
              same_scope =
                  with_operations-keeps operations b ctx "scope" (unfold text_eq lit in refl)
                    has_ctx
                  ∙ ap (λ v. v ! "scope") same;
              same_jurisdiction =
                  with_operations-keeps operations b ctx "jurisdiction" (unfold text_eq lit in refl)
                    has_ctx
                  ∙ ap (λ v. v ! "jurisdiction") same;
              asked = with_operations-asks operations b ctx has_ctx;
              certificate = c;
              granted =
                  (grant_iff env g.admitted.keys g.admitted.revocations e (txt kind) role ctx at
                      c).0
                    granted;
            };
      }

  for_each-Regrants :
      (kind role : String) (es : List Value)
      → for_each (λ e. regrant env g kind role at e >> ok tt) es ≡ ok tt
      → All (Regrants env g at bounds kind role) es
  for_each-Regrants kind role es h =
      All-imp
        (λ e ran.
          let (c, granted, _) = bind-ok (regrant env g kind role at e) (λ _. ok tt) ran in
          (Ensures-regrant kind role e).at c granted)
        es (for_each-All _ es h)

  pub Ensures-regrant_all :
      (result : Value)
      → Ensures (regrant_all env g result at) (λ _. Regranted env g at bounds result)
  unfolding regrant_all
  Ensures-regrant_all result = Ensures-bind λ kind has_kind. Ensures-bind λ b has_b.
      Ensures-bind λ c granted. Ensures-bind λ ns has_ns. Ensures-bind λ nodes has_nodes.
        Ensures-bind λ u sources. Ensures-bind λ ts has_ts.
          Ensures-bind λ transitions has_transitions. record {
            at = λ w warrants. record {
              kind = kind;
              has_kind = has_kind;
              certificate = c;
              issuer =
                  (grant_iff env g.admitted.keys g.admitted.revocations result kind "ISSUER" bounds
                      at c).0
                    (subst
                      (λ v.
                        grant env g.admitted.keys g.admitted.revocations result kind "ISSUER" v at
                        ≡ ok c)
                      (ok-injective (sym has_b ∙ has_bounds)) granted);
              nodes = nodes;
              has_nodes = run-bind _ has_ns has_nodes;
              sources = for_each-Regrants "WHP-SOURCE-ATTESTATION-v1" "SOURCE" nodes sources;
              transitions = transitions;
              has_transitions = run-bind _ has_ts has_transitions;
              warrants =
                  for_each-Regrants "WHP-TRANSITION-WARRANT-v1" "TRANSITION" transitions warrants;
            };
          }
