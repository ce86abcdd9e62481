-- ===== src/Assess/Outcome.antt =====
-- What an assessment by `assess` of verify/verify_mark.py means: its outcome, the operations that it
-- permits and its expiry, by what holds of the submission's nodes and transitions.
use whpstanding.Prelude.{
  ◌≡◌, refl, ◌∙◌, ap, Bool, true, List, [], ◌∷◌, length, All, arith, ◌≤ℤ◌, ≤ℤ_trans, min_ℤ-le_left,
  min_ℤ-le_right, min_ℤ, ◌+ℤ◌, ℤ,
}
use whpstanding.Result.{ok, ◌>>=◌, Ensures, Ensures-bind, Ensures-ok, run-bind}
use whpstanding.Text.{Text}
use whpstanding.Dict.{Dict, keys, has_text}
use whpstanding.Value.{Value, ◌!◌, ◌!!◌, as_text, within}
use whpstanding.Env.{Env}
use whpstanding.Shape.{ops}
use whpstanding.Graph.{is_closed}
use whpstanding.Assess.{conclude, assess_graph}
use whpstanding.Assess.Trace.{Tally, Scope, payload_of, as_int, add_check, root_matches}
use whpstanding.Assess.Narrow.{all_passed, add_check-passed, Narrows-trans, Narrows-add_check}
use whpstanding.Assess.Sources.{Source, assess_nodes-Source, Sources-narrow}
use whpstanding.Assess.Warrants.{Transition, assess_transitions-Transition, Transitions-narrow}

-- the tally before the first node
abbrev start_tally : Value → Bool → Bool → ℤ → Tally
start_tally root identity current expiry = record {
  checks =
      record { rule = "SOURCE_IDENTITY"; object = root; passed = identity }
      ∷ record { rule = "ASSESSMENT_TIME"; object = root; passed = current }
      ∷ [];
  expiry = expiry;
  allowed = ops;
}

start-passed :
    (root : Value) (identity current : Bool) (expiry : ℤ)
    → all_passed (start_tally root identity current expiry) ≡ true
    → (identity ≡ true) × (current ≡ true)
unfolding all_passed
start-passed root identity current expiry h = ground arith

module _ (t : Tally) (a b d : ℤ) (h : t.expiry ≤ℤ min_ℤ (min_ℤ a b) d) where
  under_third : t.expiry ≤ℤ d
  under_third = ≤ℤ_trans t.expiry (min_ℤ (min_ℤ a b) d) d h (min_ℤ-le_right (min_ℤ a b) d)

  under_both : t.expiry ≤ℤ min_ℤ a b
  under_both = ≤ℤ_trans t.expiry (min_ℤ (min_ℤ a b) d) (min_ℤ a b) h (min_ℤ-le_left (min_ℤ a b) d)

  under_first : t.expiry ≤ℤ a
  under_first = ≤ℤ_trans t.expiry (min_ℤ a b) a under_both (min_ℤ-le_left a b)

  under_second : t.expiry ≤ℤ b
  under_second = ≤ℤ_trans t.expiry (min_ℤ a b) b under_both (min_ℤ-le_right a b)

module _ (env : Env) (s profile : Value) where
  -- The checks on the submission as a whole.
  pub record Rooted (c : Scope) (edges : Dict (List Text)) (allowed : List Text) : Type 0 where
    pub root : Text
    pub has_root : (s ! "object" !! "root" >>= as_text) ≡ ok root
    pub identity : (s ! "object" >>= root_matches (payload_of c.nodes root)) ≡ ok true
    pub current :
        (c.bounds ! "valid_from" >>= λ from. c.bounds ! "valid_until" >>= within from c.at)
        ≡ ok true
    pub closed : is_closed (keys c.nodes) edges root ≡ true
    pub operation : Text
    pub has_operation : (s ! "requested_operation" >>= as_text) ≡ ok operation
    pub requested : has_text operation allowed ≡ true

  -- The limits of the expiry that do not come from a node, a transition or a certificate.
  pub record Limited (c : Scope) (t : Tally) : Type 0 where
    pub bound : ℤ
    pub has_bound : (c.bounds ! "valid_until" >>= as_int) ≡ ok bound
    pub authorized : ℤ
    pub has_authorized : (c.trust.profile ! "valid_until" >>= as_int) ≡ ok authorized
    pub now : ℤ
    pub has_now : as_int c.at ≡ ok now
    pub seconds : ℤ
    pub has_seconds : (profile ! "max_validity_seconds" >>= as_int) ≡ ok seconds
    pub under_bound : t.expiry ≤ℤ bound
    pub under_authorized : t.expiry ≤ℤ authorized
    pub under_seconds : t.expiry ≤ℤ now +ℤ seconds

  -- The last tally `t` of the evaluation, and what it says of all that was read.
  pub record Evaluated (c : Scope) (transitions : List Value) (edges : Dict (List Text)) (t : Tally)
      : Type 0 where
    pub sources : All (λ (entry : Text × Value). Source env c t entry.1) c.nodes
    pub warrants : All (Transition env c t) transitions
    pub limits : Limited c t
    pub passes : all_passed t ≡ true → Rooted c edges t.allowed

  pub assess_graph-Evaluated :
      (c : Scope) (transitions : List Value) (edges : Dict (List Text))
      → Ensures (assess_graph env c s transitions edges profile) (λ a.
        (t : Tally) × Evaluated c transitions edges t × (a ≡ conclude t (length transitions)))
  unfolding assess_graph
  assess_graph-Evaluated c transitions edges = Ensures-bind λ root has_root.
      Ensures-bind λ name has_name. Ensures-bind λ o has_o. Ensures-bind λ identity is_identity.
        Ensures-bind λ from has_from. Ensures-bind λ until has_until.
          Ensures-bind λ current is_current. Ensures-bind λ limit has_limit.
            Ensures-bind λ bound has_bound. Ensures-bind λ limit' has_limit'.
              Ensures-bind λ authorized has_authorized. Ensures-bind λ now has_now.
                Ensures-bind λ span has_span. Ensures-bind λ seconds has_seconds.
                  let first : Tally =
                    start_tally root identity current
                      (min_ℤ (min_ℤ bound authorized) (now +ℤ seconds)) in
                  let closed = is_closed (keys c.nodes) edges name in
                  Ensures-bind λ t₁ ran₁.
                    let (n₁, sources) = (assess_nodes-Source env c c.nodes first).at t₁ ran₁ in
                    let t₂ = add_check "GRAPH_CLOSURE" root closed t₁ in
                    let n₂ = Narrows-add_check t₁ "GRAPH_CLOSURE" root closed in
                    Ensures-bind λ t₃ ran₃.
                      let (n₃, warrants) =
                        (assess_transitions-Transition env c transitions t₂).at t₃ ran₃ in
                      Ensures-bind λ asked has_asked. Ensures-bind λ operation has_operation.
                        let requested = has_text operation t₃.allowed in
                        let t₄ = add_check "REQUESTED_OPERATION" root requested t₃ in
                        let n₄ = Narrows-add_check t₃ "REQUESTED_OPERATION" root requested in
                        let later = Narrows-trans n₂ (Narrows-trans n₃ n₄) in
                        let all_later = Narrows-trans n₁ later in
                        Ensures-ok (conclude t₄ (length transitions)) (
                          t₄,
                          record {
                            sources = Sources-narrow env c c.nodes later sources;
                            warrants = Transitions-narrow env c transitions n₄ warrants;
                            limits = record {
                              bound = bound;
                              has_bound = run-bind _ has_limit has_bound;
                              authorized = authorized;
                              has_authorized = run-bind _ has_limit' has_authorized;
                              now = now;
                              has_now = has_now;
                              seconds = seconds;
                              has_seconds = run-bind _ has_span has_seconds;
                              under_bound = under_first t₄ _ _ _ all_later.expiry;
                              under_authorized = under_second t₄ _ _ _ all_later.expiry;
                              under_seconds = under_third t₄ _ _ _ all_later.expiry;
                            };
                            passes = λ p.
                                let (p₃, is_requested) =
                                  add_check-passed "REQUESTED_OPERATION" root requested t₃ p in
                                let (p₁, is_closed) =
                                  add_check-passed "GRAPH_CLOSURE" root closed t₁ (n₃.passed p₃) in
                                let (yes_identity, yes_current) =
                                  start-passed root identity current _ (n₁.passed p₁) in
                                record {
                                  root = name;
                                  has_root = run-bind _ has_root has_name;
                                  identity = run-bind _ has_o (is_identity ∙ ap ok yes_identity);
                                  current =
                                      run-bind _ has_from
                                        (run-bind _ has_until (is_current ∙ ap ok yes_current));
                                  closed = is_closed;
                                  operation = operation;
                                  has_operation = run-bind _ has_asked has_operation;
                                  requested = unfold add_check in is_requested;
                                };
                          },
                          refl,
                        )
