-- ===== src/Assess/Warrants.antt =====
-- What `assess` of verify/verify_mark.py requires of every transition: a granted warrant on evidence
-- among the nodes, an exact transformation, and nothing lost or gained from the parents.
use whpstanding.Prelude.{
  ◌<◌, ◌≡◌, refl, ◌∙◌, ap, true, false, ◌&&◌, List, [], ◌∷◌, Option, none, some, length, all, ltb,
  map, All, All-imp, &&-true, true-all, ltb→lt, ◌≤ℤ◌, ≤ℤ_trans, ℤ, if◌then◌else◌,
}
use whpstanding.Result.{
  ok, ◌>>=◌, each, Ensures, Ensures-map, Ensures-bind, Ensures-need, Ensures-ok, Ensures-if,
  run-bind, and-true,
}
use whpstanding.Text.{Text}
use whpstanding.Dict.{has_key, has_text}
use whpstanding.Value.{
  Value, str, txt, ◌!◌, ◌!!◌, value_eq, truthy, iterate, as_text, contains_value,
}
use whpstanding.Env.{Env}
use whpstanding.Assess.Trace.{
  Tally, Scope, add_check, cap_expiry, allow_only, as_int, payload_of, same_bounds, spans,
  record_grant, granted,
}
use whpstanding.Assess.Passages.{
  is_copy, is_composition, all_found, assess_passage, assess_transition, assess_transitions,
}
use whpstanding.Assess.Narrow.{
  all_passed, add_check-passed, Narrows, Narrows-refl, Narrows-trans, Narrows-add_check,
  Narrows-cap_expiry, Narrows-allow_only, Narrows-record_grant, Grants-record_grant, cap_expiry-le,
  allow_only-listed, failed_check,
}
use whpstanding.Assess.Preserved.{Kept, preserves-Kept, Unescalated, escalates_nothing-Unescalated}

module _ (env : Env) (c : Scope) where
  -- The target repeats or composes its parents exactly, and keeps their qualifiers, their unknowns
  -- and the bounds of their operations.
  pub record Passage (t : Value) (from : List Text) (mt : Option Value) (mp : Option (List Value))
      : Type 0 where
    pub target : Value
    pub found : mt ≡ some target
    pub parents : List Value
    pub parents_found : mp ≡ some parents
    pub transform : Value
    pub has_transform : t ! "transform" ≡ ok transform
    pub exactly :
        (if value_eq transform (txt "COPY")
          then is_copy target parents
          else is_composition env c target from)
        ≡ ok true
    pub qualifiers : All (Kept "qualifiers" target) parents
    pub unknowns : All (Kept "unknowns" target) parents
    pub force : Unescalated t target parents

  assess_passage-Passage :
      (h t : Value) (from : List Text) (mt : Option Value) (mp : Option (List Value))
      (tally : Tally)
      → Ensures
          (assess_passage env c h t from mt mp tally)
          (λ t'. Narrows tally t' × (all_passed t' ≡ true → Passage t from mt mp))
  unfolding assess_passage
  assess_passage-Passage h t from (some target) (some parents) tally =
      Ensures-if (truthy target)
        (λ _. Ensures-bind λ transform has_transform. Ensures-bind λ exactly is_exact.
          Ensures-bind λ q is_q. Ensures-bind λ u is_u. Ensures-bind λ f is_f.
            let t₁ = add_check "EXACT_TRANSFORMATION" h exactly tally in
            let t₂ = add_check "QUALIFIERS_PRESERVED" h q t₁ in
            let t₃ = add_check "UNKNOWNS_PRESERVED" h u t₂ in
            Ensures-ok (add_check "NO_FORCE_ESCALATION" h f t₃) (
              Narrows-trans (Narrows-add_check tally "EXACT_TRANSFORMATION" h exactly) (
                  Narrows-trans (Narrows-add_check t₁ "QUALIFIERS_PRESERVED" h q) (
                    Narrows-trans (Narrows-add_check t₂ "UNKNOWNS_PRESERVED" h u)
                      (Narrows-add_check t₃ "NO_FORCE_ESCALATION" h f))),
              λ p.
                  let (p₃, e_f) = add_check-passed "NO_FORCE_ESCALATION" h f t₃ p in
                  let (p₂, e_u) = add_check-passed "UNKNOWNS_PRESERVED" h u t₂ p₃ in
                  let (p₁, e_q) = add_check-passed "QUALIFIERS_PRESERVED" h q t₁ p₂ in
                  let (_, e_x) = add_check-passed "EXACT_TRANSFORMATION" h exactly tally p₁ in
                  record {
                    target = target;
                    found = refl;
                    parents = parents;
                    parents_found = refl;
                    transform = transform;
                    has_transform = has_transform;
                    exactly = is_exact ∙ ap ok e_x;
                    qualifiers = preserves-Kept "qualifiers" target parents (is_q ∙ ap ok e_q);
                    unknowns = preserves-Kept "unknowns" target parents (is_u ∙ ap ok e_u);
                    force = escalates_nothing-Unescalated t target parents (is_f ∙ ap ok e_f);
                  },
            ))
        (λ _. Ensures-ok _ (
          Narrows-add_check tally "TRANSITION_REFERENCES" h false,
          λ p. absurd (failed_check "TRANSITION_REFERENCES" h tally p),
        ))
  assess_passage-Passage h t from none mp tally = Ensures-ok _ (
    Narrows-add_check tally "TRANSITION_REFERENCES" h false,
    λ p. absurd (failed_check "TRANSITION_REFERENCES" h tally p),
  )
  assess_passage-Passage h t from (some target) none tally = Ensures-ok _ (
    Narrows-add_check tally "TRANSITION_REFERENCES" h false,
    λ p. absurd (failed_check "TRANSITION_REFERENCES" h tally p),
  )

  -- What a transition's checks have established if they passed.
  pub record Warranted (e t : Value) : Type 0 where
    pub until : ℤ
    pub warranted :
        granted env c e (txt "WHP-TRANSITION-WARRANT-v1") "TRANSITION" t ≡ ok (true, ok until)
    pub in_bounds : same_bounds t c.bounds ≡ ok true
    pub in_time : spans t c.bounds ≡ ok true
    pub evidence : List Text
    pub has_evidence :
        (t ! "warrant" !! "evidence_hashes" >>= iterate >>= each as_text) ≡ ok evidence
    pub some_evidence : 0 < length evidence
    pub evidence_known : All (λ h. has_key h c.nodes ≡ true) evidence
    pub from : List Text
    pub has_from : (t ! "from" >>= iterate >>= each as_text) ≡ ok from
    pub to : Text
    pub has_to : (t ! "to" >>= as_text) ≡ ok to
    pub passage : Passage t from (payload_of c.nodes to) (all_found (map (payload_of c.nodes) from))

  -- What the tally says of one transition.
  pub record Transition (tally : Tally) (e : Value) : Type 0 where
    pub payload : Value
    pub has_payload : e ! "payload" ≡ ok payload
    pub operations : List Value
    pub has_operations : (payload ! "operations" >>= iterate) ≡ ok operations
    pub listed :
        (op : Text) → has_text op tally.allowed ≡ true → contains_value (str op) operations ≡ true
    pub until : ℤ
    pub has_until : (payload ! "valid_until" >>= as_int) ≡ ok until
    pub expires : tally.expiry ≤ℤ until
    pub passes : all_passed tally ≡ true → Warranted e payload

  Transition-narrow : {t t' : Tally} (e : Value) → Narrows t t' → Transition t e → Transition t' e
  Transition-narrow {t} {t'} e n s = record {
    payload = s.payload;
    has_payload = s.has_payload;
    operations = s.operations;
    has_operations = s.has_operations;
    until = s.until;
    has_until = s.has_until;
    listed = λ op m. s.listed op (n.allowed op m);
    expires = ≤ℤ_trans t'.expiry t.expiry s.until n.expiry s.expires;
    passes = λ p. s.passes (n.passed p);
  }

  assess_transition-Transition :
      (e : Value) (t : Tally)
      → Ensures (assess_transition env c e t) (λ t'. Narrows t t' × Transition t' e)
  unfolding assess_transition
  assess_transition-Transition e t = Ensures-bind λ x has_x. Ensures-bind λ hash has_hash.
      Ensures-bind λ _ _. Ensures-bind λ given_from has_given_from.
        Ensures-bind λ from_list has_from_list. Ensures-bind λ from has_from.
          Ensures-bind λ transform has_transform. Ensures-need _ _ λ _.
            Ensures-bind λ bounded in_bounds. Ensures-bind λ limit has_limit.
              Ensures-bind λ until has_until. Ensures-bind λ given has_given.
                Ensures-bind λ ops has_ops. Ensures-bind λ hashes has_hashes.
                  Ensures-bind λ hash_list has_hash_list. Ensures-bind λ evidence has_evidence.
                    Ensures-bind λ given_to has_given_to. Ensures-bind λ to has_to.
                      let r = granted env c e (txt "WHP-TRANSITION-WARRANT-v1") "TRANSITION" x in
                      let o = str hash in
                      let evident =
                        ltb 0 (length evidence) && all (λ k. has_key k c.nodes) evidence in
                      let t₁ = record_grant "TRANSITION_AUTHORITY" o t r in
                      let t₂ = add_check "TRANSITION_BOUNDS" o bounded t₁ in
                      let t₃ = cap_expiry until t₂ in
                      let t₄ = allow_only ops t₃ in
                      let t₅ = add_check "WARRANT_EVIDENCE" o evident t₄ in
                      let from₃ =
                        Narrows-trans (Narrows-allow_only t₃ ops)
                          (Narrows-add_check t₄ "WARRANT_EVIDENCE" o evident) in
                      let to₃ = Narrows-trans (Narrows-record_grant "TRANSITION_AUTHORITY" o t r) (
                        Narrows-trans (Narrows-add_check t₁ "TRANSITION_BOUNDS" o bounded)
                          (Narrows-cap_expiry t₂ until)) in
                      Ensures-map
                        (assess_passage-Passage o x from (payload_of c.nodes to)
                          (all_found (map (payload_of c.nodes) from)) t₅)
                        (λ t' (n, passage). (
                          Narrows-trans to₃ (Narrows-trans from₃ n),
                          record {
                            payload = x;
                            has_payload = has_x;
                            operations = ops;
                            has_operations = run-bind _ has_given has_ops;
                            listed = λ op m. allow_only-listed t₃ ops op (
                                (Narrows-trans (Narrows-add_check t₄ "WARRANT_EVIDENCE" o evident)
                                    n).allowed
                                  op m);
                            until = until;
                            has_until = run-bind _ has_limit has_until;
                            expires =
                                ≤ℤ_trans t'.expiry t₃.expiry until (Narrows-trans from₃ n).expiry
                                  (cap_expiry-le t₂ until);
                            passes = λ p.
                                let (p₄, e_e) =
                                  add_check-passed "WARRANT_EVIDENCE" o evident t₄ (n.passed p) in
                                let p₂ =
                                  (Narrows-trans (Narrows-cap_expiry t₂ until)
                                      (Narrows-allow_only t₃ ops)).passed
                                    p₄ in
                                let (p₁, e_b) =
                                  add_check-passed "TRANSITION_BOUNDS" o bounded t₁ p₂ in
                                let g = Grants-record_grant "TRANSITION_AUTHORITY" o t r p₁ in
                                let (bounds, window) = and-true _ _ (in_bounds ∙ ap ok e_b) in
                                let (nonempty, known) =
                                  &&-true (ltb 0 (length evidence))
                                    (all (λ k. has_key k c.nodes) evidence) e_e in
                                record {
                                  until = g.until;
                                  warranted = g.made;
                                  in_bounds = bounds;
                                  in_time = window;
                                  evidence = evidence;
                                  has_evidence =
                                      run-bind _ (run-bind _ has_hashes has_hash_list) has_evidence;
                                  some_evidence = ltb→lt _ _ nonempty;
                                  evidence_known = true-all _ evidence known;
                                  from = from;
                                  has_from =
                                      run-bind _ (run-bind _ has_given_from has_from_list) has_from;
                                  to = to;
                                  has_to = run-bind _ has_given_to has_to;
                                  passage = passage p;
                                };
                          },
                        ))

  -- What the loop over the transitions leaves holds of each of them.
  pub assess_transitions-Transition :
      (es : List Value) (t : Tally)
      → Ensures (assess_transitions env c es t) (λ t'. Narrows t t' × All (Transition t') es)
  unfolding assess_transitions
  assess_transitions-Transition [] t = Ensures-ok t (Narrows-refl t, tt)
  assess_transitions-Transition (e ∷ es) t = Ensures-bind λ t₁ ran.
      let (first, s) = (assess_transition-Transition e t).at t₁ ran in
      Ensures-map (assess_transitions-Transition es t₁)
        (λ t' (later, others). (Narrows-trans first later, (Transition-narrow e later s, others)))

  pub Transitions-narrow :
      {t t' : Tally} (es : List Value)
      → Narrows t t'
      → All (Transition t) es
      → All (Transition t') es
  Transitions-narrow es later = All-imp (λ e. Transition-narrow e later) es
