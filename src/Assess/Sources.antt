-- ===== src/Assess/Sources.antt =====
-- What `assess` of verify/verify_mark.py requires of every source node, as it shows in what it
-- concludes.
use whpstanding.Prelude.{◌≡◌, ◌∙◌, ap, true, false, List, [], ◌∷◌, All, All-imp, ◌≤ℤ◌, ≤ℤ_trans, ℤ}
use whpstanding.Result.{ok, ◌>>=◌, Ensures, Ensures-map, Ensures-bind, Ensures-ok, run-bind}
use whpstanding.Text.{Text}
use whpstanding.Dict.{Dict, has_text}
use whpstanding.Value.{Value, str, txt, ◌!◌, value_eq, iterate, contains_value}
use whpstanding.Env.{Env}
use whpstanding.Assess.Trace.{
  Tally, Scope, add_check, cap_expiry, allow_only, block, as_int, same_bounds, spans, record_grant,
  granted,
}
use whpstanding.Assess.Nodes.{block_unknowns, assess_node, assess_nodes}
use whpstanding.Assess.Narrow.{
  all_passed, add_check-passed, Narrows, Narrows-refl, Narrows-trans, Narrows-add_check,
  Narrows-cap_expiry, Narrows-allow_only, Narrows-block, Narrows-record_grant, Grants-record_grant,
  cap_expiry-le, allow_only-listed, block-unlisted,
}

-- The blocks of an unknown hold none of the allowed operations.
pub record Unblocked (t : Tally) (u : Value) : Type 0 where
  pub blocks : List Value
  pub listed : (u ! "blocks" >>= iterate) ≡ ok blocks
  pub clear : (op : Text) → has_text op t.allowed ≡ true → contains_value (str op) blocks ≡ false

Unblocked-narrow : {t t' : Tally} (u : Value) → Narrows t t' → Unblocked t u → Unblocked t' u
Unblocked-narrow u n b = record {
  blocks = b.blocks;
  listed = b.listed;
  clear = λ op m. b.clear op (n.allowed op m);
}

module _ (env : Env) (c : Scope) where
  -- The attestation of the payload `x` of `e` was granted, and the source is active, in the bounds
  -- and valid over the whole time window of the submission.
  pub record Attested (e x : Value) : Type 0 where
    pub until : ℤ
    pub attested :
        granted env c e (txt "WHP-SOURCE-ATTESTATION-v1") "SOURCE" x ≡ ok (true, ok until)
    pub status : Value
    pub has_status : x ! "status" ≡ ok status
    pub active : value_eq status (txt "ACTIVE") ≡ true
    pub in_bounds : same_bounds x c.bounds ≡ ok true
    pub in_time : spans x c.bounds ≡ ok true

  -- What the tally says of one node.
  pub record Source (t : Tally) (e : Value) : Type 0 where
    pub payload : Value
    pub has_payload : e ! "payload" ≡ ok payload
    pub operations : List Value
    pub has_operations : (payload ! "operations" >>= iterate) ≡ ok operations
    pub listed :
        (op : Text) → has_text op t.allowed ≡ true → contains_value (str op) operations ≡ true
    pub unknowns : List Value
    pub has_unknowns : (payload ! "unknowns" >>= iterate) ≡ ok unknowns
    pub unblocked : All (Unblocked t) unknowns
    pub until : ℤ
    pub has_until : (payload ! "valid_until" >>= as_int) ≡ ok until
    pub expires : t.expiry ≤ℤ until
    pub passes : all_passed t ≡ true → Attested e payload

  Source-narrow : {t t' : Tally} (e : Value) → Narrows t t' → Source t e → Source t' e
  Source-narrow {t} {t'} e n s = record {
    payload = s.payload;
    has_payload = s.has_payload;
    operations = s.operations;
    has_operations = s.has_operations;
    unknowns = s.unknowns;
    has_unknowns = s.has_unknowns;
    until = s.until;
    has_until = s.has_until;
    listed = λ op m. s.listed op (n.allowed op m);
    unblocked = All-imp (λ u. Unblocked-narrow u n) s.unknowns s.unblocked;
    expires = ≤ℤ_trans t'.expiry t.expiry s.until n.expiry s.expires;
    passes = λ p. s.passes (n.passed p);
  }

  block_unknowns-Narrows :
      (us : List Value) (t : Tally)
      → Ensures (block_unknowns env c us t) (λ t'. Narrows t t' × All (Unblocked t') us)
  unfolding block_unknowns
  block_unknowns-Narrows [] t = Ensures-ok t (Narrows-refl t, tt)
  block_unknowns-Narrows (u ∷ us) t = Ensures-bind λ given has_given.
      Ensures-bind λ blocks has_blocks.
        let b = block blocks t in
        let clear : Unblocked b u = record {
          blocks = blocks;
          listed = run-bind _ has_given has_blocks;
          clear = block-unlisted t blocks;
        } in
        Ensures-map (block_unknowns-Narrows us b) (λ t' (n, rest).
          (Narrows-trans (Narrows-block t blocks) n, (Unblocked-narrow u n clear, rest)))

  assess_node-Source :
      (h : Text) (e : Value) (t : Tally)
      → Ensures (assess_node env c h e t) (λ t'. Narrows t t' × Source t' e)
  unfolding assess_node
  assess_node-Source h e t = Ensures-bind λ x has_x. Ensures-bind λ _ _.
      Ensures-bind λ status has_status. Ensures-bind λ bounded in_bounds.
        Ensures-bind λ covers in_time. Ensures-bind λ limit has_limit.
          Ensures-bind λ until has_until. Ensures-bind λ given has_given.
            Ensures-bind λ ops has_ops. Ensures-bind λ held has_held. Ensures-bind λ us has_us.
              let r = granted env c e (txt "WHP-SOURCE-ATTESTATION-v1") "SOURCE" x in
              let o = str h in
              let active = value_eq status (txt "ACTIVE") in
              let t₁ = record_grant "SOURCE_AUTHORITY" o t r in
              let t₂ = add_check "SOURCE_ACTIVE" o active t₁ in
              let t₃ = add_check "SOURCE_BOUNDS" o bounded t₂ in
              let t₄ = add_check "SOURCE_TIME" o covers t₃ in
              let t₅ = cap_expiry until t₄ in
              let t₆ = allow_only ops t₅ in
              let to₅ = Narrows-trans (Narrows-record_grant "SOURCE_AUTHORITY" o t r) (
                Narrows-trans (Narrows-add_check t₁ "SOURCE_ACTIVE" o active) (
                  Narrows-trans (Narrows-add_check t₂ "SOURCE_BOUNDS" o bounded) (
                    Narrows-trans (Narrows-add_check t₃ "SOURCE_TIME" o covers)
                      (Narrows-cap_expiry t₄ until)))) in
              let attest : all_passed t₆ ≡ true → Attested e x = λ p.
                let (p₃, timely) = add_check-passed "SOURCE_TIME" o covers t₃ (
                  (Narrows-trans (Narrows-cap_expiry t₄ until) (Narrows-allow_only t₅ ops)).passed
                    p) in
                let (p₂, within) = add_check-passed "SOURCE_BOUNDS" o bounded t₂ p₃ in
                let (p₁, is_active) = add_check-passed "SOURCE_ACTIVE" o active t₁ p₂ in
                let g = Grants-record_grant "SOURCE_AUTHORITY" o t r p₁ in
                record {
                  until = g.until;
                  attested = g.made;
                  status = status;
                  has_status = has_status;
                  active = is_active;
                  in_bounds = in_bounds ∙ ap ok within;
                  in_time = in_time ∙ ap ok timely;
                } in
              Ensures-map (block_unknowns-Narrows us t₆) (λ t' (n, clear).
                let to' = Narrows-trans (Narrows-allow_only t₅ ops) n in
                (
                  Narrows-trans to₅ to',
                  record {
                    payload = x;
                    has_payload = has_x;
                    operations = ops;
                    has_operations = run-bind _ has_given has_ops;
                    listed = λ op m. allow_only-listed t₅ ops op (n.allowed op m);
                    unknowns = us;
                    has_unknowns = run-bind _ has_held has_us;
                    unblocked = clear;
                    until = until;
                    has_until = run-bind _ has_limit has_until;
                    expires =
                        ≤ℤ_trans t'.expiry t₅.expiry until to'.expiry (cap_expiry-le t₄ until);
                    passes = λ p. attest (n.passed p);
                  },
                ))

  -- What the loop over the nodes leaves holds of each of them.
  pub assess_nodes-Source :
      (n : Dict Value) (t : Tally)
      → Ensures
          (assess_nodes env c n t)
          (λ t'. Narrows t t' × All (λ (entry : Text × Value). Source t' entry.1) n)
  unfolding assess_nodes
  assess_nodes-Source [] t = Ensures-ok t (Narrows-refl t, tt)
  assess_nodes-Source ((h, e) ∷ rest) t = Ensures-bind λ t₁ ran.
      let (first, s) = (assess_node-Source h e t).at t₁ ran in
      Ensures-map (assess_nodes-Source rest t₁)
        (λ t' (later, others). (Narrows-trans first later, (Source-narrow e later s, others)))

  pub Sources-narrow :
      {t t' : Tally} (n : Dict Value)
      → Narrows t t'
      → All (λ (entry : Text × Value). Source t entry.1) n
      → All (λ (entry : Text × Value). Source t' entry.1) n
  Sources-narrow n later = All-imp (λ entry. Source-narrow entry.1 later) n
