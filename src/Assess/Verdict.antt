-- ===== src/Assess/Verdict.antt =====
-- The verdict of `assess` in verify/verify_mark.py: what an established outcome, a permitted operation
-- and the expiry each rest on.
use whpstanding.Prelude.{
  ◌≡◌, refl, sym, ◌∙◌, ap, subst, Bool, true, false, List, [], length, keep, All, All-imp, arith,
  ==_iff, ◌≤ℤ◌, max_ℤ, ◌+ℤ◌, ℤ, pos, if◌then◌else◌,
}
use whpstanding.Result.{ok, ◌>>=◌, Ensures, Ensures-map, Ensures-bind, Ensures-need, run-bind}
use whpstanding.Text.{Text}
use whpstanding.Dict.{Dict, keys, has_text}
use whpstanding.Value.{Value, str, ◌!◌, iterate, contains_value}
use whpstanding.Env.{Env}
use whpstanding.Trust.{trust}
use whpstanding.Shape.{ops}
use whpstanding.Graph.Counting.{IsDistinct, false-true, has_text-nil}
use whpstanding.Assess.{Assessment, index_nodes, index_edges, conclude, assess}
use whpstanding.Assess.Trace.{Tally, Scope, as_int}
use whpstanding.Assess.Narrow.{all_passed, has_text-keep}
use whpstanding.Assess.Sources.{Source, Attested}
use whpstanding.Assess.Warrants.{Warranted}
use whpstanding.Assess.Index.{values, index_nodes-IsDistinct, values-index_nodes, All-values}
use whpstanding.Assess.Outcome.{Rooted, Evaluated, assess_graph-Evaluated}

-- What `op` needs of the payload of a node, and of a transition.
pub record SourceAllows (op : Text) (e : Value) : Type 0 where
  pub payload : Value
  pub has_payload : e ! "payload" ≡ ok payload
  pub operations : List Value
  pub has_operations : (payload ! "operations" >>= iterate) ≡ ok operations
  pub listed : contains_value (str op) operations ≡ true
  pub unknowns : List Value
  pub has_unknowns : (payload ! "unknowns" >>= iterate) ≡ ok unknowns
  pub unblocked :
      All
        (λ u.
          (blocks : List Value) × ((u ! "blocks" >>= iterate) ≡ ok blocks)
          × (contains_value (str op) blocks ≡ false))
        unknowns

pub record TransitionAllows (op : Text) (e : Value) : Type 0 where
  pub payload : Value
  pub has_payload : e ! "payload" ≡ ok payload
  pub operations : List Value
  pub has_operations : (payload ! "operations" >>= iterate) ≡ ok operations
  pub listed : contains_value (str op) operations ≡ true

-- `max(0, until)` of the payload of `e` is not passed.
pub record EndsBy (expiry : ℤ) (e : Value) : Type 0 where
  pub payload : Value
  pub has_payload : e ! "payload" ≡ ok payload
  pub until : ℤ
  pub has_until : (payload ! "valid_until" >>= as_int) ≡ ok until
  pub before : expiry ≤ℤ max_ℤ (pos 0) until

source_allows :
    {env : Env} {c : Scope} {t : Tally} (op : Text)
    → has_text op t.allowed ≡ true
    → (e : Value) → Source env c t e
    → SourceAllows op e
source_allows op allowed e x = record {
  payload = x.payload;
  has_payload = x.has_payload;
  operations = x.operations;
  has_operations = x.has_operations;
  listed = x.listed op allowed;
  unknowns = x.unknowns;
  has_unknowns = x.has_unknowns;
  unblocked = All-imp (λ u b. (b.blocks, b.listed, b.clear op allowed)) x.unknowns x.unblocked;
}

permitted-conclude :
    (established : Bool) (allowed : List Text) (op : Text)
    → has_text op (if established then keep (λ o. has_text o allowed) ops else []) ≡ true
    → (established ≡ true) × (has_text op (keep (λ o. has_text o allowed) ops) ≡ true)
permitted-conclude true allowed op m = (refl, m)
permitted-conclude false allowed op m = absurd (false-true (sym (has_text-nil op) ∙ m))

max_ℤ_mono : (a b c : ℤ) → b ≤ℤ c → max_ℤ a b ≤ℤ max_ℤ a c
unfolding max_ℤ
max_ℤ_mono a b c h = ground arith

module _ (env : Env) (s bundle : Value) (pin : Text) (at profile : Value) where
  -- The run of `assess` behind its result.
  pub record Assessed (a : Assessment) : Type 0 where
    pub scope : Scope
    pub nodes : List Value
    pub has_nodes : (s ! "nodes" >>= iterate) ≡ ok nodes
    pub transitions : List Value
    pub has_transitions : (s ! "transitions" >>= iterate) ≡ ok transitions
    pub edges : Dict (List Text)
    pub has_edges : index_edges transitions [] ≡ ok edges
    pub trusted : trust env bundle pin at ≡ ok scope.trust
    pub same_time : scope.at ≡ at
    pub has_bounds : s ! "bounds" ≡ ok scope.bounds
    pub indexed : index_nodes env nodes [] ≡ ok scope.nodes
    pub complete : values scope.nodes ≡ nodes
    pub distinct : IsDistinct (keys scope.nodes)
    pub final : Tally
    pub evaluated : Evaluated env s profile scope transitions edges final
    pub verdict : a ≡ conclude final (length transitions)

  assess-Assessed : Ensures (assess env s bundle pin at profile) Assessed
  unfolding assess
  assess-Assessed = Ensures-bind λ _ _. Ensures-bind λ given has_given.
      Ensures-bind λ nodes has_nodes. Ensures-bind λ given' has_given'.
        Ensures-bind λ transitions has_transitions. Ensures-bind λ admitted trusted.
          Ensures-bind λ n indexed. Ensures-need _ _ λ same_size. Ensures-bind λ versions _.
            Ensures-need _ _ λ _. Ensures-bind λ edges has_edges. Ensures-need _ _ λ _.
              Ensures-bind λ bounds has_bounds.
                let c : Scope = record { trust = admitted; nodes = n; bounds = bounds; at = at } in
                Ensures-map (assess_graph-Evaluated env s profile c transitions edges)
                  (λ a (t, evaluated, verdict). record {
                    scope = c;
                    nodes = nodes;
                    has_nodes = run-bind _ has_given has_nodes;
                    transitions = transitions;
                    has_transitions = run-bind _ has_given' has_transitions;
                    edges = edges;
                    has_edges = has_edges;
                    trusted = trusted;
                    same_time = refl;
                    has_bounds = has_bounds;
                    indexed = indexed;
                    complete = values-index_nodes env nodes n indexed ((==_iff _ _).0 same_size);
                    distinct = index_nodes-IsDistinct env nodes n indexed;
                    final = t;
                    evaluated = evaluated;
                    verdict = verdict;
                  })

  -- All that an established outcome rests on.
  pub record Grounds (a : Assessment) : Type 0 where
    pub run : Assessed a
    pub sources :
        All (λ e. (x : Value) × (e ! "payload" ≡ ok x) × Attested env run.scope e x) run.nodes
    pub warrants :
        All
          (λ e. (x : Value) × (e ! "payload" ≡ ok x) × Warranted env run.scope e x)
          run.transitions
    pub rooted : Rooted env s profile run.scope run.edges run.final.allowed

  module _ (a : Assessment) (ran : assess env s bundle pin at profile ≡ ok a) where
    established-passed : (r : Assessed a) → a.established ≡ true → all_passed r.final ≡ true
    unfolding conclude all_passed
    established-passed r h = sym (ap (λ (b : Assessment). b.established) r.verdict) ∙ h

    -- If the outcome is established, every node has an attestation that was granted for the time and
    -- the bounds of the submission, every transition has such a warrant and an exact passage, and the
    -- checks on the submission as a whole hold.
    pub established-Grounds : a.established ≡ true → Grounds a
    established-Grounds h =
        let r = assess-Assessed.at a ran in
        let p = established-passed r h in
        let sources = subst (All _) r.complete (All-values _ _ r.evaluated.sources) in
        record {
          run = r;
          sources = All-imp (λ e s. (s.payload, s.has_payload, s.passes p)) r.nodes sources;
          warrants =
              All-imp (λ e s. (s.payload, s.has_payload, s.passes p)) r.transitions
                r.evaluated.warrants;
          rooted = r.evaluated.passes p;
        }

    permitted-allowed :
        (r : Assessed a) (op : Text)
        → has_text op a.permitted ≡ true
        → (a.established ≡ true) × (has_text op ops ≡ true) × (has_text op r.final.allowed ≡ true)
    unfolding conclude
    permitted-allowed r op m =
        let m' : has_text op (conclude r.final (length r.transitions)).permitted ≡ true =
          ap (λ (b : Assessment). has_text op b.permitted) (sym r.verdict) ∙ m in
        let (h, k) = permitted-conclude _ r.final.allowed op m' in
        let (known, allowed) = has_text-keep _ op ops k in
        (ap (λ (b : Assessment). b.established) r.verdict ∙ h, known, allowed)

    -- An operation is permitted only if the outcome is established and the operation is one of OPS
    -- that every node and every transition lists and that no unknown of a node blocks.
    pub permitted_ceiling :
        (op : Text)
        → has_text op a.permitted ≡ true
        → (a.established ≡ true)
          × (has_text op ops ≡ true)
          × ((nodes : List Value) × ((s ! "nodes" >>= iterate) ≡ ok nodes)
              × All (SourceAllows op) nodes)
          × ((transitions : List Value) × ((s ! "transitions" >>= iterate) ≡ ok transitions)
              × All (TransitionAllows op) transitions)
    permitted_ceiling op m =
        let r = assess-Assessed.at a ran in
        let (established, known, allowed) = permitted-allowed r op m in
        let sources = subst (All _) r.complete (All-values _ _ r.evaluated.sources) in
        (
          established,
          known,
          (r.nodes, r.has_nodes, All-imp (λ e x. source_allows op allowed e x) r.nodes sources),
          (
            r.transitions,
            r.has_transitions,
            All-imp
                (λ e x. record {
                  payload = x.payload;
                  has_payload = x.has_payload;
                  operations = x.operations;
                  has_operations = x.has_operations;
                  listed = x.listed op allowed;
                })
                r.transitions r.evaluated.warrants,
          ),
        )

    -- The expiry passes neither the bounds asked for, nor the profile's maximum from the time of the
    -- evaluation, nor the validity of any node or transition, each counted from 0.
    pub expiry_limits :
        ((until : ℤ) × ((s ! "bounds" >>= λ b. b ! "valid_until" >>= as_int) ≡ ok until)
          × (a.expiry ≤ℤ max_ℤ (pos 0) until))
        × ((now seconds : ℤ) × (as_int at ≡ ok now)
            × ((profile ! "max_validity_seconds" >>= as_int) ≡ ok seconds)
            × (a.expiry ≤ℤ max_ℤ (pos 0) (now +ℤ seconds)))
        × ((nodes : List Value) × ((s ! "nodes" >>= iterate) ≡ ok nodes)
            × All (EndsBy a.expiry) nodes)
        × ((transitions : List Value) × ((s ! "transitions" >>= iterate) ≡ ok transitions)
            × All (EndsBy a.expiry) transitions)
    unfolding conclude
    expiry_limits =
        let r = assess-Assessed.at a ran in
        let same = ap (λ (b : Assessment). b.expiry) r.verdict in
        let l = r.evaluated.limits in
        let sources = subst (All _) r.complete (All-values _ _ r.evaluated.sources) in
        let ends : (until : ℤ) → r.final.expiry ≤ℤ until → a.expiry ≤ℤ max_ℤ (pos 0) until =
          λ until le. rw same (max_ℤ_mono (pos 0) r.final.expiry until le) in
        (
          (l.bound, run-bind _ r.has_bounds l.has_bound, ends l.bound l.under_bound),
          (
            l.now,
            l.seconds,
            ap as_int (sym r.same_time) ∙ l.has_now,
            l.has_seconds,
            ends (l.now +ℤ l.seconds) l.under_seconds,
          ),
          (
            r.nodes,
            r.has_nodes,
            All-imp
                (λ e x. record {
                  payload = x.payload;
                  has_payload = x.has_payload;
                  until = x.until;
                  has_until = x.has_until;
                  before = ends x.until x.expires;
                })
                r.nodes sources,
          ),
          (
            r.transitions,
            r.has_transitions,
            All-imp
                (λ e x. record {
                  payload = x.payload;
                  has_payload = x.has_payload;
                  until = x.until;
                  has_until = x.has_until;
                  before = ends x.until x.expires;
                })
                r.transitions r.evaluated.warrants,
          ),
        )
