-- ===== src/Graph/Closure.antt =====
-- GRAPH_CLOSURE of `assess` in verify/verify_mark.py against an independent description: the nodes
-- can be put in an order in which each stands before its parents, all are reached from the root, and
-- every edge leads to a node.
use whpstanding.Prelude.{
  ℕ, zero, suc, ◌≡◌, ◌↔◌, refl, sym, subst, ◌∙◌, ◌⊎◌, inl, inr, true, false, not, ◌&&◌, ◌||◌, ◌==◌,
  List, [], ◌∷◌, Option, some, none, length, all, All, arith, ==_iff, ap, all-true, true-all,
  Bool-cases, &&-true, not-true,
}
use whpstanding.Text.{Text}
use whpstanding.Dict.{Dict, keys, has_text, without}
use whpstanding.Dict.Laws.{text_eq_iff}
use whpstanding.Graph.{
  Walk, parents, enter, leave, visit_all, visit, start, visit_root, is_closed_walk, is_closed,
}
use whpstanding.Graph.Fuel.{
  visit_skips, visit_walks, visiting-enter, visit_root-total, without-cons,
}
use whpstanding.Graph.Order.{
  IsOrdered, Reach, visit-Found, has_text-cons, has_text-one, and_then-some, some-walk, no_fuel,
}
use whpstanding.Graph.Acyclic.{
  IsOrdered-IsDistinct, IsOrdered-Within, Reach-Within, IsOrdered-acyclic, below,
}
use whpstanding.Graph.Counting.{
  IsDistinct, Within, false-true, absent, has_text-nil, IsDistinct-le, pigeonhole,
}

module _ (nodes : List Text) (edges : Dict (List Text)) (root : Text) where
  pub record IsClosed : Type 0 where
    pub order : List Text
    pub ordered : IsOrdered nodes edges order
    pub covers : Within nodes order
    pub reached : (t : Text) → has_text t nodes ≡ true → Reach edges root t
    pub rooted : has_text root nodes ≡ true
    pub targets : All (λ h. has_text h nodes ≡ true) (keys edges)

leave-visiting :
    (h : Text) (o : Option Walk) {w : Walk}
    → leave h o ≡ some w
    → (w₁ : Walk) × (o ≡ some w₁) × (w₁.invalid ≡ w.invalid) × (w.visiting ≡ without h w₁.visiting)
unfolding leave
leave-visiting h none e = cc
leave-visiting h (some w₁) e = (w₁, refl, ground arith, ground arith)

invalid-enter : (h : Text) (w : Walk) → (enter h w).invalid ≡ w.invalid
unfolding enter
invalid-enter h w = refl

closed-parts :
    (nodes : List Text) (edges : Dict (List Text)) (w : Walk)
    → is_closed_walk nodes edges (some w) ≡ true
    → (w.invalid ≡ false)
      × (length w.seen ≡ length nodes)
      × All (λ h. has_text h nodes ≡ true) (keys edges)
unfolding is_closed_walk
closed-parts nodes edges w h =
    let (both, targets) =
      &&-true (not w.invalid && length w.seen == length nodes)
        (all (λ t. has_text t nodes) (keys edges)) h in
    let (flag, size) = &&-true (not w.invalid) (length w.seen == length nodes) both in
    (not-true _ flag, (==_iff _ _).0 size, true-all _ _ targets)

from_root :
    {edges : Dict (List Text)} (root t : Text)
    → (has_text t start.seen ≡ true)
      ⊎ ((h : Text) × (has_text h (root ∷ []) ≡ true) × Reach edges h t)
    → Reach edges root t
from_root root t (inl m) = absurd (false-true (sym (has_text-nil t) ∙ m))
from_root root t (inr (h, m, path)) =
    let same = (text_eq_iff h root).0 (sym (has_text-one h root) ∙ m) in rw (← same) path

-- The walk stays valid where there is an order of the nodes, and visits nothing of it twice.
record Valid (vs : List Text) (w : Walk) : Type 0 where
  valid : w.invalid ≡ false
  kept : w.visiting ≡ vs

visit_all-Valid :
    (step : Text → Walk → Option Walk) (vs r : List Text)
    → ((p : Text) (w w' : Walk)
        → has_text p r ≡ true
        → Valid vs w
        → step p w ≡ some w'
        → Valid vs w')
    → (ps : List Text) (w w' : Walk) → All (λ p. has_text p r ≡ true) ps
    → Valid vs w
    → visit_all step ps w ≡ some w'
    → Valid vs w'
unfolding visit_all
visit_all-Valid step vs r one [] w w' inside v e = subst (Valid vs) (some-walk e) v
visit_all-Valid step vs r one (p ∷ ps) w w' (first, inside) v e =
    let (w₁, ran, rest) = and_then-some (step p w) e in
    visit_all-Valid step vs r one ps w₁ w' inside (one p w w₁ first v ran) rest

module _ (nodes : List Text) (edges : Dict (List Text)) where
  visit-Valid :
      (fuel : ℕ) (r : List Text) (h : Text) (w w' : Walk)
      → IsOrdered nodes edges r
      → has_text h r ≡ true
      → ((t : Text) → has_text t r ≡ true → has_text t w.visiting ≡ false)
      → w.invalid ≡ false
      → visit nodes edges fuel h w ≡ some w'
      → Valid w.visiting w'
  visit-Valid zero r h w w' o m apart v e = absurd (no_fuel nodes edges h w e)
  visit-Valid (suc fuel) r h w w' o m apart v e =
      let known = IsOrdered-Within nodes edges r o h m in
      let free = apart h m in
      let go : (has_text h w.visiting || not (has_text h nodes)) ≡ false = ground arith in
      elim (Bool-cases (has_text h w.seen)) [
        | inl seen ↦
            let same = some-walk (sym (visit_skips nodes edges fuel h w go seen) ∙ e) in
            subst (Valid w.visiting) same (record { valid = v; kept = refl })
        | inr new ↦
            let (w₁, ran, flag, back) =
              leave-visiting h _ (sym (visit_walks nodes edges fuel h w go new) ∙ e) in
            let (ys, o', sub, out, ps) = below nodes edges r h o m in
            let entered = visiting-enter h w free in
            let walked =
              visit_all-Valid (visit nodes edges fuel) (h ∷ w.visiting) ys
                (λ p w₂ w₃ inside v₂ ran₂.
                  let r₃ =
                    visit-Valid fuel ys p w₂ w₃ o' inside
                      (λ t k.
                        rw (v₂.kept, has_text-cons)
                          (ground (arith, apart t (sub t k), absent h t ys out k)))
                      v₂.valid ran₂ in
                  record { valid = r₃.valid; kept = r₃.kept ∙ v₂.kept })
                (parents edges h) (enter h w) w₁ ps
                (record { valid = invalid-enter h w ∙ v; kept = entered }) ran in
            record {
              valid = sym flag ∙ walked.valid;
              kept = back ∙ ap (without h) walked.kept ∙ without-cons h w.visiting free;
            }
      ]

  closed_sound : (root : Text) → is_closed nodes edges root ≡ true → IsClosed nodes edges root
  unfolding is_closed
  closed_sound root h =
      let (w, ran, kept) = visit_root-total nodes edges root in
      let (flag, size, targets) = closed-parts nodes edges w (rw ran at h) in
      let found =
        visit-Found nodes edges (suc (length nodes)) root start w (unfold visit_root in ran) flag in
      let ordered = found.ordered tt in
      let covers =
        pigeonhole w.seen nodes (IsOrdered-IsDistinct nodes edges w.seen ordered)
          (IsOrdered-Within nodes edges w.seen ordered) size in
      record {
        order = w.seen;
        ordered = ordered;
        covers = covers;
        reached = λ t m. from_root root t (found.reached t (covers t m));
        rooted = IsOrdered-Within nodes edges w.seen ordered root found.met.0;
        targets = targets;
      }

  closed_complete :
      (root : Text)
      → IsDistinct nodes
      → IsClosed nodes edges root
      → is_closed nodes edges root ≡ true
  unfolding is_closed visit_root is_closed_walk
  closed_complete root d c =
      let (w, ran, kept) = visit_root-total nodes edges root in
      let v =
        visit-Valid (suc (length nodes)) c.order root start w c.ordered (c.covers root c.rooted)
          (λ t k. has_text-nil t) refl ran in
      let found = visit-Found nodes edges (suc (length nodes)) root start w ran v.valid in
      let ordered = found.ordered tt in
      let fewer =
        IsDistinct-le w.seen nodes (IsOrdered-IsDistinct nodes edges w.seen ordered)
          (IsOrdered-Within nodes edges w.seen ordered) in
      let more =
        IsDistinct-le nodes w.seen d
          (λ t m. Reach-Within nodes edges w.seen ordered found.met.0 (c.reached t m)) in
      let size : length w.seen ≡ length nodes = omega arith in
      rw ran (rw (v.valid, (==_iff _ _).1 size) (all-true _ _ c.targets))

-- For distinct node hashes, GRAPH_CLOSURE holds exactly when there is an order of the nodes in which
-- every node follows its parents and which holds every node, the root is a node, every node is reached
-- from it, and every target of a transition is a node.
pub is_closed_iff :
    (nodes : List Text) (edges : Dict (List Text)) (root : Text)
    → IsDistinct nodes
    → (is_closed nodes edges root ≡ true) ↔ IsClosed nodes edges root
is_closed_iff nodes edges root d =
    (closed_sound nodes edges root, closed_complete nodes edges root d)

-- In a graph that passes GRAPH_CLOSURE no node is reached from one of its own parents.
pub is_closed-acyclic :
    (nodes : List Text) (edges : Dict (List Text)) (root t p : Text)
    → is_closed nodes edges root ≡ true
    → has_text t nodes ≡ true
    → has_text p (parents edges t) ≡ true
    → ¬ Reach edges p t
is_closed-acyclic nodes edges root t p h m k =
    let c = closed_sound nodes edges root h in
    IsOrdered-acyclic nodes edges c.order c.ordered t p (c.covers t m) k
