-- ===== src/Graph/Fuel.antt =====
-- The walk of `assess` in verify/verify_mark.py ends: fuel above the number of nodes is enough, and
-- a walk leaves `visiting` as it found it.
use whpstanding.Prelude.{
  ℕ, zero, suc, ◌≤◌, ◌<◌, ◌≡◌, refl, true, false, not, ◌||◌, List, [], ◌∷◌, Option, some, length,
  keep, arith, ap, ◌∙◌, Bool-cases, inl, inr,
}
use whpstanding.Text.{Text}
use whpstanding.Dict.{Dict, has_text, without}
use whpstanding.Dict.Laws.{text_eq_iff, text_eq_refl}
use whpstanding.Graph.{Walk, add, parents, enter, leave, visit_all, visit, start, visit_root}

-- how many nodes are not being visited
unvisited : List Text → List Text → ℕ
unvisited nodes vs = length (keep (λ n. not (has_text n vs)) nodes)

unvisited-le :
    (nodes : List Text) (h : Text) (vs : List Text) → unvisited nodes (h ∷ vs) ≤ unvisited nodes vs
unfolding unvisited keep has_text
unvisited-le [] h vs = omega arith
unvisited-le (n ∷ nodes) h vs = ground (arith, unvisited-le nodes h vs)

unvisited-lt :
    (nodes : List Text) (h : Text) (vs : List Text)
    → has_text h nodes ≡ true
    → has_text h vs ≡ false
    → unvisited nodes (h ∷ vs) < unvisited nodes vs
unfolding unvisited keep has_text
unvisited-lt [] h vs p q = cc
unvisited-lt (n ∷ nodes) h vs p q =
    ground
      (arith, unvisited-le nodes h vs, unvisited-lt nodes h vs, text_eq_iff h n, text_eq_iff n h)

unvisited-nil : (nodes : List Text) → unvisited nodes [] ≡ length nodes
unfolding unvisited keep has_text
unvisited-nil [] = refl
unvisited-nil (n ∷ nodes) = omega (arith, unvisited-nil nodes)

pub without_absent : (h : Text) (vs : List Text) → has_text h vs ≡ false → without h vs ≡ vs
unfolding has_text without
without_absent h [] e = refl
without_absent h (v ∷ vs) e = ground (arith, without_absent h vs, text_eq_iff h v, text_eq_iff v h)

pub without-cons : (h : Text) (vs : List Text) → has_text h vs ≡ false → without h (h ∷ vs) ≡ vs
unfolding without
without-cons h vs e = rw (text_eq_refl h) (without_absent h vs e)

module _ {step : Text → Walk → Option Walk} {vs : List Text} where
  visit_all_total :
      ((p : Text) (w : Walk)
        → w.visiting ≡ vs
        → (w' : Walk) × (step p w ≡ some w') × (w'.visiting ≡ vs))
      → (ps : List Text) (w : Walk) → w.visiting ≡ vs
      → (w' : Walk) × (visit_all step ps w ≡ some w') × (w'.visiting ≡ vs)
  unfolding visit_all
  visit_all_total total [] w e = (w, refl, e)
  visit_all_total total (p ∷ ps) w e =
      let (w₁, ran, e₁) = total p w e in
      let (w₂, ran₂, e₂) = visit_all_total total ps w₁ e₁ in (w₂, rw ran ran₂, e₂)

pub visiting-enter :
    (h : Text) (w : Walk) → has_text h w.visiting ≡ false → (enter h w).visiting ≡ h ∷ w.visiting
unfolding enter add
visiting-enter h w e = rw e

pub leave-some :
    (h : Text) (o : Option Walk) {w : Walk}
    → o ≡ some w
    → leave h o ≡ some (record w { visiting = without h w.visiting; seen = add h w.seen })
unfolding leave
leave-some h o e = rw e

module _ (nodes : List Text) (edges : Dict (List Text)) where
  -- The three ways of a call, by its tests.
  pub visit_stops :
      (fuel : ℕ) (h : Text) (w : Walk)
      → (has_text h w.visiting || not (has_text h nodes)) ≡ true
      → visit nodes edges (suc fuel) h w ≡ some (record w { invalid = true })
  unfolding visit
  visit_stops fuel h w e = rw e

  pub visit_skips :
      (fuel : ℕ) (h : Text) (w : Walk)
      → (has_text h w.visiting || not (has_text h nodes)) ≡ false
      → has_text h w.seen ≡ true
      → visit nodes edges (suc fuel) h w ≡ some w
  unfolding visit
  visit_skips fuel h w e seen = rw (e, seen)

  pub visit_walks :
      (fuel : ℕ) (h : Text) (w : Walk)
      → (has_text h w.visiting || not (has_text h nodes)) ≡ false
      → has_text h w.seen ≡ false
      → visit nodes edges (suc fuel) h w
        ≡ leave h (visit_all (visit nodes edges fuel) (parents edges h) (enter h w))
  unfolding visit
  visit_walks fuel h w e seen = rw (e, seen)

  visit_ends :
      (fuel : ℕ) (h : Text) (w : Walk)
      → unvisited nodes w.visiting < fuel
      → (w' : Walk) × (visit nodes edges fuel h w ≡ some w') × (w'.visiting ≡ w.visiting)
  visit_ends zero h w m = absurd (omega arith)
  visit_ends (suc fuel) h w m =
      elim (Bool-cases (has_text h w.visiting || not (has_text h nodes))) [
        | inl stop ↦ (record w { invalid = true }, visit_stops fuel h w stop, refl)
        | inr go ↦ elim (Bool-cases (has_text h w.seen)) [
          | inl seen ↦ (w, visit_skips fuel h w go seen, refl)
          | inr new ↦
              let absent : has_text h w.visiting ≡ false = ground arith in
              let known : has_text h nodes ≡ true = ground arith in
              let entered = visiting-enter h w absent in
              let (w₁, ran, kept) =
                visit_all_total {step = visit nodes edges fuel} {vs = h ∷ w.visiting}
                  (λ p w₂ e.
                    let (w₃, ran, back) =
                      visit_ends fuel p w₂
                        (rw e (omega (arith, unvisited-lt nodes h w.visiting known absent))) in
                    (w₃, ran, back ∙ e))
                  (parents edges h) (enter h w) entered in
              (
                record w₁ { visiting = without h w₁.visiting; seen = add h w₁.seen },
                visit_walks fuel h w go new ∙ leave-some h _ ran,
                ap (without h) kept ∙ without-cons h w.visiting absent,
              )
        ]
      ]

-- From the root the walk always ends, with the fuel that `visit_root` gives, and it leaves no node in
-- `visiting`.
pub visit_root-total :
    (nodes : List Text) (edges : Dict (List Text)) (root : Text)
    → (w : Walk) × (visit_root nodes edges root ≡ some w) × (w.visiting ≡ [])
unfolding visit_root
visit_root-total nodes edges root =
    visit_ends nodes edges (suc (length nodes)) root start (rw unvisited-nil (omega arith))
