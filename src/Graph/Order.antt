-- ===== src/Graph/Order.antt =====
-- What a walk of `assess` in verify/verify_mark.py has found if it did not set `invalid`: `seen` lists
-- every node it met after all its parents, and only nodes that can be reached.
use whpstanding.Prelude.{
  ℕ, zero, suc, ◌≡◌, refl, ◌⊎◌, inl, inr, ◌∙◌, sym, subst, Bool, true, false, not, ◌||◌, List, [],
  ◌∷◌, Option, none, some, All, arith, Bool-cases, if◌then◌else◌,
}
use whpstanding.Text.{Text, text_eq}
use whpstanding.Dict.{Dict, has_text}
use whpstanding.Dict.Laws.{text_eq_iff, text_eq_refl}
use whpstanding.Graph.{Walk, add, parents, enter, leave, and_then, visit_all, visit}
use whpstanding.Graph.Fuel.{visit_stops, visit_skips, visit_walks}

module _ (nodes : List Text) (edges : Dict (List Text)) where
  -- Each text of the list is a node, stands once, and stands before all its parents.
  abbrev pub IsOrdered : List Text → Type 0
  IsOrdered [] = Unit
  IsOrdered (h ∷ rest) =
      (has_text h nodes ≡ true)
      × All (λ p. has_text p rest ≡ true) (parents edges h)
      × (has_text h rest ≡ false)
      × IsOrdered rest

module _ (edges : Dict (List Text)) where
  -- `t` is `h`, or is reached from one of the parents of `h`.
  pub data Reach : Text → Text → Type 0 where
    here : {h t : Text} → h ≡ t → Reach h t
    via : {h p t : Text} → has_text p (parents edges h) ≡ true → Reach p t → Reach h t

-- what a walk over `hs` from `w` to `w'` has found
pub record Found (nodes : List Text) (edges : Dict (List Text)) (hs : List Text) (w w' : Walk)
    : Type 0 where
  pub before : w.invalid ≡ false
  pub ordered : IsOrdered nodes edges w.seen → IsOrdered nodes edges w'.seen
  pub grows : (t : Text) → has_text t w.seen ≡ true → has_text t w'.seen ≡ true
  pub met : All (λ h. has_text h w'.seen ≡ true) hs
  pub reached :
      (t : Text)
      → has_text t w'.seen ≡ true
      → (has_text t w.seen ≡ true) ⊎ ((h : Text) × (has_text h hs ≡ true) × Reach edges h t)

pub leave-inv :
    (h : Text) (o : Option Walk) {w : Walk}
    → leave h o ≡ some w
    → (w₁ : Walk) × (o ≡ some w₁) × (w₁.invalid ≡ w.invalid) × (w.seen ≡ add h w₁.seen)
unfolding leave
leave-inv h none e = cc
leave-inv h (some w₁) e = (w₁, refl, ground arith, ground arith)

has_text_same :
    (t h : Text) (xs : List Text) → text_eq t h ≡ true → has_text h xs ≡ true → has_text t xs ≡ true
has_text_same t h xs e m = let same = (text_eq_iff t h).0 e in rw same m

has_text-add :
    (t h : Text) (xs : List Text)
    → has_text t (add h xs) ≡ (if text_eq t h then true else has_text t xs)
unfolding add has_text
has_text-add t h xs = ground (arith, has_text_same t h xs)

has_text_self : (h : Text) → has_text h (h ∷ []) ≡ true
unfolding has_text
has_text_self h = rw text_eq_refl

pub has_text-cons :
    (t p : Text) (ps : List Text)
    → has_text t (p ∷ ps) ≡ (if text_eq t p then true else has_text t ps)
unfolding has_text
has_text-cons t p ps = ground arith

-- A property of every text of a list, at one of them.
pub All-has_text :
    (P : Text → Type 0) (xs : List Text) → All P xs → (t : Text) → has_text t xs ≡ true → P t
unfolding has_text
All-has_text P [] h t m = absurd (cc)
All-has_text P (x ∷ xs) (first, rest) t m = elim (Bool-cases (text_eq t x)) [
  | inl same ↦ subst P (sym ((text_eq_iff t x).0 same)) first
  | inr other ↦ All-has_text P xs rest t (ground arith)
]

-- The one member of a list of one.
pub has_text-one : (t p : Text) → has_text t (p ∷ []) ≡ text_eq t p
unfolding has_text
has_text-one t p = ground arith

pub some-walk : {w w' : Walk} → some w ≡ some w' → w ≡ w'
some-walk e = cc

if-true : (b : Bool) {c : Bool} → c ≡ true → (if b then true else c) ≡ true
if-true b e = ground arith

pub and_then-some :
    (o : Option Walk) {f : Walk → Option Walk} {w : Walk}
    → and_then o f ≡ some w
    → (w₁ : Walk) × (o ≡ some w₁) × (f w₁ ≡ some w)
and_then-some none e = cc
and_then-some (some w₁) e = (w₁, refl, e)

stopped :
    (w : Walk) {w' : Walk} → some (record w { invalid = true }) ≡ some w' → w'.invalid ≡ false → ⊥
stopped w e v = ground arith

module _ (nodes : List Text) (edges : Dict (List Text)) where
  pub no_fuel : (h : Text) (w : Walk) {w' : Walk} → visit nodes edges zero h w ≡ some w' → ⊥
  unfolding visit
  no_fuel h w e = cc

  Found-none : (w : Walk) → w.invalid ≡ false → Found nodes edges [] w w
  Found-none w v = record {
    before = v;
    ordered = λ o. o;
    grows = λ t m. m;
    met = tt;
    reached = λ t m. inl m;
  }

  -- The head of a list of calls, then the rest.
  Found-cons :
      (p : Text) (ps : List Text) {w w₁ w₂ : Walk}
      → Found nodes edges (p ∷ []) w w₁
      → Found nodes edges ps w₁ w₂
      → Found nodes edges (p ∷ ps) w w₂
  Found-cons p ps f g = record {
    before = f.before;
    ordered = λ o. g.ordered (f.ordered o);
    grows = λ t m. g.grows t (f.grows t m);
    met = (g.grows p f.met.0, g.met);
    reached = λ t m. elim (g.reached t m) [
      | inr (h, member, path) ↦ inr (h, ground (arith, has_text-cons h p ps), path)
      | inl earlier ↦ elim (f.reached t earlier) [
        | inl old ↦ inl old
        | inr (h, member, path) ↦
            inr (h, ground (arith, has_text-cons h p ps, has_text-one h p), path)
      ]
    ];
  }

  Found-seen :
      (h : Text) (w : Walk)
      → w.invalid ≡ false
      → has_text h w.seen ≡ true
      → Found nodes edges (h ∷ []) w w
  Found-seen h w v seen = record {
    before = v;
    ordered = λ o. o;
    grows = λ t m. m;
    met = (seen, tt);
    reached = λ t m. inl m;
  }

  IsOrdered-add :
      (h : Text) (xs : List Text)
      → has_text h nodes ≡ true
      → All (λ p. has_text p xs ≡ true) (parents edges h)
      → IsOrdered nodes edges xs
      → IsOrdered nodes edges (add h xs)
  unfolding add
  IsOrdered-add h xs known ps o = elim (Bool-cases (has_text h xs)) [
    | inl old ↦ rw old o
    | inr new ↦ rw new (known, ps, new, o)
  ]

  -- A call that walked the parents of `h` and then added `h`.
  Found-walked :
      (h : Text) {w w₁ w' : Walk}
      → has_text h nodes ≡ true
      → w₁.invalid ≡ w'.invalid
      → w'.seen ≡ add h w₁.seen
      → Found nodes edges (parents edges h) (enter h w) w₁
      → Found nodes edges (h ∷ []) w w'
  unfolding enter
  Found-walked h {w} {w₁} known same added f = record {
    before = f.before;
    ordered = λ o. rw added (IsOrdered-add h w₁.seen known f.met (f.ordered o));
    grows = λ t m. rw (added, has_text-add) (if-true (text_eq t h) (f.grows t m));
    met = (rw (added, has_text-add, text_eq_refl), tt);
    reached = λ t m. elim (Bool-cases (text_eq t h)) [
      | inl same ↦ inr (h, has_text_self h, here (sym ((text_eq_iff t h).0 same)))
      | inr other ↦ elim (f.reached t (ground (arith, added, has_text-add t h w₁.seen))) [
        | inl old ↦ inl old
        | inr (p, member, path) ↦ inr (h, has_text_self h, via member path)
      ]
    ];
  }

  -- A list of calls whose members each found what they should.
  visit_all-Found :
      (step : Text → Walk → Option Walk)
      → ((p : Text) (w w' : Walk)
          → step p w ≡ some w'
          → w'.invalid ≡ false
          → Found nodes edges (p ∷ []) w w')
      → (ps : List Text) (w w' : Walk) → visit_all step ps w ≡ some w'
      → w'.invalid ≡ false
      → Found nodes edges ps w w'
  unfolding visit_all
  visit_all-Found step one [] w w' e v =
      subst (λ u. u.invalid ≡ false → Found nodes edges [] w u) (some-walk e) (Found-none w) v
  visit_all-Found step one (p ∷ ps) w w' e v =
      let (w₁, first, rest) = and_then-some (step p w) e in
      let later = visit_all-Found step one ps w₁ w' rest v in
      Found-cons p ps (one p w w₁ first later.before) later

  pub visit-Found :
      (fuel : ℕ) (h : Text) (w w' : Walk)
      → visit nodes edges fuel h w ≡ some w'
      → w'.invalid ≡ false
      → Found nodes edges (h ∷ []) w w'
  visit-Found zero h w w' e v = absurd (no_fuel h w e)
  visit-Found (suc fuel) h w w' e v =
      elim (Bool-cases (has_text h w.visiting || not (has_text h nodes))) [
        | inl stop ↦ absurd (stopped w (sym (visit_stops nodes edges fuel h w stop) ∙ e) v)
        | inr go ↦ elim (Bool-cases (has_text h w.seen)) [
          | inl seen ↦
              let same = some-walk (sym (visit_skips nodes edges fuel h w go seen) ∙ e) in
              subst (λ u. u.invalid ≡ false → Found nodes edges (h ∷ []) w u) same
                (λ v. Found-seen h w v seen) v
          | inr new ↦
              let (w₁, ran, flag, added) =
                leave-inv h _ (sym (visit_walks nodes edges fuel h w go new) ∙ e) in
              Found-walked h (ground arith) flag added (
                visit_all-Found (visit nodes edges fuel) (visit-Found fuel) (parents edges h)
                  (enter h w) w₁ ran (flag ∙ v))
        ]
      ]
