-- ===== src/Value/Laws.antt =====
-- Equality of documents field by field, and what `exact` says of a dict.
use whpstanding.Prelude.{
  ◌≡◌, refl, sym, ap, subst, Bool, true, String, List, [], ◌∷◌, Option, none, some, Bool-cases, inl,
  inr, &&-true, all, map, arith, length, ◌==◌,
}
use whpstanding.Result.{ok, need-ok, ok-injective}
use whpstanding.Text.{Text, lit, text_eq}
use whpstanding.Dict.{Dict, get, keys, has_text, same_texts}
use whpstanding.Dict.Laws.{text_eq_iff, text_eq_refl}
use whpstanding.Value.{
  Value, null, bool, int, str, arr, obj, Fields, end, field, entries, number, number_eq, value_eq,
  fields_eq, found_eq, lookup, found_or_missing, exact, ◌!◌,
}

-- What equals a text is that text.
pub value_eq-str : (v : Value) (t : Text) → value_eq v (str t) ≡ true → v ≡ str t
unfolding value_eq number number_eq
value_eq-str (str s) t h = ap str ((text_eq_iff s t).0 h)
value_eq-str null t h = cc
value_eq-str (bool b) t h = cc
value_eq-str (int n) t h = cc
value_eq-str (arr vs) t h = cc
value_eq-str (obj fs) t h = cc

pub str-value_eq : (t : Text) → value_eq (str t) (str t) ≡ true
unfolding value_eq
str-value_eq t = text_eq_refl t

-- A key that is there has a value.
pub has_text-get {ℓ} :
    {A : Type ℓ} (k : Text) (d : Dict A) → has_text k (keys d) ≡ true → (v : A) × (get k d ≡ some v)
unfolding has_text keys get
has_text-get k [] h = cc
has_text-get k ((j, v) ∷ d) h = elim (Bool-cases (text_eq j k)) [
  | inl e ↦ (v, rw e refl)
  | inr e ↦
      let rest = has_text-get k d (ground (arith, text_eq_iff j k, text_eq_iff k j)) in
      (rest.0, rw e rest.1)
]

found_eq-some :
    (f : Value → Bool) (o : Option Value)
    → found_eq f o ≡ true
    → (w : Value) × (o ≡ some w) × (f w ≡ true)
found_eq-some f none h = cc
found_eq-some f (some w) h = (w, refl, h)

-- A field of a dict equals that of a dict that is equal.
pub fields_eq-get :
    (fs : Fields) (d : Dict Value) (k : Text) (v : Value)
    → fields_eq fs d ≡ true
    → get k (entries fs) ≡ some v
    → (w : Value) × (get k d ≡ some w) × (value_eq v w ≡ true)
unfolding fields_eq entries get
fields_eq-get end d k v h e = cc
fields_eq-get (field j u fs) d k v h e =
    let (first, rest) = &&-true (found_eq (value_eq u) (get j d)) (fields_eq fs d) h in
    elim (Bool-cases (text_eq j k)) [
      | inl same ↦
          let at : some u ≡ some v = rw same at e in
          let equal : u ≡ v = cc at in
          let name : j ≡ k = (text_eq_iff j k).0 same in
          let (w, found, eq) = found_eq-some (value_eq u) (get j d) first in
          (w, subst (λ n. get n d ≡ some w) name found, subst (λ x. value_eq x w ≡ true) equal eq)
      | inr other ↦ fields_eq-get fs d k v rest (rw other at e)
    ]

-- What `exact` accepts is a dict, with each of the names.
pub exact-fields :
    (x : Value) (names : List String) {u : Unit {0}}
    → exact x names ≡ ok u
    → (fs : Fields) × (x ≡ obj fs) × (same_texts (keys (entries fs)) (map lit names) ≡ true)
unfolding exact
exact-fields (obj fs) names h = (fs, refl, need-ok _ _ h)
exact-fields null names h = cc (need-ok _ _ h)
exact-fields (bool b) names h = cc (need-ok _ _ h)
exact-fields (int n) names h = cc (need-ok _ _ h)
exact-fields (str s) names h = cc (need-ok _ _ h)
exact-fields (arr vs) names h = cc (need-ok _ _ h)

all-has_text :
    (p : Text → Bool) (ys : List Text) (t : Text)
    → all p ys ≡ true
    → has_text t ys ≡ true
    → p t ≡ true
unfolding has_text
all-has_text p [] t h m = cc
all-has_text p (y ∷ ys) t h m =
    let (first, rest) = &&-true (p y) (all p ys) h in
    elim (Bool-cases (text_eq t y)) [
      | inl same ↦ subst (λ s. p s ≡ true) (sym ((text_eq_iff t y).0 same)) first
      | inr other ↦ all-has_text p ys t rest (rw other at m)
    ]

same_texts-has_text :
    (xs ys : List Text) (t : Text)
    → same_texts xs ys ≡ true
    → has_text t ys ≡ true
    → has_text t xs ≡ true
unfolding same_texts
same_texts-has_text xs ys t h m =
    let (below, above) = &&-true (all (λ s. has_text s ys) xs) (all (λ s. has_text s xs) ys) h in
    all-has_text (λ s. has_text s xs) ys t above m

-- The value of a name that `exact` has asked for.
pub exact-lookup :
    (x : Value) (names : List String) (k : String) {u : Unit {0}}
    → exact x names ≡ ok u
    → has_text (lit k) (map lit names) ≡ true
    → (v : Value) × (x ! k ≡ ok v)
unfolding lookup found_or_missing
exact-lookup x names k h m =
    let (fs, same, texts) = exact-fields x names h in
    let (v, found) = has_text-get (lit k) (entries fs) (same_texts-has_text _ _ (lit k) texts m) in
    (v, rw same (rw found refl))

found_or_missing-some : (o : Option Value) (v : Value) → found_or_missing o ≡ ok v → o ≡ some v
unfolding found_or_missing
found_or_missing-some none v h = cc
found_or_missing-some (some w) v h = ap some (ok-injective h)

-- Equal dicts have equal values at each name.
pub value_eq-lookup :
    (x : Value) (gs : Fields) (k : String) (v : Value)
    → value_eq x (obj gs) ≡ true
    → x ! k ≡ ok v
    → (w : Value) × (obj gs ! k ≡ ok w) × (value_eq v w ≡ true)
unfolding value_eq lookup number number_eq
value_eq-lookup (obj fs) gs k v h e =
    let (size, fields) =
      &&-true (length (entries fs) == length (entries gs)) (fields_eq fs (entries gs)) h in
    let found = found_or_missing-some (get (lit k) (entries fs)) v e in
    let (w, at, eq) = fields_eq-get fs (entries gs) (lit k) v fields found in
    (w, unfold found_or_missing in rw at refl, eq)
value_eq-lookup null gs k v h e = cc
value_eq-lookup (bool b) gs k v h e = cc
value_eq-lookup (int n) gs k v h e = cc
value_eq-lookup (str s) gs k v h e = cc
value_eq-lookup (arr vs) gs k v h e = cc
