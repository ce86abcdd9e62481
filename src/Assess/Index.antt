-- ===== src/Assess/Index.antt =====
-- The dict of nodes by digest in `assess` of verify/verify_mark.py: with no digest twice it holds each
-- node of the submission once, in order, under distinct keys.
use mathlib.Core.List.{append-nil, append_assoc}
use whpstanding.Prelude.{
  ◌+◌, ◌≤◌, ◌≡◌, refl, ◌∙◌, ap, true, false, List, [], ◌∷◌, ◌++◌, length, length-append, All, arith,
  Bool-cases, inl, inr, if◌then◌else◌,
}
use whpstanding.Result.{ok, Ensures, Ensures-map, Ensures-bind, Ensures-ok}
use whpstanding.Text.{Text, text_eq}
use whpstanding.Dict.{Dict, get, keys, has_key, has_text, put}
use whpstanding.Dict.Laws.{text_eq_iff}
use whpstanding.Value.{Value}
use whpstanding.Env.{Env}
use whpstanding.Graph.Counting.{IsDistinct}
use whpstanding.Assess.{index_nodes}

abbrev pub values {ℓ} : {A : Type ℓ} → Dict A → List A
values [] = []
values ((k, v) ∷ d) = v ∷ values d

module _ {ℓ} {A : Type ℓ} (k : Text) (v : A) where
  put_new : (d : Dict A) → has_key k d ≡ false → put k v d ≡ d ++ (k, v) ∷ []
  unfolding put has_key get
  put_new [] h = refl
  put_new ((j, w) ∷ d) h = ground (arith, put_new d)

  length-put_old : (d : Dict A) → has_key k d ≡ true → length (put k v d) ≡ length d
  unfolding put has_key get
  length-put_old [] h = cc
  length-put_old ((j, w) ∷ d) h = ground (arith, length-put_old d)

  has_text-keys_put :
      (t : Text) (d : Dict A)
      → has_text t (keys (put k v d)) ≡ (if text_eq t k then true else has_text t (keys d))
  unfolding put keys has_text
  has_text-keys_put t [] = ground arith
  has_text-keys_put t ((j, w) ∷ d) =
      ground (arith, has_text-keys_put t d, text_eq_iff t j, text_eq_iff t k, text_eq_iff j k)

  -- Assignment keeps the keys distinct.
  pub keys-put-IsDistinct : (d : Dict A) → IsDistinct (keys d) → IsDistinct (keys (put k v d))
  unfolding put keys
  keys-put-IsDistinct [] h = (refl_false, tt)
    where
      refl_false : has_text k [] ≡ false
      refl_false = unfold has_text in refl
  keys-put-IsDistinct ((j, w) ∷ d) (new, h) = elim (Bool-cases (text_eq j k)) [
    | inl same ↦ rw same (new, h)
    | inr other ↦ rw other (ground (arith, has_text-keys_put j d, new), keys-put-IsDistinct d h)
  ]

values-append {ℓ} : {A : Type ℓ} (d e : Dict A) → values (d ++ e) ≡ values d ++ values e
values-append [] e = refl
values-append ((k, v) ∷ d) e = ap (λ vs. v ∷ vs) (values-append d e)

-- what `index_nodes` makes of a dict that is being filled
record Indexed (es : List Value) (n n' : Dict Value) : Type 0 where
  distinct : IsDistinct (keys n) → IsDistinct (keys n')
  size : length n' ≤ length n + length es
  full : length n' ≡ length n + length es → values n' ≡ values n ++ es

Indexed-put :
    (e : Value) (es : List Value) (h : Text) (n n' : Dict Value)
    → Indexed es (put h e n) n'
    → Indexed (e ∷ es) n n'
Indexed-put e es h n n' i = elim (Bool-cases (has_key h n)) [
  | inl old ↦
      let same = length-put_old h e n old in
      record {
        distinct = λ d. i.distinct (keys-put-IsDistinct h e n d);
        size = omega (arith, i.size);
        full = λ k. absurd (omega (arith, i.size));
      }
  | inr new ↦
      let added = put_new h e n new in
      let longer : length (put h e n) ≡ length n + 1 =
        ap length added ∙ length-append n ((h, e) ∷ []) in
      record {
        distinct = λ d. i.distinct (keys-put-IsDistinct h e n d);
        size = omega (arith, i.size);
        full = λ k.
            i.full (omega arith)
            ∙ ap (λ m. values m ++ es) added
            ∙ ap (λ vs. vs ++ es) (values-append n ((h, e) ∷ []))
            ∙ append_assoc (values n) (e ∷ []) es;
      }
]

index_nodes-Indexed :
    (env : Env) (es : List Value) (n : Dict Value) → Ensures (index_nodes env es n) (Indexed es n)
unfolding index_nodes
index_nodes-Indexed env [] n =
    Ensures-ok n (record { distinct = λ d. d; size = omega arith; full = λ e. rw append-nil })
index_nodes-Indexed env (e ∷ es) n = Ensures-bind λ x _.
    Ensures-bind λ h _.
      Ensures-map (index_nodes-Indexed env es (put h e n)) (λ n' i. Indexed-put e es h n n' i)

module _ (env : Env) (es : List Value) (n : Dict Value) (ran : index_nodes env es [] ≡ ok n) where
  -- The digests of the nodes are distinct keys.
  pub index_nodes-IsDistinct : IsDistinct (keys n)
  index_nodes-IsDistinct = ((index_nodes-Indexed env es []).at n ran).distinct (unfold keys in tt)

  -- `len(n) == len(s['nodes'])` says that no node was overwritten.
  pub values-index_nodes : length n ≡ length es → values n ≡ es
  values-index_nodes e = ((index_nodes-Indexed env es []).at n ran).full (omega arith)

pub All-values {κ} :
    (P : Value → Type κ) (n : Dict Value)
    → All (λ (entry : Text × Value). P entry.1) n
    → All P (values n)
All-values P [] h = tt
All-values P ((k, v) ∷ n) (first, rest) = (first, All-values P n rest)
