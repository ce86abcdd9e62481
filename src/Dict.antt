-- ===== src/Dict.antt =====
-- Python's `dict` with text keys, in its order of insertion, and sets of texts as lists.
pub mod Laws
use whpstanding.Prelude.{
  Bool, true, false, ◌&&◌, List, [], ◌∷◌, ◌++◌, Option, none, some, any, all, if◌then◌else◌,
}
use whpstanding.Text.{Text, text_eq}

abbrev pub Dict {ℓ} : Type ℓ → Type ℓ
Dict A = List (Text × A)

-- `x in xs` for a list or a set of texts
unfoldable pub has_text : Text → List Text → Bool
has_text t xs = any (text_eq t) xs

-- `set(xs) == set(ys)`
unfoldable pub same_texts : List Text → List Text → Bool
unfolding has_text
same_texts xs ys = all (λ t. has_text t ys) xs && all (λ t. has_text t xs) ys

-- `xs.remove(t)` of a set
unfoldable pub without : Text → List Text → List Text
without t [] = []
without t (x ∷ xs) = let rest = without t xs in if text_eq x t then rest else x ∷ rest

module _ {ℓ} {A : Type ℓ} where
  unfoldable pub keys : Dict A → List Text
  keys [] = []
  keys ((k, v) ∷ d) = k ∷ keys d

  -- `d.get(k)`
  unfoldable pub get : Text → Dict A → Option A
  get k [] = none
  get k ((j, v) ∷ d) = if text_eq j k then some v else get k d

  abbrev pub is_some : Option A → Bool
  is_some none = false
  is_some (some v) = true

  -- `k in d`
  unfoldable pub has_key : Text → Dict A → Bool
  unfolding get
  has_key k d = is_some (get k d)

  -- `d[k] = v`: a key that is there keeps its place.
  unfoldable pub put : Text → A → Dict A → Dict A
  put k v [] = (k, v) ∷ []
  put k v ((j, w) ∷ d) = if text_eq j k then (j, v) ∷ d else (j, w) ∷ put k v d
