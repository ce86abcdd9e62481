-- ===== src/Freeze/Agrees.antt =====
-- `canonical` of scripts/freeze-contract.py beside `canonical` of verify/verify_mark.py.
use whpstanding.Prelude.{
  ◌≡◌, refl, ap, subst, ℕ, ◌+◌, Bool, true, false, not, any, [], ◌∷◌, ◌++◌, leb, if◌then◌else◌,
  String, join, ℤ,
}
use whpstanding.Result.{Result, ok, err, ◌>>=◌, ◌>>◌, need, each, bind-ok, run-bind, encoding_error}
use whpstanding.Text.{Text, lit, has_surrogate, quoted, str_int}
use whpstanding.Dict.{Dict, keys}
use whpstanding.Value.{Value, null, bool, int, str, arr, obj, Items, nil, cons, Fields, end, field}
use whpstanding.Canonical.{
  key_lt, insert_key, sort_keys, canonical_int, canonical_str, canonical_dict, canonical,
  canonical_items, canonical_fields,
}
use whpstanding.Freeze.{
  frozen_member, frozen_text, frozen_dict, frozen, frozen_items, frozen_fields,
}

-- The second run returns whatever the first returns.
abbrev Follows : {A : Type 0} → Result A → Result A → Type 0
Follows {A} m n = (a : A) → m ≡ ok a → n ≡ ok a

module _ {A B : Type 0} where
  Follows-bind :
      {m n : Result A} {f g : A → Result B}
      → Follows m n
      → ((a : A) → Follows (f a) (g a))
      → Follows (m >>= f) (n >>= g)
  Follows-bind {m} {n} {f} {g} h k b e =
      let (a, has_a, rest) = bind-ok m f e in run-bind g (h a has_a) (k a b rest)

Follows-need :
    {A : Type 0} {m n : Result A} (b : Bool) (code : String)
    → Follows m n
    → Follows (need b code >> m) n
unfolding need ◌>>=◌
Follows-need true code h a e = h a e
Follows-need false code h a e = cc

-- the same keys, in the same order, with runs of which the second follows the first
data Beside : Dict (Result Text) → Dict (Result Text) → Type 0 where
  done : Beside [] []
  next :
      {k : Text} {m n : Result Text} {d e : Dict (Result Text)}
      → Follows m n
      → Beside d e
      → Beside ((k, m) ∷ d) ((k, n) ∷ e)

Beside-if :
    (b : Bool) {d e d' e' : Dict (Result Text)}
    → Beside d e
    → Beside d' e'
    → Beside (if b then d else d') (if b then e else e')
Beside-if true h k = h
Beside-if false h k = k

Beside-insert :
    (k : Text) (m n : Result Text) {d e : Dict (Result Text)}
    → Follows m n
    → Beside d e
    → Beside (insert_key k m d) (insert_key k n e)
unfolding insert_key
Beside-insert k m n h done = next h done
Beside-insert k m n h (next {k = j} g rest) =
    Beside-if (key_lt j k) (next g (Beside-insert k m n h rest)) (next h (next g rest))

Beside-sort : {d e : Dict (Result Text)} → Beside d e → Beside (sort_keys d) (sort_keys e)
unfolding sort_keys
Beside-sort done = done
Beside-sort (next h rest) = Beside-insert _ _ _ h (Beside-sort rest)

Beside-keys : {d e : Dict (Result Text)} → Beside d e → keys d ≡ keys e
unfolding keys
Beside-keys done = refl
Beside-keys (next {k = k} h rest) = ap (λ ks. k ∷ ks) (Beside-keys rest)

Follows-each :
    {d e : Dict (Result Text)} → Beside d e → Follows (each frozen_text d) (each frozen_text e)
unfolding each
Follows-each done = λ a h. h
Follows-each (next h rest) = Follows-bind h λ part. Follows-bind (Follows-each rest) λ parts a e. e

Follows-sorted :
    {d e : Dict (Result Text)} → Beside d e → Follows (canonical_dict d) (frozen_dict e)
unfolding canonical_dict frozen_dict
Follows-sorted {d} {e} h =
    subst
      (λ ks. Follows (canonical_dict d) (
        if any has_surrogate ks
        then err encoding_error
        else (each frozen_text (sort_keys e) >>= λ parts.
            ok (lit "{" ++ join (lit ",") parts ++ lit "}"))))
      (Beside-keys h) (same (any has_surrogate (keys d)))
  where
    same :
        (b : Bool)
        → Follows
            (if b
              then err encoding_error
              else (each frozen_text (sort_keys d) >>= λ parts.
                  ok (lit "{" ++ join (lit ",") parts ++ lit "}")))
            (if b
              then err encoding_error
              else (each frozen_text (sort_keys e) >>= λ parts.
                  ok (lit "{" ++ join (lit ",") parts ++ lit "}")))
    same true = λ a x. x
    same false = Follows-bind (Follows-each (Beside-sort h)) λ parts a x. x

Follows-str : (s : Text) → Follows (canonical_str s) (ok (quoted s))
unfolding canonical_str
Follows-str s = Follows-need (not (has_surrogate s)) _ λ a e. e

Follows-int : (n : ℤ) → Follows (canonical_int n) (ok (str_int n))
unfolding canonical_int
Follows-int n = Follows-need _ _ λ a e. e

member_Follows :
    (k : Text) {m n : Result Text} (depth : ℕ)
    → Follows m n
    → Follows
        (need (leb depth 64) "JSON_DEPTH" >> canonical_str k >>= λ name.
          m >>= λ body. ok (name ++ lit ":" ++ body))
        (frozen_member k n)
unfolding ◌>>=◌
member_Follows k {m} {n} depth h =
    Follows-bind {n = ok (quoted k)} {g = λ name. n >>= λ body. ok (name ++ lit ":" ++ body)}
      (Follows-need _ _ (Follows-str k)) λ name. Follows-bind h λ body a e. e

mutual
  unfolding canonical canonical_items canonical_fields frozen frozen_items frozen_fields

  Follows-canonical : (v : Value) (depth : ℕ) → Follows (canonical v depth) (frozen v)
  Follows-canonical null depth = Follows-need _ _ λ a e. e
  Follows-canonical (bool b) depth = Follows-need _ _ λ a e. e
  Follows-canonical (int n) depth = Follows-need _ _ (Follows-int n)
  Follows-canonical (str s) depth = Follows-need _ _ (Follows-str s)
  Follows-canonical (arr xs) depth =
      Follows-bind (Follows-need _ _ (Follows-items xs (depth + 1))) λ parts a e. e
  Follows-canonical (obj fs) depth =
      Follows-need _ _ (Follows-sorted (Beside-fields fs (depth + 1)))

  Follows-items : (xs : Items) (depth : ℕ) → Follows (canonical_items xs depth) (frozen_items xs)
  Follows-items nil depth = λ a e. e
  Follows-items (cons x xs) depth =
      Follows-bind (Follows-canonical x depth)
        λ part. Follows-bind (Follows-items xs depth) λ parts a e. e

  Beside-fields : (fs : Fields) (depth : ℕ) → Beside (canonical_fields fs depth) (frozen_fields fs)
  Beside-fields end depth = done
  Beside-fields (field k v fs) depth =
      next (member_Follows k depth (Follows-canonical v depth)) (Beside-fields fs depth)

-- Whatever text the verifier's `canonical` gives a value, at any depth, `canonical` of
-- scripts/freeze-contract.py gives it the same text.
pub canonical-frozen :
    (v : Value) (depth : ℕ) (t : Text) → canonical v depth ≡ ok t → frozen v ≡ ok t
canonical-frozen v depth t h = Follows-canonical v depth t h
