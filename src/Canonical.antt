-- ===== src/Canonical.antt =====
-- `canonical` of verify/verify_mark.py and `canon` of scripts/cold-agent.py (the same function but
-- for two fault codes): the one text of a document, whatever the order of its keys.
use whpstanding.Prelude.{
  ℕ, ◌+◌, Bool, not, List, [], ◌∷◌, ◌++◌, any, leb, join, if◌then◌else◌, ℤ, pos_part, neg_part,
}
use whpstanding.Result.{encoding_error, Result, ok, err, ◌>>=◌, ◌>>◌, need, each}
use whpstanding.Text.{Text, lit, text_lt, has_surrogate, utf16be, str_int, quoted}
use whpstanding.Dict.{Dict, keys}
use whpstanding.Value.{Value, null, bool, int, str, arr, obj, Items, nil, cons, Fields, end, field}

-- The order of `sorted(x, key=lambda k: k.encode('utf-16be'))`: stable, by insertion.
unfoldable pub key_lt : Text → Text → Bool
key_lt j k = text_lt (utf16be j) (utf16be k)

module _ {ℓ} {A : Type ℓ} where
  unfoldable pub insert_key : Text → A → Dict A → Dict A
  insert_key k v [] = (k, v) ∷ []
  insert_key k v ((j, w) ∷ d) =
      if key_lt j k then (j, w) ∷ insert_key k v d else (k, v) ∷ (j, w) ∷ d

  unfoldable pub sort_keys : Dict A → Dict A
  unfolding insert_key
  sort_keys [] = []
  sort_keys ((k, v) ∷ d) = insert_key k v (sort_keys d)

-- the largest integer of I-JSON, 2 ^ 53 - 1
abbrev pub max_integer : ℕ
max_integer = 9007199254740991

unfoldable pub canonical_int : ℤ → Result Text
canonical_int n = need (leb (pos_part n + neg_part n) max_integer) "INTEGER_RANGE" >> ok (str_int n)

unfoldable pub canonical_str : Text → Result Text
canonical_str s = need (not (has_surrogate s)) "INVALID_UNICODE" >> ok (quoted s)

-- The members of a dict as they come, each with the text that it will have.
abbrev member : Text → ℕ → Result Text → Result Text
member k depth value = need (leb depth 64) "JSON_DEPTH" >> canonical_str k >>= λ name.
    value >>= λ body. ok (name ++ lit ":" ++ body)

abbrev member_text : Text × Result Text → Result Text
member_text (k, body) = body

-- `'{' + ','.join(… for k in sorted(x, …)) + '}'`. A key with a surrogate has no UTF-16 form, so
-- the sort raises.
unfoldable pub canonical_dict : Dict (Result Text) → Result Text
canonical_dict members =
    if any has_surrogate (keys members)
    then err encoding_error
    else (each member_text (sort_keys members) >>= λ parts.
        ok (lit "{" ++ join (lit ",") parts ++ lit "}"))

unfoldable mutual
  pub canonical : Value → ℕ → Result Text
  canonical null depth = need (leb depth 64) "JSON_DEPTH" >> ok (lit "null")
  canonical (bool b) depth =
      need (leb depth 64) "JSON_DEPTH" >> ok (if b then lit "true" else lit "false")
  canonical (int n) depth = need (leb depth 64) "JSON_DEPTH" >> canonical_int n
  canonical (str s) depth = need (leb depth 64) "JSON_DEPTH" >> canonical_str s
  canonical (arr xs) depth =
      need (leb depth 64) "JSON_DEPTH" >> canonical_items xs (depth + 1) >>= λ parts.
      ok (lit "[" ++ join (lit ",") parts ++ lit "]")
  canonical (obj fs) depth =
      need (leb depth 64) "JSON_DEPTH" >> canonical_dict (canonical_fields fs (depth + 1))

  pub canonical_items : Items → ℕ → Result (List Text)
  canonical_items nil depth = ok []
  canonical_items (cons x xs) depth =
      canonical x depth >>= λ part. canonical_items xs depth >>= λ parts. ok (part ∷ parts)

  pub canonical_fields : Fields → ℕ → Dict (Result Text)
  canonical_fields end depth = []
  canonical_fields (field k v fs) depth =
      (k, member k depth (canonical v depth)) ∷ canonical_fields fs depth
