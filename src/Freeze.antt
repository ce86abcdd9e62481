-- ===== src/Freeze.antt =====
-- `canonical` of scripts/freeze-contract.py, the text whose digest is frozen as the hash of the contract
-- and of the profile: `json.dumps` of what is no list and no dict, without the limits of the verifier.
pub mod Agrees
use whpstanding.Prelude.{List, [], ◌∷◌, ◌++◌, any, join, if◌then◌else◌}
use whpstanding.Result.{encoding_error, Result, ok, err, ◌>>=◌, each}
use whpstanding.Text.{Text, lit, has_surrogate, str_int, quoted}
use whpstanding.Dict.{Dict, keys}
use whpstanding.Value.{Value, null, bool, int, str, arr, obj, Items, nil, cons, Fields, end, field}
use whpstanding.Canonical.{sort_keys}

-- `canonical(k)+':'+canonical(x[k])`
abbrev pub frozen_member : Text → Result Text → Result Text
frozen_member k value = value >>= λ body. ok (quoted k ++ lit ":" ++ body)

abbrev pub frozen_text : Text × Result Text → Result Text
frozen_text (k, body) = body

-- The members in the order of their keys. A key with a surrogate has no UTF-16 form, so the sort raises.
unfoldable pub frozen_dict : Dict (Result Text) → Result Text
frozen_dict members =
    if any has_surrogate (keys members)
    then err encoding_error
    else (each frozen_text (sort_keys members) >>= λ parts.
        ok (lit "{" ++ join (lit ",") parts ++ lit "}"))

unfoldable mutual
  pub frozen : Value → Result Text
  frozen null = ok (lit "null")
  frozen (bool b) = ok (if b then lit "true" else lit "false")
  frozen (int n) = ok (str_int n)
  frozen (str s) = ok (quoted s)
  frozen (arr xs) = frozen_items xs >>= λ parts. ok (lit "[" ++ join (lit ",") parts ++ lit "]")
  frozen (obj fs) = frozen_dict (frozen_fields fs)

  pub frozen_items : Items → Result (List Text)
  frozen_items nil = ok []
  frozen_items (cons x xs) = frozen x >>= λ part. frozen_items xs >>= λ parts. ok (part ∷ parts)

  pub frozen_fields : Fields → Dict (Result Text)
  frozen_fields end = []
  frozen_fields (field k v fs) = (k, frozen_member k (frozen v)) ∷ frozen_fields fs
