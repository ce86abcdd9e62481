-- ===== src/Assess/Preserved.antt =====
-- What the preservation checks of `assess` in verify/verify_mark.py say, member by member.
use whpstanding.Prelude.{◌≡◌, true, String, List, All, All-imp}
use whpstanding.Result.{ok, ◌>>=◌, ◌and◌, all_of, bind-ok, run-bind, all_of-true, and-true}
use whpstanding.Value.{Value, ◌!◌, iterate, contains}
use whpstanding.Trust.Granted.{Lists}
use whpstanding.Assess.Passages.{preserves, escalates_nothing}

-- Every member of `p[name]` is in `target[name]`.
pub record Kept (name : String) (target p : Value) : Type 0 where
  pub members : List Value
  pub has_members : (p ! name >>= iterate) ≡ ok members
  pub kept : All (λ v. Lists target name v) members

pub preserves-Kept :
    (name : String) (target : Value) (parents : List Value)
    → preserves name target parents ≡ ok true
    → All (Kept name target) parents
unfolding preserves
preserves-Kept name target parents h = All-imp keep parents ((all_of-true _ parents).0 h)
  where
    keep :
        (p : Value)
        → (p ! name >>= iterate >>= all_of (λ v. target ! name >>= contains v)) ≡ ok true
        → Kept name target p
    keep p e =
        let (members, has_members, rest) = bind-ok (p ! name >>= iterate) _ e in
        record {
          members = members;
          has_members = has_members;
          kept = All-imp (λ v. bind-ok (target ! name) _) members ((all_of-true _ members).0 rest);
        }

-- The operations of the target, each held by the transition and by all the parents.
pub record Unescalated (t target : Value) (parents : List Value) : Type 0 where
  pub operations : List Value
  pub has_operations : (target ! "operations" >>= iterate) ≡ ok operations
  pub held :
      All (λ op. Lists t "operations" op × All (λ p. Lists p "operations" op) parents) operations

pub escalates_nothing-Unescalated :
    (t target : Value) (parents : List Value)
    → escalates_nothing t target parents ≡ ok true
    → Unescalated t target parents
unfolding escalates_nothing
escalates_nothing-Unescalated t target parents h =
    let (given, has_given, h₁) = bind-ok (target ! "operations") _ h in
    let (operations, has_operations, h₂) = bind-ok (iterate given) _ h₁ in
    record {
      operations = operations;
      has_operations = run-bind _ has_given has_operations;
      held = All-imp split operations ((all_of-true _ operations).0 h₂);
    }
  where
    split :
        (op : Value)
        → ((t ! "operations" >>= contains op)
            and all_of (λ p. p ! "operations" >>= contains op) parents)
          ≡ ok true
        → Lists t "operations" op × All (λ p. Lists p "operations" op) parents
    split op e =
        let (own, others) = and-true _ _ e in
        (
          bind-ok (t ! "operations") _ own,
          All-imp (λ p. bind-ok (p ! "operations") _) parents ((all_of-true _ parents).0 others),
        )
