-- ===== src/ColdAgent/Agrees.antt =====
-- The two programs check signatures independently. What `unseal` of verify/verify_mark.py accepts,
-- `signature` of scripts/cold-agent.py accepts under the recipe that the contract states.
use whpstanding.Prelude.{
  ◌≡◌, refl, sym, ◌∙◌, ap, subst, true, String, List, [], ◌∷◌, &&-true, if◌then◌else◌, map,
  Bool-cases, inl, inr, length, ◌==◌,
}
use whpstanding.Result.{
  Result, ok, ◌>>=◌, ◌and◌, need, bind-ok, run-bind, run-need, run-check, run-and, ok-injective,
}
use whpstanding.Text.{Text, lit, text_eq}
use whpstanding.Dict.{get, put, has_text}
use whpstanding.Value.{
  Value, str, obj, txt, list, dict, ◌!◌, exact, value_eq, truthy, entries, of_entries, iterate,
  items, of_list, lookup, found_or_missing, as_fields, as_text,
}
use whpstanding.Value.Laws.{value_eq-str, str-value_eq, exact-fields, exact-lookup, value_eq-lookup}
use whpstanding.Canonical.{canonical}
use whpstanding.Env.{Env, decode, key_id}
use whpstanding.Envelope.Unsealed.{Unsealed, Ensures-unseal}
use whpstanding.Envelope.{header, signed_part, unseal}
use whpstanding.Compare.{◌=?◌, const, text}
use whpstanding.ColdAgent.{Recipe, has_exactly, pick, b64, signature}

-- the recipe of WHP-JCS-I1 envelopes
abbrev pub standard_recipe : Recipe
standard_recipe = record {
  algorithm = txt "Ed25519";
  canonicalization = txt "WHP-JCS-I1";
  signed_fields = list (txt "protected" ∷ txt "payload" ∷ []);
}

exact-has_exactly :
    (x : Value) (names : List String) (code : String) {u : Unit {0}}
    → exact x names ≡ ok u
    → has_exactly x names code ≡ ok tt
unfolding has_exactly as_fields ◌>>=◌
exact-has_exactly x names code h =
    let (fs, same, texts) = exact-fields x names h in
    subst (λ v. has_exactly v names code ≡ ok tt) (sym same) (unfold need in rw texts refl)

-- the names of the protected header, and its values
header-names :
    (has_text (lit "type") (map lit ("type" ∷ "algorithm" ∷ "canonicalization" ∷ "key_id" ∷ []))
      ≡ true)
    × (has_text
          (lit "algorithm")
          (map lit ("type" ∷ "algorithm" ∷ "canonicalization" ∷ "key_id" ∷ []))
        ≡ true)
    × (has_text
          (lit "canonicalization")
          (map lit ("type" ∷ "algorithm" ∷ "canonicalization" ∷ "key_id" ∷ []))
        ≡ true)
    × (has_text (lit "key_id") (map lit ("type" ∷ "algorithm" ∷ "canonicalization" ∷ "key_id" ∷ []))
        ≡ true)
unfolding has_text lit text_eq
header-names = (refl, refl, refl, refl)

header-values :
    (kind : Value) (id : Text)
    → (header kind id ! "type" ≡ ok kind)
      × (header kind id ! "algorithm" ≡ ok (txt "Ed25519"))
      × (header kind id ! "canonicalization" ≡ ok (txt "WHP-JCS-I1"))
      × (header kind id ! "key_id" ≡ ok (str id))
unfolding header dict lookup entries get lit text_eq found_or_missing
header-values kind id = (refl, refl, refl, refl)

signed_part-entries :
    (p x : Value)
    → obj (of_entries ((lit "protected", p) ∷ (lit "payload", x) ∷ [])) ≡ signed_part p x
unfolding signed_part dict of_entries
signed_part-entries p x = refl

signed_names :
    iterate standard_recipe.signed_fields
    ≡ ok (items (of_list (txt "protected" ∷ txt "payload" ∷ [])))
unfolding iterate list
signed_names = refl

module _ (env : Env) (e kind public_key x : Value) (u : Unsealed env e kind public_key x) where
  -- a field of the protected header, with what it must be
  protected_is :
      (k : String) (w : Value)
      → has_text (lit k) (map lit ("type" ∷ "algorithm" ∷ "canonicalization" ∷ "key_id" ∷ []))
        ≡ true
      → header kind u.id ! k ≡ ok w
      → (v : Value) × (u.protected ! k ≡ ok v) × (value_eq v w ≡ true)
  unfolding header
  protected_is k w listed stated =
      let (v, found) = exact-lookup u.protected _ k u.fields listed in
      let (w', at, eq) = value_eq-lookup u.protected _ k v u.same_header found in
      (v, found, subst (λ y. value_eq v y ≡ true) (ok-injective (sym at ∙ stated)) eq)

  protected_text :
      (k : String) (w : String)
      → has_text (lit k) (map lit ("type" ∷ "algorithm" ∷ "canonicalization" ∷ "key_id" ∷ []))
        ≡ true
      → header kind u.id ! k ≡ ok (txt w)
      → u.protected ! k ≡ ok (txt w)
  unfolding txt
  protected_text k w listed stated =
      let (v, found, eq) = protected_is k (txt w) listed stated in
      found ∙ ap ok (value_eq-str v (lit w) eq)

  same_id : u.id ≡ env.sha256 u.der
  unfolding key_id
  same_id =
      let (der, decoded, hashed) = bind-ok (decode env public_key) _ u.has_id in
      let same : der ≡ u.der = ok-injective (sym decoded ∙ u.has_der) in
      sym (ok-injective hashed) ∙ ap env.sha256 same

  b64-key : b64 env public_key ≡ ok u.der
  unfolding b64
  b64-key = run-bind _ u.has_der (run-need _ u.encoded refl)

  b64-signature : b64 env u.given ≡ ok u.sig
  unfolding b64
  b64-signature =
      run-bind _ u.has_sig (run-need _ (&&-true (length u.sig == 64) _ u.sig_form).1 refl)

  pick-signed :
      pick e (items (of_list (txt "protected" ∷ txt "payload" ∷ []))) []
      ≡ ok ((lit "protected", u.protected) ∷ (lit "payload", x) ∷ [])
  unfolding pick of_list items txt as_text put lit text_eq
  pick-signed =
      run-bind _ refl (run-bind _ u.has_protected (run-bind _ refl (run-bind _ u.has_payload refl)))

  type_passes : (if truthy kind then (u.protected ! "type" =? ok kind) else ok true) ≡ ok true
  unfolding ◌=?◌
  type_passes = elim (Bool-cases (truthy kind)) [
    | inl yes_kind ↦
        let (v, found, eq) = protected_is "type" kind header-names.0 (header-values kind u.id).0 in
        rw yes_kind (run-bind _ found (run-bind _ refl (ap ok eq)))
    | inr no_kind ↦ rw no_kind refl
  ]

  eq-ok :
      {m : Result Value} (n : Value) (v : Value)
      → m ≡ ok v
      → value_eq v n ≡ true
      → (m =? ok n) ≡ ok true
  unfolding ◌=?◌
  eq-ok n v found eq = run-bind _ found (run-bind _ refl (ap ok eq))

  algorithm_passes :
      ((u.protected ! "algorithm" =? ok (txt "Ed25519"))
        and (ok (txt "Ed25519") =? const "Ed25519"))
      ≡ ok true
  unfolding txt
  algorithm_passes =
      let found = protected_text "algorithm" "Ed25519" header-names.1 (header-values kind u.id).1 in
      run-and (eq-ok _ _ found (str-value_eq (lit "Ed25519")))
        (eq-ok _ _ refl (str-value_eq (lit "Ed25519")))

  form_passes : (u.protected ! "canonicalization" =? ok (txt "WHP-JCS-I1")) ≡ ok true
  unfolding txt
  form_passes =
      eq-ok _ _
        (protected_text "canonicalization" "WHP-JCS-I1" header-names.2 (header-values kind u.id).2)
        (str-value_eq (lit "WHP-JCS-I1"))

  id_passes : (text (env.sha256 u.der) =? u.protected ! "key_id") ≡ ok true
  unfolding ◌=?◌
  id_passes =
      let (v, found, eq) =
        protected_is "key_id" (str u.id) header-names.3 (header-values kind u.id).3 in
      let same : v ≡ str (env.sha256 u.der) = value_eq-str v u.id eq ∙ ap str same_id in
      run-bind _ refl (
        run-bind _ found (
          ap ok
            (subst (λ y. value_eq (str (env.sha256 u.der)) y ≡ true) (sym same) (str-value_eq _))))

  signature-ok : signature env e public_key standard_recipe kind ≡ ok x
  unfolding signature
  signature-ok = run-bind _ (exact-has_exactly e _ _ u.shape) (
      run-bind _ u.has_protected (
        run-bind _ (exact-has_exactly u.protected _ _ u.fields) (
          run-check _ algorithm_passes (
            run-check _ form_passes (
              run-check _ type_passes (
                run-bind _ b64-key (
                  run-bind _ u.has_key (
                    run-need _ (&&-true u.key.is_ed25519 _ u.is_key).0 (
                      run-need _ (&&-true u.key.is_ed25519 _ u.is_key).1 (
                        run-check _ id_passes (
                          run-bind _ u.has_given (
                            run-bind _ b64-signature (
                              run-bind _ signed_names (
                                run-bind _ pick-signed (
                                  run-bind _
                                    (ap (λ v. canonical v 0) (signed_part-entries u.protected x)
                                      ∙ u.has_message)
                                    (run-bind _ u.verified u.has_payload))))))))))))))))

-- Whatever `unseal` of the verifier accepts under a key and a kind, with a payload, the reader's
-- `signature` accepts under the recipe of Ed25519, WHP-JCS-I1 and the fields protected and payload,
-- with the same payload.
pub unseal-signature :
    (env : Env) (e kind public_key x : Value)
    → unseal env e kind public_key ≡ ok x
    → signature env e public_key standard_recipe kind ≡ ok x
unseal-signature env e kind public_key x h =
    signature-ok env e kind public_key x ((Ensures-unseal env e kind public_key).at x h)
