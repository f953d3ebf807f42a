-- ===== src/A2a/Soundness.antt =====
-- What an attestation that is accepted went through, and what the cache holds after a fetch.
use eto_mcp.Prelude.{
  List, ℕ, ◌/◌, ◌≡◌, refl, ap, ◌∙◌, Bool, true, false, not, Option, none, some, String, Bool-cases,
  Option-cases, inl, inr,
}
use eto_mcp.A2a.Jwks.{found, keys_of, find_key, has_error, property_of, is_text}
use eto_mcp.A2a.{
  kid_of, parse_jws_compact, signed_by, Crypto, ModelAttestation, ParsedJws, refused, thrown,
  malformed, jwks_fetch_failed, tampered_signature, unknown_kid, bad_aud, expired, lt_nat, key_of,
  check_signature, project, attest, text_of, number_of,
}
use eto_mcp.Prelude.Json.{Json, Items, nil, cons, null, bool, str, num, arr, obj}
use eto_mcp.Prelude.Number.{Number}
use eto_mcp.Prelude.Result.{ok, or_refuse, refuse_if, Always, after, returned, present, passed}
use eto_mcp.Prelude.Text.{str_eq_iff}

-- The keys of an answer have a key with the id, whose bytes verify the signature of the token.
pub record IsSigned (crypto : Crypto) (parsed : ParsedJws) (kid : String) (jwks : Json)
    : Type 0 where
  pub keys : Items
  pub has_keys : keys_of jwks ≡ some keys
  pub jwk : Json
  pub has_key : find_key kid keys ≡ some (some jwk)
  pub has_kid : property_of "kid" jwk ≡ some (some (str kid))
  pub encoded : String
  pub has_x : property_of "x" jwk ≡ some (some (str encoded))
  pub bytes : List ℕ
  pub decoded : crypto.decode64 encoded ≡ some bytes
  pub verifies : crypto.verify parsed.signature parsed.signing_input bytes ≡ some true

-- The claims of the payload are for the audience, not expired, and those of the attestation.
pub record IsClaimed (audience : String) (now : ℕ) (payload : Json) (attestation : ModelAttestation)
    : Type 0 where
  pub for_audience : property_of "aud" payload ≡ some (some (str audience))
  pub same_audience : attestation.aud ≡ audience
  pub has_exp : property_of "exp" payload ≡ some (some (num attestation.exp))
  pub unexpired : lt_nat attestation.exp now ≡ false
  pub has_iss : property_of "iss" payload ≡ some (some (str attestation.iss))
  pub has_model : property_of "model" payload ≡ some (some (str attestation.model))

text_of_lem : (v : Option Json) (s : String) → text_of v ≡ some s → v ≡ some (str s)
text_of_lem none s h = cc
text_of_lem (some null) s h = cc
text_of_lem (some (bool b)) s h = cc
text_of_lem (some (num n)) s h = cc
text_of_lem (some (str t)) s h = cc
text_of_lem (some (arr items)) s h = cc
text_of_lem (some (obj fields)) s h = cc

number_of_lem : (v : Option Json) (n : Number) → number_of v ≡ some n → v ≡ some (num n)
number_of_lem none n h = cc
number_of_lem (some null) n h = cc
number_of_lem (some (bool b)) n h = cc
number_of_lem (some (num m)) n h = cc
number_of_lem (some (str t)) n h = cc
number_of_lem (some (arr items)) n h = cc
number_of_lem (some (obj fields)) n h = cc

is_text_lem : (s : String) (v : Option Json) → is_text s v ≡ true → v ≡ some (str s)
is_text_lem s none h = cc
is_text_lem s (some null) h = cc
is_text_lem s (some (bool b)) h = cc
is_text_lem s (some (num m)) h = cc
is_text_lem s (some (str t)) h = ap (λ u. some (str u)) ((str_eq_iff t s).0 h)
is_text_lem s (some (arr items)) h = cc
is_text_lem s (some (obj fields)) h = cc

not-false : (b : Bool) → not b ≡ false → b ≡ true
not-false true h = refl
not-false false h = cc

-- The key that is found has the id.
find_key-kid :
    (kid : String) (keys : Items) (jwk : Json)
    → find_key kid keys ≡ some (some jwk)
    → property_of "kid" jwk ≡ some (some (str kid))
unfolding find_key
find_key-kid kid nil jwk h = cc
find_key-kid kid (cons k items) jwk h = elim (Option-cases (property_of "kid" k)) [
  | inl none_is ↦ cc
  | inr (found_kid, is) ↦ elim (Bool-cases (is_text kid found_kid)) [
    | inl same ↦
        let first : some (some k) ≡ some (some jwk) = rw same at (rw is at h) in
        let text = is_text_lem kid found_kid same in cc
    | inr other ↦ find_key-kid kid items jwk (rw other at (rw is at h))
  ]
]

-- The checks of the key and the signature, as one chain.
signature_lem :
    (crypto : Crypto) (parsed : ParsedJws) (kid : String) (jwks : Json) (jwk : Json) (keys : Items)
    → keys_of jwks ≡ some keys
    → find_key kid keys ≡ some (some jwk)
    → Always (λ (u : Unit {0}). IsSigned crypto parsed kid jwks) (check_signature crypto parsed jwk)
signature_lem crypto parsed kid jwks jwk keys has_keys has_key =
    let P : Unit {0} → Type 0 = λ u. IsSigned crypto parsed kid jwks in
    after P (or_refuse (property_of "x" jwk) malformed) _ (λ x e_x.
      after P (or_refuse (text_of x) malformed) _ (λ encoded e_encoded.
        after P (or_refuse (crypto.decode64 encoded) malformed) _ (λ bytes e_bytes.
          after P
            (or_refuse (crypto.verify parsed.signature parsed.signing_input bytes)
              (refused tampered_signature))
            _
            (λ valid e_valid u e_u. record {
              keys = keys;
              has_keys = has_keys;
              jwk = jwk;
              has_key = has_key;
              has_kid = find_key-kid kid keys jwk has_key;
              encoded = encoded;
              has_x =
                  present (property_of "x" jwk) malformed x e_x
                  ∙ ap (λ (v : Option Json). some v)
                      (text_of_lem x encoded (present (text_of x) malformed encoded e_encoded));
              bytes = bytes;
              decoded = present (crypto.decode64 encoded) malformed bytes e_bytes;
              verifies =
                  present (crypto.verify parsed.signature parsed.signing_input bytes)
                    (refused tampered_signature) valid e_valid
                  ∙ ap (λ (b : Bool). some b)
                      (not-false valid (passed (not valid) (refused tampered_signature) u e_u));
            }))))

key_lem :
    (kid : String) (jwks : Json)
    → Always
        (λ (jwk : Json).
          (keys : Items) × (keys_of jwks ≡ some keys) × (find_key kid keys ≡ some (some jwk)))
        (key_of kid (found jwks))
key_lem kid jwks =
    let P : Json → Type 0 =
      λ jwk. (keys : Items) × (keys_of jwks ≡ some keys) × (find_key kid keys ≡ some (some jwk)) in
    after P (or_refuse (has_error jwks) thrown) _ (λ an_error e_error.
      after P (refuse_if an_error (refused jwks_fetch_failed)) _ (λ u e_u.
        after P (or_refuse (keys_of jwks) thrown) _ (λ keys e_keys.
          after P (or_refuse (find_key kid keys) thrown) _ (λ key e_key jwk e_jwk. (
            keys,
            present (keys_of jwks) thrown keys e_keys,
            present (find_key kid keys) thrown key e_key
                ∙ ap (λ (k : Option Json). some k) (present key (refused unknown_kid) jwk e_jwk),
          )))))

-- A field that was read as a text.
text_property :
    (k : String) (json : Json) (v : Option Json) (s : String)
    → or_refuse (property_of k json) thrown ≡ ok v
    → or_refuse (text_of v) malformed ≡ ok s
    → property_of k json ≡ some (some (str s))
text_property k json v s e f =
    present (property_of k json) thrown v e
    ∙ ap (λ (w : Option Json). some w) (text_of_lem v s (present (text_of v) malformed s f))

claims_lem :
    (audience : String) (now : ℕ) (payload : Json)
    → Always (IsClaimed audience now payload) (project audience now payload)
unfolding project
claims_lem audience now payload =
    let P : ModelAttestation → Type 0 = IsClaimed audience now payload in
    after P (or_refuse (property_of "aud" payload) thrown) _ (λ aud e_aud.
      after P (refuse_if (not (is_text audience aud)) (refused bad_aud)) _ (λ ua e_ua.
        after P (or_refuse (property_of "exp" payload) thrown) _ (λ exp_value e_exp_value.
          after P (or_refuse (number_of exp_value) (refused expired)) _ (λ exp e_exp.
            after P (refuse_if (lt_nat exp now) (refused expired)) _ (λ ue e_ue.
              after P (or_refuse (property_of "iss" payload) thrown) _ (λ iss_value e_iss_value.
                after P (or_refuse (property_of "iat" payload) thrown) _ (λ iat_value e_iat_value.
                  after P (or_refuse (property_of "model" payload) thrown) _
                    (λ model_value e_model_value.
                      after P (or_refuse (text_of iss_value) malformed) _ (λ iss e_iss.
                        after P (or_refuse (number_of iat_value) malformed) _ (λ iat e_iat.
                          after P (or_refuse (text_of model_value) malformed) _ (λ model e_model.
                            after P (or_refuse (property_of "jti" payload) thrown) _ (λ jti e_jti.
                              after P (or_refuse (property_of "model_version" payload) thrown) _
                                (λ version e_version.
                                  after P (or_refuse (property_of "sig_alg" payload) thrown) _
                                    (λ sig e_sig. returned P _ (record {
                                      for_audience =
                                          present (property_of "aud" payload) thrown aud e_aud
                                          ∙ ap (λ (v : Option Json). some v)
                                              (is_text_lem audience aud (
                                                not-false (is_text audience aud) (
                                                  passed (not (is_text audience aud))
                                                    (refused bad_aud) ua e_ua)));
                                      same_audience = refl;
                                      has_exp =
                                          present (property_of "exp" payload) thrown exp_value
                                            e_exp_value
                                          ∙ ap (λ (v : Option Json). some v)
                                              (number_of_lem exp_value exp (
                                                present (number_of exp_value) (refused expired) exp
                                                  e_exp));
                                      unexpired = passed (lt_nat exp now) (refused expired) ue e_ue;
                                      has_iss =
                                          text_property "iss" payload iss_value iss e_iss_value
                                            e_iss;
                                      has_model =
                                          text_property "model" payload model_value model
                                            e_model_value e_model;
                                    })))))))))))))))

pub attest_lem :
    (crypto : Crypto) (parsed : ParsedJws) (kid : String) (jwks : Json) (audience : String)
    (now_ms : ℕ)
    → Always
        (λ (a : ModelAttestation).
          IsSigned crypto parsed kid jwks × IsClaimed audience (now_ms / 1000) parsed.payload a)
        (attest crypto parsed kid (found jwks) audience now_ms)
unfolding attest
attest_lem crypto parsed kid jwks audience now_ms =
    let P : ModelAttestation → Type 0 =
      λ a. IsSigned crypto parsed kid jwks × IsClaimed audience (now_ms / 1000) parsed.payload a in
    after P (key_of kid (found jwks)) _ (λ jwk e_jwk.
      after P (check_signature crypto parsed jwk) _ (λ u e_u a e_a.
        let key = key_lem kid jwks jwk e_jwk in
        (
          signature_lem crypto parsed kid jwks jwk (key.0) (key.1) (key.2) u e_u,
          claims_lem audience (now_ms / 1000) parsed.payload a e_a,
        )))

pub signed_lem :
    (crypto : Crypto) (jws : String)
    → Always
        (λ (s : ParsedJws × String).
          (parse_jws_compact crypto jws ≡ ok (s.0)) × (kid_of (s.0) ≡ ok (s.1)))
        (signed_by crypto jws)
unfolding signed_by
signed_lem crypto jws =
    let P : ParsedJws × String → Type 0 =
      λ s. (parse_jws_compact crypto jws ≡ ok (s.0)) × (kid_of (s.0) ≡ ok (s.1)) in
    after P (parse_jws_compact crypto jws) _ (λ parsed e_parsed.
      after P (kid_of parsed) _ (λ kid e_kid. returned P (parsed, kid) (e_parsed, e_kid)))
