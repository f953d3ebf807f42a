-- ===== src/A2a.antt =====
-- src/a2a/counterparty-verifier.ts: the attestation of a counterparty's model. Base 64, JSON.parse and
-- Ed25519 are the Crypto; the answer of `fetch` is a function of the header that is sent. An error
-- that leaves the function is `thrown`.
pub mod Jwks
pub mod Soundness
pub mod Attested
mod Tests
use eto_mcp.Prelude.{
  ℕ, ◌/◌, Bool, true, false, not, ◌||◌, Option, none, some, List, [], ◌∷◌, String, ltb, ◌==◌,
  if◌then◌else◌,
}
use eto_mcp.Prelude.Json.{Json, str, num}
use eto_mcp.Prelude.Number.{Number, nat, neg, frac, neg_frac, infinity, neg_infinity, nan}
use eto_mcp.Prelude.Result.{Result, ok, err, or_refuse, refuse_if, ◌>>=◌, ◌>>◌}
use eto_mcp.Prelude.Text.{utf8, str_eq, is_empty}
use Prim.Native.Char.{Char, code}
use eto_mcp.A2a.Jwks.{
  JwksCache, FetchAnswer, Fetched, found, failed, fetch_jwks_with_cache, property_of, has_error,
  keys_of, find_key, is_text,
}

-- `none` is a call that throws.
pub record Crypto : Type 0 where
  pub decode64 : String → Option (List ℕ)
  pub decode_text : List ℕ → String
  pub parse_json : String → Option Json
  pub verify : List ℕ → List ℕ → List ℕ → Option Bool

pub data VerifyErrorCode : Type 0 where
  malformed_jws : VerifyErrorCode
  unknown_kid : VerifyErrorCode
  bad_aud : VerifyErrorCode
  expired : VerifyErrorCode
  tampered_signature : VerifyErrorCode
  jwks_fetch_failed : VerifyErrorCode

pub data Fault : Type 0 where
  refused : VerifyErrorCode → Fault
  thrown : Fault

pub record ModelAttestation : Type 0 where
  pub iss : String
  pub aud : String
  pub iat : Number
  pub exp : Number
  pub jti : Option String
  pub model : String
  pub model_version : Option String
  pub sig_alg : Option String

pub record ParsedJws : Type 0 where
  pub header : Json
  pub payload : Json
  pub signing_input : List ℕ
  pub signature : List ℕ

-- `s.split(".")`
abbrev before_first : Char → List String → List String
before_first c [] = []
before_first c (part ∷ parts) = String.◌∷◌ c part ∷ parts

unfoldable pub split_dots : String → List String
split_dots String.[] = "" ∷ []
split_dots (String.◌∷◌ c s) =
    let rest = split_dots s in if code c == b'.' then "" ∷ rest else before_first c rest

-- Three parts, as a triple.
abbrev pub three_parts : List String → Option (String × String × String)
three_parts (a ∷ b ∷ c ∷ []) = some (a, b, c)
three_parts other = none

abbrev pub malformed : Fault
malformed = refused malformed_jws

-- `typeof v === "string"`
abbrev pub text_of : Option Json → Option String
text_of (some (str s)) = some s
text_of other = none

-- `typeof v === "number"`
abbrev pub number_of : Option Json → Option Number
number_of (some (num n)) = some n
number_of other = none

unfoldable pub kid_of : ParsedJws → Result Fault String
kid_of parsed = do
  value ← or_refuse (property_of "kid" parsed.header) thrown
  kid ← or_refuse (text_of value) malformed
  refuse_if (is_empty kid) malformed
  ok kid

-- `x < c`
abbrev pub lt_nat : Number → ℕ → Bool
lt_nat (nat n) c = ltb n c
lt_nat (frac n) c = ltb n c
lt_nat infinity c = false
lt_nat nan c = false
lt_nat other c = true

-- Step 4: the key, from what the fetch gave.
abbrev pub key_of : String → Fetched → Result Fault Json
key_of kid failed = err (refused jwks_fetch_failed)
key_of kid (found jwks) = do
  an_error ← or_refuse (has_error jwks) thrown
  refuse_if an_error (refused jwks_fetch_failed)
  keys ← or_refuse (keys_of jwks) thrown
  key ← or_refuse (find_key kid keys) thrown
  or_refuse key (refused unknown_kid)

-- Steps 7 to 9.
unfoldable pub project : String → ℕ → Json → Result Fault ModelAttestation
project expected_audience now_sec payload = do
  aud ← or_refuse (property_of "aud" payload) thrown
  refuse_if (not (is_text expected_audience aud)) (refused bad_aud)
  exp_value ← or_refuse (property_of "exp" payload) thrown
  exp ← or_refuse (number_of exp_value) (refused expired)
  refuse_if (lt_nat exp now_sec) (refused expired)
  iss_value ← or_refuse (property_of "iss" payload) thrown
  iat_value ← or_refuse (property_of "iat" payload) thrown
  model_value ← or_refuse (property_of "model" payload) thrown
  iss ← or_refuse (text_of iss_value) malformed
  iat ← or_refuse (number_of iat_value) malformed
  model ← or_refuse (text_of model_value) malformed
  jti ← or_refuse (property_of "jti" payload) thrown
  model_version ← or_refuse (property_of "model_version" payload) thrown
  sig_alg ← or_refuse (property_of "sig_alg" payload) thrown
  ok (record {
    iss = iss;
    aud = expected_audience;
    iat = iat;
    exp = exp;
    jti = text_of jti;
    model = model;
    model_version = text_of model_version;
    sig_alg = text_of sig_alg;
  })

module _ (crypto : Crypto) where
  -- The JSON of a part; an empty text is refused.
  abbrev pub json_of : String → Result Fault Json
  json_of part = do
    bytes ← or_refuse (crypto.decode64 part) malformed
    let text = crypto.decode_text bytes in
        do refuse_if (is_empty text) malformed; or_refuse (crypto.parse_json text) malformed

  unfoldable pub parse_jws_compact : String → Result Fault ParsedJws
  parse_jws_compact jws = do
    (header_b64, payload_b64, sig_b64) ← or_refuse (three_parts (split_dots jws)) malformed
    refuse_if (is_empty header_b64 || (is_empty payload_b64 || is_empty sig_b64)) malformed
    header ← json_of header_b64
    payload ← json_of payload_b64
    signature ← or_refuse (crypto.decode64 sig_b64) malformed
    ok (record {
      header = header;
      payload = payload;
      signing_input =
          utf8 (Prim.Native.String.◌++◌ header_b64 (Prim.Native.String.◌++◌ "." payload_b64));
      signature = signature;
    })

  -- Steps 5 and 6. What is not a text does not decode.
  abbrev pub check_signature : ParsedJws → Json → Result Fault (Unit {0})
  check_signature parsed jwk = do
    x ← or_refuse (property_of "x" jwk) malformed
    encoded ← or_refuse (text_of x) malformed
    pub_key ← or_refuse (crypto.decode64 encoded) malformed
    valid ←
        or_refuse (crypto.verify parsed.signature parsed.signing_input pub_key)
          (refused tampered_signature)
    refuse_if (not valid) (refused tampered_signature)

  unfoldable pub attest : ParsedJws → String → Fetched → String → ℕ → Result Fault ModelAttestation
  attest parsed kid fetched expected_audience now_ms = do
    jwk ← key_of kid fetched
    check_signature parsed jwk
    project expected_audience (now_ms / 1000) parsed.payload

  -- Steps 1 and 2, before the fetch.
  unfoldable pub signed_by : String → Result Fault (ParsedJws × String)
  signed_by jws = do parsed ← parse_jws_compact jws; kid ← kid_of parsed; ok (parsed, kid)

  abbrev pub attest_signed :
      Result Fault (ParsedJws × String)
      → (String → Option String → FetchAnswer)
      → String
      → String
      → ℕ
      → JwksCache
      → Result Fault ModelAttestation × JwksCache
  attest_signed (err e) fetch expected_audience jwks_url now_ms cache = (err e, cache)
  attest_signed (ok (parsed, kid)) fetch expected_audience jwks_url now_ms cache =
      let fetched = fetch_jwks_with_cache fetch jwks_url now_ms cache in
      (attest parsed kid fetched.0 expected_audience now_ms, fetched.1)

  unfoldable pub verify_counterparty_attestation :
      String
      → String
      → String
      → (String → Option String → FetchAnswer)
      → ℕ
      → JwksCache
      → Result Fault ModelAttestation × JwksCache
  verify_counterparty_attestation jws expected_audience jwks_url fetch now_ms cache =
      attest_signed (signed_by jws) fetch expected_audience jwks_url now_ms cache
