-- ===== src/A2a/Tests.antt =====
-- The verifier of attestations at concrete inputs.
use eto_mcp.Prelude.{◌≡◌, refl, Option, none, some, String, [], length, ◌==◌, if◌then◌else◌}
use eto_mcp.Prelude.Json.{Json, null, str, num, arr, obj, nil, cons, end, field}
use eto_mcp.Prelude.Number.{nat}
use eto_mcp.Prelude.Result.{ok, err}
use eto_mcp.Prelude.Text.{codes, utf8, str_eq}
use eto_mcp.Prelude.Dict.{lookup, insert}
use eto_mcp.A2a.{
  Crypto, ModelAttestation, parse_jws_compact, split_dots, kid_of, project, attest, signed_by,
  verify_counterparty_attestation, thrown, refused, jwks_fetch_failed,
}
use eto_mcp.A2a.Jwks.{FetchAnswer, no_answer, response, fetch_jwks_with_cache, find_key}
use eto_mcp.A2a.Attested.{IsAttested, verify_counterparty_attestation-IsAttested}

abbrev claims : Json
claims = obj (
    field "iss" (str "https://peer") (
      field "aud" (str "https://me") (
        field "iat" (num (nat 100))
          (field "exp" (num (nat 200)) (field "model" (str "opus") end)))))

-- The texts stand for their JSON by their length.
abbrev crypto_with : Json → Crypto
crypto_with header = record {
  decode64 = λ s. some (codes s);
  decode_text = λ bytes. if length bytes == 1 then "h" else "p";
  parse_json = λ s. some (if str_eq s "h" then header else claims);
  verify = λ signature input key. some (length input == 4);
}

abbrev crypto : Crypto
crypto = crypto_with (obj (field "kid" (str "k1") end))

abbrev key_set : Json
key_set =
    obj
      (field "keys" (arr (cons (obj (field "kid" (str "k1") (field "x" (str "abc") end))) nil)) end)

abbrev serves : String → Option String → FetchAnswer
serves url etag = response 200 (some "e1") (some key_set)

abbrev silent : String → Option String → FetchAnswer
silent url etag = no_answer

abbrev attestation : ModelAttestation
attestation = record {
  iss = "https://peer";
  aud = "https://me";
  iat = nat 100;
  exp = nat 200;
  jti = none;
  model = "opus";
  model_version = none;
  sig_alg = none;
}

accepted :
    (verify_counterparty_attestation crypto "h.pp.s" "https://me" "https://peer/jwks" serves 150000
      []).0
    ≡ ok attestation
unfolding verify_counterparty_attestation signed_by parse_jws_compact split_dots kid_of attest
    project fetch_jwks_with_cache find_key lookup insert utf8
accepted = refl

verify_counterparty_attestation-IsAttested_example :
    IsAttested crypto "h.pp.s" "https://me" "https://peer/jwks" 150000
      (verify_counterparty_attestation crypto "h.pp.s" "https://me" "https://peer/jwks" serves
        150000 []).1
      attestation
verify_counterparty_attestation-IsAttested_example =
    verify_counterparty_attestation-IsAttested crypto "h.pp.s" "https://me" "https://peer/jwks"
      serves 150000 [] attestation accepted

-- A header that is the JSON text null throws.
null_header :
    (verify_counterparty_attestation
      (crypto_with null)
      "h.pp.s"
      "https://me"
      "https://peer/jwks"
      serves
      150000
      []).0
    ≡ err thrown
unfolding verify_counterparty_attestation signed_by parse_jws_compact split_dots kid_of utf8
null_header = refl

-- So does a set of keys that is the JSON text null.
null_keys :
    (verify_counterparty_attestation crypto "h.pp.s" "https://me" "https://peer/jwks"
      (λ url etag. response 200 none (some null))
      150000
      []).0
    ≡ err thrown
unfolding verify_counterparty_attestation signed_by parse_jws_compact split_dots kid_of attest
    fetch_jwks_with_cache lookup utf8
null_keys = refl

no_endpoint :
    (verify_counterparty_attestation crypto "h.pp.s" "https://me" "https://peer/jwks" silent 150000
      []).0
    ≡ err (refused jwks_fetch_failed)
unfolding verify_counterparty_attestation signed_by parse_jws_compact split_dots kid_of attest
    fetch_jwks_with_cache lookup utf8
no_endpoint = refl
