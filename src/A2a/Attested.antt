-- ===== src/A2a/Attested.antt =====
-- What stands behind an attestation that is accepted.
use eto_mcp.Prelude.{
  ℕ, ◌/◌, ◌≡◌, refl, sym, subst, Option, none, some, String, Bool-cases, inl, inr, ◌==◌, leb, ◌&&◌,
}
use eto_mcp.Prelude.Dict.{lookup, lookup-insert_self}
use eto_mcp.Prelude.Json.{Json}
use eto_mcp.Prelude.Result.{ok, ok_ne_err, Result-cases}
use eto_mcp.A2a.{
  Crypto, ModelAttestation, ParsedJws, parse_jws_compact, kid_of, attest, signed_by,
  verify_counterparty_attestation,
}
use eto_mcp.A2a.Jwks.{
  CacheEntry, JwksCache, if_none_match, FetchAnswer, no_answer, response, Fetched, found, failed,
  answered, not_modified, fresh, fetch_jwks_with_cache,
}
use eto_mcp.A2a.Soundness.{IsSigned, IsClaimed, attest_lem, signed_lem}

-- The key set that an answer gives is the one that the cache holds afterwards.
IsCached : String → Json → Fetched × JwksCache → Type 0
IsCached url jwks fetched =
    fetched.0 ≡ found jwks
    → (entry : CacheEntry) × (lookup url fetched.1 ≡ some entry) × (entry.jwks ≡ jwks)

failed_ne_found : {jwks : Json} → ¬ (failed ≡ found jwks)
failed_ne_found h = cc

failed-IsCached :
    (url : String) (jwks : Json) (cache : JwksCache) → IsCached url jwks (failed, cache)
unfolding IsCached
failed-IsCached url jwks cache h = absurd (failed_ne_found h)

not_modified-IsCached :
    (url : String) (now : ℕ) (cached : Option CacheEntry) (cache : JwksCache) (jwks : Json)
    → IsCached url jwks (not_modified url now cached cache)
unfolding IsCached
not_modified-IsCached url now none cache jwks h = absurd (failed_ne_found h)
not_modified-IsCached url now (some entry) cache jwks h =
    (record entry { fetched_at = now }, lookup-insert_self url _ cache, cc)

fresh-IsCached :
    (url : String) (now : ℕ) (etag : Option String) (body : Option Json) (cache : JwksCache)
    (jwks : Json)
    → IsCached url jwks (fresh url now etag body cache)
unfolding IsCached
fresh-IsCached url now etag none cache jwks h = absurd (failed_ne_found h)
fresh-IsCached url now etag (some body) cache jwks h =
    (record { etag = etag; jwks = body; fetched_at = now }, lookup-insert_self url _ cache, cc)

answered-IsCached :
    (url : String) (now : ℕ) (answer : FetchAnswer) (cached : Option CacheEntry) (cache : JwksCache)
    (jwks : Json)
    → lookup url cache ≡ cached
    → IsCached url jwks (answered url now answer cached cache)
unfolding IsCached
answered-IsCached url now no_answer none cache jwks is h = absurd (failed_ne_found h)
answered-IsCached url now no_answer (some entry) cache jwks is h = (entry, is, cc)
answered-IsCached url now (response status etag body) cached cache jwks is h =
    elim (Bool-cases (status == 304)) [
      | inl same ↦ rw same (not_modified-IsCached url now cached cache jwks (rw same at h))
      | inr other ↦ elim (Bool-cases (leb 200 status && leb status 299)) [
        | inl fine ↦
            rw (other, fine) (fresh-IsCached url now etag body cache jwks (rw (other, fine) at h))
        | inr bad ↦ absurd (failed_ne_found (rw (other, bad) at h))
      ]
    ]

fetched-IsCached :
    (fetch : String → Option String → FetchAnswer) (url : String) (now : ℕ) (cache : JwksCache)
    (jwks : Json)
    → IsCached url jwks (fetch_jwks_with_cache fetch url now cache)
unfolding fetch_jwks_with_cache
fetched-IsCached fetch url now cache jwks =
    answered-IsCached url now (fetch url (if_none_match (lookup url cache))) (lookup url cache)
      cache jwks refl

-- The parts of what stands behind an attestation: the token is well formed and names a key, the answer
-- is in the cache, its key has signed the token, and the claims are those of the attestation.
pub record IsAttested (crypto : Crypto) (jws audience jwks_url : String) (now_ms : ℕ)
    (cache : JwksCache) (attestation : ModelAttestation) : Type 0 where
  pub parsed : ParsedJws
  pub is_parsed : parse_jws_compact crypto jws ≡ ok parsed
  pub kid : String
  pub has_kid : kid_of parsed ≡ ok kid
  pub entry : CacheEntry
  pub is_cached : lookup jwks_url cache ≡ some entry
  pub signed : IsSigned crypto parsed kid entry.jwks
  pub claimed : IsClaimed audience (now_ms / 1000) parsed.payload attestation

attested :
    (crypto : Crypto) (jws audience jwks_url : String) (now_ms : ℕ) (attestation : ModelAttestation)
    (parsed : ParsedJws) (kid : String)
    → parse_jws_compact crypto jws ≡ ok parsed
    → kid_of parsed ≡ ok kid
    → (fetched : Fetched) (cache : JwksCache)
    → ((jwks : Json) → IsCached jwks_url jwks (fetched, cache))
    → attest crypto parsed kid fetched audience now_ms ≡ ok attestation
    → IsAttested crypto jws audience jwks_url now_ms cache attestation
unfolding IsCached attest
attested crypto jws audience url now_ms a parsed kid e_parsed e_kid failed cache c h =
    absurd (ok_ne_err h)
attested crypto jws audience url now_ms a parsed kid e_parsed e_kid (found jwks) cache c h =
    let it = attest_lem crypto parsed kid jwks audience now_ms a h in
    let held = c jwks refl in
    record {
      parsed = parsed;
      is_parsed = e_parsed;
      kid = kid;
      has_kid = e_kid;
      entry = held.0;
      is_cached = held.1;
      signed = subst (λ (j : Json). IsSigned crypto parsed kid j) (sym (held.2)) (it.0);
      claimed = it.1;
    }

-- When an attestation is accepted, the token is well formed, it is signed by the key whose kid is the
-- one that it names, in the set that the cache holds for the endpoint afterwards, whether it was
-- fetched, confirmed or stale, and its claims are for the audience and have not expired. No other
-- call changes the cache while the fetch waits.
pub verify_counterparty_attestation-IsAttested :
    (crypto : Crypto) (jws audience jwks_url : String)
    (fetch : String → Option String → FetchAnswer) (now_ms : ℕ) (cache : JwksCache)
    (attestation : ModelAttestation)
    → (verify_counterparty_attestation crypto jws audience jwks_url fetch now_ms cache).0
      ≡ ok attestation
    → IsAttested crypto jws audience jwks_url now_ms
        (verify_counterparty_attestation crypto jws audience jwks_url fetch now_ms cache).1
        attestation
unfolding verify_counterparty_attestation
verify_counterparty_attestation-IsAttested crypto jws audience url fetch now_ms cache a h =
    elim (Result-cases (signed_by crypto jws)) [
      | inl (e, refused_it) ↦ absurd (ok_ne_err (rw refused_it at h))
      | inr ((parsed, kid), signed) ↦ rw signed (
          let both = signed_lem crypto jws (parsed, kid) signed in
          attested crypto jws audience url now_ms a parsed kid (both.0) (both.1)
            (fetch_jwks_with_cache fetch url now_ms cache).0
            (fetch_jwks_with_cache fetch url now_ms cache).1
            (fetched-IsCached fetch url now_ms cache) (rw signed at h))
    ]
