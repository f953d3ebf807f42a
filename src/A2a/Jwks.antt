-- ===== src/A2a/Jwks.antt =====
-- The key sets of src/a2a/counterparty-verifier.ts: their fetch with the cache by ETag, and the key
-- of an id. What an endpoint answers may be any JSON. A fetch is modelled from its call to its answer,
-- with no other call changing the cache while it waits.
use eto_mcp.Prelude.{
  ℕ, Bool, false, not, ◌&&◌, Option, none, some, String, leb, ◌==◌, is_some, if◌then◌else◌,
}
use eto_mcp.Prelude.Dict.{Dict, lookup, insert}
use eto_mcp.Prelude.Json.{Json, null, str, arr, obj, Items, nil, cons, member}
use eto_mcp.Prelude.Optional.{◌>>=◌}
use eto_mcp.Prelude.Text.{str_eq, is_present}

pub record CacheEntry : Type 0 where
  pub etag : Option String
  pub jwks : Json
  pub fetched_at : ℕ

abbrev pub JwksCache : Type 0
JwksCache = Dict CacheEntry

-- What `fetch` gives: it throws, or there is a response. `none` is a body that is no JSON.
pub data FetchAnswer : Type 0 where
  no_answer : FetchAnswer
  response : (status : ℕ) (etag : Option String) (body : Option Json) → FetchAnswer

pub data Fetched : Type 0 where
  found : Json → Fetched
  failed : Fetched

abbrev pub cached_etag : Option CacheEntry → Option String
cached_etag none = none
cached_etag (some entry) = entry.etag

-- `If-None-Match`, when the etag is not empty.
abbrev pub if_none_match : Option CacheEntry → Option String
if_none_match cached = let etag = cached_etag cached in if is_present etag then etag else none

abbrev pub stale : Option CacheEntry → JwksCache → Fetched × JwksCache
stale none cache = (failed, cache)
stale (some entry) cache = (found entry.jwks, cache)

abbrev pub not_modified : String → ℕ → Option CacheEntry → JwksCache → Fetched × JwksCache
not_modified url now none cache = (failed, cache)
not_modified url now (some entry) cache =
    (found entry.jwks, insert url (record entry { fetched_at = now }) cache)

abbrev pub fresh : String → ℕ → Option String → Option Json → JwksCache → Fetched × JwksCache
fresh url now etag none cache = (failed, cache)
fresh url now etag (some jwks) cache =
    (found jwks, insert url (record { etag = etag; jwks = jwks; fetched_at = now }) cache)

abbrev pub answered : String → ℕ → FetchAnswer → Option CacheEntry → JwksCache → Fetched × JwksCache
answered url now no_answer cached cache = stale cached cache
answered url now (response status etag body) cached cache =
    if status == 304
    then not_modified url now cached cache
    else if not (leb 200 status && leb status 299)
    then (failed, cache)
    else fresh url now etag body cache

unfoldable pub fetch_jwks_with_cache :
    (String → Option String → FetchAnswer) → String → ℕ → JwksCache → Fetched × JwksCache
fetch_jwks_with_cache fetch url now cache =
    let cached = lookup url cache in
    answered url now (fetch url (if_none_match cached)) cached cache

-- `v[k]`, which throws for null; the fields that are read are none of those of a text or an array.
abbrev pub property_of : String → Json → Option (Option Json)
property_of k null = none
property_of k (obj fields) = some (member k fields)
property_of k other = some none

-- `"error" in jwks`, which throws on what is neither an object nor an array.
abbrev pub has_error : Json → Option Bool
has_error (obj fields) = some (is_some (member "error" fields))
has_error (arr items) = some false
has_error other = none

abbrev array_of : Option Json → Option Items
array_of (some (arr items)) = some items
array_of other = none

-- `jwks.keys.find`, which throws unless the keys are an array.
abbrev pub keys_of : Json → Option Items
keys_of (obj fields) = array_of (member "keys" fields)
keys_of other = none

-- `v === s` for a text s
abbrev pub is_text : String → Option Json → Bool
is_text s (some (str t)) = str_eq t s
is_text s other = false

-- The first key with the id; a null before it throws.
unfoldable pub find_key : String → Items → Option (Option Json)
find_key kid nil = some none
find_key kid (cons k items) =
    let rest = find_key kid items in
    do found_kid ← property_of "kid" k; if is_text kid found_kid then some (some k) else rest
