-- ===== src/Write/Nonces/Handing.antt =====
-- Which nonces are handed out, and when one is handed out twice.
use eto_mcp.Prelude.{
  ◌-◌, ltb, ℕ, suc, ◌+◌, ◌≡◌, ◌<◌, refl, some, String, List, [], ◌∷◌, arith, true,
}
use eto_mcp.Prelude.Dict.{lookup, insert, lookup-insert_self}
use eto_mcp.Prelude.Text.{to_lower_case}
use eto_mcp.Write.Nonces.{
  NonceEntry, NonceManager, is_fresh, handed, cached_nonce, release_nonce, get_next_nonce, ttl_ms,
}

-- A call: the chain's count at that time, and the time.
abbrev pub Call : Type 0
Call = ℕ × ℕ

-- The nonces that a sequence of calls for one address hands out.
unfoldable pub nonces_of : String → List Call → NonceManager → List ℕ
nonces_of addr [] nonces = []
nonces_of addr ((on_chain, now) ∷ calls) nonces =
    let (nonce, nonces') = get_next_nonce addr on_chain now nonces in
    nonce ∷ nonces_of addr calls nonces'

abbrev pub count_from : ℕ → List Call → List ℕ
count_from n [] = []
count_from n (c ∷ calls) = n ∷ count_from (suc n) calls

-- Every call comes within the time to live of the entry.
abbrev pub IsWithin : ℕ → List Call → Type 0
IsWithin fetched_at [] = Unit
IsWithin fetched_at ((on_chain, now) ∷ calls) =
    (now < fetched_at + ttl_ms) × IsWithin fetched_at calls

abbrev pub taken : NonceEntry → NonceEntry
taken entry = record entry { pending_count = suc entry.pending_count }

get_next_nonce_fresh :
    (addr : String) (on_chain now : ℕ) (nonces : NonceManager) (entry : NonceEntry)
    → lookup (to_lower_case addr) nonces ≡ some entry
    → now < entry.fetched_at + ttl_ms
    → get_next_nonce addr on_chain now nonces
      ≡ (handed entry, insert (to_lower_case addr) (taken entry) nonces)
unfolding get_next_nonce cached_nonce
get_next_nonce_fresh addr on_chain now nonces entry e h =
    let young : is_fresh now entry ≡ true = ground arith in
    rw (e, young, cached_nonce, get_next_nonce) refl

-- Within the time to live of an entry, uninterrupted calls for its address hand out one nonce
-- after the other, without a gap and without a repetition, whatever the chain says meanwhile.
pub nonces_of-count_from :
    (addr : String) (calls : List Call) (nonces : NonceManager) (entry : NonceEntry)
    → lookup (to_lower_case addr) nonces ≡ some entry
    → IsWithin entry.fetched_at calls
    → nonces_of addr calls nonces ≡ count_from (handed entry) calls
unfolding nonces_of
nonces_of-count_from addr [] nonces entry e h = refl
nonces_of-count_from addr ((on_chain, now) ∷ calls) nonces entry e (young, h) =
    let key = to_lower_case addr in
    let next : handed (taken entry) ≡ suc (handed entry) = omega arith in
    let rest =
      nonces_of-count_from addr calls (insert key (taken entry) nonces) (taken entry)
        (lookup-insert_self key (taken entry) nonces) h in
    rw (get_next_nonce_fresh addr on_chain now nonces entry e young, rest, next) refl

release_nonce-taken :
    (addr : String) (nonce : ℕ) (nonces : NonceManager) (entry : NonceEntry)
    → lookup (to_lower_case addr) nonces ≡ some (taken entry)
    → release_nonce addr nonce nonces ≡ insert (to_lower_case addr) entry nonces
unfolding release_nonce
release_nonce-taken addr nonce nonces entry e =
    let some_pending : ltb 0 (suc entry.pending_count) ≡ true = ground arith in
    let one_less : suc entry.pending_count - 1 ≡ entry.pending_count = omega arith in
    rw (e, some_pending, one_less, release_nonce) refl

-- If the entry of an address is fresh and two nonces were handed out for it, releasing the first
-- makes the next call hand out the second again, although it is still pending.
pub release_reuses :
    (addr : String) (on_chain now : ℕ) (nonces : NonceManager) (entry : NonceEntry)
    → lookup (to_lower_case addr) nonces ≡ some entry
    → now < entry.fetched_at + ttl_ms
    → let (first, nonces1) = get_next_nonce addr on_chain now nonces in
      let (second, nonces2) = get_next_nonce addr on_chain now nonces1 in
      let (third, nonces3) = get_next_nonce addr on_chain now (release_nonce addr first nonces2) in
      (first ≡ handed entry) × (second ≡ suc first) × (third ≡ second)
release_reuses addr on_chain now nonces entry e young =
    let key = to_lower_case addr in
    let nonces1 = insert key (taken entry) nonces in
    let nonces2 = insert key (taken (taken entry)) nonces1 in
    let back = insert key (taken entry) nonces2 in
    let one = get_next_nonce_fresh addr on_chain now nonces entry e young in
    let two =
      get_next_nonce_fresh addr on_chain now nonces1 (taken entry)
        (lookup-insert_self key (taken entry) nonces) young in
    let three =
      get_next_nonce_fresh addr on_chain now back (taken entry)
        (lookup-insert_self key (taken entry) nonces2) young in
    let release =
      release_nonce-taken addr (handed entry) nonces2 (taken entry)
        (lookup-insert_self key (taken (taken entry)) nonces1) in
    rw (one, two, release, three) (refl, omega arith, refl)
