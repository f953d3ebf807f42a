-- ===== src/Write/Nonces/Tests.antt =====
-- Runs of the nonce manager, and its theorems at concrete inputs.
use eto_mcp.Prelude.{ℕ, suc, ◌≡◌, refl, some, none, List, [], ◌∷◌, arith}
use eto_mcp.Prelude.Dict.{lookup}
use eto_mcp.Write.Nonces.{
  NonceEntry, NonceManager, cached_nonce, fetched_nonce, release_nonce, get_next_nonce,
}
use eto_mcp.Write.Nonces.Handing.{release_reuses}

abbrev entry : NonceEntry
entry = record { current = 7; pending_count = 1; fetched_at = 1000 }

abbrev nonces : NonceManager
nonces = ("0xab", entry) ∷ []

abbrev calls : List (ℕ × ℕ)
calls = (7, 2000) ∷ (8, 3000) ∷ (8, 300999) ∷ []

found : lookup "0xab" nonces ≡ some entry
unfolding lookup
found = refl

-- Two requests that both find no entry and wait for the chain are handed the same nonce.
same_nonce :
    (cached_nonce "0xCD" 1000 nonces ≡ none)
    × ((fetched_nonce "0xCD" 5 1001 nonces).0
        ≡ (fetched_nonce "0xCD" 5 1002 (fetched_nonce "0xCD" 5 1001 nonces).1).0)
unfolding cached_nonce fetched_nonce lookup
same_nonce = (refl, refl)

release_reuses_example :
    let (first, nonces1) = get_next_nonce "0xAB" 7 2000 nonces in
    let (second, nonces2) = get_next_nonce "0xAB" 7 2000 nonces1 in
    let (third, nonces3) = get_next_nonce "0xAB" 7 2000 (release_nonce "0xAB" first nonces2) in
    (first ≡ 8) × (second ≡ suc first) × (third ≡ second)
release_reuses_example = release_reuses "0xAB" 7 2000 nonces entry found (omega arith)
