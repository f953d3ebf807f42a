-- ===== src/Write/Nonces.antt =====
-- src/write/nonce-manager.ts: the nonces that are handed out for an address before the chain knows
-- of them. `getNextNonce` has one await, where it asks the chain: `cached_nonce` is what runs before
-- it, and ends there with a nonce from the entry, and `fetched_nonce` is what runs after it. The
-- clock and the chain's count are arguments.
pub mod Handing
mod Tests
use eto_mcp.Prelude.{
  Bool, ℕ, suc, ◌+◌, ◌-◌, ◌≡◌, Option, some, none, String, List, [], ◌∷◌, if◌then◌else◌, ltb, ◌&&◌,
}
use eto_mcp.Prelude.Dict.{Dict, lookup, insert}
use eto_mcp.Prelude.Text.{str_eq, to_lower_case}

pub record NonceEntry : Type 0 where
  pub current : ℕ
  pub pending_count : ℕ
  pub fetched_at : ℕ

abbrev pub NonceManager : Type 0
NonceManager = Dict NonceEntry

abbrev pub ttl_ms : ℕ
ttl_ms = 300000

-- An entry from the future of the clock counts as fresh, as its negative age does.
abbrev pub is_fresh : ℕ → NonceEntry → Bool
is_fresh now entry = ltb (now - entry.fetched_at) ttl_ms

abbrev pub handed : NonceEntry → ℕ
handed entry = entry.current + entry.pending_count

abbrev pub from_entry : String → ℕ → Option NonceEntry → NonceManager → Option (ℕ × NonceManager)
from_entry addr now none nonces = none
from_entry addr now (some entry) nonces =
    if is_fresh now entry
    then some (
      handed entry,
      insert addr (record entry { pending_count = suc entry.pending_count }) nonces,
    )
    else none

-- `none` where the chain is asked.
unfoldable pub cached_nonce : String → ℕ → NonceManager → Option (ℕ × NonceManager)
cached_nonce evm_address now nonces =
    let addr = to_lower_case evm_address in from_entry addr now (lookup addr nonces) nonces

unfoldable pub fetched_nonce : String → ℕ → ℕ → NonceManager → ℕ × NonceManager
fetched_nonce evm_address on_chain now nonces = (
  on_chain,
  insert (to_lower_case evm_address)
      (record { current = on_chain; pending_count = 1; fetched_at = now }) nonces,
)

abbrev released : NonceEntry → NonceEntry
released entry = record entry { pending_count = entry.pending_count - 1 }

abbrev release_entry : String → Option NonceEntry → NonceManager → NonceManager
release_entry addr none nonces = nonces
release_entry addr (some entry) nonces =
    if ltb 0 entry.pending_count then insert addr (released entry) nonces else nonces

-- The nonce itself is not looked at.
unfoldable pub release_nonce : String → ℕ → NonceManager → NonceManager
release_nonce evm_address nonce nonces =
    let addr = to_lower_case evm_address in release_entry addr (lookup addr nonces) nonces

abbrev pub without : String → NonceManager → NonceManager
without addr [] = []
without addr ((k, entry) ∷ nonces) =
    let rest = without addr nonces in if str_eq k addr then rest else (k, entry) ∷ rest

unfoldable pub reset_nonce : String → NonceManager → NonceManager
reset_nonce evm_address nonces = without (to_lower_case evm_address) nonces

-- Calls without an interruption at the await, each with its time and what the chain would say.
unfoldable pub get_next_nonce : String → ℕ → ℕ → NonceManager → ℕ × NonceManager
unfolding fetched_nonce
get_next_nonce evm_address on_chain now nonces = elim (cached_nonce evm_address now nonces) [
  | some answer ↦ answer
  | none ↦ fetched_nonce evm_address on_chain now nonces
]
