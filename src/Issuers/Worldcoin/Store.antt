-- ===== src/Issuers/Worldcoin/Store.antt =====
-- `InMemoryNullifierStore` of src/issuers/worldcoin.ts: a Map from normalized nullifiers.
use eto_mcp.Prelude.{Option, some, none, String, is_some, if◌then◌else◌}
use eto_mcp.Prelude.Dict.{Dict, lookup, insert}
use eto_mcp.Issuers.Worldcoin.Types.{NullifierBinding, normalize_hex}

abbrev pub NullifierStore : Type 0
NullifierStore = Dict NullifierBinding

unfoldable pub get_binding : String → NullifierStore → Option NullifierBinding
get_binding nullifier_hash store = lookup (normalize_hex nullifier_hash) store

-- A key that is bound throws and leaves the store alone.
unfoldable pub put_binding : NullifierBinding → NullifierStore → Option NullifierStore
put_binding binding store =
    let key = normalize_hex binding.nullifier_hash in
    if is_some (lookup key store) then none else some (insert key binding store)
