-- ===== src/Bank/Fixtures.antt =====
-- Keys for the tests of the bank's handlers.
use eto_mcp.Prelude.{ℕ, String, List}

abbrev pub alice : String
alice = "00112233445566778899aabbccddeeff00112233445566778899AABBCCDDEEFF"

abbrev pub bob : String
bob = "0000000000000000000000000000000000000000000000000000000000000001"

-- A stand-in for SHA-256 and for `JSON.stringify`.
abbrev pub digest : List ℕ → String
digest bytes = bob
