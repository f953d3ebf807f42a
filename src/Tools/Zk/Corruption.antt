-- ===== src/Tools/Zk/Corruption.antt =====
-- What the signers of src/signing make of the transactions of src/tools/zk.ts.
use eto_mcp.Tools.Zk.{write_u8, zk_message_bytes, build_zk_tx}
use eto_mcp.Prelude.{ℕ, ◌≡◌, refl, sym, some, List, [], ◌∷◌, ◌++◌, length, drop, le→ltb, arith}
use eto_mcp.Prelude.Result.{ok}
use eto_mcp.Wasm.Bytes.{zeros, write_u8}
use eto_mcp.Wasm.Signing.{Sign}
use eto_mcp.Wasm.Signing.Slots.{local_sign}
use eto_mcp.Wasm.Signing.Slots.Filling.{set_at-middle}

-- The bytes behind the header of the message.
abbrev pub headless : List ℕ → List ℕ
headless message = drop 3 message

-- Signing a ZK transaction corrupts it. It counts its signatures in one byte, the signer takes four:
-- it signs the message without its three header bytes, and its signature is written over the
-- header and leaves three bytes of the blank slot in front.
pub local_sign_corrupts :
    (sign : Sign) (key caller program instruction_data blockhash signature : List ℕ)
    → sign (headless (zk_message_bytes caller program instruction_data blockhash)) key
      ≡ some signature
    → length signature ≡ 64
    → local_sign sign key (build_zk_tx caller program instruction_data blockhash)
      ≡ ok (
          1
          ∷ 0
          ∷ 0
          ∷ 0
          ∷ (signature ++ headless (zk_message_bytes caller program instruction_data blockhash)))
unfolding local_sign build_zk_tx zk_message_bytes write_u8
local_sign_corrupts sign key caller program instruction_data blockhash signature e l =
    let rest : List ℕ = headless (zk_message_bytes caller program instruction_data blockhash) in
    let enough =
      le→ltb (length (build_zk_tx caller program instruction_data blockhash)) 4 (omega arith) in
    rw (
      enough,
      e,
      set_at-middle (1 ∷ 0 ∷ 0 ∷ 0 ∷ []) (zeros 61 ++ 1 ∷ 0 ∷ 1 ∷ []) signature rest 4 refl (sym l),
    )
