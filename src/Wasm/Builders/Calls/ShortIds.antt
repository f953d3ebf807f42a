-- ===== src/Wasm/Builders/Calls/ShortIds.antt =====
-- src/wasm/index.ts: `buildWasmDeployTx` and `buildMoveDeployTx`, whose program ids are 30 bytes.
use eto_mcp.Prelude.{ℕ, ◌≡◌, refl, true, List, [], ◌∷◌, arith, inl, inr, ◌⊎◌}
use eto_mcp.Prelude.Result.{Always, Result-cases, returned, err}
use eto_mcp.Wasm.{Decode58, WasmError, expected_32_bytes}
use eto_mcp.Wasm.Bytes.{write_fixed_bytes32}
use eto_mcp.Wasm.Message.{
  Message, unsigned_transaction, serialize_transaction, serialize_message, write_keys,
  write_signatures, blank_signatures, CompiledInstruction, build_message,
}
use eto_mcp.Wasm.ProgramIds.{wasm_program_id, move_program_id}
use eto_mcp.Wasm.RoundTrip.Reads.{HasLength}
use eto_mcp.Wasm.Builders.Calls.{BuilderCall, message_of, build, wasm_deploy, move_deploy}
use eto_mcp.Wasm.Builders.Deploys.{wasm_deploy_message, move_deploy_message}
use eto_mcp.Wasm.Builders.Calls.Facts.{after_key}
use eto_mcp.Wasm.Builders.Calls.Intent.{uses_short_id}
use eto_mcp.Wasm.Builders.Calls.Every.{build-message_of}

short_key :
    (k0 id b : List ℕ) (ixs : List CompiledInstruction)
    → HasLength 32 k0
    → HasLength 30 id
    → unsigned_transaction (build_message (k0 ∷ id ∷ []) b ixs 1 0 1) ≡ err (expected_32_bytes 30)
unfolding unsigned_transaction serialize_transaction serialize_message write_keys write_signatures
    write_fixed_bytes32 blank_signatures
short_key k0 id b ixs h k = ground arith

abbrev IsRefused : Message → Type 0
IsRefused msg = unsigned_transaction msg ≡ err (expected_32_bytes 30)

short-IsRefused :
    (decode58 : Decode58) (call : BuilderCall)
    → uses_short_id call ≡ true
    → Always IsRefused (message_of decode58 call)
unfolding uses_short_id message_of wasm_deploy_message move_deploy_message
short-IsRefused decode58 (wasm_deploy deployer wasm_bytes recent_blockhash) h =
    after_key decode58 IsRefused deployer recent_blockhash _
      (λ k0 b e0 l0 lb. returned IsRefused _ (short_key k0 wasm_program_id b _ l0 refl))
short-IsRefused decode58 (move_deploy deployer move_bytes recent_blockhash) h =
    after_key decode58 IsRefused deployer recent_blockhash _
      (λ k0 b e0 l0 lb. returned IsRefused _ (short_key k0 move_program_id b _ l0 refl))
short-IsRefused decode58 _ h = cc

-- `buildWasmDeployTx` and `buildMoveDeployTx` throw on every input: that a program id is not 32
-- bytes long, or, before that, what is wrong with the deployer's key or the blockhash.
pub deploy_refused :
    (decode58 : Decode58) (call : BuilderCall)
    → uses_short_id call ≡ true
    → (build decode58 call ≡ err (expected_32_bytes 30))
      ⊎ ((e : WasmError) × (message_of decode58 call ≡ err e) × (build decode58 call ≡ err e))
deploy_refused decode58 call h = elim (Result-cases (message_of decode58 call)) [
  | inl (e, m) ↦ inr (e, m, rw (build-message_of decode58 call, m))
  | inr (msg, m) ↦
      inl (rw (build-message_of decode58 call, m) (short-IsRefused decode58 call h msg m))
]
