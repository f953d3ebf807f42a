-- ===== src/Wasm/ProgramIds.antt =====
-- The program ids of src/wasm/index.ts.
use eto_mcp.Prelude.{ℕ, zero, suc, List, [], ◌∷◌, ◌++◌}
use eto_mcp.Wasm.Bytes.{zeros}

-- `Array(n).fill(v)`
abbrev repeated : ℕ → ℕ → List ℕ
repeated zero v = []
repeated (suc n) v = v ∷ repeated n v

abbrev pub system_program_id : List ℕ
system_program_id = zeros 32

abbrev pub evm_program_id : List ℕ
evm_program_id = repeated 31 0xff ++ 0xee ∷ []

-- 30 bytes
abbrev pub wasm_program_id : List ℕ
wasm_program_id = repeated 29 0xff ++ 0x03 ∷ []

-- 30 bytes
abbrev pub move_program_id : List ℕ
move_program_id = repeated 29 0xff ++ 0x02 ∷ []

abbrev pub token_program_id : List ℕ
token_program_id =
    6 ∷ 221 ∷ 246 ∷ 225 ∷ 215 ∷ 101 ∷ 161 ∷ 147 ∷ 217 ∷ 203 ∷ 225 ∷ 70 ∷ 206 ∷ 235 ∷ 121 ∷ 172 ∷ 28
    ∷ 180 ∷ 133 ∷ 237 ∷ 95 ∷ 91 ∷ 55 ∷ 145 ∷ 58 ∷ 140 ∷ 245 ∷ 133 ∷ 126 ∷ 255 ∷ 0 ∷ 169 ∷ []

-- `bs58.decode("MemoSq4gqABAXKb96qnH8TysNcWxMyWCqXgDLGmfcHr")`
abbrev pub memo_program_id : List ℕ
memo_program_id =
    5 ∷ 74 ∷ 83 ∷ 90 ∷ 153 ∷ 41 ∷ 33 ∷ 6 ∷ 77 ∷ 36 ∷ 232 ∷ 113 ∷ 96 ∷ 218 ∷ 56 ∷ 124 ∷ 124 ∷ 53
    ∷ 181 ∷ 221 ∷ 188 ∷ 146 ∷ 187 ∷ 129 ∷ 228 ∷ 31 ∷ 168 ∷ 64 ∷ 65 ∷ 5 ∷ 68 ∷ 141 ∷ []

abbrev pub stake_program_id : List ℕ
stake_program_id =
    6 ∷ 161 ∷ 216 ∷ 23 ∷ 145 ∷ 55 ∷ 84 ∷ 42 ∷ 152 ∷ 52 ∷ 55 ∷ 189 ∷ 254 ∷ 42 ∷ 122 ∷ 178 ∷ 85 ∷ 127
    ∷ 83 ∷ 92 ∷ 138 ∷ 120 ∷ 114 ∷ 43 ∷ 104 ∷ 164 ∷ 157 ∷ 192 ∷ 0 ∷ 0 ∷ 0 ∷ 0 ∷ []

abbrev pub sysvar_rent_pubkey : List ℕ
sysvar_rent_pubkey =
    6 ∷ 167 ∷ 213 ∷ 23 ∷ 25 ∷ 44 ∷ 97 ∷ 55 ∷ 206 ∷ 224 ∷ 146 ∷ 217 ∷ 182 ∷ 146 ∷ 62 ∷ 225 ∷ 204
    ∷ 214 ∷ 25 ∷ 3 ∷ 250 ∷ 130 ∷ 184 ∷ 161 ∷ 98 ∷ 201 ∷ 252 ∷ 166 ∷ 0 ∷ 0 ∷ 0 ∷ 0 ∷ []

abbrev pub agent_program_id : List ℕ
agent_program_id =
    166 ∷ 231 ∷ 1 ∷ 0 ∷ 0 ∷ 0 ∷ 0 ∷ 0 ∷ 0 ∷ 0 ∷ 0 ∷ 0 ∷ 0 ∷ 0 ∷ 0 ∷ 0 ∷ 0 ∷ 0 ∷ 0 ∷ 0 ∷ 0 ∷ 0 ∷ 0
    ∷ 0 ∷ 0 ∷ 0 ∷ 0 ∷ 0 ∷ 0 ∷ 0 ∷ 174 ∷ 1 ∷ []

abbrev pub a2a_program_id : List ℕ
a2a_program_id =
    162 ∷ 160 ∷ 1 ∷ 0 ∷ 0 ∷ 0 ∷ 0 ∷ 0 ∷ 0 ∷ 0 ∷ 0 ∷ 0 ∷ 0 ∷ 0 ∷ 0 ∷ 0 ∷ 0 ∷ 0 ∷ 0 ∷ 0 ∷ 0 ∷ 0 ∷ 0
    ∷ 0 ∷ 0 ∷ 0 ∷ 0 ∷ 0 ∷ 0 ∷ 0 ∷ 162 ∷ 1 ∷ []

abbrev pub mcp_program_id : List ℕ
mcp_program_id =
    188 ∷ 208 ∷ 1 ∷ 0 ∷ 0 ∷ 0 ∷ 0 ∷ 0 ∷ 0 ∷ 0 ∷ 0 ∷ 0 ∷ 0 ∷ 0 ∷ 0 ∷ 0 ∷ 0 ∷ 0 ∷ 0 ∷ 0 ∷ 0 ∷ 0 ∷ 0
    ∷ 0 ∷ 0 ∷ 0 ∷ 0 ∷ 0 ∷ 0 ∷ 0 ∷ 188 ∷ 1 ∷ []

abbrev pub swarm_program_id : List ℕ
swarm_program_id =
    90 ∷ 175 ∷ 1 ∷ 0 ∷ 0 ∷ 0 ∷ 0 ∷ 0 ∷ 0 ∷ 0 ∷ 0 ∷ 0 ∷ 0 ∷ 0 ∷ 0 ∷ 0 ∷ 0 ∷ 0 ∷ 0 ∷ 0 ∷ 0 ∷ 0 ∷ 0 ∷ 0
    ∷ 0 ∷ 0 ∷ 0 ∷ 0 ∷ 0 ∷ 0 ∷ 90 ∷ 1 ∷ []

abbrev pub bpf_loader_program_id : List ℕ
bpf_loader_program_id =
    2 ∷ 168 ∷ 246 ∷ 145 ∷ 230 ∷ 44 ∷ 162 ∷ 234 ∷ 255 ∷ 0 ∷ 0 ∷ 0 ∷ 0 ∷ 0 ∷ 0 ∷ 0 ∷ 0 ∷ 0 ∷ 0 ∷ 0 ∷ 0
    ∷ 0 ∷ 0 ∷ 0 ∷ 0 ∷ 0 ∷ 0 ∷ 0 ∷ 0 ∷ 0 ∷ 0 ∷ 0 ∷ []
