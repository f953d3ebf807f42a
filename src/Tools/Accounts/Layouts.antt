-- ===== src/Tools/Accounts/Layouts.antt =====
-- The account of src/tools/mcp-program.ts in the layout that the file documents.
use eto_mcp.Tools.Accounts.RoundTrip.{IsText, skip_8}
use eto_mcp.Tools.Accounts.{parse_tool_state}
use eto_mcp.Prelude.{
  ℕ, suc, ◌+◌, ◌*◌, ◌^◌, ◌<◌, ◌≡◌, refl, sym, some, Bool, true, false, List, [], ◌∷◌, ◌++◌, map,
  length, length-append, ltb, le→ltb, drop, drop-append, All, arith,
}
use eto_mcp.Wasm.{Encode58}
use eto_mcp.Wasm.Bytes.{write_u8, write_u32_le, write_u64_le, write_vec}
use eto_mcp.Wasm.RoundTrip.Reads.{joined, HasLength}
use eto_mcp.Wasm.RoundTrip.Writes.{itself}
use eto_mcp.Tools.Borsh.{borsh_string, borsh_bool}
use eto_mcp.Tools.Borsh.Reads.{
  borsh_u8-write_u8, borsh_u32-write_u32_le, borsh_u64-write_u64_le, borsh_string-write_vec,
  borsh_pubkey-append, borsh_many-joined,
}

-- As many equal parts as a count says are skipped.
length-parts :
    (n : ℕ) (parts : List (List ℕ))
    → All (HasLength n) parts
    → length (joined itself parts) ≡ length parts * n
unfolding joined
length-parts n [] h = omega arith
length-parts n (part ∷ parts) (p, h) =
    let whole = length-append part (joined itself parts) in
    let later = length-parts n parts h in
    let next : suc (length parts) * n ≡ length parts * n + n = omega arith in omega arith

pub skip_parts :
    (n : ℕ) (parts : List (List ℕ)) (rest : List ℕ)
    → All (HasLength n) parts
    → drop (length parts * n) (joined itself parts ++ rest) ≡ rest
skip_parts n parts rest h =
    rw (sym (length-parts n parts h)) (drop-append (joined itself parts) rest)

abbrev pub bit : Bool → ℕ
bit true = 1
bit false = 0

borsh_bool-bit : (b : Bool) (rest : List ℕ) → borsh_bool (write_u8 (bit b) ++ rest) ≡ some (b, rest)
unfolding borsh_bool
borsh_bool-bit true rest = rw (borsh_u8-write_u8 1 rest (omega arith))
borsh_bool-bit false rest = rw (borsh_u8-write_u8 0 rest (omega arith))

itself_text : (xs : List (List ℕ)) → map (λ (x : List ℕ). x) xs ≡ xs
itself_text [] = refl
itself_text (x ∷ xs) = rw (itself_text xs)

-- A tool's account. Behind the count of its invocations stands a part that is not read.
pub record ToolLayout : Type 0 where
  pub discriminator : List ℕ
  pub owner : List ℕ
  pub target_program : List ℕ
  pub name : List ℕ
  pub description : List ℕ
  pub input_schema_uri : List ℕ
  pub output_schema_uri : List ℕ
  pub tags : List (List ℕ)
  pub access_control : ℕ
  pub allowlist : List (List ℕ)
  pub is_active : Bool
  pub invocation_count : ℕ
  pub remainder : List ℕ

unfoldable pub write_tool : ToolLayout → List ℕ
write_tool t =
    t.discriminator
    ++ (t.owner
        ++ (t.target_program
            ++ (write_vec t.name
                ++ (write_vec t.description
                    ++ (write_vec t.input_schema_uri
                        ++ (write_vec t.output_schema_uri
                            ++ (write_u32_le (length t.tags)
                                ++ (joined write_vec t.tags
                                    ++ (write_u8 t.access_control
                                        ++ (write_u32_le (length t.allowlist)
                                            ++ (joined itself t.allowlist
                                                ++ (write_u8 (bit t.is_active)
                                                    ++ (write_u64_le t.invocation_count
                                                        ++ t.remainder)))))))))))))

abbrev pub IsTool : ToolLayout → Type 0
IsTool t =
    HasLength 8 t.discriminator
    × HasLength 32 t.owner
    × HasLength 32 t.target_program
    × IsText t.name
    × IsText t.description
    × IsText t.input_schema_uri
    × IsText t.output_schema_uri
    × (length t.tags < 2 ^ 32)
    × All IsText t.tags
    × (t.access_control < 256)
    × (length t.allowlist < 2 ^ 32)
    × All (HasLength 32) t.allowlist
    × (t.invocation_count < 2 ^ 64)

longer :
    (discriminator k0 k1 rest : List ℕ)
    → HasLength 8 discriminator
    → HasLength 32 k0
    → HasLength 32 k1
    → ltb (length (discriminator ++ (k0 ++ (k1 ++ rest)))) 72 ≡ false
longer discriminator k0 k1 rest h k l = le→ltb _ 72 (
    omega (
      arith,
      length-append discriminator (k0 ++ (k1 ++ rest)),
      length-append k0 (k1 ++ rest),
      length-append k1 rest,
    ))

-- `parseToolState` reads a tool's account in the documented layout as what it holds.
pub parse_tool_state-write_tool :
    (encode58 : Encode58) (t : ToolLayout)
    → IsTool t
    → parse_tool_state encode58 (write_tool t)
      ≡ some (record {
        owner = encode58 t.owner;
        target_program = encode58 t.target_program;
        name = t.name;
        description = t.description;
        input_schema_uri = t.input_schema_uri;
        output_schema_uri = t.output_schema_uri;
        tags = t.tags;
        access_control = t.access_control;
        allowlist_count = length t.allowlist;
        is_active = t.is_active;
        invocation_count = t.invocation_count;
      })
unfolding parse_tool_state write_tool
parse_tool_state-write_tool encode58 t (h0, h1, h2, h3, h4, h5, h6, h7, h8, h9, h10, h11, h12) =
    let t12 : List ℕ = write_u64_le t.invocation_count ++ t.remainder in
    let t11 : List ℕ = write_u8 (bit t.is_active) ++ t12 in
    let t10 : List ℕ = joined itself t.allowlist ++ t11 in
    let t9 : List ℕ = write_u32_le (length t.allowlist) ++ t10 in
    let t8 : List ℕ = write_u8 t.access_control ++ t9 in
    let t7 : List ℕ = joined write_vec t.tags ++ t8 in
    let t6 : List ℕ = write_u32_le (length t.tags) ++ t7 in
    let t5 : List ℕ = write_vec t.output_schema_uri ++ t6 in
    let t4 : List ℕ = write_vec t.input_schema_uri ++ t5 in
    let t3 : List ℕ = write_vec t.description ++ t4 in
    let t2 : List ℕ = write_vec t.name ++ t3 in
    let t1 : List ℕ = t.target_program ++ t2 in
    rw (
      longer t.discriminator t.owner t.target_program t2 h0 h1 h2,
      skip_8 t.discriminator (t.owner ++ t1) h0,
      borsh_pubkey-append encode58 t.owner t1 h1,
      borsh_pubkey-append encode58 t.target_program t2 h2,
      borsh_string-write_vec t.name t3 h3,
      borsh_string-write_vec t.description t4 h4,
      borsh_string-write_vec t.input_schema_uri t5 h5,
      borsh_string-write_vec t.output_schema_uri t6 h6,
      borsh_u32-write_u32_le (length t.tags) t7 h7,
      borsh_many-joined borsh_string write_vec (λ (x : List ℕ). x) IsText borsh_string-write_vec
          t.tags t8 h8,
      itself_text,
      borsh_u8-write_u8 t.access_control t9 h9,
      borsh_u32-write_u32_le (length t.allowlist) t10 h10,
      skip_parts 32 t.allowlist t11 h11,
      borsh_bool-bit t.is_active t12,
      borsh_u64-write_u64_le t.invocation_count t.remainder h12,
    )
