-- ===== src/Tools/Accounts/RoundTrip.antt =====
-- Accounts in the layout that src/tools/agent.ts documents are read back.
use eto_mcp.Tools.Borsh.Reads.{
  borsh_pubkey-append, borsh_u8-write_u8, borsh_u64-write_u64_le, borsh_string-write_vec,
}
use eto_mcp.Tools.Accounts.{
  Encode58, parse_agent_state, HumanAuthority, read_human_authority, read_extension,
}
use eto_mcp.Prelude.{
  sym, ℕ, ◌^◌, ◌<◌, ◌≡◌, refl, Option, none, some, false, List, [], ◌++◌, length, length-append,
  ltb, le→ltb, drop, drop-append, arith,
}
use eto_mcp.Wasm.Bytes.{write_u8, write_u64_le, write_vec}
use eto_mcp.Wasm.RoundTrip.Reads.{HasLength}
use eto_mcp.Tools.Borsh.{borsh_u8}
use mathlib.Core.List.{append-nil}

-- The first eight bytes are skipped, and the key behind them makes up the least length.
pub skip_8 :
    (discriminator rest : List ℕ)
    → HasLength 8 discriminator
    → drop 8 (discriminator ++ rest) ≡ rest
skip_8 discriminator rest h = rw (sym h) (drop-append discriminator rest)

pub long_account :
    (discriminator key rest : List ℕ)
    → HasLength 8 discriminator
    → HasLength 32 key
    → ltb (length (discriminator ++ (key ++ rest))) 40 ≡ false
long_account discriminator key rest h k =
    let whole = length-append discriminator (key ++ rest) in
    le→ltb _ 40 (omega (arith, whole, length-append key rest))

abbrev pub IsText : List ℕ → Type 0
IsText bytes = length bytes < 2 ^ 32

abbrev pub IsAuthority : HumanAuthority → Type 0
IsAuthority h = IsText h.strategy × IsText h.sub × (h.slot < 2 ^ 64)

-- What follows the status: nothing in an older account; since version 1 a version and a human.
pub data Extension : Type 0 where
  older : Extension
  versioned : (version : ℕ) → Option HumanAuthority → Extension

abbrev pub write_human : Option HumanAuthority → List ℕ
write_human none = write_u8 0
write_human (some h) =
    write_u8 1 ++ (write_vec h.strategy ++ (write_vec h.sub ++ write_u64_le h.slot))

abbrev pub write_extension : Extension → List ℕ
write_extension older = []
write_extension (versioned version human) = write_u8 version ++ write_human human

abbrev pub IsExtension : Extension → Type 0
IsExtension older = Unit
IsExtension (versioned version none) = version < 256
IsExtension (versioned version (some h)) = (version < 256) × IsAuthority h

abbrev pub extension_of : Extension → ℕ × Option HumanAuthority
extension_of older = (0, none)
extension_of (versioned version human) = (version, human)

no_human : read_human_authority (write_u8 0) ≡ none
unfolding read_human_authority write_u8 borsh_u8
no_human = refl

some_human :
    (h : HumanAuthority) → IsAuthority h → read_human_authority (write_human (some h)) ≡ some h
unfolding read_human_authority
some_human h (p, q, r) = rw (
  borsh_u8-write_u8 1 (write_vec h.strategy ++ (write_vec h.sub ++ write_u64_le h.slot))
      (omega arith),
  borsh_string-write_vec h.strategy (write_vec h.sub ++ write_u64_le h.slot) p,
  borsh_string-write_vec h.sub (write_u64_le h.slot) q,
  rw append-nil at (borsh_u64-write_u64_le h.slot [] r),
)

read_extension-write_extension :
    (e : Extension) → IsExtension e → read_extension (write_extension e) ≡ extension_of e
unfolding read_extension
read_extension-write_extension older h = unfold borsh_u8 in refl
read_extension-write_extension (versioned version none) h =
    rw (borsh_u8-write_u8 version (write_u8 0) h, read_extension, no_human)
read_extension-write_extension (versioned version (some a)) (h, k) =
    rw (borsh_u8-write_u8 version (write_human (some a)) h, read_extension, some_human a k)

-- An agent's account, as its layout is documented.
pub record AgentLayout : Type 0 where
  pub discriminator : List ℕ
  pub authority : List ℕ
  pub name : List ℕ
  pub model_id : List ℕ
  pub metadata_uri : List ℕ
  pub reputation : ℕ
  pub status : ℕ
  pub extension : Extension

unfoldable pub write_agent : AgentLayout → List ℕ
write_agent a =
    a.discriminator
    ++ (a.authority
        ++ (write_vec a.name
            ++ (write_vec a.model_id
                ++ (write_vec a.metadata_uri
                    ++ (write_u64_le a.reputation
                        ++ (write_u8 a.status ++ write_extension a.extension))))))

abbrev pub IsAgent : AgentLayout → Type 0
IsAgent a =
    HasLength 8 a.discriminator
    × HasLength 32 a.authority
    × IsText a.name
    × IsText a.model_id
    × IsText a.metadata_uri
    × (a.reputation < 2 ^ 64)
    × (a.status < 256)
    × IsExtension a.extension

-- `parseAgentState` reads an account in the documented layout as what it holds: without the
-- extension as version 0 with no human, and with it as the version and the human that are there.
pub parse_agent_state-write_agent :
    (encode58 : Encode58) (a : AgentLayout)
    → IsAgent a
    → parse_agent_state encode58 (write_agent a)
      ≡ some (record {
        authority = encode58 a.authority;
        name = a.name;
        model_id = a.model_id;
        metadata_uri = a.metadata_uri;
        reputation = a.reputation;
        status_byte = a.status;
        schema_version = (extension_of a.extension).0;
        human_authority = (extension_of a.extension).1;
      })
unfolding parse_agent_state write_agent
parse_agent_state-write_agent encode58 a (h0, h1, h2, h3, h4, h5, h6, h7) =
    let t6 : List ℕ = write_extension a.extension in
    let t5 : List ℕ = write_u8 a.status ++ t6 in
    let t4 : List ℕ = write_u64_le a.reputation ++ t5 in
    let t3 : List ℕ = write_vec a.metadata_uri ++ t4 in
    let t2 : List ℕ = write_vec a.model_id ++ t3 in
    let t1 : List ℕ = write_vec a.name ++ t2 in
    rw (
      long_account a.discriminator a.authority t1 h0 h1,
      skip_8 a.discriminator (a.authority ++ t1) h0,
      borsh_pubkey-append encode58 a.authority t1 h1,
      borsh_string-write_vec a.name t2 h2,
      borsh_string-write_vec a.model_id t3 h3,
      borsh_string-write_vec a.metadata_uri t4 h4,
      borsh_u64-write_u64_le a.reputation t5 h5,
      borsh_u8-write_u8 a.status t6 h6,
      read_extension-write_extension a.extension h7,
    )
