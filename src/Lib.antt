-- ===== src/Lib.antt =====
-- Verification library of eto-mcp: the bank keeper (keeper/bpps/bank), the wire format, builders
-- and signers of transactions (src/wasm/index.ts, src/signing), the envelopes and accounts of
-- the tools (src/tools), the Worldcoin issuer (src/issuers/worldcoin.ts), the base 58 decoder of
-- the Civic issuer (src/issuers/civic.ts), the sessions and the OAuth provider of the gateway
-- (src/gateway/session.ts, oauth-provider.ts), the verifier of counterparties
-- (src/a2a/counterparty-verifier.ts), and of src/write the nonce manager and the simulator's
-- reader.
--
-- The repository is an MCP server for a blockchain with the services around it. One part that is
-- modelled is the bank keeper, a BPP that moves dollars and eUSD. Its handlers check a request,
-- call their dependencies (the chain, payment rails, ledgers) in a fixed order, and answer or
-- reject. The mock USD ledger keeps the dollar balances in memory and in a JSON file, and runs
-- its methods one after the other in a queue. The credential ledger keeps the credentials that
-- were issued. Another is the Worldcoin issuer, which checks a proof that a card's owner is
-- human and issues the credential that the bank asks of its customers. The nonce manager hands
-- out the nonces of EVM transactions ahead of the chain. The gateway hands out session tokens by
-- the OAuth flow and reads them back, and an agent checks the attestation of another with its
-- published keys. A tool of the server builds the bytes of an unsigned transaction, with a
-- builder of the wasm module or by hand, a signer fills its signature slots, and the chain, the
-- decoder and the simulator read it.
--
-- Which file models what, with paths from the repository's root:
--   Prelude           shared names. Number has the numbers of JavaScript that tests tell apart, and
--                     f64 for the rounding of sums past 2^53; Text has hexadecimal texts and UTF-8;
--                     Dict is a Map or an object with text keys; Json is what JSON.parse gives.
--   Bank/Ledger       keeper/bpps/bank/mock-usd-ledger.ts: Snapshot has the data, Schema the zod
--                     schemas and the written JSON, Queue the promise chain of `enqueue` as steps
--                     submit, settle, begin and written. The file is the JSON value that was last
--                     written, and each method takes whether its write succeeds.
--   Effects           an async handler as a function from the history of the dependency calls to its
--                     result and the longer history. The history holds the last call first, each with
--                     its arguments and its answer, and an answer may depend on all of the history,
--                     so that a dependency may be any stateful service. `rejected` is the handler's
--                     own error class, `uncaught` is an error of a dependency that it lets through.
--   Bank/Digest       createHash('sha256') as a parameter, Buffer.from(x, 'hex') and the eight bytes of
--                     a slot or an amount; addresses are hashes of the bytes given there.
--   Bank/Fee          keeper/bpps/bank/handlers/fee.ts
--   Bank/Auth         assertCallerEquals of keeper/bpps/bank/auth.ts
--   Bank/Onramp       keeper/bpps/bank/handlers/onramp.ts
--   Bank/Offramp      keeper/bpps/bank/handlers/offramp.ts
--   Bank/Wire         keeper/bpps/bank/handlers/wire.ts
--   Bank/Checking     keeper/bpps/bank/handlers/open-checking.ts
--   Bank/Savings      keeper/bpps/bank/handlers/open-savings.ts
--   Bank/Card         issueCard of keeper/bpps/bank/handlers/issue-card.ts
--   Bank/CredentialLedger  keeper/bpps/bank/credential-ledger.ts
--   Issuers/Worldcoin  src/issuers/worldcoin.ts and worldcoin.types.ts: Types has the records, Store
--                     InMemoryNullifierStore, Checks the checks between the awaits. A Stage is an
--                     await of `issue`; `resume` goes from one to the next, `run` and `issue` do so
--                     without interruption, and the steps of Concurrency resume any request that
--                     waits. The chain is the list of the credentials that it has issued.
--                     Claims has what the checks leave true of a token and of a proof.
--   Issuers/Base58    base58Decode of src/issuers/civic.ts; Value and Digits have the
--                     numbers on both sides, Injectivity compares two texts.
--   Write/Nonces      src/write/nonce-manager.ts: `getNextNonce` is cut at its await into cached_nonce and
--                     fetched_nonce, and get_next_nonce is both without an interruption.
--   Wasm              src/wasm/index.ts. Bytes has the writers, Message serializeMessage,
--                     serializeTransaction and unsignedTransaction, Decode decodeTransaction and decodeUth,
--                     ProgramIds the keys of the programs, Rlp the encoding of EVM transactions (with a
--                     reader that it is compared with), Builders each build...Tx in two
--                     steps: the message, and its bytes; Transfers, Tokens, Stakes, Agents, Tools, Swarms,
--                     Deploys and Evm follow the sections of the file. Calls lists all the builders
--                     as one type, for what they have in common: Intent has their arguments, Facts and
--                     what follows it their proofs. Signing has signTransaction, and Slots LocalSigner and
--                     FrostSigner of src/signing and the two signatures of src/tools/staking.ts.
--   Tools             src/tools: Envelopes the transactions that agent.ts, swarm.ts, a2a.ts and
--                     mcp-program.ts write by hand, Zk that of zk.ts, Accounts the accounts that they
--                     parse, Borsh src/utils/borsh-reader.ts, Addresses the derived addresses.
--   Write/Simulator   extractAccountKeys of src/write/simulator.ts
--   Gateway/Session   src/gateway/session.ts; Codec has the HMAC, base 64 and the JSON of a payload.
--   Gateway/OAuth     src/gateway/oauth-provider.ts, with atomicWriteJson of persisted-store.ts: Store has
--                     the tables in memory and in their files and what a start reads, Codes the clients
--                     and the authorization codes, Refresh the refresh tokens, and Steps the calls as
--                     transitions of the tables. Each call takes which of its writes succeed: a write
--                     that fails leaves the file as it was and throws, after the memory was changed.
--                     Changes and Keeping lift a property of single changes to any calls, Saved
--                     compares memory and files, and Replay, Families, Reuse and Replayed follow a
--                     family of tokens.
--   A2a               src/a2a/counterparty-verifier.ts; Jwks has fetchJwksWithCache and the key of an id. What
--                     the endpoint and the token hold may be any JSON, and a TypeError is `thrown`.
-- Under each handler of the bank, Request has the request and its guards, Acceptance when they
-- let a request through, Settlement which calls are made, Address what an address is derived
-- from, Conservation and Escrow what the amounts add up to, and Tests runs and the theorems at
-- concrete inputs.
--
-- Bounds and fuel: amounts and slots are natural numbers, and where the source adds or
-- multiplies beyond the safe integers the rounding of doubles is written out. f64 looks for the
-- exponent with a fuel of 971, as many halvings as any finite double needs. `run` of the
-- Worldcoin issuer takes the list of the answers to come; eight of them settle any request. The
-- carry of base58Decode is its own fuel, since it shrinks with each byte. The hexadecimal digits
-- of a number are computed with the number as the fuel, one digit for each division. The amounts
-- of a transaction are natural numbers, masked to their width as the writers do; negative ones
-- are outside the types of the tools. A text is the list of its bytes where the code only copies
-- it. A compact count of the simulator of more than four bytes, where 32-bit shifts wrap, is
-- `none`.
--
-- Not modelled: SHA-256, JSON.stringify of a nested object and the text of error messages are
-- parameters or left out, and so are the verifiers, the pinning and the chain client of the
-- issuer, whose answers are arbitrary; the dispatcher of the bank answers with stubs; bs58,
-- Ed25519, Keccak-256 and the FROST service are parameters, with the laws that a proof needs as
-- hypotheses; parameters of a builder that it does not use are left out. Account names of the
-- ledger like `__proto__`, the interleaving of two fetches of one key set, a signed oauth_state
-- that is read as a session, and a chain call that throws after it issued are outside of the
-- models. The rest of the repository (the Beckn side of the gateway, the other issuers, the
-- indexer, the handlers of the tools) is listed in the manifest.
pub mod Prelude
pub mod Effects
pub mod Bank
pub mod Issuers
pub mod Write
pub mod Wasm
pub mod Tools
pub mod Gateway
pub mod A2a
