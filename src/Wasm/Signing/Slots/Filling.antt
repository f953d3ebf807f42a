-- ===== src/Wasm/Signing/Slots/Filling.antt =====
-- The signers of src/signing fill the first slot and leave the message and the other slots.
use eto_mcp.Prelude.{
  ℕ, suc, ◌+◌, ◌*◌, ◌^◌, ◌<◌, ◌≤◌, ◌≡◌, refl, sym, ◌∙◌, false, some, List, [], ◌∷◌, ◌++◌, String,
  length, length-append, take, drop, take-append, drop-append, All, ltb, arith, le→leb,
}
use eto_mcp.Prelude.Text.{codes, hex_bytes}
use eto_mcp.Prelude.Result.{ok}
use eto_mcp.Wasm.Bytes.{write_u32_le}
use eto_mcp.Wasm.Message.{Message, serialize_message, serialize_transaction}
use eto_mcp.Wasm.RoundTrip.Reads.{joined, HasLength}
use eto_mcp.Wasm.RoundTrip.Writes.{
  itself, serialize_transaction_ok, serialize_message_ok, serialize_transaction-written,
}
use eto_mcp.Wasm.Signing.{Sign}
use eto_mcp.Wasm.Signing.Unsigned.{length-joined_64, skip_signatures, count_read, long_enough}
use eto_mcp.Wasm.Signing.Slots.{set_at, message_part, local_sign, sign_create_stake}
use mathlib.Core.List.{append_assoc}

-- The bytes in the middle are replaced by as many others.
pub set_at-middle :
    (front old new back : List ℕ) (n : ℕ)
    → length front ≡ n
    → length old ≡ length new
    → set_at n new (front ++ (old ++ back)) ≡ some (front ++ (new ++ back))
unfolding set_at
set_at-middle front old new back n e k =
    let behind : drop (n + length new) (front ++ (old ++ back)) ≡ back =
      let whole : n + length new ≡ length (front ++ old) = omega (arith, length-append front old) in
      rw (whole, sym (append_assoc front old back)) (drop-append (front ++ old) back) in
    let before : take n (front ++ (old ++ back)) ≡ front =
      rw (sym e) (take-append front (old ++ back)) in
    let fits : n + length new ≤ length (front ++ (old ++ back)) =
      omega (arith, length-append front (old ++ back), length-append old back) in
    rw (le→leb _ _ fits, before, behind)

joined-append :
    (xs ys : List (List ℕ)) → joined itself (xs ++ ys) ≡ joined itself xs ++ joined itself ys
unfolding joined
joined-append [] ys = refl
joined-append (x ∷ xs) ys = rw (joined-append xs ys, append_assoc)

-- A transaction's bytes, with a slot among the others.
slots : List (List ℕ) → List ℕ → List ℕ
slots sigs bytes = write_u32_le (length sigs) ++ (joined itself sigs ++ bytes)

slots_around :
    (before : List (List ℕ)) (sig : List ℕ) (behind : List (List ℕ)) (bytes : List ℕ)
    → slots (before ++ sig ∷ behind) bytes
      ≡ (write_u32_le (suc (length before + length behind)) ++ joined itself before)
        ++ (sig ++ (joined itself behind ++ bytes))
unfolding slots joined
slots_around before sig behind bytes =
    let count : length (before ++ sig ∷ behind) ≡ suc (length before + length behind) =
      omega (arith, length-append before (sig ∷ behind)) in
    rw (count, joined-append before (sig ∷ behind)) (simp append_assoc)

length-front :
    (n : ℕ) (before : List (List ℕ))
    → All (HasLength 64) before
    → length (write_u32_le n ++ joined itself before) ≡ 4 + length before * 64
unfolding write_u32_le
length-front n before h = omega (arith, length-joined_64 before h)

-- Writing behind the count and k slots replaces the slot that stands there.
set_at-slots :
    (before : List (List ℕ)) (old new : List ℕ) (behind : List (List ℕ)) (bytes : List ℕ) (n : ℕ)
    → All (HasLength 64) before
    → length old ≡ length new
    → n ≡ 4 + length before * 64
    → set_at n new (slots (before ++ old ∷ behind) bytes)
      ≡ some (slots (before ++ new ∷ behind) bytes)
set_at-slots before old new behind bytes n h k e =
    let front : List ℕ =
      write_u32_le (suc (length before + length behind)) ++ joined itself before in
    rw (slots_around before old behind bytes, slots_around before new behind bytes)
      (set_at-middle front old new (joined itself behind ++ bytes) n
        (omega (arith, length-front (suc (length before + length behind)) before h)) k)

-- What is read off the bytes of a transaction.
message_part-slots :
    (sigs : List (List ℕ)) (bytes : List ℕ)
    → All (HasLength 64) sigs
    → length sigs < 2 ^ 32
    → message_part (slots sigs bytes) ≡ bytes
unfolding slots
message_part-slots sigs bytes h k =
    rw (count_read (length sigs) (joined itself sigs ++ bytes) k) (skip_signatures sigs bytes h)

slots_enough : (sigs : List (List ℕ)) (bytes : List ℕ) → ltb (length (slots sigs bytes)) 4 ≡ false
unfolding slots
slots_enough sigs bytes = long_enough (length sigs) (joined itself sigs ++ bytes)

sign-slots :
    (sign : Sign) (key first signature : List ℕ) (others : List (List ℕ)) (bytes : List ℕ)
    → All (HasLength 64) (first ∷ others)
    → length (first ∷ others) < 2 ^ 32
    → sign bytes key ≡ some signature
    → length signature ≡ 64
    → local_sign sign key (slots (first ∷ others) bytes) ≡ ok (slots (signature ∷ others) bytes)
unfolding local_sign
sign-slots sign key first signature others bytes h few s l = rw (
  slots_enough (first ∷ others) bytes,
  message_part-slots (first ∷ others) bytes h few,
  s,
  set_at-slots [] first signature others bytes 4 tt (h.0 ∙ sym l) refl,
)

module _ (msg : Message) (bytes : List ℕ) (serialized : serialize_message msg ≡ ok bytes) where
  written :
      (sigs : List (List ℕ)) (tx : List ℕ)
      → serialize_transaction msg sigs ≡ ok tx
      → All (HasLength 64) sigs × (tx ≡ slots sigs bytes)
  unfolding slots
  written sigs tx e =
      let (s, l, w) = serialize_transaction_ok msg sigs tx e in
      let (l, b) = serialize_message_ok msg bytes serialized in (s, cc)

  rewritten :
      (sigs : List (List ℕ))
      → All (HasLength 64) sigs
      → serialize_transaction msg sigs ≡ ok (slots sigs bytes)
  unfolding slots
  rewritten sigs h =
      let (l, b) = serialize_message_ok msg bytes serialized in
      cc (serialize_transaction-written msg sigs l h)

  -- `LocalSigner.sign` puts the signature of the message's bytes into the first slot, and leaves the
  -- message and the other slots as they are.
  pub local_sign_fills :
      (sign : Sign) (key first signature : List ℕ) (others : List (List ℕ)) (tx : List ℕ)
      → serialize_transaction msg (first ∷ others) ≡ ok tx
      → length (first ∷ others) < 2 ^ 32
      → sign bytes key ≡ some signature
      → length signature ≡ 64
      → local_sign sign key tx ≡ serialize_transaction msg (signature ∷ others)
  local_sign_fills sign key first signature others tx e few s l =
      let (h, w) = written (first ∷ others) tx e in
      rw (w, rewritten (signature ∷ others) (l, h.1))
        (sign-slots sign key first signature others bytes h few s l)

  -- The tool that creates a stake account fills both slots of the builder's transaction: the wallet's
  -- signature of the message comes first, and that of the stake account's key second.
  pub sign_create_stake_fills :
      (sign : Sign) (key : List ℕ) (stake_secret : String) (payer_sig stake_sig tx : List ℕ)
      (b0 b1 : List ℕ)
      → serialize_transaction msg (b0 ∷ b1 ∷ []) ≡ ok tx
      → sign bytes key ≡ some payer_sig
      → length payer_sig ≡ 64
      → sign bytes (hex_bytes (codes stake_secret)) ≡ some stake_sig
      → length stake_sig ≡ 64
      → sign_create_stake sign (local_sign sign key) stake_secret tx
        ≡ serialize_transaction msg (payer_sig ∷ stake_sig ∷ [])
  unfolding sign_create_stake
  sign_create_stake_fills sign key stake_secret payer_sig stake_sig tx b0 b1 e s l s' l' =
      let (h, w) = written (b0 ∷ b1 ∷ []) tx e in
      rw (
        w,
        rewritten (payer_sig ∷ stake_sig ∷ []) (l, (l', tt)),
        slots_enough (b0 ∷ b1 ∷ []) bytes,
        sign-slots sign key b0 payer_sig (b1 ∷ []) bytes h (omega arith) s l,
        message_part-slots (b0 ∷ b1 ∷ []) bytes h (omega arith),
        s',
        set_at-slots (payer_sig ∷ []) b1 stake_sig [] bytes 68 (l, tt) (h.1.0 ∙ sym l') refl,
      )
