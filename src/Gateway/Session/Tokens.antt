-- ===== src/Gateway/Session/Tokens.antt =====
-- Session tokens: what is signed is read back until it expires or is revoked, and a revoked token is
-- refused, after a restart too.
use eto_mcp.Prelude.{
  ltb→lt, ℕ, ◌≤◌, ◌<◌, true, false, ◌≡◌, refl, none, some, List, [], ◌∷◌, String, ltb, ◌==◌,
  is_some, if◌then◌else◌, arith, All, Bool-cases, inl, inr,
}
use eto_mcp.Prelude.Dict.{lookup, insert, lookup-insert, lookup-insert_self}
use eto_mcp.Prelude.Text.{codes, hex_bytes, is_empty, str_eq}
use text.Mathlib.TextLemmas.{nil-append, cons-append}
use eto_mcp.Gateway.Session.{
  Codec, SessionPayload, SessionOptions, session_of, before_dot, after_dot, timing_safe_equal,
  sign_token, verify_token, create_session, verify_session, DenyList, revoke_jti, load_deny_list,
}

-- No dot, and not empty.
abbrev pub IsPart : String → Type 0
IsPart s = (is_empty s ≡ false) × All (λ (c : ℕ). (c == b'.') ≡ false) (codes s)

-- What base 64, the HMAC and JSON promise of a payload.
pub record IsCodedBy {A : Type 0} (codec : Codec A) (a : A) : Type 0 where
  pub encoded : codec.decode64 (codec.encode64 (codec.stringify a)) ≡ codec.stringify a
  pub part : IsPart (codec.encode64 (codec.stringify a))
  pub digest : IsPart (codec.hmac_sign (codec.stringify a))
  pub parsed : codec.parse (codec.stringify a) ≡ some a

before_dot-append :
    (a s : String)
    → All (λ (c : ℕ). (c == b'.') ≡ false) (codes a)
    → before_dot (Prim.Native.String.◌++◌ a (Prim.Native.String.◌++◌ "." s)) ≡ a
unfolding before_dot
before_dot-append String.[] s h =
    rw (nil-append (Prim.Native.String.◌++◌ "." s), cons-append "." "" s)
before_dot-append (String.◌∷◌ c a) s (p, h) =
    rw (cons-append c a (Prim.Native.String.◌++◌ "." s), p, before_dot-append a s h)

after_dot-append :
    (a s : String)
    → All (λ (c : ℕ). (c == b'.') ≡ false) (codes a)
    → after_dot (Prim.Native.String.◌++◌ a (Prim.Native.String.◌++◌ "." s)) ≡ s
unfolding after_dot
after_dot-append String.[] s h =
    rw (nil-append (Prim.Native.String.◌++◌ "." s), cons-append "." "" s, nil-append s)
after_dot-append (String.◌∷◌ c a) s (p, h) =
    rw (cons-append c a (Prim.Native.String.◌++◌ "." s), p, after_dot-append a s h)

before_dot-whole : (a : String) → All (λ (c : ℕ). (c == b'.') ≡ false) (codes a) → before_dot a ≡ a
unfolding before_dot
before_dot-whole String.[] h = refl
before_dot-whole (String.◌∷◌ c a) (p, h) = rw (p, before_dot-whole a h)

timing_safe_equal_refl : (xs : List ℕ) → timing_safe_equal xs xs ≡ true
unfolding timing_safe_equal
timing_safe_equal_refl [] = refl
timing_safe_equal_refl (x ∷ xs) = ground (arith, timing_safe_equal_refl xs)

pub verify_token-sign_token :
    {A : Type 0} (codec : Codec A) (a : A)
    → IsCodedBy codec a
    → verify_token codec (sign_token codec a) ≡ some a
unfolding verify_token sign_token
verify_token-sign_token codec a c =
    let json = codec.stringify a in
    rw (
      before_dot-append (codec.encode64 json) (codec.hmac_sign json) c.part.1,
      after_dot-append (codec.encode64 json) (codec.hmac_sign json) c.part.1,
      before_dot-whole (codec.hmac_sign json) c.digest.1,
      c.encoded,
      c.part.0,
      c.digest.0,
      timing_safe_equal_refl (hex_bytes (codes (codec.hmac_sign json))),
      c.parsed,
    )

-- A session that is created is read back as long as it has not expired and its id is not on the deny
-- list, and is refused otherwise.
pub verify_session-create_session :
    (codec : Codec SessionPayload) (opts : SessionOptions) (created : ℕ) (jti : String)
    → IsCodedBy codec (session_of opts created jti)
    → (deny_list : DenyList) (now : ℕ)
    → verify_session codec deny_list now (create_session codec opts created jti) ≡ (
        if ltb (session_of opts created jti).exp now
        then none
        else if is_some (lookup jti deny_list)
        then none
        else some (session_of opts created jti))
unfolding verify_session create_session
verify_session-create_session codec opts created jti c deny_list now =
    rw (verify_token-sign_token codec (session_of opts created jti) c)

-- An entry that has not expired at the start is read back, and one that is there stays.
load-keeps :
    (now : ℕ) (saved deny_list : DenyList) (jti : String)
    → is_some (lookup jti deny_list) ≡ true
    → is_some (lookup jti (load_deny_list now saved deny_list)) ≡ true
unfolding load_deny_list
load-keeps now [] deny_list jti h = h
load-keeps now ((j, exp) ∷ saved) deny_list jti h =
    load-keeps now saved _ jti (ground (arith, lookup-insert j jti exp deny_list, h))

later :
    (j jti : String) (e exp : ℕ) (saved : DenyList)
    → str_eq j jti ≡ false
    → lookup jti ((j, e) ∷ saved) ≡ some exp
    → lookup jti saved ≡ some exp
unfolding lookup
later j jti e exp saved other h = ground (arith, other, h)

load-reads :
    (now : ℕ) (saved deny_list : DenyList) (jti : String) (exp : ℕ)
    → lookup jti saved ≡ some exp
    → now < exp
    → is_some (lookup jti (load_deny_list now saved deny_list)) ≡ true
unfolding load_deny_list lookup
load-reads now [] deny_list jti exp h t = cc
load-reads now ((j, e) ∷ saved) deny_list jti exp h t = elim (Bool-cases (str_eq j jti)) [
  | inl same ↦
      load-keeps now saved _ jti (ground (arith, lookup-insert j jti e deny_list, h, t, same))
  | inr other ↦ load-reads now saved _ jti exp (later j jti e exp saved other h) t
]

expired :
    (codec : Codec SessionPayload) (deny_list : DenyList) (now : ℕ) (token : String)
    (p : SessionPayload)
    → verify_token codec token ≡ some p
    → ltb p.exp now ≡ true
    → verify_session codec deny_list now token ≡ none
unfolding verify_session
expired codec deny_list now token p v old = rw (v, old)

verify-denied :
    (codec : Codec SessionPayload) (deny_list : DenyList) (now : ℕ) (token : String)
    (p : SessionPayload)
    → verify_token codec token ≡ some p
    → is_some (lookup p.jti deny_list) ≡ true
    → verify_session codec deny_list now token ≡ none
unfolding verify_session
verify-denied codec deny_list now token p v h = elim (Bool-cases (ltb p.exp now)) [
  | inl old ↦ expired codec deny_list now token p v old
  | inr young ↦ rw (v, young, h)
]

-- A token whose id was revoked is refused at any later time, and so it is after a restart, unless
-- the restart and the request both fall into the second in which the token expires.
pub revoke_jti-refused :
    (codec : Codec SessionPayload) (deny_list : DenyList) (token : String) (p : SessionPayload)
    → verify_token codec token ≡ some p
    → (started now : ℕ) → started ≤ now
    → ¬ ((started ≡ p.exp) × (now ≡ p.exp))
    → (verify_session codec (revoke_jti p.jti p.exp deny_list) now token ≡ none)
      × (verify_session codec
            (load_deny_list started (revoke_jti p.jti p.exp deny_list) [])
            now
            token
          ≡ none)
unfolding revoke_jti
revoke_jti-refused codec deny_list token p v started now h ne = (
  verify-denied codec _ now token p v (rw (lookup-insert_self p.jti p.exp deny_list)),
  elim (Bool-cases (ltb started p.exp)) [
    | inl kept ↦ verify-denied codec _ now token p v (
        load-reads started (insert p.jti p.exp deny_list) [] p.jti p.exp
          (lookup-insert_self p.jti p.exp deny_list) (ltb→lt started p.exp kept))
    | inr dropped ↦ elim (Bool-cases (ltb p.exp now)) [
      | inl old ↦ expired codec _ now token p v old
      | inr young ↦
          absurd (ne (ground (arith, dropped, young, h), ground (arith, dropped, young, h)))
    ]
  ],
)
