-- ===== src/Gateway/Tests.antt =====
-- Session tokens at concrete inputs.
use eto_mcp.Prelude.Text.{hex_bytes}
use eto_mcp.Prelude.{
  ℕ, ◌≡◌, refl, true, false, Option, none, some, String, List, [], ◌∷◌, arith, is_some,
}
use eto_mcp.Prelude.Dict.{lookup}
use eto_mcp.Gateway.Session.{
  verify_token, create_session, verify_session, revoke_jti, load_deny_list, before_dot, after_dot,
  timing_safe_equal,
}
use eto_mcp.Gateway.Session.Tokens.{IsCodedBy, verify_session-create_session, revoke_jti-refused}
use eto_mcp.Gateway.Fixtures.{options, session, plain_codec}

coded : IsCodedBy plain_codec session
coded = record {
  encoded = refl;
  part = (refl, (refl, (refl, (refl, (refl, (refl, (refl, (refl, tt))))))));
  digest = (refl, (refl, (refl, (refl, (refl, tt)))));
  parsed = refl;
}

verify_session-create_session_example :
    verify_session plain_codec [] 1060 (create_session plain_codec options 1000 "j1") ≡ some session
unfolding lookup
verify_session-create_session_example =
    verify_session-create_session plain_codec options 1000 "j1" coded [] 1060

-- One character of the signature is another.
forged : verify_session plain_codec [] 1060 "payload.a1b3" ≡ none
unfolding verify_session verify_token before_dot after_dot hex_bytes timing_safe_equal
forged = refl

verified : verify_token plain_codec "payload.a1b2" ≡ some session
unfolding verify_token before_dot after_dot hex_bytes timing_safe_equal
verified = refl

revoke_jti-refused_example :
    (verify_session plain_codec (revoke_jti "j1" 1060 []) 1059 "payload.a1b2" ≡ none)
    × (verify_session plain_codec
          (load_deny_list 1010 (revoke_jti "j1" 1060 []) [])
          1059
          "payload.a1b2"
        ≡ none)
revoke_jti-refused_example =
    revoke_jti-refused plain_codec [] "payload.a1b2" session verified 1010 1059 (omega arith)
      (λ both. omega (arith, both.0))

-- In the second of its expiry a revoked token passes after a restart.
revived :
    verify_session plain_codec
      (load_deny_list 1060 (revoke_jti "j1" 1060 []) [])
      1060
      "payload.a1b2"
    ≡ some session
unfolding verify_session verify_token before_dot after_dot hex_bytes timing_safe_equal
    load_deny_list revoke_jti lookup eto_mcp.Prelude.Dict.insert
revived = refl
