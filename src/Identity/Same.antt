-- ===== src/Identity/Same.antt =====
-- telegram_identity.py: `==` of envelopes.
use my_ops.Prelude.{◌≡◌, refl, true, ◌==◌, nat_eq, string_eq, ==→eq, ==_refl}
use my_ops.Acquisition.Tokens.{and-eq-true}
use my_ops.Identity.{Context, Envelope, same_context, same_envelope}

same_context-eq : (c d : Context) → same_context c d ≡ true → c ≡ d
same_context-eq c d h =
    let (e1, h1) = and-eq-true (c.issuer == d.issuer) _ h in
    let (e2, h2) = and-eq-true (c.bot_instance == d.bot_instance) _ h1 in
    let (e3, h3) = and-eq-true (c.telegram_user_id == d.telegram_user_id) _ h2 in
    let (e4, h4) = and-eq-true (c.chat_id == d.chat_id) _ h3 in
    let (e5, h5) = and-eq-true (c.chat_type == d.chat_type) _ h4 in
    let (e6, h6) = and-eq-true (c.update_id == d.update_id) _ h5 in
    let (e7, h7) = and-eq-true (c.issued_at == d.issued_at) _ h6 in
    let (e8, e9) = and-eq-true (c.expires_at == d.expires_at) _ h7 in
    equal (==→eq c.issuer d.issuer e1) (==→eq c.bot_instance d.bot_instance e2)
      (==→eq c.telegram_user_id d.telegram_user_id e3) (==→eq c.chat_id d.chat_id e4)
      (==→eq c.chat_type d.chat_type e5) (==→eq c.update_id d.update_id e6)
      (==→eq c.issued_at d.issued_at e7) (==→eq c.expires_at d.expires_at e8)
      (==→eq c.nonce d.nonce e9)
  where
    equal :
        c.issuer ≡ d.issuer
        → c.bot_instance ≡ d.bot_instance
        → c.telegram_user_id ≡ d.telegram_user_id
        → c.chat_id ≡ d.chat_id
        → c.chat_type ≡ d.chat_type
        → c.update_id ≡ d.update_id
        → c.issued_at ≡ d.issued_at
        → c.expires_at ≡ d.expires_at
        → c.nonce ≡ d.nonce
        → c ≡ d
    equal p1 p2 p3 p4 p5 p6 p7 p8 p9 = cc

-- Envelopes that are the same are equal.
pub same_envelope-eq : (d e : Envelope) → same_envelope d e ≡ true → d ≡ e
unfolding same_envelope
same_envelope-eq d e h =
    let (e1, h1) = and-eq-true (d.audience == e.audience) _ h in
    let (e2, h2) = and-eq-true (same_context d.auth_context e.auth_context) _ h1 in
    let (e3, e4) = and-eq-true (d.action == e.action) _ h2 in
    equal (==→eq d.audience e.audience e1) (same_context-eq d.auth_context e.auth_context e2)
      (==→eq d.action e.action e3) (==→eq d.action_digest e.action_digest e4)
  where
    equal :
        d.audience ≡ e.audience
        → d.auth_context ≡ e.auth_context
        → d.action ≡ e.action
        → d.action_digest ≡ e.action_digest
        → d ≡ e
    equal p1 p2 p3 p4 = cc

-- An envelope is the same as itself.
pub same_envelope_refl : (e : Envelope) → same_envelope e e ≡ true
unfolding same_envelope
same_envelope_refl e =
    let c = e.auth_context in
    rw
      (
        ==_refl e.audience,
        ==_refl c.issuer,
        ==_refl c.bot_instance,
        ==_refl c.telegram_user_id,
        ==_refl c.chat_id,
        ==_refl c.chat_type,
        ==_refl c.update_id,
        ==_refl c.issued_at,
        ==_refl c.expires_at,
        ==_refl c.nonce,
        ==_refl e.action,
        ==_refl e.action_digest,
      )
      refl
