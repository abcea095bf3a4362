-- ===== src/Identity/Gateway.antt =====
-- telegram_identity.py: `GatewayLedger`, the envelopes of updates. The nonce of
-- `token_hex` is an argument.
use my_ops.Prelude.{
  ℕ, ◌+◌, ◌++◌, ◌≡◌, ◌<◌, subst, arith, refl, sym, ap, ◌∙◌, String, Bool, true, false, not, ◌&&◌,
  ◌||◌, Option, none, some, List, [], ◌∷◌, Result, ok, err, ◌>>=◌, ◌>>◌, >>=-eq-ok, >>-eq-ok,
  raise_if-eq-ok, ok-injective, first, first-append, leb, ltb, ◌==◌, nat_eq, string_eq, ==→eq,
  ==_refl,
}
use my_ops.Contract.{JobError, fail_if, auth_replay, auth_invalid, require, integer}
use my_ops.Identity.{
  Context, Envelope, Requests, Ledger, validate_context, expected_audience, given,
}

-- `GatewayLedger(registry, issuer, bot_instance)`, and a call of `envelope`
pub record Update : Type 0 where
  pub issuer : String
  pub bot_instance : String
  pub update_id : ℕ
  pub user_id : ℕ
  pub action : String

-- `WHERE issuer=? AND bot_instance=? AND update_id=?`
abbrev pub is_update : Update → Envelope → Bool
is_update u e =
    e.auth_context.issuer == u.issuer
    && (e.auth_context.bot_instance == u.bot_instance && e.auth_context.update_id == u.update_id)

abbrev pub new_context : Update → ℕ → String → Context
new_context u issued_at nonce = record {
  issuer = u.issuer;
  bot_instance = u.bot_instance;
  telegram_user_id = u.user_id;
  chat_id = u.user_id;
  chat_type = "private";
  update_id = u.update_id;
  issued_at = issued_at;
  expires_at = issued_at + 60000;
  nonce = nonce;
}

abbrev pub new_envelope : Requests → Update → ℕ → String → Envelope
new_envelope r u issued_at nonce = record {
  audience = expected_audience;
  auth_context = new_context u issued_at nonce;
  action = u.action;
  action_digest = r.digest u.action;
}

-- `MAX_ENVELOPE_BYTES`
abbrev pub max_envelope_bytes : ℕ
max_envelope_bytes = 67108864

unfoldable pub sign_new :
    Requests → List Envelope → Update → ℕ → ℕ → String → Result JobError (Envelope × List Envelope)
unfolding validate_context require
sign_new r updates u issued_at now nonce = do
  validate_context (new_context u issued_at nonce)
  require (leb issued_at (now + 5000) && ltb now (issued_at + 60000 + 5000))
  request ← given (r.application_request (new_envelope r u issued_at nonce))
  require (leb (r.size (new_envelope r u issued_at nonce)) max_envelope_bytes)
  ok (new_envelope r u issued_at nonce, updates ++ new_envelope r u issued_at nonce ∷ [])

-- By the envelope that the update has.
unfoldable pub sign :
    Requests
    → List Envelope
    → Update
    → ℕ
    → ℕ
    → String
    → Option Envelope
    → Result JobError (Envelope × List Envelope)
unfolding sign_new
sign r updates u issued_at now nonce none = sign_new r updates u issued_at now nonce
sign r updates u issued_at now nonce (some old) = do
  fail_if (not (old.action == u.action) || not (old.auth_context.telegram_user_id == u.user_id))
      auth_replay
  fail_if (leb (old.auth_context.expires_at + 5000) now) auth_invalid
  ok (old, updates)

abbrev pub keep_updates :
    Ledger → Result JobError (Envelope × List Envelope) → Result JobError Envelope × Ledger
keep_updates l (ok (e, updates)) = (ok e, record l { gateway_updates = updates })
keep_updates l (err e) = (err e, l)

-- `envelope`
unfoldable pub envelope :
    Requests → Ledger → Update → ℕ → ℕ → String → Result JobError Envelope × Ledger
unfolding sign
envelope r l u issued_at now nonce = keep_updates l (
    integer now
    >> sign r l.gateway_updates u issued_at now nonce (first (is_update u) l.gateway_updates))

-- The envelope of an update as the ledger has it.
pub record IsSigned (u : Update) (e : Envelope) (updates : List Envelope) : Type 0 where
  pub found : first (is_update u) updates ≡ some e
  pub action : e.action ≡ u.action
  pub user : e.auth_context.telegram_user_id ≡ u.user_id

-- Signing an update that has no envelope adds one.
sign_new-IsSigned :
    (r : Requests) (updates : List Envelope) (u : Update) (issued_at now : ℕ) (nonce : String)
    (e : Envelope) (updates' : List Envelope)
    → first (is_update u) updates ≡ none
    → sign_new r updates u issued_at now nonce ≡ ok (e, updates')
    → IsSigned u e updates'
unfolding sign_new
sign_new-IsSigned r updates u issued_at now nonce e updates' missing h =
    let made = new_envelope r u issued_at nonce in
    let (_, h1) = >>-eq-ok (validate_context (new_context u issued_at nonce)) _ h in
    let (_, h2) =
      >>-eq-ok (require (leb issued_at (now + 5000) && ltb now (issued_at + 60000 + 5000))) _ h1 in
    let (_, _, h3) = >>=-eq-ok (given (r.application_request made)) _ h2 in
    let (_, h4) =
      >>-eq-ok (require (leb (r.size made) max_envelope_bytes)) (ok (made, updates ++ made ∷ []))
        h3 in
    let same = ok-injective h4 in
    let own : made ≡ e = ap (λ (p : Envelope × List Envelope). p.0) same in
    let rows : updates ++ made ∷ [] ≡ updates' = ap (λ (p : Envelope × List Envelope). p.1) same in
    let is_own : is_update u made ≡ true =
      rw (==_refl u.issuer, ==_refl u.bot_instance, ==_refl u.update_id) refl in
    record {
      found =
          ap (first (is_update u)) (sym rows)
          ∙ first-append (is_update u) updates made
          ∙ rw (missing, is_own) refl
          ∙ ap some own;
      action = ap (λ (x : Envelope). x.action) (sym own);
      user = ap (λ (x : Envelope). x.auth_context.telegram_user_id) (sym own);
    }

both-equal : (a b : Bool) → (not a || not b) ≡ false → (a ≡ true) × (b ≡ true)
both-equal true true h = (refl, refl)
both-equal true false h = cc
both-equal false b h = cc

sign-IsSigned :
    (r : Requests) (updates : List Envelope) (u : Update) (issued_at now : ℕ) (nonce : String)
    (o : Option Envelope) (e : Envelope) (updates' : List Envelope)
    → first (is_update u) updates ≡ o
    → sign r updates u issued_at now nonce o ≡ ok (e, updates')
    → IsSigned u e updates'
unfolding sign
sign-IsSigned r updates u issued_at now nonce none e updates' missing h =
    sign_new-IsSigned r updates u issued_at now nonce e updates' missing h
sign-IsSigned r updates u issued_at now nonce (some old) e updates' found h =
    let other =
      not (old.action == u.action) || not (old.auth_context.telegram_user_id == u.user_id) in
    let (agrees, h1) = >>-eq-ok (fail_if other auth_replay) _ h in
    let (_, h2) =
      >>-eq-ok (fail_if (leb (old.auth_context.expires_at + 5000) now) auth_invalid)
        (ok (old, updates)) h1 in
    let same = ok-injective h2 in
    let own : old ≡ e = ap (λ (p : Envelope × List Envelope). p.0) same in
    let (action, user) =
      both-equal (old.action == u.action) (old.auth_context.telegram_user_id == u.user_id)
        (raise_if-eq-ok other _ agrees) in
    record {
      found =
          ap (first (is_update u)) (sym (ap (λ (p : Envelope × List Envelope). p.1) same))
          ∙ found
          ∙ ap some own;
      action = ap (λ (x : Envelope). x.action) (sym own) ∙ ==→eq old.action u.action action;
      user =
          ap (λ (x : Envelope). x.auth_context.telegram_user_id) (sym own)
          ∙ ==→eq old.auth_context.telegram_user_id u.user_id user;
    }

envelope-IsSigned :
    (r : Requests) (l : Ledger) (u : Update) (issued_at now : ℕ) (nonce : String) (e : Envelope)
    → (envelope r l u issued_at now nonce).0 ≡ ok e
    → IsSigned u e (envelope r l u issued_at now nonce).1.gateway_updates
unfolding envelope
envelope-IsSigned r l u issued_at now nonce e h = kept (integer now >> act) refl h
  where
    act : Result JobError (Envelope × List Envelope)
    act = sign r l.gateway_updates u issued_at now nonce (first (is_update u) l.gateway_updates)

    kept :
        (m : Result JobError (Envelope × List Envelope))
        → (integer now >> act) ≡ m
        → (keep_updates l m).0 ≡ ok e
        → IsSigned u e (keep_updates l m).1.gateway_updates
    kept (err error) same g = cc
    kept (ok (e', updates)) same g =
        let own : e' ≡ e = ok-injective g in
        let (_, signed) = >>-eq-ok (integer now) act same in
        subst (λ x. IsSigned u x updates) own
          (sign-IsSigned r l.gateway_updates u issued_at now nonce
            (first (is_update u) l.gateway_updates) e' updates refl signed)

-- An update that has an envelope gets the same envelope, with its old nonce, for the same action and
-- user, whatever nonce and time of issue come with the call, as long as it has not expired; and the
-- ledger stays as it is.
pub envelope-envelope :
    (r : Requests) (l : Ledger) (u : Update) (issued_at now : ℕ) (nonce : String) (e : Envelope)
    (issued_again later : ℕ) (other_nonce : String)
    → (envelope r l u issued_at now nonce).0 ≡ ok e
    → integer later ≡ ok tt
    → later < e.auth_context.expires_at + 5000
    → let l' = (envelope r l u issued_at now nonce).1 in
      envelope r l' u issued_again later other_nonce ≡ (ok e, l')
unfolding envelope sign
envelope-envelope r l u issued_at now nonce e issued_again later other_nonce h level lives =
    let l' = (envelope r l u issued_at now nonce).1 in
    let p = envelope-IsSigned r l u issued_at now nonce e h in
    again l' p (alive later (e.auth_context.expires_at + 5000) lives)
  where
    alive : (a b : ℕ) → a < b → leb b a ≡ false
    alive a b lt = ground arith

    again :
        (l' : Ledger)
        → IsSigned u e l'.gateway_updates
        → leb (e.auth_context.expires_at + 5000) later ≡ false
        → envelope r l' u issued_again later other_nonce ≡ (ok e, l')
    again l' p live =
        rw (envelope, level, p.found, p.action, p.user, ==_refl u.action, ==_refl u.user_id, live)
          refl
