-- ===== src/Identity/Authentic.antt =====
-- telegram_identity.py: what `reserve` lets through.
use my_ops.Prelude.{
  ℕ, ◌+◌, ◌++◌, ◌≡◌, ◌≤◌, ◌<◌, refl, ap, ◌∙◌, String, Bool, true, false, not, ◌&&◌, ◌⊎◌, inl, inr,
  List, [], ◌∷◌, ok, Bool-cases, >>-eq-ok, raise_if-eq-ok, select, select-eq-nil, first-Mem, none,
  Option, some, All, Memᴰ, leb, ltb, ◌==◌, nat_eq, string_eq, ==→eq, arith,
}
use my_ops.Review.Trace.{not-eq-false}
use my_ops.Acquisition.Tokens.{and-eq-true}
use my_ops.Contract.{require, integer, integer_in, ref_name, id32, sha}
use my_ops.Identity.{
  Context, Envelope, Requests, Reservation, Peer, Ledger, clashes, new_reservation,
  validate_context, expected_audience, is_peer, peer_of, reserve, check_envelope, is_rollback,
}
use my_ops.Identity.Once.{Reserved, again, newly}
use my_ops.Identity.Shares.{Shares, map-All, unclashing-apart}
use my_ops.Identity.Replay.{reserve-Reserved, Reserved-only}

-- A row that is new and appended.
pub record IsNew (rows : List Reservation) (e : Envelope) (now : ℕ) (high : Option ℕ)
    (row : Reservation) (rows' : List Reservation) : Type 0 where
  pub apart : All (λ (q : Reservation). Shares q.envelope.auth_context e.auth_context → ⊥) rows
  pub appended : rows' ≡ rows ++ row ∷ []
  pub issued : e.auth_context.issued_at ≤ now + 5000
  pub expires : now < e.auth_context.expires_at + 5000
  pub forward : (level : ℕ) → high ≡ some level → level ≤ now + 5000
  pub state : row.state ≡ "reserved"

-- What `reserve` lets through: the envelope comes from the peer of its bot, its action has the digest
-- that it names, its context is one of a private chat that lasts a minute; and the row is one that was
-- there, and the rows stay, or it is new and appended: in its time, not behind the clock, and with a
-- nonce and an update that no row of its bot had.
pub record IsAuthentic (r : Requests) (peers : List Peer) (l : Ledger) (e : Envelope) (uid now : ℕ)
    (row : Reservation) : Type 0 where
  pub envelope : row.envelope ≡ e
  pub peer :
      (p : Peer) × Memᴰ p peers
      × (p.issuer ≡ e.auth_context.issuer)
      × (p.bot_instance ≡ e.auth_context.bot_instance)
      × (p.uid ≡ uid)
      × (p.audience ≡ e.audience)
  pub audience : e.audience ≡ expected_audience
  pub digest : r.digest e.action ≡ e.action_digest
  pub private : e.auth_context.chat_type ≡ "private"
  pub chat : e.auth_context.chat_id ≡ e.auth_context.telegram_user_id
  pub lasts : e.auth_context.expires_at ≡ e.auth_context.issued_at + 60000
  pub fresh :
      (Memᴰ row l.replay × ((reserve r peers l e uid now).1.replay ≡ l.replay))
      ⊎ IsNew l.replay e now l.high_water row (reserve r peers l e uid now).1.replay

not_behind : (now t : ℕ) → is_rollback now (some t) ≡ false → t ≤ now + 5000
not_behind now t e = ground arith

found-Mem :
    (f : Reservation → Bool) (rows : List Reservation) (row : Reservation)
    → select f rows ≡ row ∷ []
    → Memᴰ row rows
found-Mem f [] row h = cc
found-Mem f (x ∷ rows) row h = elim (Bool-cases (f x)) [
  | inl e ↦
      let g : x ∷ select f rows ≡ row ∷ [] = rw e at h in let same : row ≡ x = cc in Memᴰ.head same
  | inr e ↦ Memᴰ.tail (found-Mem f rows row (rw e at h))
]

known_peer :
    (peers : List Peer) (c : Context) (uid : ℕ) (audience : String) (o : Option Peer)
    → peer_of peers c ≡ o
    → is_peer o uid audience ≡ true
    → (p : Peer) × Memᴰ p peers
      × (p.issuer ≡ c.issuer)
      × (p.bot_instance ≡ c.bot_instance)
      × (p.uid ≡ uid)
      × (p.audience ≡ audience)
known_peer peers c uid audience none found h = cc
known_peer peers c uid audience (some p) found h =
    let (m, own) =
      first-Mem (λ (q : Peer). q.issuer == c.issuer && q.bot_instance == c.bot_instance) peers p
        found in
    let (i, b) = and-eq-true (p.issuer == c.issuer) _ own in
    let (u, a) = and-eq-true (p.uid == uid) _ h in
    (
      p,
      m,
      ==→eq p.issuer c.issuer i,
      ==→eq p.bot_instance c.bot_instance b,
      ==→eq p.uid uid u,
      ==→eq p.audience audience a,
    )

require-eq-ok : (b : Bool) → require b ≡ ok tt → b ≡ true
unfolding require
require-eq-ok b h = not-eq-false b (raise_if-eq-ok (not b) _ h)

validate_context-IsMinute :
    (c : Context)
    → validate_context c ≡ ok tt
    → (c.chat_type ≡ "private")
      × (c.chat_id ≡ c.telegram_user_id)
      × (c.expires_at ≡ c.issued_at + 60000)
unfolding validate_context
validate_context-IsMinute c h =
    let (_, h1) = >>-eq-ok (ref_name c.issuer) _ h in
    let (_, h2) = >>-eq-ok (ref_name c.bot_instance) _ h1 in
    let (_, h3) = >>-eq-ok (id32 c.nonce) _ h2 in
    let (_, h4) = >>-eq-ok (integer_in 1 4503599627370495 c.telegram_user_id) _ h3 in
    let (_, h5) = >>-eq-ok (integer_in 0 4503599627370495 c.chat_id) _ h4 in
    let (chat, h6) =
      >>-eq-ok (require (c.chat_type == "private" && c.chat_id == c.telegram_user_id)) _ h5 in
    let (_, h7) = >>-eq-ok (integer_in 0 2147483647 c.update_id) _ h6 in
    let (_, h8) = >>-eq-ok (integer c.issued_at) _ h7 in
    let (_, minute) = >>-eq-ok (integer c.expires_at) _ h8 in
    let (private, own) = and-eq-true (c.chat_type == "private") _ (require-eq-ok _ chat) in
    (
      ==→eq c.chat_type "private" private,
      ==→eq c.chat_id c.telegram_user_id own,
      ==→eq c.expires_at (c.issued_at + 60000) (require-eq-ok _ minute),
    )

-- What `reserve` answers belongs to this envelope, which comes from the peer of its bot, for the
-- audience of the controller, with the digest of its action, in a private chat, for a minute; and the
-- row was there before, and the rows stay, or it is new and appended: within its time, not behind the
-- clock, and with a nonce and an update that no row of its bot had.
pub reserve-IsAuthentic :
    (r : Requests) (peers : List Peer) (l : Ledger) (e : Envelope) (uid now : ℕ) (row : Reservation)
    → (reserve r peers l e uid now).0 ≡ ok row
    → IsAuthentic r peers l e uid now row
unfolding check_envelope new_reservation
reserve-IsAuthentic r peers l e uid now row h =
    let (request, rows, checked, reserved, after) = reserve-Reserved r peers l e uid now row h in
    let (same, _) =
      Reserved-only r l.replay e request (is_rollback now l.high_water) now row rows reserved in
    let (_, h1) = >>-eq-ok (integer now) _ checked in
    let (context, h2) = >>-eq-ok (validate_context e.auth_context) _ h1 in
    let (who, h3) = >>-eq-ok _ _ h2 in
    let (_, h4) = >>-eq-ok (sha e.action_digest) _ h3 in
    let (digest, _) = >>-eq-ok _ _ h4 in
    let (private, chat, lasts) = validate_context-IsMinute e.auth_context context in
    let (peer, audience) =
      and-eq-true (is_peer (peer_of peers e.auth_context) uid e.audience) _ (require-eq-ok _ who) in
    record {
      envelope = same;
      peer =
          known_peer peers e.auth_context uid e.audience (peer_of peers e.auth_context) refl peer;
      audience = ==→eq e.audience expected_audience audience;
      digest = ==→eq (r.digest e.action) e.action_digest (require-eq-ok _ digest);
      private = private;
      chat = chat;
      lasts = lasts;
      fresh = fresh request rows reserved (ap (λ (x : Ledger). x.replay) after);
    }
  where
    in_time :
        (issued expires : ℕ)
        → (leb issued (now + 5000) && ltb now (expires + 5000)) ≡ true
        → (issued ≤ now + 5000) × (now < expires + 5000)
    in_time issued expires w =
        let (a, b) = and-eq-true (leb issued (now + 5000)) _ w in (ground arith, ground arith)

    fresh :
        (request : String) (rows : List Reservation)
        → Reserved r l.replay e request (is_rollback now l.high_water) now row rows
        → (reserve r peers l e uid now).1.replay ≡ rows
        → (Memᴰ row l.replay × ((reserve r peers l e uid now).1.replay ≡ l.replay))
          ⊎ IsNew l.replay e now l.high_water row (reserve r peers l e uid now).1.replay
    fresh request rows (again same found kept) after =
        inl (found-Mem (clashes e.auth_context) l.replay row found, after ∙ kept)
    fresh request rows (newly own clear appended level window) after =
        let (a, b) = in_time e.auth_context.issued_at e.auth_context.expires_at window in
        inr (record {
          apart =
              map-All (unclashing-apart e.auth_context) l.replay
                (select-eq-nil (clashes e.auth_context) l.replay clear);
          appended = after ∙ appended;
          issued = a;
          expires = b;
          forward = λ t found. not_behind now t (rw found at level);
          state = ap (λ (q : Reservation). q.state) own;
        })
