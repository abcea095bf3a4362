-- ===== src/Tests/Identity.antt =====
-- The ledgers of messages, on small inputs.
use my_ops.Prelude.{◌≡◌, refl, arith, String, false, some, none, ok, List, [], ◌∷◌}
use my_ops.Contract.{require, integer_in, matches_ref, ref_name, id32, sha, is_hex_text, identifier}
use my_ops.Storage.{is_safe_name}
use my_ops.Identity.{
  Envelope, Requests, Reservation, Peer, Ledger, LedgerCall, reserve_call, complete_call, gc_call,
  expected_audience, validate_context, request_id, check_envelope, clashes, new_reservation,
  insert_reservation, reserve_new, reserve_among, same_envelope, reserve, observe, ledger_calls,
}
use my_ops.Identity.Once.{AreDistinct}
use my_ops.Identity.Replay.{reserve-reserve}
use my_ops.Identity.Authentic.{IsAuthentic, reserve-IsAuthentic}
use my_ops.Identity.Traces.{ledger_calls-AreDistinct}
use my_ops.Identity.Gateway.{Update, new_envelope, envelope, sign, sign_new, envelope-envelope}

abbrev nonce : String
nonce = "0123456789abcdef0123456789abcdef"

abbrev digest : String
digest = "0123456789abcdef0123456789abcdef0123456789abcdef0123456789abcdef"

abbrev requests : Requests
requests = record {
  digest = λ t. digest;
  digest_names = λ issuer bot update_id. digest;
  application_request = λ e. some "request";
  size = λ e. 400;
}

abbrev update : Update
update = record {
  issuer = "gateway";
  bot_instance = "bot";
  update_id = 12;
  user_id = 7;
  action = "{}";
}

abbrev peers : List Peer
peers =
    record { issuer = "gateway"; bot_instance = "bot"; uid = 1000; audience = expected_audience }
    ∷ []

abbrev empty : Ledger
empty = record { replay = []; high_water = none; gateway_updates = [] }

abbrev message : Envelope
message = new_envelope requests update 50000 nonce

ledger_all : Unit {0}
unfolding require integer_in matches_ref ref_name id32 sha is_hex_text identifier is_safe_name
    validate_context request_id check_envelope clashes new_reservation insert_reservation
    reserve_new reserve_among same_envelope reserve envelope sign sign_new
ledger_all = tt

signed : (envelope requests empty update 50000 50100 nonce).0 ≡ ok message
unfolding ledger_all
signed = refl

is_number : integer_in 0 9223372036854775807 60000 ≡ ok tt
unfolding ledger_all
is_number = refl

envelope-envelope_example :
    let l' = (envelope requests empty update 50000 50100 nonce).1 in
    envelope requests l' update 59000 60000 "" ≡ (ok message, l')
envelope-envelope_example =
    envelope-envelope requests empty update 50000 50100 nonce message 59000 60000 "" signed
      is_number (omega arith)

-- The row of the message.
abbrev row : Reservation
row = new_reservation requests message "request" 51000

reserved : (reserve requests peers empty message 1000 51000).0 ≡ ok row
unfolding ledger_all
reserved = refl

reserve-reserve_example :
    let l' = (reserve requests peers empty message 1000 51000).1 in
    reserve requests peers l' message 1000 60000 ≡ (ok row, observe l' 60000)
reserve-reserve_example =
    reserve-reserve requests peers empty message 1000 51000 60000 row is_number reserved

reserve-IsAuthentic_example : IsAuthentic requests peers empty message 1000 51000 row
reserve-IsAuthentic_example =
    reserve-IsAuthentic requests peers empty message 1000 51000 row reserved

abbrev calls : List LedgerCall
calls =
    reserve_call message 1000 51000
    ∷ reserve_call (record message { action = "other" }) 1000 52000
    ∷ complete_call "tg-1" "done" false
    ∷ gc_call 60000
    ∷ []

ledger_calls-AreDistinct_example : AreDistinct (ledger_calls requests peers empty calls).replay
ledger_calls-AreDistinct_example = ledger_calls-AreDistinct requests peers empty calls tt
