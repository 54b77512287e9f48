-- ===== src/TxSubmission/Machine.antt =====
-- The transaction-submission machine: requests and the answers to them.
use rust_cardano_ouroboros_n.Prelude.{ℕ, suc, ◌≡◌, refl, [], ◌∷◌, Bool, true, false, arith}
use rust_cardano_ouroboros_n.Prelude.Int.{ℤ, pos, is_tag}
use rust_cardano_ouroboros_n.Prelude.Outcome.{ok, err, panic, unexpected}
use rust_cardano_ouroboros_n.Cbor.{Codec, Value, Items, nil, ◌▸◌, integer, bool}
use rust_cardano_ouroboros_n.Protocol.{Channel, execute, finished}
use rust_cardano_ouroboros_n.Protocol
use rust_cardano_ouroboros_n.Protocol.Execute.{execute_done}
use rust_cardano_ouroboros_n.TxSubmission.{
  TxSubmission, idle, done, array, to_bytes, agency, send, recv, protocol, msg_reply_tx_ids,
}

agency-none : (s : TxSubmission) → Protocol.same_agency (agency s) Protocol.none ≡ true
unfolding agency
agency-none s = ground arith

-- In every state `execute` returns at once: it sends nothing, and reads nothing of what has arrived.
pub execute_at_once :
    (codec : Codec) (fuel : ℕ) (s : TxSubmission) (ch : Channel)
    → execute (protocol codec) codec (suc fuel) s ch ≡ finished s ch
execute_at_once codec fuel s ch = execute_done (protocol codec) codec fuel s ch (agency-none s)

-- Once a `RequestTxIds` was received, whatever the state before it: if it blocks, then `send` is an
-- error and ends the protocol, for there is nothing to send; if not, `send` gives the four bytes of an
-- empty `ReplyTxIds`, and the protocol is idle again.
pub send-recv :
    (codec : Codec) (s : TxSubmission) (blocking : Bool) (rest : Items)
    → let (received, t) = recv s (array (integer (pos 0) ▸ bool blocking ▸ rest)) in
      let (sent, u) = send t in
      (received ≡ ok tt)
      × (blocking ≡ true → (sent ≡ err unexpected) × (u.state ≡ done))
      × (blocking ≡ false
          → (sent ≡ ok msg_reply_tx_ids)
            × (u.state ≡ idle)
            × (to_bytes codec msg_reply_tx_ids ≡ ok (0x82 ∷ 0x01 ∷ 0x9f ∷ 0xff ∷ [])))
unfolding send recv to_bytes
send-recv codec s true rest = (refl, (λ e. (refl, refl)), (λ e. cc))
send-recv codec s false rest = (refl, (λ e. cc), (λ e. (refl, refl, refl)))

-- A message whose first value is no integer, or any other identifier than that of a request, is
-- passed over; the empty array is a panic, and so is a request that stops behind its identifier.
pub recv_other :
    (s : TxSubmission) (v : Value) (rest : Items)
    → ((z : ℤ) → v ≡ integer z → is_tag z 0 ≡ false)
    → (recv s (array (v ▸ rest)) ≡ (ok tt, s))
      × ((recv s (array nil)).0 ≡ panic)
      × ((recv s (array (integer (pos 0) ▸ nil))).0 ≡ panic)
unfolding recv
recv_other s (integer z) rest h = (rw (h z refl), refl, refl)
recv_other s _ rest h = (refl, refl, refl)
