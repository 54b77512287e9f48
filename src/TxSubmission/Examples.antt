-- ===== src/TxSubmission/Examples.antt =====
-- Concrete runs of transaction submission, and the theorems at concrete inputs.
use rust_cardano_ouroboros_n.Prelude.{◌≡◌, [], ◌∷◌, true, false}
use rust_cardano_ouroboros_n.Prelude.Int.{pos}
use rust_cardano_ouroboros_n.Prelude.Outcome.{ok, err, panic, unexpected}
use rust_cardano_ouroboros_n.Cbor.{nil, ◌▸◌, integer, bool}
use rust_cardano_ouroboros_n.Cbor.Sample.{sample}
use rust_cardano_ouroboros_n.Protocol.{Channel}
use rust_cardano_ouroboros_n.TxSubmission.{
  State, idle, array, to_bytes, send, recv, msg_reply_tx_ids, new,
}
use rust_cardano_ouroboros_n.TxSubmission.Machine.{send-recv, recv_other}

abbrev channel : Channel
channel = record { bytes = []; inbox = (1 ∷ []) ∷ []; outbox = [] }

send-recv_example :
    let (received, t) = recv new (array (integer (pos 0) ▸ bool false ▸ nil)) in
    let (sent, u) = send t in
    (received ≡ ok tt)
    × (false ≡ true → (sent ≡ err unexpected) × (u.state ≡ State.done))
    × (false ≡ false
        → (sent ≡ ok msg_reply_tx_ids)
          × (u.state ≡ idle)
          × (to_bytes sample msg_reply_tx_ids ≡ ok (0x82 ∷ 0x01 ∷ 0x9f ∷ 0xff ∷ [])))
send-recv_example = send-recv sample new false nil

recv_other_example :
    (recv new (array (bool true ▸ nil)) ≡ (ok tt, new))
    × ((recv new (array nil)).0 ≡ panic)
    × ((recv new (array (integer (pos 0) ▸ nil))).0 ≡ panic)
recv_other_example = recv_other new (bool true) nil (λ z e. cc)
