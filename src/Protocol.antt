-- ===== src/Protocol.antt =====
-- src/protocols.rs, the traits `Protocol` and `Message`: what a mini-protocol supplies, how bytes
-- from the channel become messages, and the loop that runs a protocol until nobody has the agency.
pub mod Stream
pub mod Receive
pub mod Execute
pub mod Fuel
pub mod Duplex
pub mod Traces
use rust_cardano_ouroboros_n.Prelude.{
  ℕ, zero, suc, ◌+◌, Bool, true, false, List, [], ◌∷◌, ◌++◌, length, if◌then◌else◌, not, ◌&&◌,
}
use rust_cardano_ouroboros_n.Prelude.Outcome
use rust_cardano_ouroboros_n.Prelude.Outcome.{Outcome, ok, err, panic, unwrap}
use rust_cardano_ouroboros_n.Model.{Bytes}
use rust_cardano_ouroboros_n.Cbor.{Codec, Items, no_more, item, eof, broken}

pub data Agency : Type 0 where
  client server none : Agency

-- `PartialEq for Agency`.
abbrev pub same_agency : Agency → Agency → Bool
same_agency client client = true
same_agency server server = true
same_agency none none = true
same_agency _ _ = false

-- A mini-protocol with state `S` and messages `M`. A method that borrows `self` mutably returns the new
-- state beside its outcome, also when that is an error.
pub record Protocol (S M : Type 0) : Type 0 where
  pub role : S → Agency
  pub agency : S → Agency
  pub send : S → Outcome M × S
  pub recv : S → M → Outcome (Unit {0}) × S
  pub from_iter : Items → Outcome M
  pub to_bytes : M → Outcome Bytes

-- `Message::to_bytes`, where a message does not override it.
abbrev pub to_bytes_default : Codec → Items → Outcome Bytes
to_bytes_default codec values = unwrap (codec.items_to_vec values)

-- What `receive_bytes` leaves: bytes to keep for the next frame, or nothing. `stuck` has no
-- counterpart in the program: the loop ran out of fuel.
pub data Consumed (S : Type 0) : Type 0 where
  keep : S → Bytes → Consumed S
  all_read : S → Consumed S
  panicked stuck : Consumed S

-- A channel as its protocol sees it: the bytes kept from the last frame, the payloads that will
-- arrive, and those that were sent.
pub record Channel : Type 0 where
  pub bytes : Bytes
  pub inbox : List Bytes
  pub outbox : List Bytes

-- How `execute` ends: with `Ok(())`, at an `await` for a payload that does not arrive, or by a panic.
-- While it waits, the bytes kept from the last frame are in a local variable, not in the channel.
pub data Execution (S : Type 0) : Type 0 where
  finished : S → Channel → Execution S
  waiting : S → Channel → Bytes → Execution S
  panicked stuck : Execution S

abbrev pub is_empty : Bytes → Bool
is_empty [] = true
is_empty (_ ∷ _) = false

module _ {S M : Type 0} (p : Protocol S M) where
  -- `self.recv(message).unwrap()`.
  abbrev pub received : Outcome (Unit {0}) × S → Outcome S
  received (ok _, s) = ok s
  received (err e, s) = panic
  received (panic, s) = panic

  -- `Self::Message::from_iter(values).unwrap()`, and `recv` on the message.
  unfoldable pub handle : S → Items → Outcome S
  handle s values =
      Outcome.◌>>=◌ (unwrap (p.from_iter values)) λ message. received (p.recv s message)

  -- `send_bytes`: the bytes of the next message, behind its assertion.
  abbrev pub encode_sent : Outcome M × S → Outcome (Bytes × S)
  encode_sent (ok message, s) = Outcome.◌>>=◌ (unwrap (p.to_bytes message)) λ b. ok (b, s)
  encode_sent (err e, s) = panic
  encode_sent (panic, s) = panic

  unfoldable pub send_bytes : S → Outcome (Bytes × S)
  send_bytes s = if same_agency (p.agency s) (p.role s) then encode_sent (p.send s) else panic

  module _ (codec : Codec) where
    -- `while let Some(chunk) = d.next()`, on the bytes from the last offset on.
    unfoldable pub receive_loop : ℕ → S → Bytes → Consumed S
    receive_loop zero s rest = stuck
    receive_loop (suc fuel) s rest = elim (codec.next rest) [
      | no_more ↦ if is_empty rest then all_read s else panicked
      | item values rest' ↦ elim (handle s values) [
        | ok s' ↦ receive_loop fuel s' rest'
        | err e ↦ panicked
        | panic ↦ panicked
      ]
      | eof ↦ keep s rest
      | broken ↦ panicked
    ]

    -- Every item takes a byte at least, so one round more than there are bytes is enough.
    unfoldable pub receive_bytes : S → Bytes → Consumed S
    receive_bytes s data' =
        if not (same_agency (p.agency s) none) && not (same_agency (p.agency s) (p.role s))
        then receive_loop (suc (length data')) s data'
        else panicked

    -- `execute`, one unit of fuel for each turn of its loop.
    unfoldable pub execute : ℕ → S → Channel → Execution S
    execute zero s ch = stuck
    execute (suc fuel) s ch = elim (same_agency (p.agency s) none) [
      | true ↦ finished s ch
      | false ↦ elim (same_agency (p.agency s) (p.role s)) [
        | true ↦ elim (send_bytes s) [
          | ok (sent, s') ↦ execute fuel s' (record ch { outbox = ch.outbox ++ sent ∷ [] })
          | err e ↦ panicked
          | panic ↦ panicked
        ]
        | false ↦ elim ch.inbox [
          | [] ↦ waiting s (record ch { bytes = [] }) ch.bytes
          | new_data ∷ later ↦ elim (receive_bytes s (ch.bytes ++ new_data)) [
            | keep s' rest ↦ execute fuel s' (record ch { bytes = rest; inbox = later })
            | all_read s' ↦ execute fuel s' (record ch { bytes = []; inbox = later })
            | panicked ↦ panicked
            | stuck ↦ stuck
          ]
        ]
      ]
    ]
