-- ===== src/Handshake/Scenarios/Examples.antt =====
-- The tests of the handshake at one magic, with a codec that writes an array as it writes its items.
use rust_cardano_ouroboros_n.Prelude.{◌≡◌, refl, sym, ap, ◌∙◌, some, [], ◌∷◌, append-nil, arith}
use rust_cardano_ouroboros_n.Prelude.Int.{pos}
use rust_cardano_ouroboros_n.Prelude.Outcome.{Outcome, ok, err, cbor_error}
use rust_cardano_ouroboros_n.Model.{Bytes}
use rust_cardano_ouroboros_n.Cbor.{
  Codec, IsCodec, Value, Items, array, Next, no_more, item, eof, broken,
}
use rust_cardano_ouroboros_n.Cbor.Sample.{sample, sample-IsCodec}
use rust_cardano_ouroboros_n.Protocol.{client, server}
use rust_cardano_ouroboros_n.Protocol.Stream.{encode}
use rust_cardano_ouroboros_n.Handshake.{State, negotiated}
use rust_cardano_ouroboros_n.Handshake.Versions.{n2n}
use rust_cardano_ouroboros_n.Handshake.Messages.{accept_items}
use rust_cardano_ouroboros_n.Handshake.Machine.{ready}
use rust_cardano_ouroboros_n.Handshake.Agreement.{proposal_items}
use rust_cardano_ouroboros_n.Handshake.Builder.{with_peers, versions_of, fresh}
use rust_cardano_ouroboros_n.Handshake.Scenarios.{
  propose, confirm, handshake_client_works, handshake_server_works, handshake_works,
}

abbrev write_value : Value → Outcome Bytes
write_value (array vs) = sample.items_to_vec vs
write_value v = sample.value_to_vec v

abbrev the_items : Next → Outcome Items
the_items no_more = err cbor_error
the_items (item vs rest) = ok vs
the_items eof = err cbor_error
the_items broken = err cbor_error

abbrev uniform : Codec
uniform = record sample { value_to_vec = write_value; from_slice = λ b. the_items (sample.next b) }

slice_round_trip :
    (vs : Items) (b : Bytes) → sample.items_to_vec vs ≡ ok b → the_items (sample.next b) ≡ ok vs
slice_round_trip vs b e =
    ap (λ d. the_items (sample.next d)) (sym (append-nil b))
    ∙ ap the_items (sample-IsCodec.next_round_trip vs b [] e)

uniform-IsCodec : IsCodec uniform
uniform-IsCodec = record {
  key_order = sample-IsCodec.key_order;
  slice_round_trip = slice_round_trip;
  next_round_trip = sample-IsCodec.next_round_trip;
  next_nothing = sample-IsCodec.next_nothing;
  next_cut = sample-IsCodec.next_cut;
  next_shorter = sample-IsCodec.next_shorter;
}

handshake_works_example :
    (propose uniform 9 ≡ ok (encode uniform (proposal_items (versions_of with_peers) 9)))
    × (confirm uniform 9 ≡ ok (encode uniform (accept_items (n2n (pos 7)) 9)))
    × (handshake_client_works uniform 9 4
        ≡ negotiated
            (ok (n2n (pos 7), 9))
            (record (fresh with_peers 9 client) {
              state = State.done;
              version = some (n2n (pos 7));
            })
            (ready [] (encode uniform (proposal_items (versions_of with_peers) 9) ∷ [])))
    × (handshake_server_works uniform 9 4
        ≡ negotiated
            (ok (n2n (pos 7), 9))
            (record (fresh with_peers 9 server) {
              state = State.done;
              version = some (n2n (pos 7));
            })
            (ready [] (encode uniform (accept_items (n2n (pos 7)) 9) ∷ [])))
handshake_works_example =
    handshake_works uniform uniform-IsCodec (λ vs. refl) 9 4 (omega arith) refl refl (omega arith)
