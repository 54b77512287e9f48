-- ===== src/BlockFetch/Lifetime/Examples.antt =====
-- The test `client_works` of src/protocols/blockfetch.rs as a run, and the theorem at it.
use rust_cardano_ouroboros_n.Prelude.{
  ◌≡◌, refl, List, [], ◌∷◌, ◌++◌, take, drop, false, true, arith,
}
use rust_cardano_ouroboros_n.Model.{Bytes}
use rust_cardano_ouroboros_n.Cbor.Sample.{sample, sample-IsCodec}
use rust_cardano_ouroboros_n.Protocol.Stream.{encode, encode_all}
use rust_cardano_ouroboros_n.BlockFetch.{State, Config, request_range, client_done, to_values}
use rust_cardano_ouroboros_n.BlockFetch.Machine.{at}
use rust_cardano_ouroboros_n.BlockFetch.Lifetime.{
  closed, client_works, Reply, batch, nothing, values_of, Answer, inbox, IsAnswer, channel,
  client_works-answers,
}

abbrev config : Config
config = record {
  first = record { slot = 42; hash = 1 ∷ 2 ∷ [] };
  last = record { slot = 44; hash = 3 ∷ [] };
}

abbrev mock_blocks : List Bytes
mock_blocks = (7 ∷ 8 ∷ []) ∷ (9 ∷ []) ∷ (10 ∷ 11 ∷ []) ∷ []

abbrev cut_at_nine : Reply → List Bytes
cut_at_nine reply =
    take 9 (encode_all sample (values_of reply)) ∷ drop 9 (encode_all sample (values_of reply)) ∷ []

abbrev first_answer : Answer
first_answer = record { reply = batch mock_blocks; pieces = cut_at_nine (batch mock_blocks) }

abbrev second_answer : Answer
second_answer = record { reply = nothing; pieces = encode_all sample (values_of nothing) ∷ [] }

first_answer-IsAnswer : IsAnswer sample sample-IsCodec config 4 4 first_answer
unfolding to_values
first_answer-IsAnswer = record {
  full = ((λ e. cc), ((λ e. cc), tt));
  writable = (refl, (refl, (refl, (refl, (refl, tt)))));
  bytes = refl;
  room = omega arith;
  enough = omega arith;
}

second_answer-IsAnswer : IsAnswer sample sample-IsCodec config 4 4 second_answer
unfolding to_values
second_answer-IsAnswer = record {
  full = ((λ e. cc), tt);
  writable = (refl, tt);
  bytes = refl;
  room = omega arith;
  enough = omega arith;
}

client_works-answers_example :
    client_works sample 4 4 2 (at sample config false State.idle [] false) (
      channel sample sample-IsCodec config 4 4 (inbox (first_answer ∷ second_answer ∷ []) ++ []) [])
    ≡ closed (mock_blocks ∷ [] ∷ []) (at sample config true State.done [] true) (
        channel sample sample-IsCodec config 4 4 [] (
          encode sample (to_values (request_range config.first config.last))
          ∷ encode sample (to_values (request_range config.first config.last))
          ∷ encode sample (to_values client_done)
          ∷ []))
unfolding to_values
client_works-answers_example =
    client_works-answers sample sample-IsCodec config 4 4 (first_answer ∷ second_answer ∷ []) [] []
      false refl refl (omega arith) (first_answer-IsAnswer, (second_answer-IsAnswer, tt))
