-- ===== src/ChainSync/Examples.antt =====
-- Concrete runs of the chain-sync client, and the theorems at concrete inputs.
use rust_cardano_ouroboros_n.Prelude.{◌≢◌, ◌≡◌, refl, List, [], ◌∷◌, ◌++◌, take, drop, map, arith}
use rust_cardano_ouroboros_n.Prelude.Int.{pos}
use rust_cardano_ouroboros_n.Prelude.Outcome.{ok, err, end_required}
use rust_cardano_ouroboros_n.Model.{Bytes, Point, Tip, IsPoint, IsTip}
use rust_cardano_ouroboros_n.Cbor.{Value, Items, nil, ◌▸◌, integer, array}
use rust_cardano_ouroboros_n.Cbor.Sample.{sample, sample-IsCodec}
use rust_cardano_ouroboros_n.Values.{from_vec}
use rust_cardano_ouroboros_n.Protocol.Stream.{encode, encode_all}
use rust_cardano_ouroboros_n.ChainSync.{
  Answer, request_next, roll_backward, find_intersect, from_iter, to_values, found, backward,
  client_new, answered, panicked, ask_intersect, ask_next,
}
use rust_cardano_ouroboros_n.ChainSync.Messages.{
  from_iter-to_values_chainsync, from_iter-trailing, points_and,
}
use rust_cardano_ouroboros_n.ChainSync.Machine.{awaits, intersect_message, rolled_backward}
use rust_cardano_ouroboros_n.ChainSync.Fuel.{ask-ne-stuck}
use rust_cardano_ouroboros_n.ChainSync.Session.{
  ready, ask_next_answered, ask_intersect_answered, ask_intersect_wrong_answer,
}

abbrev here : Point
here = record { slot = 42; hash = 1 ∷ 2 ∷ [] }

abbrev head : Tip
head = record { block_number = pos 7; slot_number = 50; hash = 3 ∷ [] }

here-IsPoint : IsPoint here
here-IsPoint = record { slot_range = omega arith }

head-IsTip : IsTip head
head-IsTip = record { slot_range = omega arith; block_range = omega arith }

abbrev blake : Bytes → Bytes
blake b = take 2 b

abbrev cut_at_nine : List Items → List Bytes
cut_at_nine values = take 9 (encode_all sample values) ∷ drop 9 (encode_all sample values) ∷ []

from_iter-to_values_chainsync_example :
    from_iter (from_vec (to_values (roll_backward here head))) ≡ ok (roll_backward here head)
from_iter-to_values_chainsync_example =
    from_iter-to_values_chainsync (roll_backward here head) (here-IsPoint, head-IsTip)

from_iter-trailing_example :
    (from_iter (integer (pos 4) ▸ array (points_and (here ∷ []) (integer (pos 9) ▸ nil)) ▸ nil)
      ≡ ok (find_intersect (here ∷ [])))
    × ((w : Value) (rest : Items)
        → from_iter
            (integer (pos 4) ▸ array (points_and (here ∷ []) (integer (pos 9) ▸ w ▸ rest)) ▸ nil)
          ≡ err end_required)
from_iter-trailing_example =
    from_iter-trailing (here ∷ []) (integer (pos 9)) (here-IsPoint, tt) refl

ask_next_answered_example :
    ask_next sample blake 4 client_new
      (ready (cut_at_nine (map to_values (awaits 1 ++ roll_backward here head ∷ []))) [])
    ≡ answered
        (backward here head)
        client_new
        (ready [] (encode sample (to_values request_next) ∷ []))
unfolding to_values client_new
ask_next_answered_example =
    ask_next_answered sample sample-IsCodec blake client_new
      (cut_at_nine (map to_values (awaits 1 ++ roll_backward here head ∷ []))) [] [] 4 1
      (roll_backward here head) (backward here head) refl rolled_backward (here-IsPoint, head-IsTip)
      refl (refl, (refl, tt)) ((λ e. cc), ((λ e. cc), tt)) refl (omega arith)

ask_intersect_answered_example :
    ask_intersect sample blake 4
      (here ∷ [])
      client_new
      (ready (cut_at_nine (to_values (intersect_message (found here head)) ∷ [])) [])
    ≡ answered
        (found here head)
        client_new
        (ready [] (encode sample (to_values (find_intersect (here ∷ []))) ∷ []))
unfolding to_values client_new
ask_intersect_answered_example =
    ask_intersect_answered sample sample-IsCodec blake client_new
      (cut_at_nine (to_values (intersect_message (found here head)) ∷ [])) [] [] 4 (here ∷ [])
      (found here head) refl (here-IsPoint, head-IsTip) refl refl ((λ e. cc), ((λ e. cc), tt)) refl
      (omega arith)

ask_intersect_wrong_answer_example :
    ask_intersect sample blake 4
      (here ∷ [])
      client_new
      (ready (cut_at_nine (to_values (roll_backward here head) ∷ [])) [])
    ≡ panicked
unfolding to_values client_new
ask_intersect_wrong_answer_example =
    ask_intersect_wrong_answer sample sample-IsCodec blake client_new
      (cut_at_nine (to_values (roll_backward here head) ∷ [])) [] [] 4 (here ∷ [])
      (roll_backward here head) (backward here head) refl refl rolled_backward
      (here-IsPoint, head-IsTip) refl refl ((λ e. cc), ((λ e. cc), tt)) refl (omega arith)

ask-ne-stuck_example :
    (ask_next sample blake 4 client_new (ready ((1 ∷ 2 ∷ []) ∷ []) []) ≢ Answer.stuck)
    × ((points : List Point)
        → ask_intersect sample blake 4 points client_new (ready ((1 ∷ 2 ∷ []) ∷ []) [])
          ≢ Answer.stuck)
ask-ne-stuck_example =
    ask-ne-stuck sample sample-IsCodec blake 4 client_new (ready ((1 ∷ 2 ∷ []) ∷ []) [])
      (omega arith)
