-- ===== src/Programs/Examples.antt =====
-- Concrete runs of the programs, and the theorems at concrete inputs.
use rust_cardano_ouroboros_n.Prelude.{
  ℕ, ◌≡◌, inl, inr, refl, List, [], ◌∷◌, ◌++◌, take, drop, length, map, arith,
}
use rust_cardano_ouroboros_n.Prelude.Int.{pos}
use rust_cardano_ouroboros_n.Model.{Bytes, Point, Tip, IsPoint, IsTip}
use rust_cardano_ouroboros_n.Cbor.Sample.{sample, sample-IsCodec}
use rust_cardano_ouroboros_n.Protocol.Stream.{encode, encode_all}
use rust_cardano_ouroboros_n.ChainSync.{
  roll_backward, find_intersect, to_values, backward, found, not_found,
}
use rust_cardano_ouroboros_n.ChainSync.Machine.{intersect_message, rolled_backward}
use rust_cardano_ouroboros_n.ChainSync.Session.{ready}
use rust_cardano_ouroboros_n.Handshake.Messages.{accept_items}
use rust_cardano_ouroboros_n.Handshake.Versions.{n2n}
use rust_cardano_ouroboros_n.Programs.{
  Config, LogOf, TipLine, begins, answers, awaits_payload, panicked, tip,
}
use rust_cardano_ouroboros_n.Programs.Sync.{
  Exchange, IsExchange, waiting_client, messages, inbox, requests,
}
use rust_cardano_ouroboros_n.Programs.Wire.{connected, sync, sync-read_bytes}
use rust_cardano_ouroboros_n.Mux.{Sent, send_all}
use rust_cardano_ouroboros_n.Programs.FollowTip
use rust_cardano_ouroboros_n.Programs.FollowTip.{Round, IsSearch, tip-answers}

abbrev here : Point
here = record { slot = 42; hash = 1 ∷ 2 ∷ [] }

abbrev head : Tip
head = record { block_number = pos 7; slot_number = 50; hash = 3 ∷ [] }

here-IsPoint : IsPoint here
here-IsPoint = record { slot_range = omega arith }

head-IsTip : IsTip head
head-IsTip = record { slot_range = omega arith; block_range = omega arith }

abbrev blake : Bytes → Bytes
blake b = take 2 b

abbrev cfg : Config
cfg = record { magic = 9; byron_mainnet = here; byron_testnet = here; byron_guild = here }

abbrev points : List Point
points = here ∷ here ∷ here ∷ []

abbrev cut_at_nine : Bytes → List Bytes
cut_at_nine bytes = take 9 bytes ∷ drop 9 bytes ∷ []

abbrev welcome : List Bytes
welcome = cut_at_nine (encode sample (accept_items (n2n (pos 7)) 9))

abbrev start : List Bytes
start = cut_at_nine (encode sample (to_values (intersect_message (found here head))))

-- The server lets the client wait once, and then rolls it back.
abbrev exchange : Exchange sample sample-IsCodec blake
exchange = record {
  waits = 1;
  message = roll_backward here head;
  reply = backward here head;
  pieces = cut_at_nine (
      encode_all sample (
        map to_values (
          messages sample sample-IsCodec blake (record {
            waits = 1;
            message = roll_backward here head;
            reply = backward here head;
            pieces = [];
          }))));
}

exchange-IsExchange : IsExchange sample sample-IsCodec blake 4 exchange
unfolding to_values
exchange-IsExchange = record {
  answers = rolled_backward;
  ranges = (here-IsPoint, head-IsTip);
  writable = (refl, (refl, tt));
  full = ((λ e. cc), ((λ e. cc), tt));
  bytes = refl;
  enough = omega arith;
}

abbrev round : Round sample sample-IsCodec blake
round = record { exchange = exchange; search = not_found head; found_in = [] }

start-IsSearch : IsSearch sample sample-IsCodec blake 4 points (found here head) start
unfolding to_values
start-IsSearch = record {
  ranges = (here-IsPoint, head-IsTip);
  asked = refl;
  writable = refl;
  full = ((λ e. cc), ((λ e. cc), tt));
  bytes = refl;
  enough = omega arith;
}

abbrev tip_run : LogOf TipLine
tip_run =
    tip sample blake cfg 2 4 (ready welcome [])
      (ready (start ++ FollowTip.inbox sample sample-IsCodec blake (round ∷ [])) [])

tip-answers_example :
    ((at : Tip) → found here head ≡ not_found at → tip_run ≡ ([], panicked))
    × ((point : Point) (at : Tip)
        → found here head ≡ found point at
        → tip_run ≡ (
          begins point at ∷ answers (backward here head) ∷ [],
          awaits_payload waiting_client
              (ready [] (
                encode sample (to_values (find_intersect points))
                ∷ FollowTip.requests sample sample-IsCodec blake (round ∷ [])))
              [],
        ))
unfolding to_values
tip-answers_example =
    tip-answers sample sample-IsCodec blake cfg (n2n (pos 7)) welcome start (found here head)
      (round ∷ []) 4 (inr (inl refl)) (omega arith) refl refl ((λ e. cc), ((λ e. cc), tt)) refl
      (omega arith) start-IsSearch refl ((exchange-IsExchange, tt), tt)

-- The same answers as frames, with one for another channel among them.
abbrev frame : ℕ → Bytes → Sent
frame idx payload = record { micros = 5; idx = idx; payload = payload }

abbrev first : List Sent
first = frame 0x8003 (7 ∷ []) ∷ map (frame 0x8000) welcome

abbrev second : List Sent
second = map (frame 0x8002) (start ++ inbox sample sample-IsCodec blake (exchange ∷ []))

sync-read_bytes_example :
    let early = send_all length first in
    let late = send_all length second in
    sync sample blake cfg 2 4 (length early) (length late) (connected (early ++ (late ++ []))) ≡ (
      backward here head ∷ [],
      awaits_payload waiting_client
          (ready [] (
            encode sample (to_values (find_intersect points))
            ∷ requests sample sample-IsCodec blake (exchange ∷ [])))
          [],
    )
unfolding to_values
sync-read_bytes_example =
    sync-read_bytes sample sample-IsCodec blake cfg (n2n (pos 7)) length first second [] start
      (found here head) (exchange ∷ []) 4 (omega arith) (omega arith) (inr (inl refl)) (omega arith)
      refl refl ((λ e. cc), ((λ e. cc), tt)) refl (omega arith) refl (here-IsPoint, head-IsTip) refl
      refl ((λ e. cc), ((λ e. cc), tt)) refl (omega arith) refl (exchange-IsExchange, tt)
