-- ===== src/Handshake/Duplex/Examples.antt =====
-- Concrete runs of the handshake on both ends, and the theorems at concrete inputs.
use rust_cardano_ouroboros_n.Prelude.{
  ℕ, zero, suc, ◌≡◌, refl, List, [], ◌∷◌, All, concat, none, some, arith,
}
use rust_cardano_ouroboros_n.Prelude.Int.{pos}
use rust_cardano_ouroboros_n.Cbor.Sample.{sample, sample-IsCodec}
use rust_cardano_ouroboros_n.Protocol.Duplex.{Pair, Move, left_turn, right_turn, reached, run}
use rust_cardano_ouroboros_n.Handshake.{Handshake, done, protocol}
use rust_cardano_ouroboros_n.Handshake.Versions.{Version, n2n}
use rust_cardano_ouroboros_n.Handshake.Agreement.{Has}
use rust_cardano_ouroboros_n.Handshake.Duplex.{IsReady, Phase}
use rust_cardano_ouroboros_n.Handshake.Duplex.Progress.{IsRound, start, run-Phase, run-agreement}

abbrev versions : List Version
versions = n2n (pos 6) ∷ n2n (pos 7) ∷ []

versions-IsReady : IsReady sample versions versions 9 (n2n (pos 7))
versions-IsReady = record {
  small = omega arith;
  ordered = (
    (omega arith, omega arith),
    omega arith,
    (omega arith, tt),
    ((omega arith, omega arith), omega arith, tt, tt),
  );
  newest = refl;
  fits = omega arith;
  asks = refl;
  accepts = refl;
}

abbrev turns : List Move
turns = right_turn 5 ∷ left_turn 0 ∷ right_turn 5 ∷ left_turn 2 ∷ right_turn 1 ∷ []

run-Phase_example :
    (y : Pair Handshake Handshake) × (run
        (protocol sample)
        (protocol sample)
        sample
        turns
        (start sample sample-IsCodec versions versions 9 (n2n (pos 7)) versions-IsReady)
      ≡ reached y)
    × Phase sample versions versions 9 (n2n (pos 7)) y
run-Phase_example =
    run-Phase sample sample-IsCodec versions versions 9 (n2n (pos 7)) versions-IsReady turns

abbrev rounds : ℕ → List (List Move)
rounds zero = []
rounds (suc n) = (right_turn 2 ∷ left_turn 1 ∷ left_turn 0 ∷ []) ∷ rounds n

rounds-IsRound : (n : ℕ) → All IsRound (rounds n)
rounds-IsRound zero = tt
rounds-IsRound (suc n) = ((tt, tt), rounds-IsRound n)

run-agreement_example :
    (y : Pair Handshake Handshake) × (run
        (protocol sample)
        (protocol sample)
        sample
        (concat (rounds 100))
        (start sample sample-IsCodec versions versions 9 (n2n (pos 7)) versions-IsReady)
      ≡ reached y)
    × (y.left.state ≡ done)
    × (y.right.state ≡ done)
    × (y.right.version ≡ some (n2n (pos 7)))
    × (Has (n2n (pos 7)) versions → y.left.version ≡ some (n2n (pos 7)))
    × (¬ Has (n2n (pos 7)) versions → y.left.version ≡ none)
run-agreement_example =
    run-agreement sample sample-IsCodec versions versions 9 (n2n (pos 7)) versions-IsReady
      (rounds 100) (rounds-IsRound 100) (omega arith)
