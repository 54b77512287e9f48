-- ===== src/ChainSync/Fuel.antt =====
-- Enough fuel for the queries of the chain-sync client.
use rust_cardano_ouroboros_n.Prelude.{ℕ, ◌+◌, ◌*◌, ◌<◌, ◌≢◌, refl, List, length, Option, none, some}
use rust_cardano_ouroboros_n.Model.{Bytes, Point}
use rust_cardano_ouroboros_n.Cbor.{Codec, IsCodec}
use rust_cardano_ouroboros_n.Protocol.{Channel, Execution, finished}
use rust_cardano_ouroboros_n.Protocol.Fuel.{execute-ne-stuck}
use rust_cardano_ouroboros_n.ChainSync.{
  ChainSync, Intersect, Reply, for_intersect, for_reply, protocol, Answer, take_intersect,
  take_reply, after_execute, ask_intersect, ask_next,
}
use rust_cardano_ouroboros_n.ChainSync.Machine.{send-Alternates}

after_execute-ne-stuck :
    {A : Type 0} (take : ChainSync → Channel → Answer A)
    → ((s : ChainSync) (ch : Channel) → take s ch ≢ Answer.stuck)
    → (x : Execution ChainSync) → x ≢ Execution.stuck
    → after_execute take x ≢ Answer.stuck
after_execute-ne-stuck take t (finished s ch) n = t s ch
after_execute-ne-stuck take t (Execution.waiting s ch held) n = λ e. cc
after_execute-ne-stuck take t Execution.panicked n = λ e. cc
after_execute-ne-stuck take t Execution.stuck n = absurd (n refl)

take_intersect-ne-stuck :
    (i : Option Intersect) (s : ChainSync) (ch : Channel) → take_intersect i s ch ≢ Answer.stuck
take_intersect-ne-stuck none s ch = λ e. cc
take_intersect-ne-stuck (some i) s ch = λ e. cc

take_reply-ne-stuck :
    (r : Option Reply) (s : ChainSync) (ch : Channel) → take_reply r s ch ≢ Answer.stuck
take_reply-ne-stuck none s ch = λ e. cc
take_reply-ne-stuck (some r) s ch = λ e. cc

-- Whatever arrives, both `find_intersect` and `request_next` end within two turns for each payload and
-- two turns more: they return, panic, or wait for a payload that does not come.
pub ask-ne-stuck :
    (codec : Codec) (laws : IsCodec codec) (blake2b : Bytes → Bytes) (fuel : ℕ) (s : ChainSync)
    (ch : Channel)
    → 2 * length ch.inbox + 1 < fuel
    → (ask_next codec blake2b fuel s ch ≢ Answer.stuck)
      × ((points : List Point) → ask_intersect codec blake2b fuel points s ch ≢ Answer.stuck)
unfolding ask_next ask_intersect
ask-ne-stuck codec laws blake2b fuel s ch lt = (
  after_execute-ne-stuck _ (λ s' ch'. take_reply-ne-stuck s'.reply s' ch') _
      (execute-ne-stuck (protocol codec blake2b) codec laws (send-Alternates codec blake2b) fuel
        (record s { query = some for_reply }) ch lt),
  λ points.
      after_execute-ne-stuck _ (λ s' ch'. take_intersect-ne-stuck s'.intersect s' ch') _
        (execute-ne-stuck (protocol codec blake2b) codec laws (send-Alternates codec blake2b) fuel
          (record s { query = some (for_intersect points) }) ch lt),
)
