-- ===== src/Handshake/Duplex/Progress.antt =====
-- Whole runs of the handshake: whatever the order of the turns, nothing goes wrong, and if both ends
-- keep taking turns, then they come to their agreement.
use rust_cardano_ouroboros_n.Prelude.{
  ℕ, zero, suc, ◌+◌, ◌≤◌, ◌<◌, ◌≡◌, ◌⊎◌, inl, inr, refl, ap, ◌∙◌, List, [], ◌∷◌, ◌++◌, length,
  concat, All, none, some, arith,
}
use rust_cardano_ouroboros_n.Cbor.{Codec, IsCodec}
use rust_cardano_ouroboros_n.Protocol.Duplex.{
  Pair, Move, left_turn, right_turn, After, reached, broken, and_then, step, run,
}
use rust_cardano_ouroboros_n.Handshake.{Handshake, propose, done, protocol, find_version}
use rust_cardano_ouroboros_n.Handshake.Versions.{Version}
use rust_cardano_ouroboros_n.Handshake.Duplex.{
  IsReady, Side, on_left, on_right, nobody, Awaited, client_at, server_at, pair, request, answer,
  Phase, unasked, asked, heard, answered, agreed, side, measure, stays, moves,
}
use rust_cardano_ouroboros_n.Handshake.Agreement.{Has, find_version-Has}
use rust_cardano_ouroboros_n.Handshake.Duplex.Steps.{step-Phase}

-- Among some turns is one of each end, by which at least a byte has arrived.
abbrev pub HasLeft : List Move → Type 0
HasLeft [] = ⊥
HasLeft (left_turn zero ∷ turns) = HasLeft turns
HasLeft (left_turn (suc n) ∷ turns) = Unit {0}
HasLeft (right_turn n ∷ turns) = HasLeft turns

abbrev pub HasRight : List Move → Type 0
HasRight [] = ⊥
HasRight (right_turn zero ∷ turns) = HasRight turns
HasRight (right_turn (suc n) ∷ turns) = Unit {0}
HasRight (left_turn n ∷ turns) = HasRight turns

abbrev HasTurn : Side → List Move → Type 0
HasTurn on_left turns = HasLeft turns
HasTurn on_right turns = HasRight turns
HasTurn nobody turns = ⊥

abbrev pub IsRound : List Move → Type 0
IsRound turns = HasLeft turns × HasRight turns

HasTurn-IsRound : (a : Side) (turns : List Move) → IsRound turns → (a ≡ nobody) ⊎ HasTurn a turns
HasTurn-IsRound on_left turns h = inr h.0
HasTurn-IsRound on_right turns h = inr h.1
HasTurn-IsRound nobody turns h = inl refl

-- A turn that is not awaited leaves the awaited one for later.
HasTurn-tail :
    (a : Side) (m : Move) (turns : List Move)
    → HasTurn a (m ∷ turns)
    → ¬ Awaited a m
    → HasTurn a turns
HasTurn-tail on_left (left_turn zero) turns h n = h
HasTurn-tail on_left (left_turn (suc k)) turns h n = absurd (n tt)
HasTurn-tail on_left (right_turn k) turns h n = h
HasTurn-tail on_right (right_turn zero) turns h n = h
HasTurn-tail on_right (right_turn (suc k)) turns h n = absurd (n tt)
HasTurn-tail on_right (left_turn k) turns h n = h
HasTurn-tail nobody m turns h n = h

module _ (codec : Codec) (laws : IsCodec codec) (ours theirs : List Version) (magic : ℕ)
    (v : Version) (r : IsReady codec ours theirs magic v) where
  abbrev go : List Move → Pair Handshake Handshake → After Handshake Handshake
  go = run (protocol codec) (protocol codec) codec

  abbrev remaining : Pair Handshake Handshake → ℕ
  remaining = measure codec ours theirs magic v

  -- What some turns come to.
  data Ran (x : Pair Handshake Handshake) (turns : List Move) : Type 0 where
    ran :
        (y : Pair Handshake Handshake)
        → go turns x ≡ reached y
        → Phase codec ours theirs magic v y
        → remaining y ≤ remaining x
        → Ran x turns

  run-Ran :
      (turns : List Move) {x : Pair Handshake Handshake}
      → Phase codec ours theirs magic v x
      → Ran x turns
  unfolding run
  run-Ran [] {x} h = ran x refl h (omega arith)
  run-Ran (m ∷ turns) {x} h = elim (step-Phase codec laws ours theirs magic v r h m) [
    | stays e n ↦ elim (run-Ran turns h) [
      | ran z q k le ↦ ran z (ap (λ a. and_then a (go turns)) e ∙ q) k le
    ]
    | moves y e k lt ↦ elim (run-Ran turns k) [
      | ran z q l le ↦ ran z (ap (λ a. and_then a (go turns)) e ∙ q) l (omega arith)
    ]
  ]

  abbrev pub start : Pair Handshake Handshake
  start =
      pair (client_at codec ours theirs magic v propose none) [] []
        (server_at codec ours theirs magic v propose none) [] []

  abbrev over : Pair Handshake Handshake
  over =
      pair (client_at codec ours theirs magic v done (find_version v ours)) [] []
        (server_at codec ours theirs magic v done (some v)) [] []

  run-over : (turns : List Move) → go turns over ≡ reached over
  unfolding run
  run-over [] = refl
  run-over (m ∷ turns) = elim (step-Phase codec laws ours theirs magic v r agreed m) [
    | stays e n ↦ ap (λ a. and_then a (go turns)) e ∙ run-over turns
    | moves y e k lt ↦ absurd (omega arith)
  ]

  over-nobody :
      {x : Pair Handshake Handshake} (h : Phase codec ours theirs magic v x)
      → side codec ours theirs magic v h ≡ nobody
      → x ≡ over
  over-nobody unasked e = cc
  over-nobody (asked _ _ _ _) e = cc
  over-nobody heard e = cc
  over-nobody (answered _ _ _ _) e = cc
  over-nobody agreed e = refl

  over-remaining :
      {x : Pair Handshake Handshake}
      → Phase codec ours theirs magic v x
      → remaining x ≤ 0
      → x ≡ over
  over-remaining unasked le = absurd (omega arith)
  over-remaining (asked _ _ _ _) le = absurd (omega arith)
  over-remaining heard le = absurd (omega arith)
  over-remaining (answered _ _ _ _) le = absurd (omega arith)
  over-remaining agreed le = refl

  -- What a round comes to: nearer to the end, if it is not there.
  data Nearer (x : Pair Handshake Handshake) (turns : List Move) : Type 0 where
    nearer :
        (y : Pair Handshake Handshake)
        → go turns x ≡ reached y
        → Phase codec ours theirs magic v y
        → remaining y < remaining x
        → Nearer x turns

  run-Nearer :
      (turns : List Move) {x : Pair Handshake Handshake} (h : Phase codec ours theirs magic v x)
      → HasTurn (side codec ours theirs magic v h) turns
      → Nearer x turns
  unfolding run
  run-Nearer [] h t = absurd (no_turn (side codec ours theirs magic v h) t)
    where
      no_turn : (a : Side) → HasTurn a [] → ⊥
      no_turn on_left t' = t'
      no_turn on_right t' = t'
      no_turn nobody t' = t'
  run-Nearer (m ∷ turns) {x} h t = elim (step-Phase codec laws ours theirs magic v r h m) [
    | stays e n ↦
        elim (run-Nearer turns h (HasTurn-tail (side codec ours theirs magic v h) m turns t n)) [
          | nearer z q k lt ↦ nearer z (ap (λ a. and_then a (go turns)) e ∙ q) k lt
        ]
    | moves y e k lt ↦ elim (run-Ran turns k) [
      | ran z q l le ↦ nearer z (ap (λ a. and_then a (go turns)) e ∙ q) l (omega arith)
    ]
  ]

  run-append :
      (front back : List Move) (x : Pair Handshake Handshake)
      → go (front ++ back) x ≡ and_then (go front x) (go back)
  unfolding run
  run-append [] back x = refl
  run-append (m ∷ front) back x =
      by_step (step (protocol codec) (protocol codec) codec m x) (λ y. run-append front back y)
    where
      by_step :
          (a : After Handshake Handshake)
          → ((y : Pair Handshake Handshake)
              → go (front ++ back) y ≡ and_then (go front y) (go back))
          → and_then a (go (front ++ back)) ≡ and_then (and_then a (go front)) (go back)
      by_step (reached y) ih = ih y
      by_step broken ih = refl

  run-rounds :
      (rounds : List (List Move)) {x : Pair Handshake Handshake}
      → Phase codec ours theirs magic v x
      → All IsRound rounds
      → remaining x ≤ length rounds
      → go (concat rounds) x ≡ reached over
  unfolding run
  run-rounds [] h fair le = ap reached (over-remaining h le)
  run-rounds (turns ∷ rounds) {x} h (f, fair) le =
      run-append turns (concat rounds) x
      ∙ elim (HasTurn-IsRound (side codec ours theirs magic v h) turns f) [
        | inl e ↦
            ap (λ y. and_then (go turns y) (go (concat rounds))) (over-nobody h e)
            ∙ ap (λ a. and_then a (go (concat rounds))) (run-over turns)
            ∙ run-over (concat rounds)
        | inr t ↦ elim (run-Nearer turns h t) [
          | nearer y e k lt ↦
              ap (λ a. and_then a (go (concat rounds))) e ∙ run-rounds rounds k fair (omega arith)
        ]
      ]

  -- A fresh client and a fresh server take turns in any order, and read what has arrived of the bytes of
  -- the other in any parts. Then neither panics, and they are in one of the five phases of the exchange:
  -- the client has not asked yet; what the server has kept and what is on its way to it are the bytes of
  -- the proposal; the server has heard it; what the client has kept and what is on its way to it are the
  -- bytes of the acceptance; both are done, the server with the last of its versions, and the client with
  -- that version if it is one of its own. The client's versions are supported ones in the strict order of
  -- their keys, both have one 32-bit magic, the last version of the server fits 16 bits, and the encoder
  -- accepts both messages.
  pub run-Phase :
      (turns : List Move)
      → (y : Pair Handshake Handshake) × (go turns start ≡ reached y)
        × Phase codec ours theirs magic v y
  run-Phase turns = elim (run-Ran turns unasked) [ ran y e h le ↦ (y, e, h) ]

  -- A fresh client and a fresh server take turns, in rounds in each of which each end takes a turn by
  -- which at least a byte may arrive, in any order and with any other turns between. After as many rounds
  -- as both messages have bytes, and four, both are done. The server's version is then the last of its
  -- own, and the client's is the same if that is one of its own, and none if not. The client's versions
  -- are supported ones in the strict order of their keys, both have one 32-bit magic, the last version of
  -- the server fits 16 bits, and the encoder accepts both messages.
  pub run-agreement :
      (rounds : List (List Move))
      → All IsRound rounds
      → length (request codec ours theirs magic v) + length (answer codec ours theirs magic v) + 4
        ≤ length rounds
      → (y : Pair Handshake Handshake) × (go (concat rounds) start ≡ reached y)
        × (y.left.state ≡ done)
        × (y.right.state ≡ done)
        × (y.right.version ≡ some v)
        × (Has v ours → y.left.version ≡ some v)
        × (¬ Has v ours → y.left.version ≡ none)
  run-agreement rounds fair le = (
    over,
    run-rounds rounds unasked fair (omega arith),
    refl,
    refl,
    refl,
    (find_version-Has v ours).0,
    (find_version-Has v ours).1,
  )
