-- ===== src/MessageQueue/Retries.antt =====
-- The life of one message: its attempts, as long as its copies are delivered to the subscription again.
-- A copy is published with an expiration, and to an exchange: whether it comes back is a parameter.
use siam_siam_ecosystem.MessageQueue.Defs.{Queue}
use siam_siam_ecosystem.Double.{Double}
use siam_siam_ecosystem.MessageQueue.Delivery.{
  returns, throws, ack, nack, republish, Handled, SubscribeOptions, Message, Call, consume,
}
use siam_siam_ecosystem.Common.{
  none, some, [], ◌∷◌, zero, suc, ◌⊎◌, List, ℕ, ◌≡◌, ◌+◌, Option, ◌++◌, ◌≤◌, ◌<◌, true, false, Bool,
  if◌then◌else◌,
}

abbrev pub Throws : Handled → Type 0
Throws h = (e : ℕ) × (h ≡ throws e)

module _ (d : Double) where
  abbrev pub acks : List (Call d) → ℕ
  acks [] = 0
  acks (ack m ∷ cs) = suc (acks cs)
  acks (nack m ∷ cs) = acks cs
  acks (republish m x ∷ cs) = acks cs

  abbrev pub nacks : List (Call d) → ℕ
  nacks [] = 0
  nacks (ack m ∷ cs) = nacks cs
  nacks (nack m ∷ cs) = suc (nacks cs)
  nacks (republish m x ∷ cs) = nacks cs

  abbrev pub copies : List (Call d) → ℕ
  copies [] = 0
  copies (ack m ∷ cs) = copies cs
  copies (nack m ∷ cs) = copies cs
  copies (republish m x ∷ cs) = suc (copies cs)

  -- the copy that is published
  abbrev pub copy : List (Call d) → Option Message
  copy [] = none
  copy (ack m ∷ cs) = copy cs
  copy (nack m ∷ cs) = copy cs
  copy (republish m x ∷ cs) = some m

  -- a life with these calls before it
  abbrev pub before :
      List (Call d) → Option (List (Call d) × Queue) → Option (List (Call d) × Queue)
  before cs none = none
  before cs (some r) = some (cs ++ r.0, r.1)

  -- what the calls of one attempt lead to, where the copy is delivered again or is not
  abbrev pub after :
      Bool
      → (Message → Queue → Option (List (Call d) × Queue))
      → List (Call d) × Queue
      → Option (List (Call d) × Queue)
  after delivered next (cs, q) = elim (copy cs) [
    | none ↦ some (cs, q)
    | some m ↦ if delivered then before cs (next m q) else some (cs, q)
  ]

  module _ (o : SubscribeOptions) (random : ℕ → d.D) (outcome : ℕ → Handled)
      (delivered : ℕ → Bool) where
    -- All calls that a message leads to, from its attempt `i` on, in at most `fuel` attempts: `none` where
    -- they are not enough. `delivered i` tells whether a copy that the attempt `i` publishes is
    -- delivered to the subscription again.
    unfoldable pub life : (fuel i : ℕ) → Message → Queue → Option (List (Call d) × Queue)
    life zero i m q = none
    life (suc fuel) i m q =
        after (delivered i) (life fuel (i + 1)) (consume d o (random i) (outcome i) m q)

    -- How a life ends after `n` attempts that threw: the message is acknowledged, its retries are over, or
    -- its last copy is not delivered again.
    abbrev pub EndsAt : (i left n : ℕ) → List (Call d) → Type 0
    EndsAt i left n cs =
        ((outcome (i + n) ≡ returns) × (acks cs ≡ 1) × (nacks cs ≡ n) × (copies cs ≡ n))
        ⊎ ((n ≡ left)
            × Throws (outcome (i + n))
            × (acks cs ≡ 0)
            × (nacks cs ≡ n + 1)
            × (copies cs ≡ n))
        ⊎ ((n < left)
            × Throws (outcome (i + n))
            × (delivered (i + n) ≡ false)
            × (acks cs ≡ 0)
            × (nacks cs ≡ n + 1)
            × (copies cs ≡ n + 1))

    -- the attempt throws, and its copy is delivered again
    abbrev pub GoesOn : ℕ → Type 0
    GoesOn i = Throws (outcome i) × (delivered i ≡ true)

    abbrev pub Life : (i left : ℕ) → Message → Queue → Type 0
    Life i left m q =
        (n : ℕ) × (n ≤ left)
        × ((k : ℕ) → k < n → GoesOn (i + k))
        × (r : List (Call d) × Queue) × (life (suc left) i m q ≡ some r)
        × EndsAt i left n r.0
