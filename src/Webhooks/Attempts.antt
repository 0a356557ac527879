-- ===== src/Webhooks/Attempts.antt =====
-- `deliver_to_subscription`, attempt after attempt.
use bormo_stats.Base.{
  ℕ, zero, suc, ◌+◌, ◌≤◌, ◌≡◌, refl, inl, inr, Bool, none, some, List, [], ◌∷◌, length, arith,
}
use bormo_stats.Webhooks.Targets.{Text, Network}
use bormo_stats.Webhooks.Signing.{Digest}
use bormo_stats.Webhooks.Delivery.{
  Surroundings, Attempt, deliver_found, deliver_to_subscription, deliveries,
}
use bormo_stats.Webhooks.Steps.{IsLast, IsRetried, IsStep, found-IsStep}

abbrev pub IsChain : Network → Bool → (ℕ → Surroundings) → ℕ → List Attempt → Type 0
IsChain n allow world k [] = zero ≡ 1
IsChain n allow world k (a ∷ []) = IsLast n allow (world k) k a
IsChain n allow world k (a ∷ b ∷ rest) =
    IsRetried (world k) k a × IsChain n allow world (k + 1) (b ∷ rest)

module _ (n : Network) (allow : Bool) where
  IsChain-cons :
      (world : ℕ → Surroundings) (k : ℕ) (a : Attempt) (rest : List Attempt)
      → IsRetried (world k) k a
      → IsChain n allow world (k + 1) rest
      → IsChain n allow world k (a ∷ rest)
  IsChain-cons world k a [] h c = cc
  IsChain-cons world k a (b ∷ rest) h c = (h, c)

  -- The attempts from a number on, where it is below seven and there is fuel up to six.
  deliveries-IsChain :
      (d : Digest) (body : Text) (fuel k : ℕ) (world : ℕ → Surroundings)
      → fuel + k ≡ 7
      → k ≤ 6
      → IsChain n allow world k (deliveries n d allow body fuel k world)
        × (length (deliveries n d allow body fuel k world) ≤ fuel)
  unfolding deliveries deliver_to_subscription
  deliveries-IsChain d body zero k world f l = (omega arith, omega arith)
  deliveries-IsChain d body (suc fuel) k world f l =
      by_step (deliver_found n d allow body k (world k) (world k).subscription)
        (found-IsStep n allow d body k (world k) (world k).subscription refl)
        (deliveries-IsChain d body fuel (k + 1) world)
    where
      rest : List Attempt
      rest = deliveries n d allow body fuel (k + 1) world

      by_step :
          (a : Attempt)
          → IsStep n allow (world k) k a
          → (fuel + (k + 1) ≡ 7
              → k + 1 ≤ 6
              → IsChain n allow world (k + 1) rest × (length rest ≤ fuel))
          → let all : List Attempt = a ∷ elim a.next [ none ↦ [] | some delay ↦ rest ] in
            IsChain n allow world k all × (length all ≤ suc fuel)
      by_step a (inl (none_left, r)) ih = rw none_left ((none_left, r), omega arith)
      by_step a (inr ((queued, r), below)) ih =
          let (chain, short) = ih (omega arith) (omega arith) in
          rw queued (IsChain-cons world k a rest (queued, r) chain, omega arith)

  -- A delivery ends: it has between one and six attempts, numbered from one. Each but the last
  -- queues the next with the delay of its number and has a row with its number, the status
  -- `retrying` and the time of the next one, unless the insert of the row raised. The last queues
  -- nothing and has a row with its number and a final status, unless the insert raised, or
  -- `send_task` did for an attempt to be tried again, or the URL of an active subscription had an
  -- address that cannot be read. This holds whatever the database, the clock and the receiver
  -- answer at each attempt, and whichever of these calls raise.
  pub deliveries-ends :
      (d : Digest) (body : Text) (world : ℕ → Surroundings)
      → IsChain n allow world 1 (deliveries n d allow body 6 1 world)
        × (length (deliveries n d allow body 6 1 world) ≤ 6)
  deliveries-ends d body world = deliveries-IsChain d body 6 1 world (omega arith) (omega arith)
