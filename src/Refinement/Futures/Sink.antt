-- ===== src/Refinement/Futures/Sink.antt =====
-- The loops of `send_or_park`, and `start_send`, with no other thread at work during the call.
use multiqueue.Prelude.{
  ℕ, zero, suc, ◌+◌, ◌-◌, ◌^◌, ◌≤◌, ◌<◌, ◌≡◌, refl, ◌∙◌, ◌⊎◌, inl, inr, List, [], ◌∷◌, arith, All,
  length, Result, ok, Fault, ◌>>=◌,
}
use multiqueue.MultiQueue.Policy.{QueueRw, IsLawful}
use multiqueue.MultiQueue.State.{MultiQueue, InnerSend}
use multiqueue.MultiQueue.Futures.State.{FutQueue}
use multiqueue.MultiQueue.Futures.Send.{
  Offer, Offered, Trying, returned, goes_on, offer, offer_times,
}
use multiqueue.Refinement.Log.{readers, position}
use multiqueue.Refinement.Futures.Offers.{IsQuiet, IsOpen, Placed, Declined, offer_lem}

module _ {ℓ κ} {Task : Type κ} {T : Type ℓ} where
  -- A loop of tries that has returned what one of them came to.
  pub record Settled (k : ℕ) (fq : FutQueue Task T) (sent : List T) (val : T)
      (call : Result Fault (Trying Task T)) : Type (ℓ ⊔ κ) where
    pub last : Result Fault (Offered Task T)
    pub placed : Placed k fq sent val last
    pub result : call ≡ (last >>= λ r. ok (returned r))

  -- One that has been refused as often as it tries.
  pub record Retried (k : ℕ) (fq : FutQueue Task T) (sent : List T) (val : T) (spins : ℕ)
      (offers : List (Offer Task T)) (call : Result Fault (Trying Task T)) : Type (ℓ ⊔ κ) where
    pub queue : MultiQueue T
    pub sender : InnerSend
    pub rest : List (Offer Task T)
    pub result : call ≡ ok (goes_on (record fq { queue = queue }) sender val rest)
    pub still_open : IsOpen k (record fq { queue = queue }) sent
    pub quiet : All IsQuiet rest
    pub count : length rest + spins ≡ length offers
    pub streams_kept : (position queue ≡ position fq.queue) × (readers queue ≡ readers fq.queue)
    pub needs_kept : queue.needs_notify ≡ fq.queue.needs_notify

  -- What was tried on a queue of the same streams.
  pub Placed-kept :
      {k : ℕ} {sent : List T} {val : T} {call : Result Fault (Offered Task T)}
      (fq : FutQueue Task T) (q : MultiQueue T)
      → (position q ≡ position fq.queue) × (readers q ≡ readers fq.queue)
      → q.needs_notify ≡ fq.queue.needs_notify
      → Placed k (record fq { queue = q }) sent val call
      → Placed k fq sent val call
  Placed-kept fq q streams needs a = record {
    state = a.state;
    sender = a.sender;
    result = a.result;
    log = a.log;
    room = rw (streams.0, streams.1) at a.room;
    prod_kept = a.prod_kept;
    needs_kept = a.needs_kept ∙ needs;
    woken = λ e. a.woken (needs ∙ e);
  }

  module _ (p : QueueRw T) (lawful : IsLawful p) where
    pub offer_times_lem :
        {k : ℕ} {sent : List T} (spins : ℕ) (offers : List (Offer Task T)) (fq : FutQueue Task T)
        (tx : InnerSend) (val : T)
        → IsOpen k fq sent
        → length sent + 1 < 2 ^ 63 - 1
        → All IsQuiet offers
        → spins ≤ length offers
        → Settled k fq sent val (offer_times p spins offers fq tx val)
          ⊎ Retried k fq sent val spins offers (offer_times p spins offers fq tx val)
    unfolding offer_times
    offer_times_lem zero offers fq tx val v fits quiet enough = inr (record {
      queue = fq.queue;
      sender = tx;
      rest = offers;
      result = refl;
      still_open = v;
      quiet = quiet;
      count = omega arith;
      streams_kept = (refl, refl);
      needs_kept = refl;
    })
    offer_times_lem (suc spins) [] fq tx val v fits quiet enough = absurd (omega arith)
    offer_times_lem {k} {sent} (suc spins) (o ∷ offers) fq tx val v fits quiet enough =
        elim (offer_lem p o fq tx val lawful v fits quiet.0) [
          | inl a ↦
              inl (record { last = offer p o fq tx val; placed = a; result = rw a.result refl })
          | inr d ↦ rw d.result (
              onward d (
                offer_times_lem spins offers (record fq { queue = d.queue }) d.sender val
                  d.still_open fits quiet.1 (omega arith)))
        ]
      where
        onward :
            (d : Declined k fq sent val (offer p o fq tx val))
            → Settled k
                (record fq { queue = d.queue })
                sent
                val
                (offer_times p spins offers (record fq { queue = d.queue }) d.sender val)
              ⊎ Retried k
                  (record fq { queue = d.queue })
                  sent
                  val
                  spins
                  offers
                  (offer_times p spins offers (record fq { queue = d.queue }) d.sender val)
            → Settled k fq sent val
                (offer_times p spins offers (record fq { queue = d.queue }) d.sender val)
              ⊎ Retried k fq sent val
                  (suc spins)
                  (o ∷ offers)
                  (offer_times p spins offers (record fq { queue = d.queue }) d.sender val)
        onward d (inl s) = inl (record {
          last = s.last;
          placed = Placed-kept fq d.queue d.streams_kept d.needs_kept s.placed;
          result = s.result;
        })
        onward d (inr r) = inr (record {
          queue = r.queue;
          sender = r.sender;
          rest = r.rest;
          result = r.result;
          still_open = r.still_open;
          quiet = r.quiet;
          count = omega (arith, r.count);
          streams_kept = (r.streams_kept.0 ∙ d.streams_kept.0, r.streams_kept.1 ∙ d.streams_kept.1);
          needs_kept = r.needs_kept ∙ d.needs_kept;
        })
