-- ===== src/Refinement/Futures/NoReader.antt =====
-- `start_send` once no reader is left, with no other thread at work during the call.
use multiqueue.Prelude.{
  ℕ, zero, suc, ◌+◌, ◌≤◌, ◌<◌, ◌≡◌, refl, ap, inl, inr, List, [], ◌∷◌, arith, All, length, true, ok,
  err,
}
use multiqueue.AtomicSignal
use multiqueue.AtomicSignal.{AtomicSignal, signal_of, signal_reads}
use multiqueue.Memory.Frame.{IsWord}
use multiqueue.MultiQueue.Policy.{QueueRw}
use multiqueue.MultiQueue.State.{MultiQueue, InnerSend}
use multiqueue.MultiQueue.Send.{full}
use multiqueue.MultiQueue.Handles
use multiqueue.MultiQueue.Futures.Wait.{push}
use multiqueue.MultiQueue.Futures.State.{FutQueue, FutInnerSend}
use multiqueue.MultiQueue.Futures.Send.{
  not_ready, Offer, goes_on, offer, offer_times, offer_or_park, send_or_park, sink_result,
  start_send,
}
use multiqueue.Refinement.Signals.{
  Refreshed, Refreshed-refl, Refreshed-trans, refresh_token-Refreshed,
}
use multiqueue.Refinement.Futures.Waking.{relay-zero}
use multiqueue.Refinement.Futures.Offers.{IsQuiet}

module _ {ℓ κ} {Task : Type κ} {T : Type ℓ} (p : QueueRw T) where
  -- The tokens that a refused offer refreshes.
  abbrev refreshed : FutQueue Task T → InnerSend → MultiQueue T
  refreshed fq tx =
      Handles.refresh_token tx.token (AtomicSignal.load fq.queue.manager.signal) fq.queue

  offer-full :
      (o : Offer Task T) (fq : FutQueue Task T) (tx : InnerSend) (val : T)
      → IsWord true fq.queue.manager.signal
      → IsQuiet o
      → offer p o fq tx val ≡ ok (record fq { queue = refreshed fq tx }, tx, err (full val))
  unfolding offer Handles.try_send Handles.handle_send_signals
  offer-full o fq tx val (e, word) quiet =
      rw (quiet.0 fq, acts, told)
        (ap (λ (s : FutQueue Task T). ok (s, tx, err (full val)))
          (relay-zero fq (refreshed fq tx) (
            ap (λ (q : MultiQueue T). q.notified)
              (refresh_token-Refreshed tx.token (AtomicSignal.load fq.queue.manager.signal)
                fq.queue).only_manager)))
    where
      told : AtomicSignal.get_reader (AtomicSignal.load fq.queue.manager.signal) ≡ true
      told = rw word (signal_reads e true).1

      acts : AtomicSignal.has_action (AtomicSignal.load fq.queue.manager.signal) ≡ true
      acts = rw word (elim (signal_reads e true).3 [ inl a ↦ a | inr n ↦ absurd cc ])

  -- A loop of tries, each of which is refused.
  record Denied (spins : ℕ) (offers : List (Offer Task T)) (fq : FutQueue Task T) (tx : InnerSend)
      (val : T) : Type (ℓ ⊔ κ) where
    pub queue : MultiQueue T
    pub rest : List (Offer Task T)
    pub result :
        offer_times p spins offers fq tx val
        ≡ ok (goes_on (record fq { queue = queue }) tx val rest)
    pub tokens : Refreshed fq.queue queue
    pub quiet : All IsQuiet rest
    pub count : length rest + spins ≡ length offers

  offer_times-Denied :
      (spins : ℕ) (offers : List (Offer Task T)) (fq : FutQueue Task T) (tx : InnerSend) (val : T)
      → IsWord true fq.queue.manager.signal
      → All IsQuiet offers
      → spins ≤ length offers
      → Denied spins offers fq tx val
  unfolding offer_times
  offer_times-Denied zero offers fq tx val word quiet enough = record {
    queue = fq.queue;
    rest = offers;
    result = refl;
    tokens = Refreshed-refl fq.queue;
    quiet = quiet;
    count = omega arith;
  }
  offer_times-Denied (suc spins) [] fq tx val word quiet enough = absurd (omega arith)
  offer_times-Denied (suc spins) (o ∷ offers) fq tx val word quiet enough =
      let r =
        refresh_token-Refreshed tx.token (AtomicSignal.load fq.queue.manager.signal) fq.queue in
      let d =
        offer_times-Denied spins offers (record fq { queue = refreshed fq tx }) tx val
          (rw r.only_manager (rw r.same_signal word)) quiet.1 (omega arith) in
      record {
        queue = d.queue;
        rest = d.rest;
        result = rw (offer-full o fq tx val word quiet.0) d.result;
        tokens = Refreshed-trans r d.tokens;
        quiet = d.quiet;
        count = omega (arith, d.count);
      }

  Denied-IsWord :
      (spins : ℕ) (offers : List (Offer Task T)) (fq : FutQueue Task T) (tx : InnerSend) (val : T)
      → (d : Denied spins offers fq tx val) → IsWord true fq.queue.manager.signal
      → IsWord true d.queue.manager.signal
  Denied-IsWord spins offers fq tx val d word =
      rw d.tokens.only_manager (rw d.tokens.same_signal word)

  offer_or_park-parks :
      (task : Task) (offers : List (Offer Task T)) (fq : FutQueue Task T) (tx : InnerSend) (val : T)
      → IsWord true fq.queue.manager.signal
      → All IsQuiet offers
      → 0 < length offers
      → offer_or_park p task offers fq tx val
        ≡ ok (
          record fq { queue = refreshed fq tx; prod_wait = push task fq.prod_wait },
          tx,
          err (full val),
        )
  unfolding offer_or_park
  offer_or_park-parks task [] fq tx val word quiet some = absurd (omega arith)
  offer_or_park-parks task (o ∷ offers) fq tx val word quiet some =
      rw (offer-full o fq tx val word quiet.0) refl

  -- On a queue that says that its readers are gone, with nobody else at work, and with one more
  -- try than the two counts of spins, `start_send` parks the task and returns `NotReady` with the
  -- value, and has changed nothing else but tokens.
  pub start_send-parks :
      (task : Task) (offers : List (Offer Task T)) (fq : FutQueue Task T) (tx : FutInnerSend)
      (msg : T)
      → IsWord true fq.queue.manager.signal
      → All IsQuiet offers
      → fq.prod_wait.spins_first + fq.prod_wait.spins_yield < length offers
      → (q : MultiQueue T) × Refreshed fq.queue q
        × (start_send p task offers fq tx msg
            ≡ ok (
              record fq { queue = q; prod_wait = push task fq.prod_wait },
              tx,
              ok (not_ready msg),
            ))
  unfolding start_send send_or_park sink_result
  start_send-parks task offers fq tx msg word quiet enough =
      let d =
        offer_times-Denied fq.prod_wait.spins_first offers fq tx.writer msg word quiet
          (omega arith) in
      let fq1 : FutQueue Task T = record fq { queue = d.queue } in
      let word1 = Denied-IsWord fq.prod_wait.spins_first offers fq tx.writer msg d word in
      let d1 =
        offer_times-Denied fq.prod_wait.spins_yield d.rest fq1 tx.writer msg word1 d.quiet
          (omega (arith, d.count)) in
      let fq2 : FutQueue Task T = record fq { queue = d1.queue } in
      let word2 = Denied-IsWord fq.prod_wait.spins_yield d.rest fq1 tx.writer msg d1 word1 in
      (
        refreshed fq2 tx.writer,
        Refreshed-trans d.tokens (
            Refreshed-trans d1.tokens (
              refresh_token-Refreshed tx.writer.token (AtomicSignal.load d1.queue.manager.signal)
                d1.queue)),
        rw
            (
              d.result,
              d1.result,
              offer_or_park-parks task d1.rest fq2 tx.writer msg word2 d1.quiet
                  (omega (arith, d.count, d1.count)),
            )
            refl,
      )
