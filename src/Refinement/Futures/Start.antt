-- ===== src/Refinement/Futures/Start.antt =====
-- `start_send`, with no other thread at work during the call.
use multiqueue.Prelude.{
  ℕ, ◌+◌, ◌-◌, ◌^◌, ◌<◌, ◌≡◌, refl, ap, ◌∙◌, ◌⊎◌, inl, inr, List, [], ◌∷◌, ◌++◌, arith, All, Elem,
  length, true, Bool-cases, Result, ok, err, Fault, ◌>>=◌,
}
use mathlib.Core.List.{append-nil}
use multiqueue.MultiQueue.Policy.{QueueRw, IsLawful}
use multiqueue.MultiQueue.State.{MultiQueue, InnerSend}
use multiqueue.MultiQueue.Send.{full}
use multiqueue.MultiQueue.Futures.Wait.{push}
use multiqueue.MultiQueue.Futures.State.{FutQueue, FutInnerSend, notify_wait}
use multiqueue.MultiQueue.Futures.Send.{
  AsyncSink, ready, not_ready, SendError, Offer, Offered, returned, goes_on, offer_times,
  offer_or_park, send_or_park, sink_result, start_send,
}
use multiqueue.Refinement.Log.{readers, position, IsLog}
use multiqueue.Refinement.Futures.Waking.{notify_wait_lem}
use multiqueue.Refinement.Futures.Offers.{IsQuiet, IsOpen, Placed, offer_lem}
use multiqueue.Refinement.Futures.Sink.{Placed-kept, offer_times_lem}

-- What a `start_send` can come to.
abbrev pub Started {ℓ κ} : Type κ → Type ℓ → Type (ℓ ⊔ κ)
Started Task T = Result Fault (FutQueue Task T × FutInnerSend × Result (SendError T) (AsyncSink T))

module _ {ℓ κ} {Task : Type κ} {T : Type ℓ} where
  -- A `send_or_park` that was refused, and has parked the task.
  pub record Parked (k : ℕ) (fq : FutQueue Task T) (sent : List T) (val : T) (task : Task)
      (call : Result Fault (Offered Task T)) : Type (ℓ ⊔ κ) where
    pub state : FutQueue Task T
    pub sender : InnerSend
    pub result : call ≡ ok (state, sender, err (full val))
    pub log : IsLog k state.queue sent
    pub slowest : ℕ
    pub is_reader : Elem slowest (readers fq.queue)
    pub lags : length sent ≡ (position fq.queue slowest).val + 2 ^ k
    pub parked : state.prod_wait.parked ≡ fq.prod_wait.parked ++ (task ∷ [])
    pub streams_kept :
        (position state.queue ≡ position fq.queue) × (readers state.queue ≡ readers fq.queue)
    pub wait_kept : state.wait ≡ fq.wait

  pub record Sinks (k : ℕ) (fq : FutQueue Task T) (sent : List T) (val : T) (call : Started Task T)
      : Type (ℓ ⊔ κ) where
    pub state : FutQueue Task T
    pub sender : FutInnerSend
    pub result : call ≡ ok (state, sender, ok ready)
    pub log : IsLog k state.queue (sent ++ (val ∷ []))
    pub room : All (λ r. length sent < (position fq.queue r).val + 2 ^ k) (readers fq.queue)
    pub prod_kept : state.prod_wait ≡ fq.prod_wait
    pub woken :
        fq.queue.needs_notify ≡ true
        → (state.wait.parked ≡ []) × (state.woken ≡ fq.woken ++ fq.wait.parked)

  pub record Stalls (k : ℕ) (fq : FutQueue Task T) (sent : List T) (val : T) (task : Task)
      (call : Started Task T) : Type (ℓ ⊔ κ) where
    pub state : FutQueue Task T
    pub sender : FutInnerSend
    pub result : call ≡ ok (state, sender, ok (not_ready val))
    pub log : IsLog k state.queue sent
    pub slowest : ℕ
    pub is_reader : Elem slowest (readers fq.queue)
    pub lags : length sent ≡ (position fq.queue slowest).val + 2 ^ k
    pub parked : state.prod_wait.parked ≡ fq.prod_wait.parked ++ (task ∷ [])
    pub streams_kept :
        (position state.queue ≡ position fq.queue) × (readers state.queue ≡ readers fq.queue)
    pub wait_kept : state.wait ≡ fq.wait

  module _ (p : QueueRw T) (lawful : IsLawful p) where
    Parked-kept :
        {k : ℕ} {sent : List T} {val : T} {task : Task} {call : Result Fault (Offered Task T)}
        (fq : FutQueue Task T) (q : MultiQueue T)
        → (position q ≡ position fq.queue) × (readers q ≡ readers fq.queue)
        → Parked k (record fq { queue = q }) sent val task call
        → Parked k fq sent val task call
    Parked-kept fq q streams a = record {
      state = a.state;
      sender = a.sender;
      result = a.result;
      log = a.log;
      slowest = a.slowest;
      is_reader = rw streams.1 at a.is_reader;
      lags = rw streams.0 at a.lags;
      parked = a.parked;
      streams_kept = (a.streams_kept.0 ∙ streams.0, a.streams_kept.1 ∙ streams.1);
      wait_kept = a.wait_kept;
    }

    offer_or_park_lem :
        {k : ℕ} {sent : List T} (task : Task) (offers : List (Offer Task T)) (fq : FutQueue Task T)
        (tx : InnerSend) (val : T)
        → IsOpen k fq sent
        → length sent + 1 < 2 ^ 63 - 1
        → All IsQuiet offers
        → 0 < length offers
        → Placed k fq sent val (offer_or_park p task offers fq tx val)
          ⊎ Parked k fq sent val task (offer_or_park p task offers fq tx val)
    unfolding offer_or_park
    offer_or_park_lem task [] fq tx val v fits quiet some = absurd (omega arith)
    offer_or_park_lem task (o ∷ offers) fq tx val v fits quiet some =
        elim (offer_lem p o fq tx val lawful v fits quiet.0) [
          | inl a ↦ inl (record {
            state = a.state;
            sender = a.sender;
            result = rw a.result refl;
            log = a.log;
            room = a.room;
            prod_kept = a.prod_kept;
            needs_kept = a.needs_kept;
            woken = a.woken;
          })
          | inr d ↦ inr (record {
            state = record fq { queue = d.queue; prod_wait = push task fq.prod_wait };
            sender = d.sender;
            result = rw d.result refl;
            log = d.still_open.log;
            slowest = d.slowest;
            is_reader = d.is_reader;
            lags = d.lags;
            parked = refl;
            streams_kept = d.streams_kept;
            wait_kept = refl;
          })
        ]

    -- The second loop and the try under the lock.
    abbrev second_half :
        Task
        → ℕ
        → List (Offer Task T)
        → FutQueue Task T
        → InnerSend
        → T
        → Result Fault (Offered Task T)
    second_half task spins offers fq tx val = offer_times p spins offers fq tx val >>= elim [
      | returned r ↦ ok r
      | goes_on fq2 tx2 val2 offers2 ↦ offer_or_park p task offers2 fq2 tx2 val2
    ]

    second_half_lem :
        {k : ℕ} {sent : List T} (task : Task) (spins : ℕ) (offers : List (Offer Task T))
        (fq : FutQueue Task T) (tx : InnerSend) (val : T)
        → IsOpen k fq sent
        → length sent + 1 < 2 ^ 63 - 1
        → All IsQuiet offers
        → spins < length offers
        → Placed k fq sent val (second_half task spins offers fq tx val)
          ⊎ Parked k fq sent val task (second_half task spins offers fq tx val)
    second_half_lem task spins offers fq tx val v fits quiet enough =
        elim (offer_times_lem p lawful spins offers fq tx val v fits quiet (omega arith)) [
          | inl s ↦ rw (s.result, s.placed.result) (inl (rw s.placed.result at s.placed))
          | inr r ↦
              rw r.result
                (elim (offer_or_park_lem task r.rest (record fq { queue = r.queue }) r.sender val
                  r.still_open fits r.quiet (omega (arith, r.count))) [
                    | inl a ↦ inl (Placed-kept fq r.queue r.streams_kept r.needs_kept a)
                    | inr b ↦ inr (Parked-kept fq r.queue r.streams_kept b)
                  ])
        ]

    send_or_park_lem :
        {k : ℕ} {sent : List T} (task : Task) (offers : List (Offer Task T)) (fq : FutQueue Task T)
        (tx : InnerSend) (val : T)
        → IsOpen k fq sent
        → length sent + 1 < 2 ^ 63 - 1
        → All IsQuiet offers
        → fq.prod_wait.spins_first + fq.prod_wait.spins_yield < length offers
        → Placed k fq sent val (send_or_park p task offers fq tx val)
          ⊎ Parked k fq sent val task (send_or_park p task offers fq tx val)
    unfolding send_or_park
    send_or_park_lem task offers fq tx val v fits quiet enough =
        elim (offer_times_lem p lawful fq.prod_wait.spins_first offers fq tx val v fits quiet
          (omega arith)) [
            | inl s ↦ rw (s.result, s.placed.result) (inl (rw s.placed.result at s.placed))
            | inr r ↦
                rw r.result
                  (elim (second_half_lem task fq.prod_wait.spins_yield r.rest
                    (record fq { queue = r.queue }) r.sender val r.still_open fits r.quiet
                    (omega (arith, r.count))) [
                      | inl a ↦ inl (Placed-kept fq r.queue r.streams_kept r.needs_kept a)
                      | inr b ↦ inr (Parked-kept fq r.queue r.streams_kept b)
                    ])
          ]

    -- On a queue that stands for a log with fewer than 2 ^ 63 - 2 values and does not say that
    -- its readers are gone, with a lawful policy and nobody else at work, and with one more try
    -- than the two counts of spins, `start_send` returns `Ready` with the value appended, and
    -- then every stream had room for it, the producers' list is as it was, and all parked
    -- consumers are woken if the queue notifies; or it returns `NotReady` with the value, and
    -- then the log is the same, some stream is a whole queue behind, and the task is the last in
    -- the producers' list.
    pub start_send_lem :
        {k : ℕ} {sent : List T} (task : Task) (offers : List (Offer Task T)) (fq : FutQueue Task T)
        (tx : FutInnerSend) (msg : T)
        → IsOpen k fq sent
        → length sent + 1 < 2 ^ 63 - 1
        → All IsQuiet offers
        → fq.prod_wait.spins_first + fq.prod_wait.spins_yield < length offers
        → Sinks k fq sent msg (start_send p task offers fq tx msg)
          ⊎ Stalls k fq sent msg task (start_send p task offers fq tx msg)
    unfolding start_send sink_result
    start_send_lem {k} {sent} task offers fq tx msg v fits quiet enough =
        elim (send_or_park_lem task offers fq tx.writer msg v fits quiet enough) [
          | inl a ↦ inl (elim (Bool-cases fq.queue.needs_notify) [
            | inl e ↦ told a e
            | inr e ↦ record {
              state = a.state;
              sender = record { writer = a.sender };
              result = rw (a.result, a.needs_kept, e) refl;
              log = a.log;
              room = a.room;
              prod_kept = a.prod_kept;
              woken = λ t. absurd (cc);
            }
          ])
          | inr d ↦ inr (record {
            state = d.state;
            sender = record { writer = d.sender };
            result = rw d.result refl;
            log = d.log;
            slowest = d.slowest;
            is_reader = d.is_reader;
            lags = d.lags;
            parked = d.parked;
            streams_kept = d.streams_kept;
            wait_kept = d.wait_kept;
          })
        ]
      where
        told :
            Placed k fq sent msg (send_or_park p task offers fq tx.writer msg)
            → fq.queue.needs_notify ≡ true
            → Sinks k fq sent msg (start_send p task offers fq tx msg)
        told a e = record {
          state = notify_wait a.state;
          sender = record { writer = a.sender };
          result = rw (a.result, a.needs_kept, e) refl;
          log = rw (notify_wait_lem a.state) a.log;
          room = a.room;
          prod_kept = rw (notify_wait_lem a.state) a.prod_kept;
          woken = λ t. (
            rw (notify_wait_lem a.state) refl,
            ap (λ (f : FutQueue Task T). f.woken) (notify_wait_lem a.state)
                ∙ ap (λ (l : List Task). a.state.woken ++ l) (a.woken t).0
                ∙ append-nil a.state.woken
                ∙ (a.woken t).1,
          );
        }
