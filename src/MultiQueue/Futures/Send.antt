-- ===== src/MultiQueue/Futures/Send.antt =====
-- `FutInnerSend` of src/multiqueue.rs, with `send_or_park` of `FutWait`.
use multiqueue.Prelude.{
  ℕ, zero, suc, List, [], ◌∷◌, Bool, Result, ok, err, Fault, out_of_steps, ◌>>=◌, if◌then◌else◌,
}
use multiqueue.MultiQueue.Policy.{QueueRw}
use multiqueue.MultiQueue.State.{InnerSend}
use multiqueue.MultiQueue.Send.{TrySendError, full, disconnected}
use multiqueue.MultiQueue.Handles
use multiqueue.MultiQueue.Futures.Wait.{push}
use multiqueue.MultiQueue.Futures.State.{FutQueue, FutInnerSend, notify_wait, relay}

-- `futures::AsyncSink`, and `SendError` of `std::sync::mpsc`.
pub data AsyncSink {ℓ} (T : Type ℓ) : Type ℓ where
  ready : AsyncSink T
  not_ready : T → AsyncSink T

pub data SendError {ℓ} (T : Type ℓ) : Type ℓ where
  send_error : T → SendError T

module _ {ℓ κ} (Task : Type κ) (T : Type ℓ) where
  -- One try of a sender that may have several: what the others have done to the queue before it, and
  -- the outcomes of its weak compare-exchanges.
  pub record Offer : Type (ℓ ⊔ κ) where
    pub before : FutQueue Task T → FutQueue Task T
    pub outcomes : List Bool

  -- What a call of a sender leaves behind.
  abbrev pub Offered : Type (ℓ ⊔ κ)
  Offered = FutQueue Task T × InnerSend × Result (TrySendError T) (Unit {0})

  -- What a loop of tries comes to: it returns, or gives the value back to be tried on.
  pub data Trying : Type (ℓ ⊔ κ) where
    returned : Offered → Trying
    goes_on : FutQueue Task T → InnerSend → T → List Offer → Trying

module _ {ℓ κ} {Task : Type κ} {T : Type ℓ} where
  module _ (p : QueueRw T) where
    -- `self.writer.try_send`
    unfoldable pub offer :
        Offer Task T → FutQueue Task T → InnerSend → T → Result Fault (Offered Task T)
    offer o fq tx val = do
      (tx', (q', result)) ← Handles.try_send p o.outcomes (o.before fq).queue tx val
      ok (relay (o.before fq) q', tx', result)

    -- Each of the two loops of `send_or_park` goes on as long as the queue is full.
    unfoldable pub offer_times :
        ℕ → List (Offer Task T) → FutQueue Task T → InnerSend → T → Result Fault (Trying Task T)
    offer_times zero offers fq tx val = ok (goes_on fq tx val offers)
    offer_times (suc spins) [] fq tx val = err out_of_steps
    offer_times (suc spins) (o ∷ offers) fq tx val = do
      (fq', tx', result) ← offer o fq tx val
      elim result [
        | ok u ↦ ok (returned (fq', tx', ok u))
        | err e ↦ elim e [
          | full v ↦ offer_times spins offers fq' tx' v
          | disconnected v ↦ ok (returned (fq', tx', err (disconnected v)))
        ]
      ]

    -- The last try of `send_or_park`, under the lock: no other thread parks or wakes a producer
    -- from there to the end. A value that is refused leaves the task behind.
    unfoldable pub offer_or_park :
        Task → List (Offer Task T) → FutQueue Task T → InnerSend → T → Result Fault (Offered Task T)
    offer_or_park task [] fq tx val = err out_of_steps
    offer_or_park task (o ∷ offers) fq tx val = do
      (fq', tx', result) ← offer o fq tx val
      elim result [
        | ok u ↦ ok (fq', tx', ok u)
        | err e ↦ elim e [
          | full v ↦ ok (record fq' { prod_wait = push task fq'.prod_wait }, tx', err (full v))
          | disconnected v ↦ ok (fq', tx', err (disconnected v))
        ]
      ]

    unfoldable pub send_or_park :
        Task → List (Offer Task T) → FutQueue Task T → InnerSend → T → Result Fault (Offered Task T)
    send_or_park task offers fq tx val =
        offer_times fq.prod_wait.spins_first offers fq tx val >>= elim [
          | returned r ↦ ok r
          | goes_on fq1 tx1 val1 offers1 ↦
              offer_times fq.prod_wait.spins_yield offers1 fq1 tx1 val1 >>= elim [
                | returned r ↦ ok r
                | goes_on fq2 tx2 val2 offers2 ↦ offer_or_park task offers2 fq2 tx2 val2
              ]
        ]

    -- `FutInnerSend::try_send`, with no others at work.
    unfoldable pub try_send :
        List Bool
        → FutQueue Task T
        → FutInnerSend
        → T
        → Result Fault (FutQueue Task T × FutInnerSend × Result (TrySendError T) (Unit {0}))
    try_send outcomes fq tx val = do
      (fq', writer, result) ←
          offer (record { before = λ s. s; outcomes = outcomes }) fq tx.writer val
      ok (fq', record { writer = writer }, result)

    -- What `start_send` makes of the result: the waiter is told of a value once more.
    unfoldable pub sink_result :
        Offered Task T → FutQueue Task T × FutInnerSend × Result (SendError T) (AsyncSink T)
    sink_result (fq, tx, ok u) =
        (if fq.queue.needs_notify then notify_wait fq else fq, record { writer = tx }, ok ready)
    sink_result (fq, tx, err (full msg)) = (fq, record { writer = tx }, ok (not_ready msg))
    sink_result (fq, tx, err (disconnected msg)) =
        (fq, record { writer = tx }, err (send_error msg))

    -- `start_send` of the trait `Sink`.
    unfoldable pub start_send :
        Task
        → List (Offer Task T)
        → FutQueue Task T
        → FutInnerSend
        → T
        → Result Fault (FutQueue Task T × FutInnerSend × Result (SendError T) (AsyncSink T))
    start_send task offers fq tx msg = do
      o ← send_or_park task offers fq tx.writer msg
      ok (sink_result o)

  unfoldable pub unsubscribe : FutQueue Task T → FutInnerSend → FutQueue Task T
  unsubscribe fq tx = relay fq (Handles.drop_send fq.queue tx.writer)

  -- `Clone`: the handle itself, and the new one.
  unfoldable pub clone_sender :
      FutQueue Task T → FutInnerSend → FutQueue Task T × FutInnerSend × FutInnerSend
  clone_sender fq tx =
      let (q, old, fresh) = Handles.clone_send fq.queue tx.writer in
      (relay fq q, record { writer = old }, record { writer = fresh })
