-- ===== src/MultiQueue/Handles.antt =====
-- `InnerSend` and `InnerRecv` of src/multiqueue.rs: what a user of the queue calls.
use multiqueue.Prelude.{
  ℕ, ◌+◌, List, Bool, true, false, Result, ok, err, Fault, ◌>>=◌, ◌==◌, if◌then◌else◌,
}
use multiqueue.Word.{wrapping_add, wrapping_sub}
use multiqueue.AtomicSignal
use multiqueue.Memory
use multiqueue.Memory.{MemoryManager}
use multiqueue.ReadCursor.Attempt
use multiqueue.ReadCursor.Attempt.{Reader}
use multiqueue.ReadCursor.Group
use multiqueue.MultiQueue.Policy.{QueueRw}
use multiqueue.MultiQueue.State.{MultiQueue, uni, multi, InnerSend, InnerRecv}
use multiqueue.MultiQueue.Send.{full, Sent, try_send_single, try_send_multi}
use multiqueue.MultiQueue.Recv.{TryRecvError, Refusal, Received}
use multiqueue.MultiQueue.Recv

module _ {ℓ} {T : Type ℓ} where
  -- A call of `notify` on the waiter.
  abbrev pub notify : MultiQueue T → MultiQueue T
  notify q = record q { notified = q.notified + 1 }

  -- Either handle brings its own token up to date if the epoch has moved.
  unfoldable pub refresh_token : ℕ → AtomicSignal.LoadedSignal → MultiQueue T → MultiQueue T
  refresh_token token signal q =
      if AtomicSignal.get_epoch signal
      then record q { manager = Memory.update_token token q.manager }
      else q

  -- `InnerSend::handle_signals`
  unfoldable pub handle_send_signals :
      InnerSend → AtomicSignal.LoadedSignal → MultiQueue T → MultiQueue T × Bool
  handle_send_signals tx signal q =
      (refresh_token tx.token signal q, AtomicSignal.get_reader signal)

  -- `InnerRecv::examine_signals`, with `handle_signals`
  unfoldable pub examine_signals : InnerRecv → MultiQueue T → MultiQueue T
  examine_signals rx q =
      let signal = AtomicSignal.load q.manager.signal in
      if AtomicSignal.has_action signal then refresh_token rx.token signal q else q

  module _ (p : QueueRw T) where
    -- The choice of `InnerSend::try_send` between the two ways to send.
    unfoldable pub send_by_state :
        List Bool → MultiQueue T → InnerSend → T → Result Fault (InnerSend × Sent T)
    send_by_state outcomes q tx val = elim tx.state [
      | uni ↦ try_send_single p q val >>= λ s. ok (tx, s)
      | multi ↦
          if q.writers == 1
          then (try_send_single p q val >>= λ s. ok (record tx { state = uni }, s))
          else (try_send_multi p outcomes q val >>= λ s. ok (tx, s))
    ]

    -- The waiter is told of a value that was sent, if it asks to be.
    unfoldable pub notify_sent : Sent T → Sent T
    notify_sent (q, ok u) = (if q.needs_notify then notify q else q, ok u)
    notify_sent (q, err e) = (q, err e)

    -- `InnerSend::try_send`
    unfoldable pub try_send :
        List Bool → MultiQueue T → InnerSend → T → Result Fault (InnerSend × Sent T)
    try_send outcomes q tx val =
        let signal = AtomicSignal.load q.manager.signal in
        let (handled, disconnected) = handle_send_signals tx signal q in
        let sending = λ (q' : MultiQueue T). do
          (tx', s) ← send_by_state outcomes q' tx val
          ok (tx', notify_sent s)
        in if AtomicSignal.has_action signal
          then (if disconnected then ok (tx, (handled, err (full val))) else sending handled)
          else sending q

    -- `InnerRecv::try_recv`
    unfoldable pub try_recv :
        List Bool
        → MultiQueue T
        → InnerRecv
        → Result Fault (MultiQueue T × InnerRecv × Result TryRecvError T)
    try_recv outcomes q rx = do
      (q', reader, result) ← Recv.try_recv p outcomes (examine_signals rx q) rx.reader
      ok (
        q',
        record rx { reader = reader },
        elim result [ ok v ↦ ok v | err refusal ↦ err (refusal.1) ],
      )

    -- `InnerRecv::try_recv_view`
    unfoldable pub try_recv_view {κ} :
        {R : Type κ}
        → (T → R)
        → MultiQueue T
        → InnerRecv
        → Result Fault (MultiQueue T × InnerRecv × Result TryRecvError R)
    try_recv_view op q rx = do
      (q', reader, result) ← Recv.try_recv_view p op (examine_signals rx q) rx.reader
      ok (
        q',
        record rx { reader = reader },
        elim result [ ok v ↦ ok v | err refusal ↦ err (refusal.1) ],
      )

  -- `InnerSend::clone`: the queue, the handle itself, and the new one.
  unfoldable pub clone_send : MultiQueue T → InnerSend → MultiQueue T × InnerSend × InnerSend
  clone_send q tx =
      let (token, manager) = Memory.get_token q.manager in
      (
        record q { manager = manager; writers = wrapping_add q.writers 1 },
        record tx { state = multi },
        record { token = token; state = multi },
      )

  -- `Drop` of `InnerSend`; `unsubscribe` only consumes the handle.
  unfoldable pub drop_send : MultiQueue T → InnerSend → MultiQueue T
  drop_send q tx = notify (record q {
    writers = wrapping_sub q.writers 1;
    manager = Memory.remove_token tx.token q.manager;
  })

  -- `InnerRecv::is_single`, which `unsubscribe` returns too.
  unfoldable pub is_single : MultiQueue T → InnerRecv → Bool
  is_single q rx = Attempt.get_consumers q.manager.heap rx.reader == 1

  -- `InnerRecv::add_stream`
  unfoldable pub add_stream : MultiQueue T → InnerRecv → Result Fault (MultiQueue T × InnerRecv)
  add_stream q rx = do
    (reader, tail, m) ← Group.add_stream rx.reader q.tail q.manager
    let (token, m') = Memory.get_token m
    ok (
      record q { tail = tail; manager = m' },
      record { reader = reader; token = token; alive = true },
    )

  -- `InnerRecv::clone`
  unfoldable pub clone_recv : MultiQueue T → InnerRecv → MultiQueue T × InnerRecv × InnerRecv
  clone_recv q rx =
      let (heap, reader) = Attempt.dup_consumer q.manager.heap rx.reader in
      let (token, manager) = Memory.get_token (record (q.manager) { heap = heap }) in
      (
        record q { manager = manager },
        record rx { reader = reader },
        record { reader = reader; token = token; alive = true },
      )

  -- The last consumer of a stream takes the stream, and its own token, out of the queue; where no
  -- stream is left, the senders are told.
  unfoldable pub remove_stream : MultiQueue T → InnerRecv → Result Fault (MultiQueue T)
  remove_stream q rx = do
    (none_left, tail, m) ← Group.remove_reader rx.reader q.tail q.manager
    let signalled =
        if none_left then record m { signal = (AtomicSignal.set_reader m.signal).0 } else m
    ok (record q { tail = tail; manager = Memory.remove_token rx.token signalled })

  -- `do_unsubscribe_with`, before it runs the function that it is given.
  unfoldable pub do_unsubscribe : MultiQueue T → InnerRecv → Result Fault (MultiQueue T × InnerRecv)
  do_unsubscribe q rx =
      let (consumers, heap) = Attempt.remove_consumer q.manager.heap rx.reader in
      let counted : MultiQueue T = record q { manager = record (q.manager) { heap = heap } } in
      let dead : InnerRecv = record rx { alive = false } in
      if rx.alive
      then (if consumers == 1
          then (remove_stream counted rx >>= λ q'. ok (q', dead))
          else ok (counted, dead))
      else ok (q, rx)
