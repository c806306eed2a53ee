-- ===== src/Refinement/Handles.antt =====
-- `try_send` of `InnerSend` against the log.
use multiqueue.Prelude.{
  ℕ, ◌+◌, ◌-◌, ◌^◌, ◌<◌, ◌≡◌, refl, ap, ◌∙◌, ◌⊎◌, inl, inr, List, [], ◌∷◌, ◌++◌, arith, All, Elem,
  length, Bool, true, false, Bool-cases, ◌==◌, Result, ok, err, Fault, if◌then◌else◌, ◌>>=◌,
}
use multiqueue.AtomicSignal
use multiqueue.Memory.{MemoryManager}
use multiqueue.MultiQueue.Policy.{QueueRw, IsLawful}
use multiqueue.MultiQueue.State.{MultiQueue, QueueState, uni, multi, InnerSend}
use multiqueue.MultiQueue.Send.{full, Sent, try_send_single}
use multiqueue.MultiQueue.Handles
use multiqueue.MultiQueue.Handles.{
  refresh_token, handle_send_signals, examine_signals, send_by_state, notify_sent,
}
use multiqueue.Refinement.Log.{readers, position, IsLog}
use multiqueue.Refinement.Sending.{Appended, Refused, try_send_single_lem}
use multiqueue.Refinement.Multi.{try_send_multi-eq-single}
use multiqueue.Refinement.Signals.{
  outside-IsLog, Refreshed, Refreshed-refl, refresh_token-Refreshed, Refreshed-IsLog,
  Refreshed-position,
}

QueueState-cases : (s : QueueState) → (s ≡ uni) ⊎ (s ≡ multi)
QueueState-cases uni = inl refl
QueueState-cases multi = inr refl

-- A call of `try_send` that added its value to the log.
pub record Accepts {ℓ} {T : Type ℓ} (k : ℕ) (q : MultiQueue T) (sent : List T) (val : T)
    (call : Result Fault (InnerSend × Sent T)) : Type ℓ where
  pub queue : MultiQueue T
  pub sender : InnerSend
  pub returned : call ≡ ok (sender, (queue, ok tt))
  pub log : IsLog k queue (sent ++ (val ∷ []))
  pub room : All (λ r. length sent < (position q r).val + 2 ^ k) (readers q)
  pub streams_kept : (position queue ≡ position q) × (readers queue ≡ readers q)
  pub told : queue.notified ≡ q.notified + (if q.needs_notify then 1 else 0)
  pub needs_kept : queue.needs_notify ≡ q.needs_notify

-- One that gave its value back.
pub record Rejects {ℓ} {T : Type ℓ} (k : ℕ) (q : MultiQueue T) (sent : List T) (val : T)
    (call : Result Fault (InnerSend × Sent T)) : Type ℓ where
  pub queue : MultiQueue T
  pub sender : InnerSend
  pub returned : call ≡ ok (sender, (queue, err (full val)))
  pub log : IsLog k queue sent
  pub slowest : ℕ
  pub is_reader : Elem slowest (readers q)
  pub lags : length sent ≡ (position q slowest).val + 2 ^ k
  pub streams_kept : (position queue ≡ position q) × (readers queue ≡ readers q)
  pub told : queue.notified ≡ q.notified
  pub needs_kept : queue.needs_notify ≡ q.needs_notify
  pub signal_kept : queue.manager.signal ≡ q.manager.signal

module _ {ℓ} {T : Type ℓ} (p : QueueRw T) where
  -- Whichever way is chosen, the send does what a single sender does.
  send_by_state_lem :
      (outcomes : List Bool) {k : ℕ} {q : MultiQueue T} {sent : List T} (tx : InnerSend) (val : T)
      → IsLawful p
      → IsLog k q sent
      → Elem false outcomes
      → (tx' : InnerSend) × (send_by_state p outcomes q tx val
          ≡ (try_send_single p q val >>= λ s. ok (tx', s)))
  unfolding send_by_state
  send_by_state_lem outcomes {k} {q} tx val lawful v at = by_state (QueueState-cases tx.state)
    where
      by_state :
          (tx.state ≡ uni) ⊎ (tx.state ≡ multi)
          → (tx' : InnerSend) × (send_by_state p outcomes q tx val
              ≡ (try_send_single p q val >>= λ s. ok (tx', s)))
      by_state (inl e) = (tx, rw e refl)
      by_state (inr e) = elim (Bool-cases (q.writers == 1)) [
        | inl alone ↦ (record tx { state = uni }, rw (e, alone) refl)
        | inr shared ↦
            (tx, rw (e, shared, try_send_multi-eq-single p outcomes val lawful v at) refl)
      ]

  -- What `try_send` does once it has looked at the signals.
  try_send_sends :
      (outcomes : List Bool) (q : MultiQueue T) (tx : InnerSend) (val : T)
      → AtomicSignal.get_reader (AtomicSignal.load q.manager.signal) ≡ false
      → (q1 : MultiQueue T) × Refreshed q q1
        × (Handles.try_send p outcomes q tx val
            ≡ (send_by_state p outcomes q1 tx val >>= λ r. ok (r.0, notify_sent p (r.1))))
  unfolding Handles.try_send handle_send_signals
  try_send_sends outcomes q tx val some_reader =
      elim (Bool-cases (AtomicSignal.has_action (AtomicSignal.load q.manager.signal))) [
        | inl e ↦ (
          _,
          refresh_token-Refreshed tx.token (AtomicSignal.load q.manager.signal) q,
          rw (e, some_reader) refl,
        )
        | inr e ↦ (q, Refreshed-refl q, rw e refl)
      ]

  -- The count of the notifications after a send that was accepted.
  notify_if :
      (q : MultiQueue T) (b : Bool)
      → (if b then Handles.notify q else q)
        ≡ record q { notified = q.notified + (if b then 1 else 0) }
  notify_if q true = refl
  notify_if q false = ap (λ (n : ℕ). record q { notified = n }) (omega arith)

  -- What a send on the refreshed queue comes to.
  try_send-Accepts :
      {k : ℕ} {q q1 : MultiQueue T} {sent : List T} (tx' : InnerSend) (val : T)
      → Refreshed q q1
      → (a : Appended k q1 sent val (try_send_single p q1 val))
      → Accepts k q sent val (try_send_single p q1 val >>= λ s. ok (tx', notify_sent p s))
  unfolding notify_sent
  try_send-Accepts {k} {q} {q1} {sent} tx' val r a = record {
    queue = record (a.queue) {
      notified = a.queue.notified + (if a.queue.needs_notify then 1 else 0);
    };
    sender = tx';
    returned =
        rw a.returned (
          ap (λ (s : MultiQueue T). ok (tx', (s, ok tt))) (notify_if a.queue a.queue.needs_notify));
    log = outside-IsLog a.queue.manager a.queue.dropped _ refl refl a.log;
    room = rw (same.0, same.1) at a.room;
    streams_kept = streams;
    needs_kept = needs;
    told = rw needs (ap (λ (n : ℕ). n + (if q.needs_notify then 1 else 0)) notified);
  }
    where
      same : (position q1 ≡ position q) × (readers q1 ≡ readers q)
      same = Refreshed-position r

      streams : (position a.queue ≡ position q) × (readers a.queue ≡ readers q)
      streams = (
        ap (λ (m : MemoryManager). m.heap.pos) a.streams_kept.0 ∙ same.0,
        (λ i. (a.streams_kept.0 i).heap.group ((a.streams_kept.1 i).readers)) ∙ same.1,
      )

      needs : a.queue.needs_notify ≡ q.needs_notify
      needs = a.outside_kept.0 ∙ ap (λ (s : MultiQueue T). s.needs_notify) r.only_manager

      notified : a.queue.notified ≡ q.notified
      notified = a.outside_kept.1 ∙ ap (λ (s : MultiQueue T). s.notified) r.only_manager

  try_send-Rejects :
      {k : ℕ} {q q1 : MultiQueue T} {sent : List T} (tx' : InnerSend) (val : T)
      → Refreshed q q1
      → (f : Refused k q1 sent val (try_send_single p q1 val))
      → Rejects k q sent val (try_send_single p q1 val >>= λ s. ok (tx', notify_sent p s))
  unfolding notify_sent
  try_send-Rejects {k} {q} {q1} {sent} tx' val r f = record {
    queue = record q1 { tail_cache = f.cache };
    sender = tx';
    returned = rw f.returned refl;
    log = f.log;
    slowest = f.slowest;
    is_reader = rw same.1 at f.is_reader;
    lags = rw same.0 at f.lags;
    streams_kept = same;
    told = ap (λ (s : MultiQueue T). s.notified) r.only_manager;
    needs_kept = ap (λ (s : MultiQueue T). s.needs_notify) r.only_manager;
    signal_kept = rw r.only_manager r.same_signal;
  }
    where
      same : (position q1 ≡ position q) × (readers q1 ≡ readers q)
      same = Refreshed-position r

  -- On a queue that stands for a log with fewer than 2 ^ 63 - 2 values and does not say that its
  -- readers are gone, with a lawful policy, `try_send` of `InnerSend` appends the value, and then
  -- every stream had room for it and the waiter is notified once if the queue notifies; or it
  -- gives the value back, and then some stream is a whole queue behind and the log and the
  -- streams are the same; in either state of the handle, as soon as one of its compare-exchanges
  -- does not fail for no reason.
  pub try_send_lem :
      (outcomes : List Bool) {k : ℕ} {q : MultiQueue T} {sent : List T} (tx : InnerSend) (val : T)
      → IsLawful p
      → IsLog k q sent
      → length sent + 1 < 2 ^ 63 - 1
      → AtomicSignal.get_reader (AtomicSignal.load q.manager.signal) ≡ false
      → Elem false outcomes
      → Accepts k q sent val (Handles.try_send p outcomes q tx val)
        ⊎ Rejects k q sent val (Handles.try_send p outcomes q tx val)
  try_send_lem outcomes {k} {q} {sent} tx val lawful v fits some_reader at =
      let (q1, r, sends) = try_send_sends outcomes q tx val some_reader in
      let v1 = Refreshed-IsLog r v in
      let (tx', by_single) = send_by_state_lem outcomes tx val lawful v1 at in
      rw (sends, by_single, bound tx' (try_send_single p q1 val))
        (elim (try_send_single_lem p lawful val v1 fits) [
          | inl a ↦ inl (try_send-Accepts tx' val r a)
          | inr f ↦ inr (try_send-Rejects tx' val r f)
        ])
    where
      bound :
          (tx' : InnerSend) (m : Result Fault (Sent T))
          → ◌≡◌ {A = Result Fault (InnerSend × Sent T)}
              (◌>>=◌ {A = InnerSend × Sent T}
                (m >>= λ s. ok (tx', s))
                (λ r. ok (r.0, notify_sent p (r.1))))
              (m >>= λ s. ok (tx', notify_sent p s))
      bound tx' (ok s) = refl
      bound tx' (err e) = refl
