-- ===== src/Refinement/Futures/Offers.antt =====
-- `start_send` against the log, with no other thread at work during the call.
use multiqueue.Prelude.{
  ℕ, ◌+◌, ◌-◌, ◌^◌, ◌<◌, ◌≡◌, refl, ap, ◌∙◌, ◌⊎◌, inl, inr, List, [], ◌∷◌, ◌++◌, arith, All, Elem,
  length, true, false, Bool-cases, Result, ok, err, Fault, if◌then◌else◌,
}
use multiqueue.AtomicSignal
use multiqueue.MultiQueue.Policy.{QueueRw, IsLawful}
use multiqueue.MultiQueue.State.{MultiQueue, InnerSend}
use multiqueue.MultiQueue.Send.{full}
use multiqueue.MultiQueue.Handles
use multiqueue.MultiQueue.Futures.State.{FutQueue, relay}
use multiqueue.MultiQueue.Futures.Send.{Offer, Offered, offer}
use multiqueue.Refinement.Log.{readers, position, IsLog}
use multiqueue.Refinement.Handles.{Accepts, Rejects, try_send_lem}
use multiqueue.Refinement.Futures.Waking.{relay-zero, relay-one, notify_wait_lem}

module _ {ℓ κ} {Task : Type κ} {T : Type ℓ} where
  -- An offer with nobody else at work before it.
  abbrev pub IsQuiet : Offer Task T → Type (ℓ ⊔ κ)
  IsQuiet o = ((s : FutQueue Task T) → o.before s ≡ s) × Elem false o.outcomes

  -- A state from which a send can go on: it stands for a log, and some reader is left.
  pub record IsOpen (k : ℕ) (fq : FutQueue Task T) (sent : List T) : Type ℓ where
    pub log : IsLog k fq.queue sent
    pub some_reader : AtomicSignal.get_reader (AtomicSignal.load fq.queue.manager.signal) ≡ false

  -- What a tried send leaves of the other side: the producers, and the consumers woken if told.
  pub record Placed (k : ℕ) (fq : FutQueue Task T) (sent : List T) (val : T)
      (call : Result Fault (Offered Task T)) : Type (ℓ ⊔ κ) where
    pub state : FutQueue Task T
    pub sender : InnerSend
    pub result : call ≡ ok (state, sender, ok tt)
    pub log : IsLog k state.queue (sent ++ (val ∷ []))
    pub room : All (λ r. length sent < (position fq.queue r).val + 2 ^ k) (readers fq.queue)
    pub prod_kept : state.prod_wait ≡ fq.prod_wait
    pub needs_kept : state.queue.needs_notify ≡ fq.queue.needs_notify
    pub woken :
        fq.queue.needs_notify ≡ true
        → (state.wait.parked ≡ []) × (state.woken ≡ fq.woken ++ fq.wait.parked)

  pub record Declined (k : ℕ) (fq : FutQueue Task T) (sent : List T) (val : T)
      (call : Result Fault (Offered Task T)) : Type (ℓ ⊔ κ) where
    pub queue : MultiQueue T
    pub sender : InnerSend
    pub result : call ≡ ok (record fq { queue = queue }, sender, err (full val))
    pub still_open : IsOpen k (record fq { queue = queue }) sent
    pub slowest : ℕ
    pub is_reader : Elem slowest (readers fq.queue)
    pub lags : length sent ≡ (position fq.queue slowest).val + 2 ^ k
    pub streams_kept : (position queue ≡ position fq.queue) × (readers queue ≡ readers fq.queue)
    pub needs_kept : queue.needs_notify ≡ fq.queue.needs_notify

  module _ (p : QueueRw T) where
    offer-Placed :
        {k : ℕ} {sent : List T} (o : Offer Task T) (fq : FutQueue Task T) (tx : InnerSend) (val : T)
        → ((s : FutQueue Task T) → o.before s ≡ s)
        → Accepts k fq.queue sent val (Handles.try_send p o.outcomes fq.queue tx val)
        → Placed k fq sent val (offer p o fq tx val)
    unfolding offer relay
    offer-Placed {k} {sent} o fq tx val quiet a = record {
      state = relay fq a.queue;
      sender = a.sender;
      result = rw (quiet fq, a.returned) refl;
      log = rw (relayed, same_queue) a.log;
      room = a.room;
      prod_kept = rw relayed same_prod;
      needs_kept = rw (relayed, same_queue) a.needs_kept;
      woken = λ e. rw (relayed, e) (refl, refl);
    }
      where
        told : FutQueue Task T
        told =
            if fq.queue.needs_notify
            then record fq {
              queue = a.queue;
              wait = record (fq.wait) { parked = [] };
              woken = fq.woken ++ fq.wait.parked;
            }
            else record fq { queue = a.queue }

        relayed : relay fq a.queue ≡ told
        relayed = elim (Bool-cases fq.queue.needs_notify) [
          | inl e ↦ rw e (
              relay-one fq a.queue (rw e at a.told)
              ∙ notify_wait_lem (record fq { queue = a.queue }))
          | inr e ↦ rw e (relay-zero fq a.queue (omega (arith, rw e at a.told)))
        ]

        same_queue : told.queue ≡ a.queue
        same_queue = elim (Bool-cases fq.queue.needs_notify) [
          | inl e ↦ rw e refl
          | inr e ↦ rw e refl
        ]

        same_prod : told.prod_wait ≡ fq.prod_wait
        same_prod = elim (Bool-cases fq.queue.needs_notify) [
          | inl e ↦ rw e refl
          | inr e ↦ rw e refl
        ]

    offer-Declined :
        {k : ℕ} {sent : List T} (o : Offer Task T) (fq : FutQueue Task T) (tx : InnerSend) (val : T)
        → ((s : FutQueue Task T) → o.before s ≡ s)
        → IsOpen k fq sent
        → Rejects k fq.queue sent val (Handles.try_send p o.outcomes fq.queue tx val)
        → Declined k fq sent val (offer p o fq tx val)
    unfolding offer
    offer-Declined {k} {sent} o fq tx val quiet v f = record {
      queue = f.queue;
      sender = f.sender;
      result =
          rw (quiet fq, f.returned)
            (ap (λ (s : FutQueue Task T). ok (s, f.sender, err (full val)))
              (relay-zero fq f.queue f.told));
      still_open = record { log = f.log; some_reader = rw f.signal_kept v.some_reader };
      slowest = f.slowest;
      is_reader = f.is_reader;
      lags = f.lags;
      streams_kept = f.streams_kept;
      needs_kept = f.needs_kept;
    }

    pub offer_lem :
        {k : ℕ} {sent : List T} (o : Offer Task T) (fq : FutQueue Task T) (tx : InnerSend) (val : T)
        → IsLawful p
        → IsOpen k fq sent
        → length sent + 1 < 2 ^ 63 - 1
        → IsQuiet o
        → Placed k fq sent val (offer p o fq tx val) ⊎ Declined k fq sent val (offer p o fq tx val)
    offer_lem o fq tx val lawful v fits quiet =
        elim (try_send_lem p o.outcomes tx val lawful v.log fits v.some_reader quiet.1) [
          | inl a ↦ inl (offer-Placed o fq tx val quiet.0 a)
          | inr f ↦ inr (offer-Declined o fq tx val quiet.0 v f)
        ]
