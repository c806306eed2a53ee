-- ===== src/Refinement/Sharing.antt =====
-- Two streams that stand at the same value.
use multiqueue.Prelude.{
  ℕ, ◌≡◌, ◌≢◌, List, some, Elem, All-Elem, Elem-append_left, Elem-append_last, get_elem?, Bool,
  false,
}
use multiqueue.MultiQueue.Policy.{QueueRw, IsLawful}
use multiqueue.MultiQueue.State.{MultiQueue, InnerRecv}
use multiqueue.MultiQueue.Recv.{try_recv}
use multiqueue.MultiQueue.Handles
use multiqueue.Refinement.Log.{readers, position, IsLog}
use multiqueue.Refinement.Taking.{Took}
use multiqueue.Refinement.Loop.{try_recv-Took}
use multiqueue.Refinement.Streams.{IsAllocated, Added, add_stream_lem}

-- Both receives of a value: the parent's, and the new stream's behind it.
pub record Shared {ℓ} {T : Type ℓ} (p : QueueRw T) (k : ℕ) (q : MultiQueue T) (sent : List T)
    (rx : InnerRecv) (x : T) (outcomes outcomes' : List Bool) : Type ℓ where
  pub added : Added k q sent rx (Handles.add_stream q rx)
  pub first : Took k added.queue sent rx.reader x (try_recv p outcomes added.queue rx.reader)
  pub second :
      Took k first.queue sent added.handle.reader x
        (try_recv p outcomes' first.queue added.handle.reader)

-- On a queue that stands for a log and whose streams are allocated, with a lawful policy, the
-- next value of a stream is returned both by a `try_recv` on the stream and, behind it, by one on
-- a stream that `add_stream` has made of it, as soon as one compare-exchange of each does not
-- fail for no reason.
pub add_stream-Shared {ℓ} :
    {T : Type ℓ} (p : QueueRw T) (outcomes outcomes' : List Bool) {k : ℕ} {sent : List T}
    (q : MultiQueue T) (rx : InnerRecv) (x : T)
    → IsLawful p
    → IsLog k q sent
    → IsAllocated q
    → Elem rx.reader.pos (readers q)
    → get_elem? sent (position q rx.reader.pos).val ≡ some x
    → Elem false outcomes
    → Elem false outcomes'
    → Shared p k q sent rx x outcomes outcomes'
add_stream-Shared p outcomes outcomes' {k} {sent} q rx x lawful v allocated at next succeeds
      succeeds' =
    let a = add_stream_lem q rx v allocated at in
    let still : position a.queue rx.reader.pos ≡ position q rx.reader.pos =
      All-Elem (λ s. position a.queue s ≡ position q s) rx.reader.pos (readers q) a.others at in
    let distinct : rx.reader.pos ≢ a.handle.reader.pos =
      All-Elem (λ s. s ≢ a.handle.reader.pos) rx.reader.pos (readers q) a.fresh at in
    let t =
      try_recv-Took p outcomes rx.reader x lawful a.log
        (rw a.grown (Elem-append_left rx.reader.pos (readers q) _ at)) (rw still next) succeeds in
    record {
      added = a;
      first = t;
      second =
          try_recv-Took p outcomes' a.handle.reader x lawful t.log
            (rw (t.keeps.readers_kept, a.grown) (Elem-append_last a.handle.reader.pos (readers q)))
            (rw (t.keeps.others a.handle.reader.pos distinct, a.here) next) succeeds';
    }
