-- ===== src/Tests/Waiting.antt =====
-- A receiver that waits: two cells, both written, and one stream, which has read both values.
use multiqueue.Prelude.{ℕ, [], ◌∷◌, true, some, false}
use multiqueue.ReadCursor.Attempt.{single}
use multiqueue.MultiQueue.State.{MultiQueue, InnerRecv}
use multiqueue.MultiQueue.Blocking.{Turn}
use multiqueue.Tests.{three_streams, full_queue}

abbrev read_queue : MultiQueue ℕ
read_queue = record full_queue {
  manager = record full_queue.manager { heap = record three_streams { group = λ _. 2 ∷ [] } };
}

-- A third value has been sent.
abbrev longer_queue : MultiQueue ℕ
longer_queue = record read_queue {
  head = record { val = 3; mask = 1 };
  tail_cache = 2;
  cells = record { val = some 30; wraps = 2 } ∷ record { val = some 20; wraps = 1 } ∷ [];
}

abbrev late_receiver : InnerRecv
late_receiver = record {
  reader = record { state = single; pos = 2; meta = 0 };
  token = 5;
  alive = true;
}

-- At the first check nothing has changed; before the second, the third value has been sent.
abbrev busy_turn : Turn ℕ
busy_turn = record { outcomes = false ∷ []; meanwhile = (λ q. q) ∷ (λ q. longer_queue) ∷ [] }
