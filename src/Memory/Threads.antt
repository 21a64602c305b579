-- ===== src/Memory/Threads.antt =====
-- `ListThreads` of internal/storage/storage.go: the threads of an agent, the latest first.
use intermute.Base.{
  ℕ, zero, suc, false, none, some, List, [], ◌∷◌, length, filter, ltb, if◌then◌else◌, Text, text_eq,
  Map, find, find_or,
}
use intermute.Memory.{Message, InMemory, limited, values}

pub record ThreadSummary : Type 0 where
  pub thread_id : Text
  pub last_cursor : ℕ
  pub message_count : ℕ
  pub last_from : Text
  pub last_body : Text
  pub last_at : ℕ

-- `lastMsg` after the loop over the messages of the thread, from the zero message on.
later : Message → List Message → Message
later last [] = last
later last (m ∷ ms) = later (if ltb (Message.cursor last) (Message.cursor m) then m else last) ms

abbrev no_message : Message
no_message = record {
  id = [];
  thread_id = [];
  project = [];
  from = [];
  to = [];
  cc = [];
  bcc = [];
  subject = [];
  topic = [];
  body = [];
  metadata = [];
  importance = [];
  transport = [];
  ack_required = false;
  status = [];
  created_at = 0;
  cursor = 0;
}

summary : Text → ℕ → List Message → ThreadSummary
unfolding later
summary thread_id last_cursor ms =
    let last = later no_message ms in
    record {
      thread_id = thread_id;
      last_cursor = last_cursor;
      message_count = length ms;
      last_from = Message.from last;
      last_body = Message.body last;
      last_at = Message.created_at last;
    }

summaries : Text → ℕ → List Message → Map (Map ℕ) → List ThreadSummary
unfolding summary find
summaries agent cursor ms [] = []
summaries agent cursor ms ((thread_id, seen) ∷ rest) =
    let others = summaries agent cursor ms rest in
    let in_thread = filter (λ m. text_eq (Message.thread_id m) thread_id) ms in
    elim (find agent seen) [
      | none ↦ others
      | some last_cursor ↦
          if ltb cursor last_cursor
          then summary thread_id last_cursor in_thread ∷ others
          else others
    ]

-- One pass of the inner loop: the latest comes to the front.
swap_pass : ThreadSummary → List ThreadSummary → ThreadSummary × List ThreadSummary
swap_pass x [] = (x, [])
swap_pass x (y ∷ ys) =
    let swap = ltb (ThreadSummary.last_cursor x) (ThreadSummary.last_cursor y) in
    let rest = swap_pass (if swap then y else x) ys in (rest.0, (if swap then x else y) ∷ rest.1)

latest_first : ℕ → List ThreadSummary → List ThreadSummary
unfolding swap_pass
latest_first zero out = out
latest_first (suc n) [] = []
latest_first (suc n) (x ∷ xs) = let pass = swap_pass x xs in pass.0 ∷ latest_first n pass.1

unfoldable pub list_threads : Text → Text → ℕ → ℕ → InMemory → List ThreadSummary
unfolding summaries latest_first find_or values limited
list_threads project agent cursor limit m =
    let found =
      summaries agent cursor (values (find_or [] project (InMemory.messages m)))
        (find_or [] project (InMemory.thread_index m)) in
    limited limit (latest_first (length found) found)
