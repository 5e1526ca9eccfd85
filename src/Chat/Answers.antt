-- ===== src/Chat/Answers.antt =====
-- What the generator of `send_message_and_stream` in app/services/chat_service.py leaves behind.
use mathlib.Core.Option
use repo_info_backend.Chat.Generator.{
  Answer, ChatChunk, Reading, SseEvent, completed, count_usage, delta_event, end_stream, errored,
  find_message, generator, read_chunks, store_answer, unread, write_message,
}
use repo_info_backend.Chat.Streaming.{PendingAnswer}
use repo_info_backend.Chat.Tables.{AiResponse, ChatStore, Message}
use repo_info_backend.Models.Enums.{MessageStatus}
use repo_info_backend.Prelude.{
  All-always, Bool, Bool-cases, List, Option, Text, [], ap, append_assoc, append_nil, beq→eq, false,
  filter, filter-update, find?, find?-update, find?_holds, if◌then◌else◌, inl, inr, nat_eq, none,
  not, refl, some, sym, text_eq, ℕ, ◌++◌, ◌==◌, ◌||◌, ◌∷◌, ◌≡◌,
}

-- The text of an answer: what the chunks add, up to the first that is done.
abbrev pub answer_text : List ChatChunk → Text
answer_text [] = []
answer_text (c ∷ cs) = c.delta ++ (if c.done then [] else answer_text cs)

abbrev pub is_ended : List ChatChunk → Bool
is_ended [] = false
is_ended (c ∷ cs) = c.done || is_ended cs

-- An answer fails where the agent raises before a chunk is done.
abbrev pub failure_of : Answer → Option Text
failure_of answer = if is_ended answer.chunks then none else answer.failure

-- The text that the client has seen.
abbrev pub seen : List SseEvent → Text
seen [] = []
seen (SseEvent.delta t ∷ events) = t ++ seen events
seen (e ∷ events) = seen events

seen-append : (a b : List SseEvent) → seen (a ++ b) ≡ seen a ++ seen b
seen-append [] b = refl
seen-append (SseEvent.delta t ∷ a) b = rw (seen-append a b, append_assoc)
seen-append (SseEvent.start _ _ _ ∷ a) b = seen-append a b
seen-append (SseEvent.error _ ∷ a) b = seen-append a b
seen-append (SseEvent.usage _ _ _ _ ∷ a) b = seen-append a b
seen-append (SseEvent.done _ _ ∷ a) b = seen-append a b

seen-delta_event : (t : Text) → seen (delta_event t) ≡ t
seen-delta_event [] = refl
seen-delta_event (c ∷ t) = append_nil (c ∷ t)

seen-read_chunks :
    (failure : Option Text) (cs : List ChatChunk) (r : Reading)
    → seen (read_chunks failure cs r).0 ≡ answer_text cs
unfolding read_chunks
seen-read_chunks failure [] r = refl
seen-read_chunks failure (c ∷ cs) r = elim (Bool-cases c.done) [
  | inl t ↦ rw (t, seen-delta_event c.delta, append_nil c.delta)
  | inr f ↦ rw (
    f,
    seen-append (delta_event c.delta),
    seen-delta_event c.delta,
    seen-read_chunks failure cs (record r { content = r.content ++ c.delta }),
  )
]

content-read_chunks :
    (failure : Option Text) (cs : List ChatChunk) (r : Reading)
    → (read_chunks failure cs r).1.content ≡ r.content ++ answer_text cs
unfolding read_chunks
content-read_chunks failure [] r = sym (append_nil r.content)
content-read_chunks failure (c ∷ cs) r = elim (Bool-cases c.done) [
  | inl t ↦ rw (t, append_nil c.delta)
  | inr f ↦ rw (
    f,
    content-read_chunks failure cs (record r { content = r.content ++ c.delta }),
    append_assoc,
  )
]

pub failed-read_chunks :
    (failure : Option Text) (cs : List ChatChunk) (r : Reading)
    → (read_chunks failure cs r).1.failed ≡ (if is_ended cs then r.failed else failure)
unfolding read_chunks
failed-read_chunks failure [] r = refl
failed-read_chunks failure (c ∷ cs) r = elim (Bool-cases c.done) [
  | inl t ↦ rw (t)
  | inr f ↦ rw (f, failed-read_chunks failure cs (record r { content = r.content ++ c.delta }))
]

abbrev pub status_after : Option Text → MessageStatus
status_after none = MessageStatus.complete
status_after (some _) = MessageStatus.error

abbrev pub shown : Message → MessageStatus × Text
shown m = (m.status, m.content)

abbrev pub others : ℕ → ChatStore → List Message
others id s = filter (λ m. not (m.id == id)) s.messages

module _ (id : ℕ) (f : Message → Message) (keep : (m : Message) → (f m).id ≡ m.id)
    (s : ChatStore) where
  written :
      (row : Message)
      → find_message id s ≡ some row
      → find_message id (write_message id f s) ≡ some (f row)
  written row found = rw (
    find?-update (λ m. m.id == id) (λ m. m.id == id) f s.messages (λ m. rw (keep m)),
    found,
    find?_holds (λ m. m.id == id) s.messages row found,
  )

  kept : others id (write_message id f s) ≡ others id s
  kept = filter-update _ _ f s.messages (All-always (λ m t. (rw (t), rw (keep m, t))) s.messages)

module _ (now latency : ℕ) (p : PendingAnswer) (r : Reading) (s : ChatStore) (row : Message)
    (found : find_message p.placeholder_id s ≡ some row)
    (fresh : find? (λ (y : AiResponse). y.message_id == p.placeholder_id) s.ai_responses
      ≡ none) where
  end_stream_settles :
      (failure : Option Text)
      → r.failed ≡ failure
      → let out = end_stream now p latency r s in
        (Option.map shown (find_message p.placeholder_id out.1)
          ≡ some (status_after failure, r.content))
        × (others p.placeholder_id out.1 ≡ others p.placeholder_id s)
        × (seen out.0 ≡ [])
  unfolding store_answer count_usage
  end_stream_settles (some message) e = rw (e) (
    ap (Option.map shown) (written p.placeholder_id (errored r) (λ m. refl) s row found),
    kept p.placeholder_id (errored r) (λ m. refl) s,
    refl,
  )
  end_stream_settles none e =
      rw (e, found, same, fresh)
        (
          ap (Option.map shown) (written p.placeholder_id (completed r) (λ m. refl) s row found),
          kept p.placeholder_id (completed r) (λ m. refl) s,
          refl,
        )
    where
      same : row.id ≡ p.placeholder_id
      same =
          beq→eq row.id p.placeholder_id
            (find?_holds (λ m. m.id == p.placeholder_id) s.messages row found)

-- Whatever the agent does, a generator that is read to its end leaves no placeholder streaming: the
-- message holds the text of the answer up to its end, as complete, or as an error where the agent
-- failed before; that text is what the client has seen, and every other message is as it was. The
-- placeholder is in the store, without a response of its own.
pub generator_settles :
    (agent : PendingAnswer → Answer) (now latency : ℕ) (p : PendingAnswer) (s : ChatStore)
    (row : Message)
    → find_message p.placeholder_id s ≡ some row
    → find? (λ (y : AiResponse). y.message_id == p.placeholder_id) s.ai_responses ≡ none
    → let out = generator agent now latency p s in
      let text = answer_text (agent p).chunks in
      (Option.map shown (find_message p.placeholder_id out.1)
        ≡ some (status_after (failure_of (agent p)), text))
      × (others p.placeholder_id out.1 ≡ others p.placeholder_id s)
      × (seen out.0 ≡ text)
unfolding generator
generator_settles agent now latency p s row found fresh =
    let cs = (agent p).chunks in
    let failure = (agent p).failure in
    let settled =
      end_stream_settles now latency p (read_chunks failure cs (unread p)).1 s row found fresh
        (failure_of (agent p)) (failed-read_chunks failure cs (unread p)) in
    (
      rw (← content-read_chunks failure cs (unread p)) settled.0,
      settled.1,
      rw
          (
            seen-append (read_chunks failure cs (unread p)).0,
            seen-read_chunks failure cs (unread p),
            settled.2,
          )
          (append_nil (answer_text cs)),
    )
