-- ===== src/Net/Delivery.antt =====
-- What a session does whatever the order of sends, reads and completions.
use mathlib.Core.Option.{some-injective}
use clarion.Prelude.{
  ◌≡◌, ◌≢◌, ◌⊎◌, inl, inr, refl, sym, ◌∙◌, ap, List, [], ◌∷◌, ◌++◌, Bool, true, false, Option, none,
  some, append_assoc, append-nil,
}
use clarion.Net.Session.{Message, Session, opened, on_send, write_ends, on_accept, on_read}
use clarion.Net.Handlers.{
  queue_cases, on_send_idle, on_send_busy, write_ends_last, write_ends_next, write_ends_error,
}

-- The states that a session reaches: `sent` are the messages that were handed to it, in order, and `sound`
-- says that no write has failed.
pub data Reach : Bool → List Message → Session → Type 0 where
  start : Reach true [] opened
  accept :
      {sound : Bool} {sent : List Message} {s : Session} (ec : Bool)
      → Reach sound sent s
      → Reach sound sent (on_accept ec s)
  read :
      {sound : Bool} {sent : List Message} {s : Session} (ec : Bool) (text : Message)
      → Reach sound sent s
      → Reach sound sent (on_read ec text s)
  send :
      {sound : Bool} {sent : List Message} {s t : Session} (m : Message)
      → Reach sound sent s
      → on_send m s ≡ some t
      → Reach sound (sent ++ m ∷ []) t
  written :
      {sound : Bool} {sent : List Message} {s t : Session} (m : Message)
      → Reach sound sent s
      → s.writing ≡ some m
      → write_ends false m s ≡ some t
      → Reach sound sent t
  failed :
      {sound : Bool} {sent : List Message} {s t : Session} (m : Message)
      → Reach sound sent s
      → s.writing ≡ some m
      → write_ends true m s ≡ some t
      → Reach false sent t

-- An idle session is not writing; another one writes the front of its queue, unless a write has failed.
record IsValid (sound : Bool) (sent : List Message) (s : Session) : Type 0 where
  kept : s.delivered ++ s.queue ≡ sent
  idle : s.queue ≡ [] → s.writing ≡ none
  busy :
      (m : Message) (rest : List Message)
      → s.queue ≡ m ∷ rest
      → (s.writing ≡ some m) ⊎ ((s.writing ≡ none) × (sound ≡ false))

-- A handler runs to its end, in a valid state.
abbrev Continues : Bool → List Message → Option Session → Type 0
Continues sound sent r = (t : Session) × (r ≡ some t) × IsValid sound sent t

on_send-IsValid :
    (sound : Bool) (sent : List Message) (m : Message) (s : Session)
    → IsValid sound sent s
    → Continues sound (sent ++ m ∷ []) (on_send m s)
on_send-IsValid sound sent m s v = elim (queue_cases s.queue) [
  | inl q ↦ (
    record s { queue = m ∷ []; writing = some m },
    on_send_idle m s q (v.idle q),
    record {
      kept = ap (◌++ m ∷ []) (sym (append-nil s.delivered) ∙ ap (s.delivered ++◌) (sym q) ∙ v.kept);
      idle = λ e. cc;
      busy = λ a rest e. inl cc;
    },
  )
  | inr (a, rest, q) ↦ (
    record s { queue = (a ∷ rest) ++ m ∷ [] },
    on_send_busy m a rest s q,
    record {
      kept = rw (sym v.kept, q) (sym (append_assoc s.delivered (a ∷ rest) (m ∷ [])));
      idle = λ e. cc;
      busy =
          λ b tail e. elim (v.busy a rest q) [ inl w ↦ inl cc | inr (w, broken) ↦ inr (w, broken) ];
    },
  )
]

-- What is being written is the front of the queue.
front :
    {sound : Bool} {sent : List Message} (m a : Message) (rest : List Message) (s : Session)
    → IsValid sound sent s
    → s.writing ≡ some m
    → s.queue ≡ a ∷ rest
    → s.queue ≡ m ∷ rest
front m a rest s v w q = elim (v.busy a rest q) [
  | inl w' ↦ q ∙ ap (◌∷ rest) (some-injective a m (sym w' ∙ w))
  | inr (w', broken) ↦ cc
]

write_ends-IsValid :
    (sound : Bool) (sent : List Message) (m : Message) (s : Session)
    → IsValid sound sent s
    → s.writing ≡ some m
    → Continues sound sent (write_ends false m s)
write_ends-IsValid sound sent m s v w =
    let moved : (rest : List Message)
        → s.queue ≡ m ∷ rest
        → (s.delivered ++ m ∷ []) ++ rest ≡ sent =
      λ rest q. append_assoc s.delivered (m ∷ []) rest ∙ ap (s.delivered ++◌) (sym q) ∙ v.kept in
    elim (queue_cases s.queue) [
      | inl q ↦ let w' = v.idle q in cc
      | inr (a, [], q) ↦ (
        record s { queue = []; writing = none; delivered = s.delivered ++ m ∷ [] },
        write_ends_last m s (front m a [] s v w q),
        record { kept = moved [] (front m a [] s v w q); idle = λ e. refl; busy = λ b tail e. cc },
      )
      | inr (a, b ∷ rest, q) ↦ (
        record s { queue = b ∷ rest; writing = some b; delivered = s.delivered ++ m ∷ [] },
        write_ends_next m b rest s (front m a (b ∷ rest) s v w q),
        record {
          kept = moved (b ∷ rest) (front m a (b ∷ rest) s v w q);
          idle = λ e. cc;
          busy = λ c tail e. inl cc;
        },
      )
    ]

write_fails-IsValid :
    (sound : Bool) (sent : List Message) (m : Message) (s : Session)
    → IsValid sound sent s
    → Continues false sent (write_ends true m s)
write_fails-IsValid sound sent m s v = (
  record s { writing = none },
  write_ends_error m s,
  record { kept = v.kept; idle = λ e. refl; busy = λ a rest e. inr (refl, refl) },
)

settle :
    (sound : Bool) (sent : List Message) (r : Option Session) (t : Session)
    → Continues sound sent r
    → r ≡ some t
    → IsValid sound sent t
settle sound sent r t (u, e, v) e' =
    let same : t ≡ u = sym (some-injective u t (sym e ∙ e')) in rw same v

reached :
    {sound : Bool} {sent : List Message} {s : Session} → Reach sound sent s → IsValid sound sent s
unfolding opened on_accept on_read
reached start = record { kept = refl; idle = λ e. refl; busy = λ m rest e. cc }
reached (accept true r) = reached r
reached (accept false r) =
    let v = reached r in record { kept = v.kept; idle = v.idle; busy = v.busy }
reached (read true text r) = reached r
reached (read false text r) =
    let v = reached r in record { kept = v.kept; idle = v.idle; busy = v.busy }
reached (send m r e) = settle _ _ _ _ (on_send-IsValid _ _ m _ (reached r)) e
reached (written m r w e) = settle _ _ _ _ (write_ends-IsValid _ _ m _ (reached r) w) e
reached (failed {sound} m r w e) = settle _ _ _ _ (write_fails-IsValid sound _ m _ (reached r)) e

-- Whatever is sent, read and completed, in any order: what has reached the peer, followed by the queue, is
-- what was handed to the session, in that order: no message is lost, doubled or overtaken.
pub delivered_in_order :
    {sound : Bool} {sent : List Message} {s : Session}
    → Reach sound sent s
    → s.delivered ++ s.queue ≡ sent
delivered_in_order r = (reached r).kept

runs : {sound : Bool} {sent : List Message} (o : Option Session) → Continues sound sent o → o ≢ none
runs o (t, e, v) e' = cc

either_way :
    {sound : Bool} {sent : List Message} {s : Session} (ec : Bool) (m : Message)
    → IsValid sound sent s
    → s.writing ≡ some m
    → write_ends ec m s ≢ none
either_way false m v w = runs _ (write_ends-IsValid _ _ m _ v w)
either_way true m v w = runs _ (write_fails-IsValid _ _ m _ v)

-- A session that can be reached never starts a write while another is under way: neither when a message is
-- sent, nor when a write ends, with success or with an error.
pub one_write_at_a_time :
    {sound : Bool} {sent : List Message} {s : Session}
    → Reach sound sent s
    → ((m : Message) → on_send m s ≢ none)
      × ((ec : Bool) (m : Message) → s.writing ≡ some m → write_ends ec m s ≢ none)
one_write_at_a_time r =
    let v = reached r in (λ m. runs _ (on_send-IsValid _ _ m _ v), λ ec m w. either_way ec m v w)

-- While no write has failed, a session that is not writing has delivered all that was handed to it.
pub idle_is_drained :
    {sent : List Message} {s : Session} → Reach true sent s → s.writing ≡ none → s.delivered ≡ sent
idle_is_drained {sent} {s} r w =
    let v = reached r in
    elim (queue_cases s.queue) [
      | inl q ↦ sym (append-nil s.delivered) ∙ ap (s.delivered ++◌) (sym q) ∙ v.kept
      | inr (m, rest, q) ↦ elim (v.busy m rest q) [ inl b ↦ cc | inr (b, broken) ↦ cc ]
    ]

-- The writes that are under way end with success, one after the other.
pub data Drains : Session → Session → Type 0 where
  done : {s : Session} → Drains s s
  next :
      {s t u : Session} (m : Message)
      → s.writing ≡ some m
      → write_ends false m s ≡ some t
      → Drains t u
      → Drains s u

write_ends_pops :
    (m : Message) (rest : List Message) (s : Session)
    → s.queue ≡ m ∷ rest
    → (t : Session) × (write_ends false m s ≡ some t) × (t.queue ≡ rest)
write_ends_pops m [] s q = (_, write_ends_last m s q, refl)
write_ends_pops m (b ∷ rest) s q = (_, write_ends_next m b rest s q, refl)

drains :
    (q sent : List Message) (s : Session)
    → IsValid true sent s
    → s.queue ≡ q
    → (t : Session) × Drains s t × (t.queue ≡ []) × (t.delivered ≡ sent)
drains [] sent s v q =
    (s, done, q, sym (append-nil s.delivered) ∙ ap (s.delivered ++◌) (sym q) ∙ v.kept)
drains (m ∷ rest) sent s v q =
    let w : s.writing ≡ some m = elim (v.busy m rest q) [ inl w ↦ w | inr (w, broken) ↦ cc ] in
    let (t, e, q') = write_ends_pops m rest s q in
    let v' = settle _ _ _ _ (write_ends-IsValid _ _ m _ v w) e in
    let (u, d, e', sent_all) = drains rest sent t v' q' in (u, next m w e d, e', sent_all)

-- As long as writes end with success, the writes that a session starts by itself deliver all that was handed
-- to it and empty its queue.
pub queue_empties :
    {sent : List Message} {s : Session}
    → Reach true sent s
    → (t : Session) × Drains s t × (t.queue ≡ []) × (t.delivered ≡ sent)
queue_empties {sent} {s} r = drains s.queue sent s (reached r) refl
