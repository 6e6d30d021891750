-- ===== src/Net/Handlers.antt =====
-- What the handlers of a session do, by what it has queued and whether it is writing.
use clarion.Prelude.{
  ◌≡◌, ◌⊎◌, inl, inr, refl, List, [], ◌∷◌, ◌++◌, true, false, none, some, arith, length,
  length-append, ltb, lt→ltb,
}
use clarion.Net.Session.{
  Message, Session, async_write, write_front, on_send, erase_front, on_write, write_ends,
}

pub queue_cases :
    (q : List Message) → (q ≡ []) ⊎ ((m : Message) × (rest : List Message) × (q ≡ m ∷ rest))
queue_cases [] = inl refl
queue_cases (m ∷ rest) = inr (m, rest, refl)

pub on_send_idle :
    (m : Message) (s : Session)
    → s.queue ≡ []
    → s.writing ≡ none
    → on_send m s ≡ some (record s { queue = m ∷ []; writing = some m })
unfolding on_send write_front async_write
on_send_idle m s q w = rw (q, w)

pub on_send_busy :
    (m a : Message) (rest : List Message) (s : Session)
    → s.queue ≡ a ∷ rest
    → on_send m s ≡ some (record s { queue = (a ∷ rest) ++ m ∷ [] })
unfolding on_send
on_send_busy m a rest s q =
    let e : ltb 1 (length ((a ∷ rest) ++ m ∷ [])) ≡ true =
      lt→ltb _ _ (omega (arith, length-append rest (m ∷ []))) in
    rw (q, e)

pub write_ends_last :
    (m : Message) (s : Session)
    → s.queue ≡ m ∷ []
    → write_ends false m s
      ≡ some (record s { queue = []; writing = none; delivered = s.delivered ++ m ∷ [] })
unfolding write_ends on_write erase_front write_front
write_ends_last m s q = rw q

pub write_ends_next :
    (m b : Message) (rest : List Message) (s : Session)
    → s.queue ≡ m ∷ b ∷ rest
    → write_ends false m s
      ≡ some (record s { queue = b ∷ rest; writing = some b; delivered = s.delivered ++ m ∷ [] })
unfolding write_ends on_write erase_front write_front async_write
write_ends_next m b rest s q = rw q

pub write_ends_error :
    (m : Message) (s : Session) → write_ends true m s ≡ some (record s { writing = none })
unfolding write_ends on_write
write_ends_error m s = refl
