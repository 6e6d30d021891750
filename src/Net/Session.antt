-- ===== src/Net/Session.antt =====
-- `websocket_session`: the handlers that run on its strand. Boost.Beast performs the writes and the
-- reads: a session starts them, and a completion handler is called for each, with success or an error.
use clarion.Prelude.{
  ℕ, ◌+◌, List, [], ◌∷◌, ◌++◌, Bool, true, false, Option, none, some, length, ltb, if◌then◌else◌,
}
use clarion.Stream.{Bytes}

abbrev pub Message : Type 0
Message = Bytes

-- `queue_`, the message of the write that is under way, and how many reads are. `delivered` is what
-- Beast has written to the peer, and `broadcast` what the session handed to `shared_state::send`.
pub record Session : Type 0 where
  pub queue : List Message
  pub writing : Option Message
  pub reads : ℕ
  pub joined : Bool
  pub delivered : List Message
  pub broadcast : List Message

unfoldable pub opened : Session
opened = record {
  queue = [];
  writing = none;
  reads = 0;
  joined = false;
  delivered = [];
  broadcast = [];
}

-- `ws_.async_write`: Beast allows one write at a time, and `none` is a second one.
unfoldable pub async_write : Message → Session → Option Session
async_write m s = elim s.writing [ none ↦ some (record s { writing = some m }) | some other ↦ none ]

unfoldable pub write_front : List Message → Session → Option Session
write_front [] s = some s
write_front (m ∷ rest) s = async_write m s

-- `on_accept`: an error is reported and ends the session.
unfoldable pub on_accept : Bool → Session → Session
on_accept ec s = if ec then s else record s { joined = true; reads = s.reads + 1 }

-- `on_read` with the text that was read: it is sent to all sessions, and the next read starts.
unfoldable pub on_read : Bool → Message → Session → Session
on_read ec text s =
    if ec then s else record s { broadcast = s.broadcast ++ text ∷ []; reads = s.reads + 1 }

unfoldable pub on_send : Message → Session → Option Session
on_send ss s =
    let s' = record s { queue = s.queue ++ ss ∷ [] } in
    if ltb 1 (length s'.queue) then some s' else write_front s'.queue s'

unfoldable pub erase_front : List Message → List Message
erase_front [] = []
erase_front (m ∷ rest) = rest

unfoldable pub on_write : Bool → Session → Option Session
on_write ec s =
    let rest = erase_front s.queue in
    if ec then some s else write_front rest (record s { queue = rest })

-- Beast ends the write of `m` and calls `on_write`.
unfoldable pub write_ends : Bool → Message → Session → Option Session
write_ends ec m s =
    on_write ec
      (record s { writing = none; delivered = (if ec then s.delivered else s.delivered ++ m ∷ []) })
