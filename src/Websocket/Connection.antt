-- ===== src/Websocket/Connection.antt =====
-- crates/fr-pyiface/src/ws.rs, `drive_websocket`: the reader and the writer task and the Python
-- handler as one state, with a step for each turn that one of them takes. The handler's side is
-- `NativeWebSocket` of python/hyperfastapi/_ws.py. A handler that cannot be launched ends the connection
-- before its first state, and the writer's last `sink.close()` is not logged.
use hyperfastapi.Prelude.{
  ℕ, ◌≡◌, Bool, true, false, ◌||◌, Option, none, some, List, [], ◌∷◌, ◌++◌, if◌then◌else◌,
}
use hyperfastapi.Prelude.Text.{Str, bytes}
use hyperfastapi.Value.{Host, Value, str, dict, entries}

-- tungstenite's messages; a close frame keeps its code as a number.
pub data Message : Type 0 where
  text : Str → Message
  binary : Str → Message
  ping : Str → Message
  pong : Str → Message
  close : Option (ℕ × Str) → Message
  frame : Str → Message

-- What `source.next()` gives.
pub data Incoming : Type 0 where
  ended : Incoming
  failed : Incoming
  message : Message → Incoming

pub data OutFrame : Type 0 where
  text : Str → OutFrame
  binary : Str → OutFrame
  close : ℕ → Str → OutFrame

pub data PyFramePayload : Type 0 where
  text : Str → PyFramePayload
  binary : Str → PyFramePayload
  disconnect : PyFramePayload

-- The dict that `push_to_py_queue` puts on the handler's queue.
unfoldable pub frame_item : {h : Host} → (Str → Value h) → PyFramePayload → Value h
unfolding entries
frame_item py_bytes (PyFramePayload.text t) =
    dict (entries ((bytes "kind", str (bytes "text")) ∷ (bytes "data", str t) ∷ []))
frame_item py_bytes (PyFramePayload.binary b) =
    dict (entries ((bytes "kind", str (bytes "bytes")) ∷ (bytes "data", py_bytes b) ∷ []))
frame_item py_bytes disconnect = dict (entries ((bytes "kind", str (bytes "disconnect")) ∷ []))

-- What one turn of the read loop pushes, the push after the loop included.
unfoldable pub pushes : Incoming → List PyFramePayload
pushes ended = disconnect ∷ []
pushes failed = disconnect ∷ []
pushes (message (Message.text t)) = PyFramePayload.text t ∷ []
pushes (message (Message.binary b)) = PyFramePayload.binary b ∷ []
pushes (message (Message.close c)) = disconnect ∷ disconnect ∷ []
pushes (message (ping _)) = []
pushes (message (pong _)) = []
pushes (message (frame _)) = []

-- Whether the read loop goes on.
unfoldable pub reads_on : Incoming → Bool
reads_on ended = false
reads_on failed = false
reads_on (message (Message.close c)) = false
reads_on (message _) = true

unfoldable pub to_message : OutFrame → Message
to_message (OutFrame.text t) = Message.text t
to_message (OutFrame.binary b) = Message.binary b
to_message (OutFrame.close code reason) = Message.close (some (code, reason))

-- Whether the write loop goes on after a frame, given whether it could be sent.
unfoldable pub writes_on : OutFrame → Bool → Bool
writes_on (OutFrame.close code reason) ok = false
writes_on _ ok = ok

-- `read_log` is what the source gave, `taken` what the handler received, `handed` what it sent, and
-- `written` what the sink accepted. `own_sender` and `py_sender` are the two senders of the outbound
-- channel: that of `drive_websocket` and that of the handler's `WsSendHandle`.
pub record Connection : Type 0 where
  pub read_log : List Incoming
  pub queue : List PyFramePayload
  pub taken : List PyFramePayload
  pub handed : List OutFrame
  pub outbox : List OutFrame
  pub written : List Message
  pub reading : Bool
  pub writing : Bool
  pub closed : Bool
  pub own_sender : Bool
  pub py_sender : Bool

unfoldable pub started : Connection
started = record {
  read_log = [];
  queue = [];
  taken = [];
  handed = [];
  outbox = [];
  written = [];
  reading = true;
  writing = true;
  closed = false;
  own_sender = true;
  py_sender = true;
}

-- A turn of the reader.
unfoldable pub read : Incoming → Connection → Connection
unfolding pushes reads_on
read m s = record s {
  read_log = s.read_log ++ m ∷ [];
  queue = s.queue ++ pushes m;
  reading = reads_on m;
}

-- A turn of the writer on the first frame of the outbox; `ok` is whether the sink accepts it.
unfoldable pub write : Bool → OutFrame → List OutFrame → Connection → Connection
unfolding to_message writes_on
write ok f rest s = record s {
  outbox = rest;
  written = if ok then s.written ++ to_message f ∷ [] else s.written;
  writing = writes_on f ok;
}

abbrev pub disconnects : PyFramePayload → Bool
disconnects (PyFramePayload.text t) = false
disconnects (PyFramePayload.binary b) = false
disconnects disconnect = true

-- `NativeWebSocket._next` on the first item of the queue.
unfoldable pub next : PyFramePayload → List PyFramePayload → Connection → Connection
next p rest s = record s {
  queue = rest;
  taken = s.taken ++ p ∷ [];
  closed = s.closed || disconnects p;
}

-- `WsSendHandle`'s methods: `none` where the channel's receiver is gone, and Python sees an exception.
unfoldable pub send : OutFrame → Connection → Option Connection
send f s =
    if s.writing
    then some (record s { handed = s.handed ++ f ∷ []; outbox = s.outbox ++ f ∷ [] })
    else none

abbrev pub or_same : Connection → Option Connection → Connection
or_same s none = s
or_same s (some t) = t

-- `NativeWebSocket.close`
unfoldable pub close_ws : ℕ → Str → Connection → Connection
unfolding send
close_ws code reason s =
    if s.closed
    then s
    else let t : Connection = record s { closed = true } in
      or_same t (send (OutFrame.close code reason) t)

-- The tasks and the handler in any order.
pub data Step : Connection → Connection → Type 0 where
  reads : {s : Connection} (m : Incoming) → s.reading ≡ true → Step s (read m s)
  takes :
      {s : Connection} (p : PyFramePayload) (rest : List PyFramePayload)
      → s.queue ≡ p ∷ rest
      → Step s (next p rest s)
  sends_text :
      {s t : Connection} (d : Str)
      → s.py_sender ≡ true
      → s.closed ≡ false
      → send (OutFrame.text d) s ≡ some t
      → Step s t
  sends_bytes :
      {s t : Connection} (d : Str)
      → s.py_sender ≡ true
      → s.closed ≡ false
      → send (OutFrame.binary d) s ≡ some t
      → Step s t
  closes :
      {s : Connection} (code : ℕ) (reason : Str)
      → s.py_sender ≡ true
      → Step s (close_ws code reason s)
  writes :
      {s : Connection} (ok : Bool) (f : OutFrame) (rest : List OutFrame)
      → s.writing ≡ true
      → s.outbox ≡ f ∷ rest
      → Step s (write ok f rest s)
  -- `out_rx.recv()` gives `None` when the outbox is empty and no sender is left.
  hangs_up :
      {s : Connection}
      → s.writing ≡ true
      → s.outbox ≡ []
      → s.own_sender ≡ false
      → s.py_sender ≡ false
      → Step s (record s { writing = false })
  -- The handler's object is dropped.
  releases : {s : Connection} → Step s (record s { py_sender = false })
  -- `drive_websocket` returns after both tasks.
  returns :
      {s : Connection}
      → s.reading ≡ false
      → s.writing ≡ false
      → Step s (record s { own_sender = false })

pub data Reach (s : Connection) : Connection → Type 0 where
  here : Reach s s
  then_step : {t u : Connection} → Reach s t → Step t u → Reach s u
