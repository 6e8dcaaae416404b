-- ===== src/Websocket/Tests.antt =====
-- A client that sends a text and goes away, a handler that answers and one that does not close.
use hyperfastapi.Prelude.{
  ℕ, ◌≤◌, ◌≡◌, ◌↔◌, refl, true, false, not, some, [], ◌∷◌, ◌++◌, any, length,
}
use hyperfastapi.Prelude.Text.{bytes, str_eq, split, to_ascii_lowercase}
use hyperfastapi.Prelude.Text.Trim.{trim}
use hyperfastapi.Value.{get_item, other}
use hyperfastapi.Websocket.{Head, Handshaking, is_websocket_upgrade}
use hyperfastapi.Websocket.Handshake.{Asks, is_websocket_upgrade_iff}
use hyperfastapi.Websocket.Connection.{
  Message, Incoming, OutFrame, PyFramePayload, message, ended, disconnect, pushes, reads_on,
  disconnects, Connection, started, read, write, next, send, reads, takes, sends_text, writes,
  releases, Reach, here, then_step,
}
use hyperfastapi.Websocket.Order.{Told, Reach-Inbound}
use hyperfastapi.Websocket.Outbound.{Outbound, Reach-Outbound}
use hyperfastapi.Websocket.Ending.{Writes, Reach-Announced, Reach-Stuck, writer-ends}
use hyperfastapi.Samples.{host}

abbrev hello : Incoming
hello = message (Message.text (bytes "hello"))

-- The text is read, received and answered; then the client goes.
abbrev greeted : Connection
greeted = read hello started

abbrev received : Connection
received = next (PyFramePayload.text (bytes "hello")) [] greeted

abbrev answer : OutFrame
answer = OutFrame.text (bytes "hi")

abbrev answering : Connection
answering = record received { handed = answer ∷ []; outbox = answer ∷ [] }

abbrev answered : Connection
answered = write true answer [] answering

abbrev gone : Connection
gone = read ended answered

abbrev told : Connection
told = next disconnect [] gone

up_to_gone : Reach started gone
unfolding started read next write send pushes reads_on
up_to_gone =
    then_step
      (then_step
        (then_step
          (then_step (then_step here (reads hello refl))
            (takes (PyFramePayload.text (bytes "hello")) [] refl))
          (sends_text (bytes "hi") refl refl refl))
        (writes true answer [] refl refl))
      (reads ended refl)

up_to_told : Reach started told
unfolding started read next write send pushes reads_on
up_to_told = then_step up_to_gone (takes disconnect [] refl)

Reach-Inbound_example : Told gone.read_log gone.reading (gone.taken ++ gone.queue)
Reach-Inbound_example = Reach-Inbound up_to_gone

Reach-Outbound_example : Outbound told
Reach-Outbound_example = Reach-Outbound up_to_told

Reach-Announced_example : any disconnects (gone.taken ++ gone.queue) ≡ not gone.reading
Reach-Announced_example = Reach-Announced up_to_gone

told_closed : told.closed ≡ true
unfolding next read write started
told_closed = refl

told_drained : told.outbox ≡ []
unfolding started read next write
told_drained = refl

told_writing : told.writing ≡ true
unfolding started read next write
told_writing = refl

-- The handler returns and drops its object.
abbrev dropped : Connection
dropped = record told { py_sender = false }

Reach-Stuck_example : (dropped.writing ≡ true) × (dropped.own_sender ≡ true)
Reach-Stuck_example =
    Reach-Stuck up_to_told told_closed told_drained told_writing (then_step here releases)

abbrev closing : Connection
closing = record received {
  outbox = answer ∷ OutFrame.close 1000 [] ∷ [];
  handed = answer ∷ OutFrame.close 1000 [] ∷ [];
  closed = true;
}

closing_writing : closing.writing ≡ true
unfolding started read next
closing_writing = refl

writer-ends_example :
    (n : ℕ) × (t : Connection) × Writes (λ f. true) n closing t
    × (n ≤ length closing.outbox)
    × (t.writing ≡ false)
writer-ends_example = writer-ends (λ f. true) closing closing_writing refl

abbrev upgrade_head : Head
upgrade_head = record {
  method = bytes "GET";
  headers =
      (bytes "upgrade", bytes "WebSocket")
      ∷ (bytes "connection", bytes "keep-alive, Upgrade")
      ∷ (bytes "sec-websocket-version", bytes "13")
      ∷ (bytes "sec-websocket-key", bytes "abc")
      ∷ [];
}

abbrev handshaking : Handshaking host
handshaking = record {
  to_str = λ v. some v;
  sha1 = λ s. s;
  base64 = λ s. s;
  lookup_websocket = λ path. some (other 5);
}

upgrade_seen : is_websocket_upgrade handshaking upgrade_head ≡ true
unfolding is_websocket_upgrade str_eq bytes get_item to_ascii_lowercase split trim
upgrade_seen = refl

is_websocket_upgrade_iff_example :
    (is_websocket_upgrade handshaking upgrade_head ≡ true) ↔ Asks handshaking upgrade_head
is_websocket_upgrade_iff_example = is_websocket_upgrade_iff handshaking upgrade_head
