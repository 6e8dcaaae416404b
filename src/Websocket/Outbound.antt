-- ===== src/Websocket/Outbound.antt =====
-- What goes to the wire.
use hyperfastapi.Prelude.{
  ◌≡◌, refl, sym, ap, ◌∙◌, subst, Bool, true, false, List, [], ◌∷◌, ◌++◌, map, append_assoc,
}
use hyperfastapi.Websocket.Connection.{
  Message, OutFrame, to_message, writes_on, Connection, started, read, write, next, Step, reads,
  takes, sends_text, sends_bytes, closes, writes, hangs_up, releases, returns, Reach,
}
use hyperfastapi.Websocket.Order.{handed_over, send_inv, close_ws_elim, Reach-keeps}

pub map-append :
    (xs ys : List OutFrame) → map to_message (xs ++ ys) ≡ map to_message xs ++ map to_message ys
map-append [] ys = refl
map-append (x ∷ xs) ys = ap (λ zs. to_message x ∷ zs) (map-append xs ys)

stopped : (g : OutFrame) → writes_on g false ≡ true → ⊥
unfolding writes_on
stopped (OutFrame.text d) e = cc
stopped (OutFrame.binary d) e = cc
stopped (OutFrame.close c r) e = cc

-- The sink has accepted the first frames that the handler sent, in order; those that follow are lost
-- or in the outbox, and none is lost while the writer runs.
pub record Sent (handed outbox : List OutFrame) (written : List Message) (writing : Bool)
    : Type 0 where
  pub done : List OutFrame
  pub lost : List OutFrame
  pub all_frames : handed ≡ done ++ (lost ++ outbox)
  pub on_wire : written ≡ map to_message done
  pub none_lost : writing ≡ true → lost ≡ []

abbrev pub Outbound : Connection → Type 0
Outbound s = Sent s.handed s.outbox s.written s.writing

abbrev sent_on : (f : OutFrame) (s : Connection) → Outbound s → Outbound (handed_over f s)
sent_on f s o = record {
  done = o.done;
  lost = o.lost;
  all_frames =
      ap (λ x. x ++ f ∷ []) o.all_frames
      ∙ append_assoc o.done (o.lost ++ s.outbox) (f ∷ [])
      ∙ ap (λ x. o.done ++ x) (append_assoc o.lost s.outbox (f ∷ []));
  on_wire = o.on_wire;
  none_lost = o.none_lost;
}

write-Outbound :
    (ok : Bool) (f : OutFrame) (rest : List OutFrame) (s : Connection)
    → s.writing ≡ true
    → s.outbox ≡ f ∷ rest
    → Outbound s
    → Outbound (write ok f rest s)
unfolding write
write-Outbound true f rest s on q o = record {
  done = o.done ++ f ∷ [];
  lost = [];
  all_frames =
      o.all_frames
      ∙ ap (λ l. o.done ++ (l ++ s.outbox)) (o.none_lost on)
      ∙ ap (λ x. o.done ++ x) q
      ∙ sym (append_assoc o.done (f ∷ []) rest);
  on_wire = ap (λ x. x ++ to_message f ∷ []) o.on_wire ∙ sym (map-append o.done (f ∷ []));
  none_lost = λ e. refl;
}
write-Outbound false f rest s on q o = record {
  done = o.done;
  lost = f ∷ [];
  all_frames =
      o.all_frames ∙ ap (λ l. o.done ++ (l ++ s.outbox)) (o.none_lost on) ∙ ap (λ x. o.done ++ x) q;
  on_wire = o.on_wire;
  none_lost = λ e. absurd (stopped f e);
}

Step-Outbound : {s t : Connection} → Step s t → Outbound s → Outbound t
unfolding read next
Step-Outbound (reads m on) o = o
Step-Outbound (takes p rest q) o = o
Step-Outbound {s = s} {t = t} (sends_text d a c x) o =
    subst Outbound (send_inv (OutFrame.text d) s t x).1 (sent_on (OutFrame.text d) s o)
Step-Outbound {s = s} {t = t} (sends_bytes d a c x) o =
    subst Outbound (send_inv (OutFrame.binary d) s t x).1 (sent_on (OutFrame.binary d) s o)
Step-Outbound {s = s} (closes code reason a) o =
    close_ws_elim Outbound code reason s o o (λ w c. sent_on (OutFrame.close code reason) s o)
Step-Outbound {s = s} (writes ok f rest on q) o = write-Outbound ok f rest s on q o
Step-Outbound (hangs_up on q a b) o = record {
  done = o.done;
  lost = o.lost;
  all_frames = o.all_frames;
  on_wire = o.on_wire;
  none_lost = λ e. absurd cc;
}
Step-Outbound releases o = o
Step-Outbound (returns a b) o = o

-- In every order of the steps, the messages on the wire are the first of the frames that the handler
-- sent, in order; the frames that follow are lost or wait in the outbox, and none is lost while the
-- writer runs.
pub Reach-Outbound : {s : Connection} → Reach started s → Outbound s
unfolding started
Reach-Outbound r =
    Reach-keeps Outbound (λ u v x p. Step-Outbound x p)
      (record { done = []; lost = []; all_frames = refl; on_wire = refl; none_lost = λ e. refl }) r
