-- ===== src/Server/Net/Quic.antt =====
-- One HTTP/3 request among the others of a server.
use hyperfastapi.Prelude.{
  ℕ, ◌≡◌, refl, ap, ◌∙◌, Bool, true, false, ◌==◌, ==_iff, Option, none, some, List, [], ◌∷◌, ◌++◌,
  get_elem?, get_elem?-modify_self, get_elem?-modify_ne, get_elem?-append_left, length,
  if◌then◌else◌, Bool-cases, inl, inr,
}
use hyperfastapi.Value.{Host}
use hyperfastapi.Dispatch.Fast.{Response}
use hyperfastapi.Server.Native.{HttpRequest}
use hyperfastapi.Server.Tasks.{resolving, accepting, QuicConnection, QuicEvent, accepted, quic_step}
use hyperfastapi.Server.Net.{
  Endpoint, Net, NetEvent, accept, accept_error, on, quic_accept, quic_closed, on_quic, net_step,
  run, fresh_quic, endpoint_on, endpoint_accept, endpoint_closed,
}
use hyperfastapi.Server.Net.Requests.{
  keep_own, own_request, request_alone, quic_alone, quic_alone-task, accepted_task,
}
use hyperfastapi.Websocket.{Reply}

-- The events of one QUIC connection.
unfoldable pub own_quic : ℕ → List NetEvent → List QuicEvent
own_quic n [] = []
own_quic n (on_quic i e ∷ es) = keep_own (i == n) e (own_quic n es)
own_quic n (accept ∷ es) = own_quic n es
own_quic n (accept_error ∷ es) = own_quic n es
own_quic n (quic_accept ∷ es) = own_quic n es
own_quic n (quic_closed ∷ es) = own_quic n es
own_quic n (on i e ∷ es) = own_quic n es

-- The QUIC connections of a server; none where no endpoint runs.
abbrev pub quic_connections : Option Endpoint → List QuicConnection
quic_connections none = []
quic_connections (some q) = q.connections

module _ {h : Host} (encrypted : Bool) (serve : HttpRequest → Reply h)
    (answer : HttpRequest → Option Response) where
  -- One event, and one QUIC connection that is there.
  endpoint_on-alone :
      (o : Option Endpoint) (i n : ℕ) (e : QuicEvent) (c : QuicConnection) (es : List QuicEvent)
      → get_elem? (quic_connections o) n ≡ some c
      → (c' : QuicConnection) × (get_elem?
            (quic_connections (endpoint_on encrypted serve answer i e o))
            n
          ≡ some c')
        × (quic_alone answer c' es ≡ quic_alone answer c (keep_own (i == n) e es))
  endpoint_on-alone none i n e c es there = absurd (cc)
  endpoint_on-alone (some q) i n e c es there = elim (Bool-cases (i == n)) [
    | inl same ↦ (
      quic_step answer e c,
      rw ((==_iff i n).0 same) (get_elem?-modify_self n (quic_step answer e) q.connections c there),
      rw same refl,
    )
    | inr other ↦
        (c, get_elem?-modify_ne n i (quic_step answer e) q.connections other ∙ there, rw other refl)
  ]

  endpoint_accept-keeps :
      (o : Option Endpoint) (n : ℕ) (c : QuicConnection)
      → get_elem? (quic_connections o) n ≡ some c
      → get_elem? (quic_connections (endpoint_accept encrypted serve answer o)) n ≡ some c
  endpoint_accept-keeps none n c there = absurd (cc)
  endpoint_accept-keeps (some q) n c there = go q.listening
    where
      go :
          (b : Bool)
          → get_elem?
              (if b
                then record q {
                  connections = q.connections ++ fresh_quic encrypted serve answer ∷ [];
                }
                else q).connections
              n
            ≡ some c
      go true =
          get_elem?-append_left n q.connections (fresh_quic encrypted serve answer ∷ []) c there
      go false = there

  endpoint_closed-keeps :
      (o : Option Endpoint) (n : ℕ) (c : QuicConnection)
      → get_elem? (quic_connections o) n ≡ some c
      → get_elem? (quic_connections (endpoint_closed encrypted serve answer o)) n ≡ some c
  endpoint_closed-keeps none n c there = absurd (cc)
  endpoint_closed-keeps (some q) n c there = there

  run-quic_alone :
      (es : List NetEvent) (s : Net h) (n : ℕ) (c : QuicConnection)
      → get_elem? (quic_connections s.endpoint) n ≡ some c
      → get_elem? (quic_connections (run encrypted serve answer es s).endpoint) n
        ≡ some (quic_alone answer c (own_quic n es))
  unfolding run own_quic
  run-quic_alone [] s n c there = there
  run-quic_alone (on_quic i e ∷ es) s n c there =
      let (c', at, same) = endpoint_on-alone s.endpoint i n e c (own_quic n es) there in
      run-quic_alone es (net_step encrypted serve answer (on_quic i e) s) n c' at ∙ ap some same
  run-quic_alone (accept ∷ es) s n c there =
      run-quic_alone es (net_step encrypted serve answer accept s) n c there
  run-quic_alone (accept_error ∷ es) s n c there =
      run-quic_alone es (net_step encrypted serve answer accept_error s) n c there
  run-quic_alone (quic_accept ∷ es) s n c there =
      run-quic_alone es (net_step encrypted serve answer quic_accept s) n c
        (endpoint_accept-keeps s.endpoint n c there)
  run-quic_alone (quic_closed ∷ es) s n c there =
      run-quic_alone es (net_step encrypted serve answer quic_closed s) n c
        (endpoint_closed-keeps s.endpoint n c there)
  run-quic_alone (on i e ∷ es) s n c there =
      run-quic_alone es (net_step encrypted serve answer (on i e) s) n c there

  own_accepted :
      (n : ℕ) (es : List NetEvent) → own_quic n (on_quic n accepted ∷ es) ≡ accepted ∷ own_quic n es
  unfolding own_quic
  own_accepted n es = rw ((==_iff n n).1 refl) refl

  -- An HTTP/3 request that is accepted on a connection comes to what its own events make of it.
  pub run-quic_request :
      (s : Net h) (n : ℕ) (c : QuicConnection) (es : List NetEvent)
      → get_elem? (quic_connections s.endpoint) n ≡ some c
      → c.phase ≡ accepting
      → (d : QuicConnection) × (get_elem?
            (quic_connections (run encrypted serve answer (on_quic n accepted ∷ es) s).endpoint)
            n
          ≡ some d)
        × (get_elem? d.tasks (length c.tasks)
            ≡ some (request_alone answer resolving (own_request (length c.tasks) (own_quic n es))))
  run-quic_request s n c es there phase = (
    quic_alone answer (quic_step answer accepted c) (own_quic n es),
    run-quic_alone (on_quic n accepted ∷ es) s n c there
        ∙ ap (λ r. some (quic_alone answer c r)) (own_accepted n es),
    quic_alone-task answer (own_quic n es) (quic_step answer accepted c) (length c.tasks) resolving
        (accepted_task answer c phase),
  )
