-- ===== src/Bench.antt =====
-- crates/ws-bench/src/main.rs: the tasks of the WebSocket benchmark and their totals.
use hyperfastapi.Prelude.{
  ℕ, zero, suc, ◌+◌, ◌*◌, ◌%◌, ◌^◌, ◌/◌, ◌≡◌, ap, ◌∙◌, Bool, true, false, ◌&&◌, Option, none, some,
  List, [], ◌∷◌, arith, if◌then◌else◌, ltb, ◌==◌, unwrap_or,
}
use hyperfastapi.Prelude.Text.{Str, bytes}

abbrev u64 : ℕ → ℕ
u64 n = n % 2 ^ 64

-- The command line, as clap reads it; `default` is what it gives where nothing is written.
pub record Cli : Type 0 where
  pub url : Str
  pub connections : ℕ
  pub messages : ℕ
  pub payload_size : ℕ
  pub workers : ℕ
  pub warmup : ℕ

abbrev pub default : Cli
default = record {
  url = bytes "ws://127.0.0.1:8765/echo";
  connections = 16;
  messages = 2000;
  payload_size = 64;
  workers = 0;
  warmup = 1;
}

-- The threads of the runtime; `none` where the number of processors is unknown.
unfoldable pub worker_threads : Option ℕ → Cli → ℕ
worker_threads parallelism cli = if cli.workers == 0 then unwrap_or parallelism 1 else cli.workers

-- The text of every message.
unfoldable pub payload : ℕ → Str
payload zero = []
payload (suc n) = b'x' ∷ payload n

-- What one connection meets: whether it connects, which warm-up turns succeed, and the latency of each
-- measured turn, `none` where the send or the answer fails.
pub record Peer : Type 0 where
  pub connects : Bool
  pub warm : ℕ → Bool
  pub turn : ℕ → Option ℕ

pub record Totals : Type 0 where
  pub total_msgs : ℕ
  pub total_lat_us : ℕ
  pub max_lat_us : ℕ

pub record Local : Type 0 where
  pub sum : ℕ
  pub max : ℕ

unfoldable pub warmed : ℕ → Peer → ℕ → Bool
warmed zero peer i = true
warmed (suc n) peer i = peer.warm i && warmed n peer (suc i)

abbrev noted : Local → ℕ → Local
noted l lat = record { sum = u64 (l.sum + lat); max = if ltb l.max lat then lat else l.max }

-- The measured loop.
unfoldable pub measured : ℕ → Peer → ℕ → Local → Local
measured zero peer i l = l
measured (suc n) peer i l = elim (peer.turn i) [
  | none ↦ l
  | some lat ↦ measured n peer (suc i) (noted l lat)
]

abbrev added : ℕ → Local → Totals → Totals
added n_msgs l t = record {
  total_msgs = u64 (t.total_msgs + n_msgs);
  total_lat_us = u64 (t.total_lat_us + l.sum);
  max_lat_us = if ltb t.max_lat_us l.max then l.max else t.max_lat_us;
}

-- One task.
unfoldable pub connection : ℕ → ℕ → Peer → Totals → Totals
unfolding warmed measured
connection n_msgs warmup peer t =
    if peer.connects && warmed warmup peer 0
    then added n_msgs (measured n_msgs peer 0 (record { sum = 0; max = 0 })) t
    else t

-- All tasks, in the order in which they end.
unfoldable pub run : ℕ → ℕ → List Peer → Totals → Totals
unfolding connection
run n_msgs warmup [] t = t
run n_msgs warmup (peer ∷ peers) t = run n_msgs warmup peers (connection n_msgs warmup peer t)

abbrev pub mean_lat_us : Totals → ℕ
mean_lat_us t = if ltb 0 t.total_msgs then t.total_lat_us / t.total_msgs else 0

-- Floating-point numbers, as the report uses them.
pub record Floats : Type 1 where
  pub F64 : Type 0
  pub of_nat : ℕ → F64
  pub div : F64 → F64 → F64
  pub positive : F64 → Bool
  pub zero_f64 : F64

pub record Report (fl : Floats) : Type 0 where
  pub total : ℕ
  pub rps : fl.F64
  pub per_conn : fl.F64
  pub mean_lat_ms : fl.F64
  pub max_lat_ms : fl.F64

-- What is printed; `elapsed_secs` is the clock's.
unfoldable pub report : (fl : Floats) → Cli → fl.F64 → Totals → Report fl
report fl cli elapsed_secs t =
    let rps =
      if fl.positive elapsed_secs
      then fl.div (fl.of_nat t.total_msgs) elapsed_secs
      else fl.zero_f64 in
    record {
      total = t.total_msgs;
      rps = rps;
      per_conn = fl.div rps (fl.of_nat cli.connections);
      mean_lat_ms = fl.div (fl.of_nat (mean_lat_us t)) (fl.of_nat 1000);
      max_lat_ms = fl.div (fl.of_nat t.max_lat_us) (fl.of_nat 1000);
    }

-- The connections that reach their measured loop.
unfoldable pub reached : ℕ → List Peer → ℕ
unfolding warmed
reached warmup [] = 0
reached warmup (peer ∷ peers) =
    (if peer.connects && warmed warmup peer 0 then 1 else 0) + reached warmup peers

wrapped_add : (a b : ℕ) → u64 (u64 a + b) ≡ u64 (a + b)
wrapped_add a b = omega arith

-- The total that is printed counts every message of every connection that reached its measured loop,
-- wherever the loop broke off.
pub run-reached :
    (n_msgs warmup : ℕ) (peers : List Peer) (t : Totals)
    → u64 (run n_msgs warmup peers t).total_msgs
      ≡ u64 (t.total_msgs + reached warmup peers * n_msgs)
unfolding run reached connection
run-reached n_msgs warmup [] t = ap u64 (omega arith)
run-reached n_msgs warmup (peer ∷ peers) t =
    go (peer.connects && warmed warmup peer 0) (λ u. run-reached n_msgs warmup peers u)
  where
    own : Local
    own = measured n_msgs peer 0 (record { sum = 0; max = 0 })

    go :
        (b : Bool)
        → ((u : Totals)
            → u64 (run n_msgs warmup peers u).total_msgs
              ≡ u64 (u.total_msgs + reached warmup peers * n_msgs))
        → u64 (run n_msgs warmup peers (if b then added n_msgs own t else t)).total_msgs
          ≡ u64 (t.total_msgs + ((if b then 1 else 0) + reached warmup peers) * n_msgs)
    go true later =
        later (added n_msgs own t)
        ∙ wrapped_add (t.total_msgs + n_msgs) (reached warmup peers * n_msgs)
        ∙ ap u64 (omega arith)
    go false later = later t ∙ ap u64 (omega arith)
