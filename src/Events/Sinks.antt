-- ===== src/Events/Sinks.antt =====
-- The sink with a log around another one.
use capten_autoscaler.Base.{Option, List, [], ◌∷◌, ◌≡◌, refl, ap}
use capten_autoscaler.Cluster.Api.{Error}
use capten_autoscaler.Events.{
  Event, Verb, EventSink, event_of, LogEntry, log_event, wrap_event_sink_with_logging,
}

abbrev pub Answer : Type 0
Answer = Option Event × Option Error

-- A sink's answers to requests, one after the other, and its state after them.
abbrev pub serve_all : {S : Type 0} → EventSink S → List Verb → S → List Answer × S
serve_all sink [] s = ([], s)
serve_all sink (v ∷ vs) s =
    let rest = serve_all sink vs (sink.serve v s).1 in ((sink.serve v s).0 ∷ rest.0, rest.1)

abbrev pub log_all : List Verb → List LogEntry → List LogEntry
log_all [] log = log
log_all (v ∷ vs) log = log_all vs (log_event (event_of v) log)

-- The sink with the log answers each sequence of requests as the one inside would without it, leaves it
-- in the same state, and logs each request once, in their order.
pub serve_all-wrap_event_sink_with_logging :
    {S : Type 0} (sink : EventSink S) (verbs : List Verb) (s : S) (log : List LogEntry)
    → serve_all (wrap_event_sink_with_logging sink) verbs (s, log)
      ≡ ((serve_all sink verbs s).0, ((serve_all sink verbs s).1, log_all verbs log))
unfolding wrap_event_sink_with_logging
serve_all-wrap_event_sink_with_logging sink [] s log = refl
serve_all-wrap_event_sink_with_logging sink (v ∷ vs) s log =
    ap (λ r. ((sink.serve v s).0 ∷ r.0, r.1))
      (serve_all-wrap_event_sink_with_logging sink vs (sink.serve v s).1
        (log_event (event_of v) log))
