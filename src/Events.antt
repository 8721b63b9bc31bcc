-- ===== src/Events.antt =====
-- pkg/util/kubernetes/k8sapi/factory.go and event_sink_logging_wrapper.go: the recorder of events and the
-- key by which the recorder limits their rate. Broadcasters and sinks are the library's.
pub mod Keys
pub mod Sinks
mod Tests
use capten_autoscaler.Base.{
  ℕ, Text, text, text_Eq, join, Bool, true, false, ◌&&◌, Option, none, some, List, [], ◌∷◌, ◌==◌,
  if◌then◌else◌,
}
use capten_autoscaler.Cluster.Api.{Error}

-- `clientv1.ObjectReference`
pub record ObjectReference : Type 0 where
  pub kind : Text
  pub namespace : Text
  pub name : Text
  pub uid : Text
  pub api_version : Text

-- `clientv1.Event`, with its source's fields.
pub record Event : Type 0 where
  pub involved_object : ObjectReference
  pub type : Text
  pub reason : Text
  pub message : Text
  pub component : Text
  pub host : Text

-- The texts that tell kinds of events apart.
abbrev pub elements : Event → List Text
elements event =
    event.reason ∷ event.component ∷ event.host ∷ event.involved_object.kind
    ∷ event.involved_object.namespace ∷ event.involved_object.name ∷ event.involved_object.uid
    ∷ event.involved_object.api_version ∷ []

-- Whether the event is about the ConfigMap with the autoscaler's status.
abbrev pub is_status : ObjectReference → Bool
is_status o =
    o.name == text "cluster-autoscaler-status"
    && (o.namespace == text "kube-system" && o.kind == text "ConfigMap")

-- The function of `getCustomSpamKeyFunc`
unfoldable pub spam_key : Event → Text
unfolding join
spam_key event =
    join (if is_status event.involved_object then event.message ∷ [] else elements event) []

-- `kube_record.CorrelatorOptions`; `qps` is `1. / 300.`, a quotient of the library's floats.
pub record CorrelatorOptions (F : Type 0) : Type 0 where
  pub qps : F
  pub burst_size : ℕ
  pub lru_cache_size : ℕ
  pub spam_key_func : Event → Text

unfoldable pub get_correlation_options : {F : Type 0} → (ℕ → ℕ → F) → CorrelatorOptions F
unfolding spam_key
get_correlation_options quotient = record {
  qps = quotient 1 300;
  burst_size = 1;
  lru_cache_size = 8192;
  spam_key_func = spam_key;
}

-- What a sink is asked to do with an event.
pub data Verb : Type 0 where
  create update : Event → Verb
  patch : (old : Event) (data_bytes : Text) → Verb

-- `record.EventSink`, over its own state.
pub record EventSink (S : Type 0) : Type 0 where
  pub serve : Verb → S → (Option Event × Option Error) × S

abbrev pub event_of : Verb → Event
event_of (create e) = e
event_of (update e) = e
event_of (patch e b) = e

-- What `logEvent` writes of an event.
pub record LogEntry : Type 0 where
  pub object : ObjectReference
  pub type : Text
  pub reason : Text
  pub message : Text

abbrev pub log_event : Event → List LogEntry → List LogEntry
log_event e log =
    record { object = e.involved_object; type = e.type; reason = e.reason; message = e.message }
    ∷ log

-- `eventSinkLoggingWrapper`: the state of the sink inside, and the log, newest first.
abbrev pub Logged : Type 0 → Type 0
Logged S = S × List LogEntry

-- `WrapEventSinkWithLogging`, with the three methods of its result.
unfoldable pub wrap_event_sink_with_logging : {S : Type 0} → EventSink S → EventSink (Logged S)
wrap_event_sink_with_logging sink = record {
  serve = λ v s. let r = sink.serve v s.0 in (r.0, (r.1, log_event (event_of v) s.1));
}

-- The library's broadcasters and recorders. `actual_sink` is the API's, where the client is no fake.
pub record RecordLibrary (F : Type 0) : Type 1 where
  pub Broadcaster : Type 0
  pub Recorder : Type 0
  pub SinkState : Type 0
  pub quotient : ℕ → ℕ → F
  pub new_broadcaster : Broadcaster
  pub new_broadcaster_with : CorrelatorOptions F → Broadcaster
  pub actual_sink : Option (EventSink SinkState)
  pub start_recording_to_sink : Broadcaster → EventSink (Logged SinkState) → Broadcaster
  pub new_recorder : Broadcaster → (component : Text) → Recorder

module _ {F : Type 0} (lib : RecordLibrary F) where
  abbrev pub broadcaster_for : Bool → lib.Broadcaster
  broadcaster_for true = lib.new_broadcaster
  broadcaster_for false = lib.new_broadcaster_with (get_correlation_options lib.quotient)

  abbrev pub recording_to : lib.Broadcaster → Option (EventSink lib.SinkState) → lib.Broadcaster
  recording_to b none = b
  recording_to b (some sink) = lib.start_recording_to_sink b (wrap_event_sink_with_logging sink)

  -- `CreateEventRecorder`
  unfoldable pub create_event_recorder : (record_duplicated_events : Bool) → lib.Recorder
  unfolding get_correlation_options wrap_event_sink_with_logging
  create_event_recorder record_duplicated_events =
      lib.new_recorder (recording_to (broadcaster_for record_duplicated_events) lib.actual_sink)
        (text "cluster-autoscaler")
