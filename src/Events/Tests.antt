-- ===== src/Events/Tests.antt =====
-- Keys of events.
use capten_autoscaler.Base.{text, text_eq, join, ◌≡◌, ◌↔◌, refl}
use capten_autoscaler.Events.{ObjectReference, Event, spam_key}
use capten_autoscaler.Events.Keys.{IsSameKind, spam_key-IsSameKind}

abbrev pod : ObjectReference
pod = record {
  kind = text "Pod";
  namespace = text "shop";
  name = text "web-0";
  uid = text "1";
  api_version = text "v1";
}

abbrev no_room : Event
no_room = record {
  involved_object = pod;
  type = text "Warning";
  reason = text "NotTriggerScaleUp";
  message = text "no room";
  component = text "cluster-autoscaler";
  host = text "a";
}

abbrev still_no_room : Event
still_no_room = record no_room { message = text "still no room" }

spam_key-IsSameKind_example :
    (spam_key no_room ≡ spam_key still_no_room) ↔ IsSameKind no_room still_no_room
unfolding text_eq
spam_key-IsSameKind_example = spam_key-IsSameKind no_room still_no_room refl (λ plain. refl)

one_key : spam_key no_room ≡ spam_key still_no_room
unfolding spam_key text_eq
one_key = refl

-- The pod `web-0` of `shop`, and the pod `pweb-0` of `sho`.
abbrev other_pod : Event
other_pod = record no_room {
  involved_object = record pod { namespace = text "sho"; name = text "pweb-0" };
}

shared_key : spam_key no_room ≡ spam_key other_pod
unfolding spam_key text_eq
shared_key = refl

abbrev status_event : Event
status_event = record no_room {
  involved_object = record pod {
    kind = text "ConfigMap";
    namespace = text "kube-system";
    name = text "cluster-autoscaler-status";
  };
}

status_key : spam_key status_event ≡ text "no room"
unfolding spam_key text_eq join
status_key = refl
