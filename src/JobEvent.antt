-- ===== src/JobEvent.antt =====
-- internals/app/job_event: the delivery history of a job. The table is the list of its rows, and a
-- window reaches back no further than Go's zero time.
use sade_safe_media_delivery.Base.{
  Bool, List, Result, Text, [], codes, count_where, err, false, if◌then◌else◌, leb, ltb, ok, select,
  sort_by, str_eq, take, true, ℕ, ◌&&◌, ◌++◌, ◌-◌, ◌∷◌,
}

pub data EventKind : Type 0 where
  sent resent viewed downloaded paid_event original_downloaded disabled_links enabled_links :
      EventKind

unfoldable pub event_eq : EventKind → EventKind → Bool
event_eq sent sent = true
event_eq resent resent = true
event_eq viewed viewed = true
event_eq downloaded downloaded = true
event_eq paid_event paid_event = true
event_eq original_downloaded original_downloaded = true
event_eq disabled_links disabled_links = true
event_eq enabled_links enabled_links = true
event_eq _ _ = false

pub record JobEvent : Type 0 where
  pub id : Text
  pub job_id : Text
  pub kind : EventKind
  pub detail : Text
  pub created_at : ℕ

-- The statements of the repository. The environment says which of them fail.
pub data EventStmt : Type 0 where
  insert_event list_events count_events : EventStmt

abbrev pub EventOutage : Type 0
EventOutage = EventStmt → Bool

-- A failed statement, wrapped.
pub data EventError : Type 0 where
  event_internal : EventError

-- Record
unfoldable pub record_event :
    EventOutage
    → Text
    → ℕ
    → List JobEvent
    → Text
    → EventKind
    → Text
    → Result EventError (Unit {0}) × List JobEvent
record_event fails id now events job_id kind detail =
    if fails insert_event then (err event_internal, events) else (
      ok tt,
      events
          ++ record { id = id; job_id = job_id; kind = kind; detail = detail; created_at = now }
            ∷ [],
    )

-- The WHERE clause of CountSince.
unfoldable pub in_window : Text → EventKind → ℕ → JobEvent → Bool
unfolding event_eq
in_window job_id kind since e =
    str_eq e.job_id job_id && event_eq e.kind kind && leb since e.created_at

-- CountSince
unfoldable pub count_since :
    EventOutage → List JobEvent → Text → EventKind → ℕ → Result EventError ℕ
count_since fails events job_id kind since =
    if fails count_events
    then err event_internal
    else ok (count_where (in_window job_id kind since) events)

-- RecordOnce
unfoldable pub record_once :
    EventOutage
    → Text
    → ℕ
    → List JobEvent
    → Text
    → EventKind
    → ℕ
    → Result EventError (Unit {0}) × List JobEvent
unfolding count_since record_event
record_once fails id now events job_id kind window =
    elim (count_since fails events job_id kind (now - window)) [
      | err e ↦ (err e, events)
      | ok n ↦
          if ltb 0 n
          then (ok tt, events)
          else record_event fails id now events job_id kind (codes "")
    ]

-- ListByJob: the newest 100.
unfoldable pub list_by_job : EventOutage → List JobEvent → Text → Result EventError (List JobEvent)
list_by_job fails events job_id =
    if fails list_events
    then err event_internal
    else ok (
        take 100 (
          sort_by (λ a b. ltb b.created_at a.created_at)
            (select (λ e. str_eq e.job_id job_id) events)))
