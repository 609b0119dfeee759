-- ===== src/Store/Events.antt =====
-- internal/store/events.go: events for the mails.
pub mod Laws
use backuper.Prelude.{
  ℕ, zero, suc, List, [], ◌∷◌, ◌++◌, map, Bool, true, false, not, Option, none, some, Bytes,
  if◌then◌else◌, ltb, ◌==◌, where_rows, exists_row, length,
}
use backuper.Prelude.Int.{ℤ, pos, int_eq, ltb_ℤ}

pub record EventRow : Type 0 where
  pub id : ℕ
  pub cycle_id : Option ℤ
  pub severity : Bytes
  pub typ : Bytes
  pub relpath : Bytes
  pub message : Bytes
  pub created_at : ℤ
  pub sent : Bool

abbrev pub max_event_id : List EventRow → ℕ
max_event_id [] = 0
max_event_id (e ∷ es) = let m = max_event_id es in if ltb m e.id then e.id else m

-- cycle_id is NULL unless it is positive
unfoldable pub insert_event :
    ℤ → Bytes → Bytes → Bytes → Bytes → ℤ → List EventRow → List EventRow × ℕ
insert_event cycle severity typ relpath message now rows =
    let id = suc (max_event_id rows) in
    (
      rows
          ++ record {
            id = id;
            cycle_id = if ltb_ℤ (pos 0) cycle then some cycle else none;
            severity = severity;
            typ = typ;
            relpath = relpath;
            message = message;
            created_at = now;
            sent = false;
          }
            ∷ [],
      id,
    )

-- what scanEvents returns: NULL reads as 0
pub record Event : Type 0 where
  pub id : ℕ
  pub cycle_id : ℤ
  pub severity : Bytes
  pub typ : Bytes
  pub relpath : Bytes
  pub message : Bytes
  pub created_at : ℤ

abbrev pub scan_event : EventRow → Event
scan_event r = record {
  id = r.id;
  cycle_id = elim r.cycle_id [ none ↦ pos 0 | some c ↦ c ];
  severity = r.severity;
  typ = r.typ;
  relpath = r.relpath;
  message = r.message;
  created_at = r.created_at;
}

unfoldable pub list_unsent_events : List EventRow → List Event
list_unsent_events rows = map scan_event (where_rows (λ r. not r.sent) rows)

abbrev pub of_cycle : ℤ → EventRow → Bool
of_cycle cycle r = elim r.cycle_id [ none ↦ false | some c ↦ int_eq c cycle ]

unfoldable pub list_events_for_cycle : ℤ → List EventRow → List Event
list_events_for_cycle cycle rows = map scan_event (where_rows (of_cycle cycle) rows)

unfoldable pub count_unsent_events : List EventRow → ℕ
count_unsent_events rows = length (where_rows (λ r. not r.sent) rows)

-- UPDATE events SET sent=1 WHERE id IN (...); no statement for an empty list
unfoldable pub mark_events_sent : List ℕ → List EventRow → List EventRow
mark_events_sent [] rows = rows
mark_events_sent (i ∷ ids) rows =
    map (λ r. if exists_row (λ k. k == r.id) (i ∷ ids) then record r { sent = true } else r) rows
