-- ===== src/Store/Events/Laws.antt =====
-- What the report of a cycle leaves unsent.
use backuper.Prelude.{
  ℕ, ◌≡◌, refl, ap, ◌∙◌, List, [], ◌∷◌, map, Bool, true, not, ◌&&◌, arith, All, Bool-cases, inl,
  inr, if◌then◌else◌, where_rows, exists_row, ◌==◌,
}
use backuper.Prelude.Int.{ℤ}
use backuper.Store.Events.{EventRow, Event, of_cycle, list_events_for_cycle, mark_events_sent}

-- the ids that sendReport collects
abbrev pub event_ids : List Event → List ℕ
event_ids es = map (λ e. e.id) es

abbrev listed : ℕ → List ℕ → Bool
listed id ids = exists_row (λ k. k == id) ids

mark_one : List ℕ → EventRow → EventRow
mark_one ids r = if listed r.id ids then record r { sent = true } else r

mark_events_sent-map :
    (ids : List ℕ) (rows : List EventRow) → mark_events_sent ids rows ≡ map (mark_one ids) rows
unfolding mark_events_sent mark_one
mark_events_sent-map [] [] = refl
mark_events_sent-map [] (r ∷ rows) = ap (λ l. r ∷ l) (mark_events_sent-map [] rows)
mark_events_sent-map (i ∷ ids) rows = refl

ids_of : ℤ → List EventRow → List ℕ
unfolding list_events_for_cycle
ids_of cycle rows = event_ids (list_events_for_cycle cycle rows)

listed_grows :
    (cycle : ℤ) (r : EventRow) (rows : List EventRow) (id : ℕ)
    → listed id (ids_of cycle rows) ≡ true
    → listed id (ids_of cycle (r ∷ rows)) ≡ true
unfolding ids_of
listed_grows cycle r rows id h = elim (Bool-cases (of_cycle cycle r)) [
  | inl e ↦ rw e (ground arith)
  | inr e ↦ rw e h
]

listed_self :
    (cycle : ℤ) (r : EventRow) (rows : List EventRow)
    → of_cycle cycle r ≡ true
    → listed r.id (ids_of cycle (r ∷ rows)) ≡ true
unfolding ids_of
listed_self cycle r rows e = rw e (ground arith)

listed-ids_of :
    (cycle : ℤ) (rows : List EventRow)
    → All (λ r. of_cycle cycle r ≡ true → listed r.id (ids_of cycle rows) ≡ true) rows
listed-ids_of cycle [] = tt
listed-ids_of cycle (r ∷ rows) = (listed_self cycle r rows, weaken rows (listed-ids_of cycle rows))
  where
    weaken :
        (qs : List EventRow)
        → All (λ q. of_cycle cycle q ≡ true → listed q.id (ids_of cycle rows) ≡ true) qs
        → All (λ q. of_cycle cycle q ≡ true → listed q.id (ids_of cycle (r ∷ rows)) ≡ true) qs
    weaken [] h = tt
    weaken (q ∷ qs) h = (λ e. listed_grows cycle r rows q.id (h.0 e), weaken qs h.1)

none_unsent :
    (cycle : ℤ) (ids : List ℕ) (rows : List EventRow)
    → All (λ r. of_cycle cycle r ≡ true → listed r.id ids ≡ true) rows
    → where_rows (λ r. of_cycle cycle r && not r.sent) (map (mark_one ids) rows) ≡ []
unfolding mark_one
none_unsent cycle ids [] h = refl
none_unsent cycle ids (r ∷ rows) h = ground (arith, h.0, none_unsent cycle ids rows h.1)

-- When a cycle's report has been sent, no event of the cycle is left unsent: the events that are
-- listed for the cycle are all those that MarkEventsSent has to mark.
pub mark_events_sent-list_events_for_cycle :
    (cycle : ℤ) (rows : List EventRow)
    → where_rows
        (λ r. of_cycle cycle r && not r.sent)
        (mark_events_sent (event_ids (list_events_for_cycle cycle rows)) rows)
      ≡ []
mark_events_sent-list_events_for_cycle cycle rows =
    ap (where_rows (λ r. of_cycle cycle r && not r.sent))
      (mark_events_sent-map (event_ids (list_events_for_cycle cycle rows)) rows)
    ∙ unfold ids_of in none_unsent cycle (ids_of cycle rows) rows (listed-ids_of cycle rows)
