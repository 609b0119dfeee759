-- ===== src/Transfer/Retries.antt =====
-- A task that fails every time is tried as often as RetryCount says, and then skipped.
use backuper.Prelude.{
  ℕ, zero, suc, ◌+◌, ◌≡◌, ◌≤◌, ◌<◌, refl, sym, ap, ◌∙◌, subst, Bool, true, false, not, List, [],
  Option, none, some, Bytes, arith, leb, length, length-append,
}
use backuper.Prelude.Int.{ℤ}
use backuper.Store.{Task, pending, skipped}
use backuper.Store.Tasks.{find_task, inc_task_attempt, set_task_status, mark_task_in_progress}
use backuper.Store.Tasks.Lookup.{find_task-update_task}
use backuper.Transfer.{
  Manager, Turn, dial_attempts, connected, after_dial, dial, skip, count_attempt, after_count,
  fail_attempt, after_download, download, turn_of, process_turns, process_task, return, again,
}

-- Every attempt fails: the connection is there or can be made, downloadOne fails but not for good and
-- leaves the row's attempts alone, and nothing is cancelled.
pub record Fails (id : ℕ) (turn : Turn) : Type 0 where
  pub connects : turn.new_conn 1 ≡ none
  pub starts : turn.cancelled_before 1 ≡ false
  pub fails : turn.outcome.is_ok ≡ false
  pub goes_on : turn.outcome.skip_now ≡ false
  pub no_cancel : turn.cancelled_in_pause ≡ false
  pub no_cancel_then : turn.cancelled_then ≡ false
  pub writes_keep :
      (ts : List Task) (row : Task)
      → find_task id ts ≡ some row
      → (row' : Task) × ((find_task id (turn.writes ts) ≡ some row')
          × (row'.attempts ≡ row.attempts))

-- The row of a task, in a manager's table.
pub record Row (id : ℕ) (attempts : ℕ) (ts : List Task) : Type 0 where
  pub row : Task
  pub is_row : find_task id ts ≡ some row
  pub has_attempts : row.attempts ≡ attempts

dial_attempts-Fails :
    (id n : ℕ) (turn : Turn) → Fails id turn → dial_attempts turn (suc n) 1 [] ≡ connected
unfolding dial_attempts
dial_attempts-Fails id n turn h = rw (h.starts, h.connects, dial_attempts) refl

abbrev attempts_of : Option Task → Option ℕ
attempts_of o = elim o [ none ↦ none | some u ↦ some u.attempts ]

module _ (retry_count : ℕ) (cycle : ℤ) where
  dial-Fails :
      (id n : ℕ) (turn : Turn) (m : Manager)
      → retry_count ≡ suc n
      → Fails id turn
      → dial retry_count cycle turn m ≡ (m, true)
  unfolding dial after_dial
  dial-Fails id n turn m some_try h =
      ap (λ k. after_dial retry_count cycle turn (dial_attempts turn k 1 []) m) some_try
      ∙ ap (λ d. after_dial retry_count cycle turn d m) (dial_attempts-Fails id n turn h)

  -- A turn that fails reaches downloadOne and counts the attempt.
  turn_of-Fails :
      (n : ℕ) (turn : Turn) (conn : Bool) (t : Task) (m : Manager)
      → retry_count ≡ suc n
      → Fails t.id turn
      → turn_of retry_count cycle turn conn t m
        ≡ fail_attempt retry_count cycle turn
            (not turn.outcome.drop_conn)
            t
            turn.outcome.code
            turn.outcome.message
            (record m { tasks = turn.writes m.tasks })
  unfolding turn_of download after_download
  turn_of-Fails n turn conn t m some_try h = connected_first conn ∙ rw (h.fails, h.goes_on) refl
    where
      connected_first :
          (c : Bool)
          → turn_of retry_count cycle turn c t m ≡ download retry_count cycle turn t (m, true)
      connected_first true = unfold turn_of in refl
      connected_first false =
          unfold turn_of in
          ap (download retry_count cycle turn t) (dial-Fails t.id n turn m some_try h)

  -- The attempt that is counted, in the table.
  count_attempt-Row :
      (now : ℤ) (t : Task) (code a : ℕ) (msg : Bytes) (m : Manager)
      → Row t.id a m.tasks
      → ((count_attempt retry_count cycle now t code msg m).0.attempts ≡ a + 1)
        × Row t.id (a + 1) (count_attempt retry_count cycle now t code msg m).1.tasks
  unfolding count_attempt inc_task_attempt
  count_attempt-Row now t code a msg m h =
      let e = find_task-update_task t.id _ h.row m.tasks (λ u. refl) h.is_row in
      (
        ap (λ o. elim (attempts_of o) [ none ↦ 0 | some n ↦ n ]) e ∙ ap (λ n. n + 1) h.has_attempts,
        record { row = _; is_row = e; has_attempts = ap (λ n. n + 1) h.has_attempts },
      )

  -- What is left when the task is skipped, after `tries` more attempts.
  pub record SkippedAfter (id tries : ℕ) (m m' : Manager) : Type 0 where
    pub last_row : Task
    pub is_last_row : find_task id m'.tasks ≡ some last_row
    pub is_skipped : last_row.status ≡ skipped
    pub all_tried : last_row.attempts ≡ retry_count
    pub one_skip : m'.res.skipped_files ≡ m.res.skipped_files + 1
    pub all_errors : length m'.res.errors ≡ length m.res.errors + tries

  -- the manager after a counted attempt that is not the last
  resume : Turn → Task × Manager → Manager
  resume turn (t, m) = record m {
    tasks = mark_task_in_progress t.id turn.now (set_task_status t.id pending turn.now m.tasks);
  }

  after_count-more :
      (turn : Turn) (conn : Bool) (code : ℕ) (msg : Bytes) (tm : Task × Manager)
      → Fails tm.0.id turn
      → tm.0.attempts < retry_count
      → after_count retry_count cycle turn conn code msg tm ≡ again conn tm.0 (resume turn tm)
  unfolding after_count resume
  after_count-more turn conn code msg (t, m) h below =
      let more : leb retry_count t.attempts ≡ false = ground arith in
      rw (more, h.no_cancel, h.no_cancel_then) refl

  resume-Row :
      (turn : Turn) (a : ℕ) (t : Task) (m : Manager)
      → Row t.id a m.tasks
      → Row t.id a (resume turn (t, m)).tasks
  unfolding resume mark_task_in_progress set_task_status
  resume-Row turn a t m h = record {
    row = _;
    is_row =
        find_task-update_task t.id _ _ (set_task_status t.id pending turn.now m.tasks) (λ u. refl)
          (find_task-update_task t.id _ h.row m.tasks (λ u. refl) h.is_row);
    has_attempts = h.has_attempts;
  }

  after_count-last :
      (turn : Turn) (conn : Bool) (code : ℕ) (msg : Bytes) (tm : Task × Manager)
      → retry_count ≤ tm.0.attempts
      → after_count retry_count cycle turn conn code msg tm
        ≡ return conn (skip retry_count cycle turn.now tm.0 code msg tm.0.attempts tm.1)
  unfolding after_count
  after_count-last turn conn code msg (t, m) enough =
      let last : leb retry_count t.attempts ≡ true = ground arith in rw last refl

  skip-SkippedAfter :
      (now : ℤ) (t : Task) (code attempts : ℕ) (msg : Bytes) (m : Manager)
      → Row t.id retry_count m.tasks
      → SkippedAfter t.id 0 m (skip retry_count cycle now t code msg attempts m)
  unfolding skip set_task_status
  skip-SkippedAfter now t code attempts msg m h = record {
    last_row = _;
    is_last_row = find_task-update_task t.id _ h.row m.tasks (λ u. refl) h.is_row;
    is_skipped = refl;
    all_tried = h.has_attempts;
    one_skip = refl;
    all_errors = omega arith;
  }

  -- the task and the manager once a turn's attempt is counted
  counted : Turn → Task → Manager → Task × Manager
  counted turn t m =
      count_attempt retry_count cycle turn.now t turn.outcome.code turn.outcome.message
        (record m { tasks = turn.writes m.tasks })

  counted-Row :
      (turn : Turn) (a : ℕ) (t : Task) (m : Manager)
      → Fails t.id turn
      → Row t.id a m.tasks
      → ((counted turn t m).0.attempts ≡ a + 1) × Row t.id (a + 1) (counted turn t m).1.tasks
  unfolding counted
  counted-Row turn a t m h r =
      let (row', (is_row, same)) = h.writes_keep m.tasks r.row r.is_row in
      count_attempt-Row turn.now t turn.outcome.code a turn.outcome.message
        (record m { tasks = turn.writes m.tasks })
        (record { row = row'; is_row = is_row; has_attempts = same ∙ r.has_attempts })

  counted-res :
      (turn : Turn) (t : Task) (m : Manager)
      → ((counted turn t m).0.id ≡ t.id)
        × (((counted turn t m).1.res.skipped_files ≡ m.res.skipped_files)
            × (length (counted turn t m).1.res.errors ≡ length m.res.errors + 1))
  unfolding counted count_attempt
  counted-res turn t m = (refl, (refl, length-append m.res.errors _))

  turn_of-counted :
      (n : ℕ) (turn : Turn) (conn : Bool) (t : Task) (m : Manager)
      → retry_count ≡ suc n
      → Fails t.id turn
      → turn_of retry_count cycle turn conn t m
        ≡ after_count retry_count cycle turn
            (not turn.outcome.drop_conn)
            turn.outcome.code
            turn.outcome.message
            (counted turn t m)
  unfolding fail_attempt counted
  turn_of-counted n turn conn t m some_try h = turn_of-Fails n turn conn t m some_try h

  pub process_turns-SkippedAfter :
      (n left fuel k a id : ℕ) (turns : ℕ → Turn) (conn : Bool) (t : Task) (m : Manager)
      → retry_count ≡ suc n
      → ((j : ℕ) → Fails id (turns j))
      → t.id ≡ id
      → Row id a m.tasks
      → a + suc left ≡ retry_count
      → left < fuel
      → (m' : Manager) × ((conn' : Bool) × ((process_turns retry_count cycle fuel turns k conn t m
              ≡ some (m', conn'))
            × SkippedAfter id (suc left) m m'))
  unfolding process_turns resume
  process_turns-SkippedAfter n left zero k a id turns conn t m some_try h e r budget enough =
      absurd (omega arith)
  process_turns-SkippedAfter n zero (suc fuel) k a id turns conn t m some_try h e r budget enough =
      let fails : Fails t.id (turns k) = subst (λ i. Fails i (turns k)) (sym e) (h k) in
      let here : Row t.id a m.tasks = subst (λ i. Row i a m.tasks) (sym e) r in
      let tm = counted (turns k) t m in
      let (tried, row) = counted-Row (turns k) a t m fails here in
      let (same_id, (same_skips, one_error)) = counted-res (turns k) t m in
      let total : a + 1 ≡ retry_count = omega (arith, budget) in
      let row' : Row tm.0.id retry_count tm.1.tasks =
        subst (λ i. Row i retry_count tm.1.tasks) (sym same_id)
          (subst (λ b. Row t.id b tm.1.tasks) total row) in
      let oc = (turns k).outcome in
      let w = skip-SkippedAfter (turns k).now tm.0 oc.code tm.0.attempts oc.message tm.1 row' in
      let skipped_m =
        skip retry_count cycle (turns k).now tm.0 oc.code oc.message tm.0.attempts tm.1 in
      (
        skipped_m,
        (
          not oc.drop_conn,
          (
            ap
                (λ s. elim s [
                  | return conn' m' ↦ some (m', conn')
                  | again conn' t' m' ↦
                      process_turns retry_count cycle fuel turns (suc k) conn' t' m'
                ])
                (turn_of-counted n (turns k) conn t m some_try fails
                  ∙ after_count-last (turns k) (not oc.drop_conn) oc.code oc.message tm
                      (omega (arith, tried, total))),
            record {
              last_row = w.last_row;
              is_last_row =
                  subst (λ i. find_task i skipped_m.tasks ≡ some w.last_row) (same_id ∙ e)
                    w.is_last_row;
              is_skipped = w.is_skipped;
              all_tried = w.all_tried;
              one_skip = w.one_skip ∙ ap (λ x. x + 1) same_skips;
              all_errors = omega (arith, w.all_errors, one_error);
            },
          ),
        ),
      )
  process_turns-SkippedAfter n (suc left) (suc fuel) k a id turns conn t m some_try h e r budget
        enough =
      let fails : Fails t.id (turns k) = subst (λ i. Fails i (turns k)) (sym e) (h k) in
      let here : Row t.id a m.tasks = subst (λ i. Row i a m.tasks) (sym e) r in
      let tm = counted (turns k) t m in
      let (tried, row) = counted-Row (turns k) a t m fails here in
      let (same_id, (same_skips, one_error)) = counted-res (turns k) t m in
      let oc = (turns k).outcome in
      let row' : Row id (a + 1) (resume (turns k) tm).tasks =
        subst (λ i. Row i (a + 1) (resume (turns k) tm).tasks) (same_id ∙ e)
          (resume-Row (turns k) (a + 1) tm.0 tm.1
            (subst (λ i. Row i (a + 1) tm.1.tasks) (sym same_id) row)) in
      let (m', (conn', (run, w))) =
        process_turns-SkippedAfter n left fuel (suc k) (a + 1) id turns (not oc.drop_conn) tm.0
          (resume (turns k) tm) some_try h (same_id ∙ e) row' (omega (arith, budget))
          (omega (arith, enough)) in
      (
        m',
        (
          conn',
          (
            ap
                  (λ s. elim s [
                    | return c x ↦ some (x, c)
                    | again c t' x ↦ process_turns retry_count cycle fuel turns (suc k) c t' x
                  ])
                  (turn_of-counted n (turns k) conn t m some_try fails
                    ∙ after_count-more (turns k) (not oc.drop_conn) oc.code oc.message tm
                        (subst (λ i. Fails i (turns k)) (sym same_id) fails)
                        (omega (arith, tried, budget)))
                ∙ run,
            record {
              last_row = w.last_row;
              is_last_row = w.is_last_row;
              is_skipped = w.is_skipped;
              all_tried = w.all_tried;
              one_skip = w.one_skip ∙ ap (λ x. x + 1) same_skips;
              all_errors = omega (arith, w.all_errors, one_error);
            },
          ),
        ),
      )

  -- A task whose every attempt fails ends: with fuel for the attempts that RETRY_COUNT leaves it,
  -- processTask returns, the task's row is skipped with exactly RETRY_COUNT attempts, it is counted as
  -- skipped once, and one error is recorded for each attempt that was left. RETRY_COUNT is not 0; the
  -- task is in the queue with fewer attempts; in every turn a connection can be made, downloadOne fails
  -- but not with NOT_FOUND and keeps the row's attempts, and nothing is cancelled.
  pub process_task-SkippedAfter :
      (n left fuel : ℕ) (turns : ℕ → Turn) (now : ℤ) (conn : Bool) (t row : Task) (m : Manager)
      → retry_count ≡ suc n
      → ((j : ℕ) → Fails t.id (turns j))
      → find_task t.id m.tasks ≡ some row
      → row.attempts + suc left ≡ retry_count
      → left < fuel
      → (m' : Manager) × ((conn' : Bool) × ((process_task retry_count cycle fuel turns now conn t m
              ≡ some (m', conn'))
            × SkippedAfter t.id (suc left) m m'))
  unfolding process_task mark_task_in_progress
  process_task-SkippedAfter n left fuel turns now conn t row m some_try h is_row budget enough =
      let start = record m { tasks = mark_task_in_progress t.id now m.tasks } in
      let (m', (conn', (run, w))) =
        process_turns-SkippedAfter n left fuel 0 row.attempts t.id turns conn t start some_try h
          refl
          (record {
            row = _;
            is_row = find_task-update_task t.id _ row m.tasks (λ u. refl) is_row;
            has_attempts = refl;
          })
          budget enough in
      (
        m',
        (
          conn',
          (
            run,
            record {
              last_row = w.last_row;
              is_last_row = w.is_last_row;
              is_skipped = w.is_skipped;
              all_tried = w.all_tried;
              one_skip = w.one_skip;
              all_errors = w.all_errors;
            },
          ),
        ),
      )
