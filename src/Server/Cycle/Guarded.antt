-- ===== src/Server/Cycle/Guarded.antt =====
-- RunCycle moves files to the trash only with a list that was received in full in the same pass.
use Prim.Native.Nat.{zero, suc}
use backuper.Prelude.{
  ℕ, ◌+◌, ◌≡◌, refl, subst, Bool, true, false, ◌&&◌, Bytes, ◌==◌, if◌then◌else◌, Bool-cases, inl,
  inr,
}
use backuper.Prelude.Steps.{Done, stopped, went, Steps, Ends, Ends-then, pure, stop, change}
use backuper.Server.Cycle.{
  CycleOps, Run, check_cancelled, receive_list, compare, enqueue_diff, move_to_trash,
  transfer_queue, one_pass, run_passes, end_cycle, run_cycle,
}

-- What the operations keep of a property `Safe` of the state, when `Fresh` says that the client's
-- list is complete and `Queued` that the downloads of that list are in the queue as well. loadList is
-- asked for something only on a state that is not cancelled, and moving to the trash only on one
-- whose list was received and whose downloads were queued, each without an error.
pub record Guards {S : Type 0} (ops : CycleOps S) (Safe Fresh Queued : S → Type 0) : Type 0 where
  pub list_ok :
      (s s' : S) (n : ℕ)
      → Safe s
      → ops.is_cancelled s ≡ false
      → ops.load_list s ≡ (went n, s')
      → Safe s' × Fresh s'
  pub list_err :
      (s s' : S) (e : Bytes)
      → Safe s
      → ops.is_cancelled s ≡ false
      → ops.load_list s ≡ (stopped e, s')
      → Safe (ops.list_failed e s')
  pub collisions :
      (s : S) → Safe s × Fresh s → Safe (ops.handle_collisions s) × Fresh (ops.handle_collisions s)
  pub queue_ok :
      (s s' : S) (n : ℕ) → Safe s × Fresh s → ops.enqueue s ≡ (went n, s') → Safe s' × Queued s'
  pub queue_err :
      (s s' : S) (e : Bytes) → Safe s × Fresh s → ops.enqueue s ≡ (stopped e, s') → Safe s'
  pub moved : (s : S) → Safe s × Queued s → Safe (ops.move_deleted s).1
  pub transferred : (s : S) → Safe s → Safe (ops.run_queue s).2
  pub cleaned : (s : S) → Safe s → Safe (ops.cleanup s)
  pub cleared : (s : S) → Safe s → Safe (ops.clear_queue s)

module _ {S : Type 0} (ops : CycleOps S) (Safe Fresh Queued : S → Type 0)
    (g : Guards ops Safe Fresh Queued) where
  abbrev Both : S → Type 0
  Both s = Safe s × Fresh s

  abbrev Going : S → Type 0
  Going s = Safe s × (ops.is_cancelled s ≡ false)

  abbrev Ready : S → Type 0
  Ready s = Safe s × Queued s

  abbrev InWorld : (S → Type 0) → Run S → Type 0
  InWorld Q r = Q r.world

  check_cancelled-Ends :
      (r : Run S) → Safe r.world → Ends (InWorld Safe) (InWorld Going) (check_cancelled ops r)
  unfolding check_cancelled
  check_cancelled-Ends r h = elim (Bool-cases (ops.is_cancelled r.world)) [
    | inl e ↦ rw e h
    | inr e ↦ rw e (h, e)
  ]

  receive_list-Ends :
      (r : Run S) → Going r.world → Ends (InWorld Safe) (InWorld Both) (receive_list ops r)
  unfolding receive_list
  receive_list-Ends r h = from (ops.load_list r.world) refl
    where
      from :
          (q : Done Bytes ℕ × S)
          → ops.load_list r.world ≡ q
          → Ends (InWorld Safe) (InWorld Both) (receive_list ops r)
      from (went n, s) e = rw e (g.list_ok r.world s n h.0 h.1 e)
      from (stopped t, s) e = rw e (g.list_err r.world s t h.0 h.1 e)

  enqueue_diff-Ends :
      (r : Run S) → Both r.world → Ends (InWorld Safe) (InWorld Ready) (enqueue_diff ops r)
  unfolding enqueue_diff
  enqueue_diff-Ends r h = from (ops.enqueue r.world) refl
    where
      from :
          (q : Done Bytes ℕ × S)
          → ops.enqueue r.world ≡ q
          → Ends (InWorld Safe) (InWorld Ready) (enqueue_diff ops r)
      from (went n, s) e = rw e (g.queue_ok r.world s n h e)
      from (stopped t, s) e = rw e (g.queue_err r.world s t h e)

  transfer_queue-Ends :
      (r : Run S) → Safe r.world → Ends (InWorld Safe) (InWorld Safe) (transfer_queue ops r)
  unfolding transfer_queue
  transfer_queue-Ends r h = from (ops.run_queue r.world) refl
    where
      from :
          (q : ℕ × Bool × S)
          → ops.run_queue r.world ≡ q
          → Ends (InWorld Safe) (InWorld Safe) (transfer_queue ops r)
      from (n, true, s) e = rw e (subst (λ q. Safe q.2) e (g.transferred r.world h))
      from (n, false, s) e = rw e (subst (λ q. Safe q.2) e (g.transferred r.world h))

  abbrev last_step : ℕ → ℕ → Steps (Run S) Unit Unit
  last_step enq moved = if (enq == 0) && (moved == 0) then stop tt else pure tt

  last_step-Ends :
      (enq moved : ℕ) (r : Run S)
      → Safe r.world
      → Ends (InWorld Safe) (InWorld Safe) (last_step enq moved r)
  unfolding stop pure
  last_step-Ends enq moved r h = elim (Bool-cases ((enq == 0) && (moved == 0))) [
    | inl e ↦ rw e h
    | inr e ↦ rw e h
  ]

  one_pass-Ends :
      (pass : ℕ) (r : Run S)
      → Safe r.world
      → Ends (InWorld Safe) (InWorld Safe) (one_pass ops pass r)
  unfolding one_pass change compare move_to_trash
  one_pass-Ends pass r h =
      Ends-then (InWorld Safe) (InWorld Going) (InWorld Safe) (check_cancelled ops) _ r
        (check_cancelled-Ends r h)
        (λ a r1 h1.
          Ends-then (InWorld Safe) (InWorld Both) (InWorld Safe) (receive_list ops) _
            (record r1 { passes = pass }) (receive_list-Ends _ h1)
            (λ b r2 h2.
              Ends-then (InWorld Safe) (InWorld Both) (InWorld Safe) (compare ops pass) _ r2
                (g.collisions r2.world h2)
                (λ c r3 h3.
                  Ends-then (InWorld Safe) (InWorld Ready) (InWorld Safe) (enqueue_diff ops) _ r3
                    (enqueue_diff-Ends r3 h3)
                    (λ enq r4 h4.
                      Ends-then (InWorld Safe) (InWorld Safe) (InWorld Safe) (move_to_trash ops) _
                        r4 (g.moved r4.world h4)
                        (λ n r5 h5.
                          Ends-then (InWorld Safe) (InWorld Safe) (InWorld Safe)
                            (transfer_queue ops) _ r5 (transfer_queue-Ends r5 h5)
                            (λ d r6 h6. last_step-Ends enq n r6 h6))))))

  run_passes-Ends :
      (left pass : ℕ) (r : Run S)
      → Safe r.world
      → Ends (InWorld Safe) (InWorld Safe) (run_passes ops left pass r)
  unfolding run_passes pure
  run_passes-Ends zero pass r h = h
  run_passes-Ends (suc left) pass r h =
      Ends-then (InWorld Safe) (InWorld Safe) (InWorld Safe) (one_pass ops pass) _ r
        (one_pass-Ends pass r h) (λ u r' h'. run_passes-Ends left (pass + 1) r' h')

  Ends-Safe : (q : Done Unit Unit × Run S) → Ends (InWorld Safe) (InWorld Safe) q → Safe q.1.world
  Ends-Safe (stopped u, r) h = h
  Ends-Safe (went a, r) h = h

  -- Files are moved to the trash only with a complete list. Let the operations keep a property of the
  -- state where that is asked of each: loadList on a state that is not cancelled; the comparison and
  -- the enqueuing on one whose list loadList has received without an error; MoveDeleted on one whose
  -- downloads were then queued without an error; the transfer, the clean-up and the report of a failed
  -- list on any. The property then holds at the end of the cycle. So a pass that is cancelled receives
  -- no list, and one whose list has failed or whose queue could not be filled never runs MoveDeleted.
  pub run_cycle-guarded :
      (max_passes : ℕ) (s : S) → Safe s → Safe (run_cycle ops max_passes s).world
  unfolding run_cycle end_cycle
  run_cycle-guarded max_passes s h =
      g.cleared _ (g.cleaned _ (Ends-Safe _ (run_passes-Ends max_passes 1 _ h)))
