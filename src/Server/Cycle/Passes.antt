-- ===== src/Server/Cycle/Passes.antt =====
-- RunCycle makes at most SYNC_MAX_PASSES passes, each of which receives at most one list.
use Prim.Native.Nat.{zero, suc}
use backuper.Prelude.{
  ℕ, ◌+◌, ◌≡◌, ◌≤◌, refl, subst, Bool, true, false, ◌&&◌, Bytes, ◌==◌, if◌then◌else◌, Bool-cases,
  inl, inr, arith,
}
use backuper.Prelude.Steps.{
  Done, stopped, went, Steps, Ends, Ends-then, Ends-map, pure, stop, change,
}
use backuper.Server.Cycle.{
  CycleOps, ok, Run, check_cancelled, receive_list, compare, enqueue_diff, move_to_trash,
  transfer_queue, one_pass, run_passes, end_cycle, run_cycle,
}

-- A number that loadList makes larger by at most one, and no other operation makes larger: a count of
-- the lists that are received.
pub record CountsLists {S : Type 0} (ops : CycleOps S) (count : S → ℕ) : Type 0 where
  pub list_counts : (s : S) → count (ops.load_list s).1 ≤ count s + 1
  pub failed_same : (s : S) (e : Bytes) → count (ops.list_failed e s) ≤ count s
  pub collisions_same : (s : S) → count (ops.handle_collisions s) ≤ count s
  pub queue_same : (s : S) → count (ops.enqueue s).1 ≤ count s
  pub moves_same : (s : S) → count (ops.move_deleted s).1 ≤ count s
  pub transfer_same : (s : S) → count (ops.run_queue s).2 ≤ count s
  pub cleanup_same : (s : S) → count (ops.cleanup s) ≤ count s
  pub clear_same : (s : S) → count (ops.clear_queue s) ≤ count s

module _ {S : Type 0} (ops : CycleOps S) (count : S → ℕ) (c : CountsLists ops count) where
  -- at most n lists, and a pass whose number is at most k
  abbrev AtMost : ℕ → ℕ → Run S → Type 0
  AtMost n k r = (count r.world ≤ n) × (r.passes ≤ k)

  -- a step that stays at or below
  abbrev Below : {A : Type 0} → ℕ → ℕ → Done Unit A × Run S → Type 0
  Below n k = Ends (AtMost n k) (AtMost n k)

  check_cancelled-Below : (n k : ℕ) (r : Run S) → AtMost n k r → Below n k (check_cancelled ops r)
  unfolding check_cancelled
  check_cancelled-Below n k r h = elim (Bool-cases (ops.is_cancelled r.world)) [
    | inl e ↦ rw e h
    | inr e ↦ rw e h
  ]

  receive_list-Below : (n k : ℕ) (r : Run S) → AtMost n k r → Below (n + 1) k (receive_list ops r)
  unfolding receive_list
  receive_list-Below n k r h = from (ops.load_list r.world) refl
    where
      from :
          (q : Done Bytes ℕ × S) → ops.load_list r.world ≡ q → Below (n + 1) k (receive_list ops r)
      from (went m, s) e =
          let one : count s ≤ count r.world + 1 =
            subst (λ q. count q.1 ≤ count r.world + 1) e (c.list_counts r.world) in
          rw e (omega (arith, one, h.0), h.1)
      from (stopped t, s) e =
          let one : count s ≤ count r.world + 1 =
            subst (λ q. count q.1 ≤ count r.world + 1) e (c.list_counts r.world) in
          rw e (omega (arith, one, h.0, c.failed_same s t), h.1)

  enqueue_diff-Below : (n k : ℕ) (r : Run S) → AtMost n k r → Below n k (enqueue_diff ops r)
  unfolding enqueue_diff
  enqueue_diff-Below n k r h = from (ops.enqueue r.world) refl
    where
      from : (q : Done Bytes ℕ × S) → ops.enqueue r.world ≡ q → Below n k (enqueue_diff ops r)
      from (went m, s) e =
          let same : count s ≤ count r.world =
            subst (λ q. count q.1 ≤ count r.world) e (c.queue_same r.world) in
          rw e (omega (arith, same, h.0), h.1)
      from (stopped t, s) e =
          let same : count s ≤ count r.world =
            subst (λ q. count q.1 ≤ count r.world) e (c.queue_same r.world) in
          rw e (omega (arith, same, h.0), h.1)

  transfer_queue-Below : (n k : ℕ) (r : Run S) → AtMost n k r → Below n k (transfer_queue ops r)
  unfolding transfer_queue
  transfer_queue-Below n k r h = from (ops.run_queue r.world) refl
    where
      same : (q : ℕ × Bool × S) → ops.run_queue r.world ≡ q → count q.2 ≤ n
      same q e =
          let kept : count q.2 ≤ count r.world =
            subst (λ q. count q.2 ≤ count r.world) e (c.transfer_same r.world) in
          omega (arith, kept, h.0)

      from : (q : ℕ × Bool × S) → ops.run_queue r.world ≡ q → Below n k (transfer_queue ops r)
      from (m, true, s) e = rw e (same (m, true, s) e, h.1)
      from (m, false, s) e = rw e (same (m, false, s) e, h.1)

  abbrev last_step : ℕ → ℕ → Steps (Run S) Unit Unit
  last_step enq moved = if (enq == 0) && (moved == 0) then stop tt else pure tt

  last_step-Below :
      (n k enq moved : ℕ) (r : Run S) → AtMost n k r → Below n k (last_step enq moved r)
  unfolding stop pure
  last_step-Below n k enq moved r h = elim (Bool-cases ((enq == 0) && (moved == 0))) [
    | inl e ↦ rw e h
    | inr e ↦ rw e h
  ]

  one_pass-Below :
      (n k pass : ℕ) (r : Run S) → pass ≤ k → AtMost n k r → Below (n + 1) k (one_pass ops pass r)
  unfolding one_pass change compare move_to_trash
  one_pass-Below n k pass r p h =
      let more = AtMost (n + 1) k in
      Ends-then more (AtMost n k) more (check_cancelled ops) _ r
        (Ends-map (AtMost n k) more (AtMost n k) (AtMost n k) _ (λ r' q. (omega (arith, q.0), q.1))
          (λ r' q. q) (check_cancelled-Below n k r h))
        (λ a r1 h1.
          Ends-then more more more (receive_list ops) _ (record r1 { passes = pass })
            (receive_list-Below n k _ (h1.0, p))
            (λ b r2 h2.
              Ends-then more more more (compare ops pass) _ r2
                (omega (arith, c.collisions_same r2.world, h2.0), h2.1)
                (λ d r3 h3.
                  Ends-then more more more (enqueue_diff ops) _ r3
                    (enqueue_diff-Below (n + 1) k r3 h3)
                    (λ enq r4 h4.
                      Ends-then more more more (move_to_trash ops) _ r4
                        (omega (arith, c.moves_same r4.world, h4.0), h4.1)
                        (λ m r5 h5.
                          Ends-then more more more (transfer_queue ops) _ r5
                            (transfer_queue-Below (n + 1) k r5 h5)
                            (λ e r6 h6. last_step-Below (n + 1) k enq m r6 h6))))))

  run_passes-Below :
      (n k left pass : ℕ) (r : Run S)
      → left + pass ≤ k + 1
      → AtMost n k r
      → Below (n + left) k (run_passes ops left pass r)
  unfolding run_passes pure
  run_passes-Below n k zero pass r fits h = (omega (arith, h.0), h.1)
  run_passes-Below n k (suc left) pass r fits h =
      let all = AtMost (n + suc left) k in
      Ends-then all (AtMost (n + 1) k) all (one_pass ops pass) _ r
        (Ends-map (AtMost (n + 1) k) all (AtMost (n + 1) k) (AtMost (n + 1) k) _
          (λ r' q. (omega (arith, q.0), q.1)) (λ r' q. q)
          (one_pass-Below n k pass r (omega arith) h))
        (λ u r' h'.
          Ends-map (AtMost (n + 1 + left) k) all (AtMost (n + 1 + left) k) all _
            (λ r'' q. (omega (arith, q.0), q.1)) (λ r'' q. (omega (arith, q.0), q.1))
            (run_passes-Below (n + 1) k left (pass + 1) r' (omega arith) h'))

  Below-AtMost : {A : Type 0} (n k : ℕ) (q : Done Unit A × Run S) → Below n k q → AtMost n k q.1
  Below-AtMost n k (stopped u, r) h = h
  Below-AtMost n k (went a, r) h = h

  -- A cycle receives at most SYNC_MAX_PASSES lists, and the number of the pass that it
  -- reports is at most SYNC_MAX_PASSES, whatever the operations do and whatever fails. The lists are
  -- counted by any number of the state that loadList makes larger by at most one, and no other
  -- operation makes larger.
  pub run_cycle-passes :
      (max_passes : ℕ) (s : S)
      → let r = run_cycle ops max_passes s in
        (count r.world ≤ count s + max_passes) × (r.passes ≤ max_passes)
  unfolding run_cycle end_cycle
  run_cycle-passes max_passes s =
      let start : Run S = record {
        world = s;
        status = ok;
        passes = 0;
        changed_first = 0;
        trashed_total = 0;
        skipped_files = 0;
      } in
      let last = run_passes ops max_passes 1 start in
      let b : AtMost (count s + max_passes) max_passes last.1 =
        Below-AtMost (count s + max_passes) max_passes last (
          run_passes-Below (count s) max_passes max_passes 1 start (omega arith)
            (omega arith, omega arith)) in
      (
        omega (arith, c.clear_same (ops.cleanup last.1.world), c.cleanup_same last.1.world, b.0),
        b.1,
      )
