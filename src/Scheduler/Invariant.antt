-- ===== src/Scheduler/Invariant.antt =====
-- At most one cycle runs and one waits, and every tick is accounted for.
use backuper.Prelude.{
  ℕ, suc, ◌+◌, ◌≡◌, ◌≤◌, refl, ap, ◌∙◌, Bool, true, false, not, ◌&&◌, arith, Bool-cases, inl, inr,
}
use backuper.Scheduler.{
  Scheduler, start, trigger, cycle_done, stop, ticked, finished, cancelled, Reachable, started,
  stepped,
}

-- 1 for true
abbrev pub count : Bool → ℕ
count true = 1
count false = 0

pub record IsSound (s : Scheduler) : Type 0 where
  pub one_chain : s.chains ≡ count s.running
  pub queued_behind : s.stopped ≡ false → s.pending ≡ true → s.running ≡ true
  pub accounted : s.asked ≡ s.cycles + count s.pending + s.dropped

trigger-IsSound : (s : Scheduler) → IsSound s → IsSound (trigger s)
unfolding trigger
trigger-IsSound s h = elim (Bool-cases s.running) [
  | inl r ↦ elim (Bool-cases s.pending) [
    | inl p ↦
        rw (r, p)
          (record {
            one_chain = h.one_chain ∙ ap count r;
            queued_behind = λ _ _. refl;
            accounted = omega (arith, h.accounted, ap count p);
          })
    | inr p ↦
        rw (r, p)
          (record {
            one_chain = h.one_chain ∙ ap count r;
            queued_behind = λ _ _. refl;
            accounted = omega (arith, h.accounted, ap count p);
          })
  ]
  | inr r ↦ rw r (record {
    one_chain = omega (arith, h.one_chain, ap count r);
    queued_behind = λ _ _. refl;
    accounted = omega (arith, h.accounted);
  })
]

cycle_done-IsSound : (s : Scheduler) (n : ℕ) → s.chains ≡ suc n → IsSound s → IsSound (cycle_done s)
unfolding cycle_done
cycle_done-IsSound s n e h = elim (Bool-cases (s.pending && not s.stopped)) [
  | inl w ↦ rw w (record {
    one_chain = h.one_chain;
    queued_behind = λ _ p. absurd (cc p);
    accounted = omega (arith, h.accounted, ap count (waits s.pending s.stopped w));
  })
  | inr w ↦ rw w (record {
    one_chain = omega (arith, h.one_chain, count_le s.running, e);
    queued_behind = λ goes p. absurd (unwaited s.pending s.stopped w goes p);
    accounted = h.accounted;
  })
]
  where
    waits : (p d : Bool) → (p && not d) ≡ true → p ≡ true
    waits p d q = ground arith

    unwaited : (p d : Bool) → (p && not d) ≡ false → d ≡ false → p ≡ true → ⊥
    unwaited p d q f t = ground arith

    count_le : (b : Bool) → count b ≤ 1
    count_le true = omega arith
    count_le false = omega arith

stop-IsSound : (s : Scheduler) → IsSound s → IsSound (stop s)
unfolding stop
stop-IsSound s h = record {
  one_chain = h.one_chain;
  queued_behind = λ e p. absurd (cc e);
  accounted = h.accounted;
}

-- In every reachable state of the scheduler at most one chain of cycles runs, and exactly when
-- `running` says so; until the service is stopped a queued cycle has a chain that will run it; and
-- each call of trigger has begun a cycle, is the one that waits, or came while one was waiting.
pub Reachable-IsSound : {s : Scheduler} → Reachable s → IsSound s
unfolding start trigger
Reachable-IsSound started = record {
  one_chain = refl;
  queued_behind = λ _ _. refl;
  accounted = refl;
}
Reachable-IsSound (stepped r ticked) = trigger-IsSound _ (Reachable-IsSound r)
Reachable-IsSound (stepped r (finished n e)) = cycle_done-IsSound _ n e (Reachable-IsSound r)
Reachable-IsSound (stepped r cancelled) = stop-IsSound _ (Reachable-IsSound r)
