-- ===== src/Worker/Ends.antt =====
-- src/theft_call.c: `theft_call` returns, however often the system interrupts it.
use theft.Base.{
  ℕ, zero, suc, ◌+◌, ◌*◌, ◌^◌, ◌<◌, ◌≡◌, ◌≢◌, refl, true, arith, Option, none, some, List,
  Bool-cases, Option-cases, ◌==◌, ap, ℕ_discrete, inl, inr,
}
use native.Mathlib.Nat.{pow-suc}
use theft.Base.{if◌then◌else◌}
use theft.Types.{TrialRes, done, Finishes, Finishes-bind, Finishes-done}
use theft.Worker.{
  System, Worker, Status, PollRes, ReadRes, WaitRes, ForkRes, ForkInfo, CallSetup, step_waitpid,
  after_step, wait_from, wait_for_exit, poll_loop, poll_timeout, read_loop, handle_timeout,
  handle_answer, handle_poll, parent_handle_child_call, fork_loop, parent_run, call_forked, call,
  after_fork,
}

-- There is a bound, below the fuel, on the children that are still to be waited for, and on how
-- often a `poll` and a `read` are still to be interrupted; each `waitpid` that reports a child
-- leaves fewer children, and each interruption fewer of those to come. A `poll` with a timeout does
-- not block for ever.
pub record IsBounded {W : Type 0} (os : System W) (fuel : ℕ) : Type 0 where
  pub children : W → ℕ
  pub children_lt : (w : W) → children w < fuel
  pub reaped :
      (w : W) (pid : ℕ) (status : Status)
      → (os.waitpid w).0 ≡ WaitRes.changed pid status
      → children (os.waitpid w).1 < children w
  pub interrupts : W → ℕ
  pub interrupts_lt : (w : W) → interrupts w < fuel
  pub poll_less :
      (fd : ℕ) (timeout : Option ℕ) (w : W)
      → (os.poll fd timeout w).0 ≡ PollRes.interrupted
      → interrupts (os.poll fd timeout w).1 < interrupts w
  pub poll_returns : (fd timeout : ℕ) (w : W) → (os.poll fd (some timeout) w).0 ≢ PollRes.blocks
  pub read_less :
      (fd : ℕ) (w : W)
      → (os.read fd w).0 ≡ ReadRes.interrupted
      → interrupts (os.read fd w).1 < interrupts w

before_last : (k : ℕ) → k < 11 → 2 ^ k < 1024 → k < 10
before_last k h low = elim (ℕ_discrete k 10) [
  | yes e ↦ absurd (omega (arith, ap (λ (t : ℕ). 2 ^ t) e))
  | no ne ↦ omega arith
]

abbrev Any : {A : Type 0} → A → Type 0
Any a = Unit

module _ {W : Type 0} (os : System W) (bound : ℕ) (b : IsBounded os bound) where
  -- A round of `step_waitpid`, where the rounds after it end.
  step_round-ends :
      (fuel : ℕ) (worker : Worker) (w : W) (res : WaitRes)
      → (os.waitpid w).0 ≡ res
      → b.children w < suc fuel
      → ((worker' : Worker) (w' : W)
          → b.children w' < fuel
          → Finishes Any (step_waitpid os fuel worker' w'))
      → Finishes Any (step_waitpid os (suc fuel) worker w)
  unfolding step_waitpid
  step_round-ends fuel worker w (WaitRes.changed pid status) e h ih =
      rw (e, step_waitpid) (ih _ (os.waitpid w).1 (omega (arith, b.reaped w pid status e)))
  step_round-ends fuel worker w WaitRes.unchanged e h ih = rw (e, step_waitpid) tt
  step_round-ends fuel worker w WaitRes.no_children e h ih = rw (e, step_waitpid) tt
  step_round-ends fuel worker w WaitRes.failed e h ih = rw (e, step_waitpid) tt

  step_below-ends :
      (fuel : ℕ) (worker : Worker) (w : W)
      → b.children w < fuel
      → Finishes Any (step_waitpid os fuel worker w)
  step_below-ends zero worker w h = absurd (omega arith)
  step_below-ends (suc fuel) worker w h =
      step_round-ends fuel worker w (os.waitpid w).0 refl h (step_below-ends fuel)

  step_waitpid-ends : (worker : Worker) (w : W) → Finishes Any (step_waitpid os bound worker w)
  step_waitpid-ends worker w = step_below-ends bound worker w (b.children_lt w)

  poll_loop-ends :
      (fuel fd timeout : ℕ) (w : W)
      → b.interrupts w < fuel
      → Finishes Any (poll_loop os fuel fd (some timeout) w)
  unfolding poll_loop
  poll_loop-ends zero fd timeout w h = absurd (omega arith)
  poll_loop-ends (suc fuel) fd timeout w h = ground (
    arith,
    b.poll_less fd (some timeout) w,
    b.poll_returns fd timeout w,
    poll_loop-ends fuel fd timeout (os.poll fd (some timeout) w).1,
  )

  read_loop-ends :
      (fuel fd : ℕ) (w : W) → b.interrupts w < fuel → Finishes Any (read_loop os fuel fd w)
  unfolding read_loop
  read_loop-ends zero fd w h = absurd (omega arith)
  read_loop-ends (suc fuel) fd w h =
      ground (arith, b.read_less fd w, read_loop-ends fuel fd (os.read fd w).1)

  wait_from-ends :
      (left i timeout : ℕ) (worker : Worker) (w : W)
      → Finishes Any (wait_from os bound left i timeout worker w)
  unfolding wait_from
  wait_from-ends zero i timeout worker w = tt
  wait_from-ends (suc left) i timeout worker w =
      Finishes-bind Any Any (step_waitpid os bound worker w) _ (step_waitpid-ends worker w) λ s _.
        ground (
          arith,
          wait_from-ends left (i + 1) timeout (after_step os i timeout s).1
              (after_step os i timeout s).2,
        )

  handle_timeout-ends :
      (info : ForkInfo) (worker : Worker) (w : W)
      → Finishes Any (handle_timeout os bound info worker w)
  unfolding handle_timeout wait_for_exit
  handle_timeout-ends info worker w =
      let signal = if info.signal == 0 then 15 else info.signal in
      let timeout = if info.exit_timeout == 0 then 100 else info.exit_timeout in
      elim (Bool-cases (os.kill worker.pid signal w).0) [
        | inl sent ↦ rw sent (
            Finishes-bind Any Any
              (wait_from os bound (timeout + 10) 0 timeout worker (os.kill worker.pid signal w).1) _
              (wait_from-ends (timeout + 10) 0 timeout worker (os.kill worker.pid signal w).1)
              (λ r _. tt))
        | inr failed ↦ rw failed tt
      ]

  handle_answer-ends : (worker : Worker) (w : W) → Finishes Any (handle_answer os bound worker w)
  unfolding handle_answer
  handle_answer-ends worker w =
      Finishes-bind Any Any (read_loop os bound worker.pipe w) _
        (read_loop-ends bound worker.pipe w (b.interrupts_lt w)) λ r _. tt

  parent_handle-ends :
      (info : ForkInfo) (worker : Worker) (w : W)
      → info.timeout ≢ 0
      → info.timeout < 2 ^ 31
      → Finishes Any (parent_handle_child_call os bound info worker w)
  unfolding parent_handle_child_call handle_poll
  parent_handle-ends info worker w limited small =
      rw (poll_timeout_lem info.timeout limited small) (
        Finishes-bind Any Any (poll_loop os bound worker.pipe (some info.timeout) w) _
          (poll_loop-ends bound worker.pipe info.timeout w (b.interrupts_lt w))
          λ r _. ground (arith, handle_timeout-ends info worker r.1, handle_answer-ends worker r.1))
    where
      poll_timeout_lem : (n : ℕ) → n ≢ 0 → n < 2 ^ 31 → poll_timeout n ≡ some n
      poll_timeout_lem n ne h = ground arith

  -- A round of the loop around `fork`, where the round after it ends. Each doubles the sleep, and
  -- none comes after one of 2 ^ 10 ns.
  fork_round-ends :
      (tries k : ℕ) (worker : Worker) (w : W) (res : ForkRes W)
      → (os.fork w).0 ≡ res
      → k < 11
      → (k < 10
          → (worker' : Worker) (w' : W)
          → Finishes Any (fork_loop os bound tries (2 ^ k * 2) worker' w'))
      → Finishes Any (fork_loop os bound (suc tries) (2 ^ k) worker w)
  unfolding fork_loop
  fork_round-ends tries k worker w (ForkRes.forked pid child) e h ih = rw (e, fork_loop) tt
  fork_round-ends tries k worker w ForkRes.failed e h ih = rw (e, fork_loop) tt
  fork_round-ends tries k worker w ForkRes.again e h ih =
      rw (e, fork_loop)
        (Finishes-bind Any Any (step_waitpid os bound worker (os.fork w).1) _
          (step_waitpid-ends worker (os.fork w).1)
          λ s _.
            ground
              (arith, before_last k, λ (more : k < 10). ih more s.1 (os.nanosleep (2 ^ k) s.2).1))

  fork_loop-ends :
      (tries k : ℕ) (worker : Worker) (w : W)
      → tries + k ≡ 11
      → k < 11
      → Finishes Any (fork_loop os bound tries (2 ^ k) worker w)
  fork_loop-ends zero k worker w e h = absurd (omega arith)
  fork_loop-ends (suc tries) k worker w e h =
      fork_round-ends tries k worker w (os.fork w).0 refl h λ more worker' w'.
        rw (← pow-suc 2 k) (fork_loop-ends tries (suc k) worker' w' (omega arith) (omega arith))

  module _ {I : Type 0} (t : CallSetup I W) (forks : t.fork.enable ≡ true)
      (limited : t.fork.timeout ≢ 0) (small : t.fork.timeout < 2 ^ 31) where
    parent_run-ends :
        (pid : ℕ) (worker : Worker) (w : W) → Finishes Any (parent_run os t bound pid worker w)
    unfolding parent_run
    parent_run-ends pid worker w =
        Finishes-bind Any Any (parent_handle_child_call os bound t.fork _ (os.close worker.pipe w))
          _ (parent_handle-ends t.fork _ (os.close worker.pipe w) limited small)
          λ r _.
            Finishes-bind Any Any (step_waitpid os bound _ (os.close worker.pipe r.2)) _
              (step_waitpid-ends _ (os.close worker.pipe r.2)) λ s _. tt

    after_fork-ends : (r : Option (ℕ × W) × Worker × W) → Finishes Any (after_fork os t bound r)
    after_fork-ends (none, worker, w) = tt
    after_fork-ends (some (pid, child), worker, w) = parent_run-ends pid worker w

    call_forked-ends :
        (fd : ℕ) (worker : Worker) (w : W) → Finishes Any (call_forked os t bound fd worker w)
    unfolding call_forked
    call_forked-ends fd worker w =
        Finishes-bind Any Any (fork_loop os bound 11 1 _ w) _
          (fork_loop-ends 11 0 _ w (omega arith) (omega arith)) λ r _. after_fork-ends r

    call-Finishes :
        (args : List I) (worker : Worker) (w : W) → Finishes Any (call os t bound args worker w)
    unfolding call
    call-Finishes args worker w = elim (Option-cases (os.pipe w).0) [
      | inl e ↦ ground arith
      | inr (fd, e) ↦ ground (arith, call_forked-ends fd worker (os.pipe w).1)
    ]

    -- With a worker process and a timeout other than 0 and below 2 ^ 31 milliseconds, theft_call
    -- returns, whatever becomes of the worker, where the fuel is above the number of changes of
    -- child processes that are still to be reported, and of interruptions of poll and read that
    -- are still to come. That a poll with a timeout does not block for ever is asked of the
    -- system.
    pub call-returns :
        (args : List I) (worker : Worker) (w : W)
        → (r : TrialRes × Worker × W) × (call os t bound args worker w ≡ done r)
    call-returns args worker w =
        let (r, e, any) = Finishes-done Any _ (call-Finishes args worker w) in (r, e)
