-- ===== src/Worker/Tests.antt =====
-- src/theft_call.c at a small system: `theft_call` with a worker that is late, and one that is not.
use theft.Base.{ℕ, ◌+◌, ◌-◌, ◌≡◌, refl, arith, Bool, true, false, none, some, [], ◌∷◌}
use theft.Base.{◌==◌, if◌then◌else◌}
use theft.Types.{TrialRes, Outcome, done}
use theft.Worker.{
  System, Worker, WorkerState, Status, PollRes, ReadRes, WaitRes, ForkRes, CallSetup, step_waitpid,
  kill_late, after_step, wait_from, wait_for_exit, poll_loop, read_loop, handle_timeout,
  handle_answer, handle_poll, parent_handle_child_call, fork_loop, parent_run, call_forked, call,
  call_inner, run_fork_post_hook, child_run,
}
use theft.Worker.Ends.{IsBounded, call-returns}
use theft.Worker.Passing.{ComesFrom, Reports, call-CanGive}

-- The world counts the calls. The first `fork` and the first `poll` are tried again; process 7 is
-- reported to have ended at the eighth call.
abbrev os : Bool → System ℕ
os late = record {
  pipe = λ w. (some 3, w + 1);
  fork = λ w. (if w == 1 then ForkRes.again else ForkRes.forked 7 0, w + 1);
  poll = λ fd timeout w. (
    if w == 6 then PollRes.interrupted else (if late then PollRes.timed_out else PollRes.ready),
    w + 1,
  );
  read = λ fd w. (ReadRes.byte TrialRes.pass, w + 1);
  write = λ fd res w. (true, w);
  close = λ fd w. w + 1;
  kill = λ pid signal w. (true, w + 1);
  waitpid = λ w. (if w == 9 then WaitRes.changed 7 (Status.exited 0) else WaitRes.unchanged, w + 1);
  nanosleep = λ ns w. (true, w + 1);
}

abbrev setup : CallSetup ℕ ℕ
setup = record {
  arity = 1;
  prop = λ args w. (TrialRes.pass, w);
  own_exit = λ args w. none;
  fork = record { enable = true; timeout = 20; signal = 0; exit_timeout = 0 };
  fork_post = none;
  total_trials = 100;
  failures = 0;
  run_seed = 1;
}

abbrev idle : Worker
idle = record { state = WorkerState.inactive; pipe = 0; pid = 0; wstatus = Status.exited 0 }

abbrev result_or_error : Outcome (TrialRes × Worker × ℕ) → TrialRes × Worker × ℕ
result_or_error (done r) = r
result_or_error _ = (TrialRes.error, idle, 0)

abbrev answered : TrialRes × Worker × ℕ
answered = result_or_error (call (os false) setup 10 (4 ∷ []) idle 0)

abbrev killed : TrialRes × Worker × ℕ
killed = result_or_error (call (os true) setup 10 (4 ∷ []) idle 0)

answered_passes :
    call (os false) setup 10 (4 ∷ []) idle 0 ≡ done (TrialRes.pass, answered.1, answered.2)
unfolding call call_forked fork_loop step_waitpid parent_run parent_handle_child_call poll_loop
    handle_poll handle_answer read_loop
answered_passes = refl

killed_passes : call (os true) setup 10 (4 ∷ []) idle 0 ≡ done (TrialRes.pass, killed.1, killed.2)
unfolding call call_forked fork_loop step_waitpid parent_run parent_handle_child_call poll_loop
    handle_poll handle_timeout wait_for_exit wait_from after_step kill_late
killed_passes = refl

reports : (child : ℕ) → Reports (os true) setup (4 ∷ []) 3 child
unfolding child_run call_inner run_fork_post_hook
reports child = record { reads = λ w res e. ground arith }

call-CanGive_example : ComesFrom (os true) setup (4 ∷ []) TrialRes.pass
call-CanGive_example =
    call-CanGive (os true) setup (4 ∷ []) 10 idle killed.1 0 killed.2 TrialRes.pass
      (λ fd e w pid child f. rw (three fd e) (reports child)) killed_passes (λ e. cc) (λ e. cc)
  where
    three : (fd : ℕ) → some 3 ≡ some fd → fd ≡ 3
    three fd e = ground arith

bounded : IsBounded (os true) 11
bounded = record {
  children = λ w. 10 - w;
  children_lt = λ w. omega arith;
  reaped = λ w pid status e. ground arith;
  interrupts = λ w. 10 - w;
  interrupts_lt = λ w. omega arith;
  poll_less = λ fd timeout w e. ground arith;
  read_less = λ fd w e. cc;
  poll_returns = λ fd timeout w e. ground arith;
}

call-returns_example :
    (r : TrialRes × Worker × ℕ) × (call (os true) setup 11 (4 ∷ []) idle 0 ≡ done r)
call-returns_example =
    call-returns (os true) 11 bounded setup refl (λ e. omega (arith, e)) (omega arith) (4 ∷ []) idle
      0
