-- ===== src/Worker/Told.antt =====
-- src/theft_call.c: what the parent makes of what it is told of its worker process.
use theft.Base.{
  ℕ, zero, suc, ◌+◌, ◌≡◌, ◌∙◌, refl, arith, Bool, true, false, ◌&&◌, Option, ==_iff, Bool-cases,
  inl, inr,
}
use theft.Base.{if◌then◌else◌, ◌==◌}
use theft.Types.{TrialRes, Ensures, Ensures-bind}
use theft.Worker.{
  System, Worker, Status, PollRes, ReadRes, WaitRes, ForkInfo, step_waitpid, poll_loop, handle_poll,
  note_change, after_step, wait_from, wait_for_exit, read_loop, read_result, killed_result,
  handle_timeout, handle_answer, parent_handle_child_call, is_stopped, is_success,
}

module _ {W : Type 0} (os : System W) (Q : Worker → Type 0) where
  module _
      (keep : (w : W) (pid : ℕ) (status : Status) (worker : Worker)
        → (os.waitpid w).0 ≡ WaitRes.changed pid status
        → Q worker
        → Q (note_change pid status worker)) where
    step_round-keeps :
        (fuel : ℕ) (worker : Worker) (w : W) (res : WaitRes)
        → (os.waitpid w).0 ≡ res
        → Q worker
        → ((worker' : Worker) (w' : W)
            → Q worker'
            → Ensures (λ r. Q r.1) (step_waitpid os fuel worker' w'))
        → Ensures (λ r. Q r.1) (step_waitpid os (suc fuel) worker w)
    unfolding step_waitpid
    step_round-keeps fuel worker w (WaitRes.changed pid status) e h ih =
        rw (e, step_waitpid) (ih _ (os.waitpid w).1 (keep w pid status worker e h))
    step_round-keeps fuel worker w WaitRes.unchanged e h ih = rw (e, step_waitpid) h
    step_round-keeps fuel worker w WaitRes.no_children e h ih = rw (e, step_waitpid) h
    step_round-keeps fuel worker w WaitRes.failed e h ih = rw (e, step_waitpid) h

    -- What each report of a child keeps, `step_waitpid` keeps.
    pub step_waitpid-keeps :
        (fuel : ℕ) (worker : Worker) (w : W)
        → Q worker
        → Ensures (λ r. Q r.1) (step_waitpid os fuel worker w)
    step_waitpid-keeps zero worker w h = unfold step_waitpid in tt
    step_waitpid-keeps (suc fuel) worker w h =
        step_round-keeps fuel worker w (os.waitpid w).0 refl h (step_waitpid-keeps fuel)

module _ {W : Type 0} (os : System W) where
  -- The system gave this result to a `poll` of the pipe.
  abbrev pub Polled : ℕ → PollRes → Type 0
  Polled fd res = (timeout : Option ℕ) × (w : W) × ((os.poll fd timeout w).0 ≡ res)

  -- The child was reported to have exited with success.
  abbrev pub HasExited : ℕ → Type 0
  HasExited pid = (w : W) × ((os.waitpid w).0 ≡ WaitRes.changed pid (Status.exited 0))

module _ {W : Type 0} (os : System W) (pid fd : ℕ) (Given : TrialRes → Type 0) where
  -- What a byte in the pipe, and the exit of a child that was late, stand for.
  pub record IsTold : Type 0 where
    pub reads : (w : W) (res : TrialRes) → (os.read fd w).0 ≡ ReadRes.byte res → Given res
    pub exits : Polled os fd PollRes.timed_out → HasExited os pid → Given TrialRes.pass
    pub failing : Given TrialRes.fail
    pub erring : Given TrialRes.error

  -- A worker that is known to have stopped with success was reported so.
  pub record IsBacked (worker : Worker) : Type 0 where
    pub same_pid : worker.pid ≡ pid
    pub same_pipe : worker.pipe ≡ fd
    pub backed : (is_stopped worker.state && is_success worker.wstatus) ≡ true → HasExited os pid

  module _ (told : IsTold) where
    status-Given :
        (w : W) (status : Status)
        → (os.waitpid w).0 ≡ WaitRes.changed pid status
        → is_success status ≡ true
        → HasExited os pid
    status-Given w (Status.exited zero) e success = (w, e)
    status-Given w (Status.exited (suc code)) e success = absurd (ground arith)
    status-Given w Status.signaled e success = cc

    note_change-Backed :
        (w : W) (other : ℕ) (status : Status) (worker : Worker)
        → (os.waitpid w).0 ≡ WaitRes.changed other status
        → IsBacked worker
        → IsBacked (note_change other status worker)
    note_change-Backed w other status worker e h = elim (Bool-cases (other == worker.pid)) [
      | inl same ↦ rw same (record {
        same_pid = h.same_pid;
        same_pipe = h.same_pipe;
        backed = status-Given w status (rw ((==_iff other worker.pid).0 same ∙ h.same_pid) at e);
      })
      | inr differs ↦ rw differs h
    ]

    step_waitpid-Backed :
        (fuel : ℕ) (worker : Worker) (w : W)
        → IsBacked worker
        → Ensures (λ r. IsBacked r.1) (step_waitpid os fuel worker w)
    step_waitpid-Backed fuel worker w h =
        step_waitpid-keeps os IsBacked note_change-Backed fuel worker w h

    after_step-worker :
        (i timeout : ℕ) (s : Bool × Worker × W) → (after_step os i timeout s).1 ≡ s.1
    unfolding after_step
    after_step-worker i timeout (stepped, worker, w) = ground arith

    wait_from-Backed :
        (fuel left i timeout : ℕ) (worker : Worker) (w : W)
        → IsBacked worker
        → Ensures (λ r. IsBacked r.1) (wait_from os fuel left i timeout worker w)
    unfolding wait_from
    wait_from-Backed fuel zero i timeout worker w h = h
    wait_from-Backed fuel (suc left) i timeout worker w h =
        Ensures-bind (λ r. IsBacked r.1) (λ r. IsBacked r.1) (step_waitpid os fuel worker w) _
          (step_waitpid-Backed fuel worker w h)
          λ s hs.
            let kept : IsBacked (after_step os i timeout s).1 =
              rw (after_step-worker i timeout s) hs in
            ground (
              arith,
              wait_from-Backed fuel left (i + 1) timeout (after_step os i timeout s).1
                  (after_step os i timeout s).2 kept,
            )

    killed_result-Given :
        (waited : Bool) (worker : Worker)
        → Polled os fd PollRes.timed_out
        → IsBacked worker
        → Given (killed_result waited worker)
    killed_result-Given false worker late h = told.erring
    killed_result-Given true worker late h =
        elim (Bool-cases (is_stopped worker.state && is_success worker.wstatus)) [
          | inl passed ↦ rw passed (told.exits late (h.backed passed))
          | inr not_passed ↦ rw not_passed told.failing
        ]

    handle_timeout-Given :
        (fuel : ℕ) (info : ForkInfo) (worker : Worker) (w : W)
        → Polled os fd PollRes.timed_out
        → IsBacked worker
        → Ensures (λ r. Given r.0 × IsBacked r.1) (handle_timeout os fuel info worker w)
    unfolding handle_timeout wait_for_exit
    handle_timeout-Given fuel info worker w late h =
        let signal = if info.signal == 0 then 15 else info.signal in
        let timeout = if info.exit_timeout == 0 then 100 else info.exit_timeout in
        elim (Bool-cases (os.kill worker.pid signal w).0) [
          | inl sent ↦ rw sent (
              Ensures-bind (λ r. IsBacked r.1) (λ r. Given r.0 × IsBacked r.1)
                (wait_from os fuel (timeout + 10) 0 timeout worker (os.kill worker.pid signal w).1)
                _
                (wait_from-Backed fuel (timeout + 10) 0 timeout worker
                  (os.kill worker.pid signal w).1 h)
                (λ r kept. (killed_result-Given r.0 r.1 late kept, kept)))
          | inr failed ↦ rw failed (told.erring, h)
        ]

    read_round-Given :
        (fuel : ℕ) (w : W) (res : ReadRes)
        → (os.read fd w).0 ≡ res
        → ((w' : W) → Ensures (λ r. Given (read_result r.0)) (read_loop os fuel fd w'))
        → Ensures (λ r. Given (read_result r.0)) (read_loop os (suc fuel) fd w)
    unfolding read_loop
    read_round-Given fuel w (ReadRes.byte res) e ih = rw (e, read_loop) (told.reads w res e)
    read_round-Given fuel w ReadRes.closed e ih = rw (e, read_loop) told.failing
    read_round-Given fuel w ReadRes.interrupted e ih = rw (e, read_loop) (ih (os.read fd w).1)
    read_round-Given fuel w ReadRes.failed e ih = rw (e, read_loop) told.erring

    read_loop-Given :
        (fuel : ℕ) (w : W) → Ensures (λ r. Given (read_result r.0)) (read_loop os fuel fd w)
    read_loop-Given zero w = unfold read_loop in tt
    read_loop-Given (suc fuel) w =
        read_round-Given fuel w (os.read fd w).0 refl (read_loop-Given fuel)

    read_pipe-Given :
        (fuel pipe : ℕ) (w : W)
        → pipe ≡ fd
        → Ensures (λ r. Given (read_result r.0)) (read_loop os fuel pipe w)
    read_pipe-Given fuel pipe w e = rw e (read_loop-Given fuel w)

    handle_answer-Given :
        (fuel : ℕ) (worker : Worker) (w : W)
        → IsBacked worker
        → Ensures (λ r. Given r.0 × IsBacked r.1) (handle_answer os fuel worker w)
    unfolding handle_answer
    handle_answer-Given fuel worker w h =
        Ensures-bind (λ r. Given (read_result r.0)) (λ r. Given r.0 × IsBacked r.1)
          (read_loop os fuel worker.pipe w) _ (read_pipe-Given fuel worker.pipe w h.same_pipe)
          (λ r given. (given, h))

    handled-Given :
        (fuel : ℕ) (info : ForkInfo) (worker : Worker) (w : W) (res : PollRes)
        → Polled os fd res
        → IsBacked worker
        → Ensures (λ r. Given r.0 × IsBacked r.1) (handle_poll os fuel info worker res w)
    unfolding handle_poll
    handled-Given fuel info worker w PollRes.ready p h = handle_answer-Given fuel worker w h
    handled-Given fuel info worker w PollRes.timed_out p h =
        handle_timeout-Given fuel info worker w p h
    handled-Given fuel info worker w PollRes.interrupted p h = (told.erring, h)
    handled-Given fuel info worker w PollRes.failed p h = (told.erring, h)
    handled-Given fuel info worker w PollRes.blocks p h = (told.erring, h)

    poll_round-Polled :
        (fuel : ℕ) (timeout : Option ℕ) (w : W) (res : PollRes)
        → (os.poll fd timeout w).0 ≡ res
        → ((w' : W) → Ensures (λ r. Polled os fd r.0) (poll_loop os fuel fd timeout w'))
        → Ensures (λ r. Polled os fd r.0) (poll_loop os (suc fuel) fd timeout w)
    unfolding poll_loop
    poll_round-Polled fuel timeout w PollRes.ready e ih = rw (e, poll_loop) (timeout, w, e)
    poll_round-Polled fuel timeout w PollRes.timed_out e ih = rw (e, poll_loop) (timeout, w, e)
    poll_round-Polled fuel timeout w PollRes.interrupted e ih =
        rw (e, poll_loop) (ih (os.poll fd timeout w).1)
    poll_round-Polled fuel timeout w PollRes.failed e ih = rw (e, poll_loop) (timeout, w, e)
    poll_round-Polled fuel timeout w PollRes.blocks e ih = rw (e, poll_loop) tt

    poll_loop-Polled :
        (fuel pipe : ℕ) (timeout : Option ℕ) (w : W)
        → pipe ≡ fd
        → Ensures (λ r. Polled os fd r.0) (poll_loop os fuel pipe timeout w)
    poll_loop-Polled zero pipe timeout w same = unfold poll_loop in tt
    poll_loop-Polled (suc fuel) pipe timeout w same = rw same (
        poll_round-Polled fuel timeout w (os.poll fd timeout w).0 refl
          (λ w'. poll_loop-Polled fuel fd timeout w' refl))

    pub parent_handle-Given :
        (fuel : ℕ) (info : ForkInfo) (worker : Worker) (w : W)
        → IsBacked worker
        → Ensures (λ r. Given r.0 × IsBacked r.1) (parent_handle_child_call os fuel info worker w)
    unfolding parent_handle_child_call
    parent_handle-Given fuel info worker w h =
        Ensures-bind (λ r. Polled os fd r.0) (λ r. Given r.0 × IsBacked r.1)
          (poll_loop os fuel worker.pipe _ w) _ (poll_loop-Polled fuel worker.pipe _ w h.same_pipe)
          λ r polled. handled-Given fuel info worker r.1 r.0 polled h
