-- ===== src/Worker/Passing.antt =====
-- src/theft_call.c: what the parent makes of the end of its worker process.
use theft.Base.{
  ℕ, zero, suc, ◌*◌, ◌^◌, ◌≡◌, ◌≢◌, refl, arith, Bool, true, false, not, ◌&&◌, Option, none, some,
  List, ◌⊎◌, inl, inr,
}
use theft.Base.{leb, if◌then◌else◌}
use theft.Types.{
  TrialRes, done, aborted, Ensures, Ensures-bind, Ensures-done, Ensures-any, Ensures-if,
}
use theft.Worker.{
  System, Worker, WorkerState, Status, PollRes, ReadRes, ForkRes, CallSetup, step_waitpid,
  max_fork_retries, note_change, parent_handle_child_call, fork_loop, parent_run, after_fork,
  call_forked, call, call_inner, call_piped, exits_itself, run_fork_post_hook, child_run,
}
use theft.Worker.Told.{step_waitpid-keeps, IsTold, IsBacked, Polled, HasExited, parent_handle-Given}

module _ {I W : Type 0} (os : System W) (t : CallSetup I W) (args : List I) where
  -- There is a state of the world in which the property gives this result on the arguments.
  abbrev pub CanGive : TrialRes → Type 0
  CanGive res = (w : W) × ((call_inner os t args w).0 ≡ res)

  -- This is the descriptor of a pipe that the system made.
  abbrev pub IsPipe : ℕ → Type 0
  IsPipe fd = (w : W) × ((os.pipe w).0 ≡ some fd)

  -- A pipe was made and a worker forked, `poll` timed out on the pipe, and `waitpid` reported that the worker
  -- exited with success.
  pub record HasExitedLate : Type 0 where
    pub fd : ℕ
    pub pid : ℕ
    pub child : W
    pub at_fork : W
    pub piped : IsPipe fd
    pub forked : (os.fork at_fork).0 ≡ ForkRes.forked pid child
    pub late : Polled os fd PollRes.timed_out
    pub exited : HasExited os pid

  -- Where a result comes from, unless it is FAIL or ERROR, which the parent may have made up.
  abbrev pub ComesFrom : TrialRes → Type 0
  ComesFrom res = CanGive res ⊎ ((res ≡ TrialRes.pass) × HasExitedLate)

  abbrev Given : TrialRes → Type 0
  Given res = res ≢ TrialRes.fail → res ≢ TrialRes.error → ComesFrom res

  -- Of the child that has this pipe, this process and this world: only bytes that the child wrote
  -- come out of the pipe.
  pub record Reports (fd : ℕ) (child : W) : Type 0 where
    pub reads :
        (w : W) (res : TrialRes)
        → (os.read fd w).0 ≡ ReadRes.byte res
        → (child_run os t fd args child).written ≡ some res

  either_Given : (b : Bool) (res : TrialRes) → Given res → Given (if b then res else TrialRes.error)
  either_Given true res h not_fail not_error = h not_fail not_error
  either_Given false res h not_fail not_error = absurd (not_error refl)

  child_written-Given :
      (fd : ℕ) (child : W) (res : TrialRes)
      → (child_run os t fd args child).written ≡ some res
      → Given res
  unfolding child_run
  child_written-Given fd child res e not_fail not_error =
      inl ((run_fork_post_hook os t args (os.close fd child)).1, ground arith)

  Reports-told :
      (fd pid : ℕ) (child before : W)
      → IsPipe fd
      → (os.fork before).0 ≡ ForkRes.forked pid child
      → Reports fd child
      → IsTold os pid fd Given
  Reports-told fd pid child before piped forked told = record {
    reads = λ w res e. child_written-Given fd child res (told.reads w res e);
    exits = λ late exited _ _. inr (
      refl,
      record {
        fd = fd;
        pid = pid;
        child = child;
        at_fork = before;
        forked = forked;
        piped = piped;
        late = late;
        exited = exited;
      },
    );
    failing = λ not_fail not_error. absurd (not_fail refl);
    erring = λ not_fail not_error. absurd (not_error refl);
  }

  parent_run-Given :
      (fuel fd pid : ℕ) (child before : W) (worker : Worker) (w : W)
      → worker.pipe ≡ fd
      → IsPipe fd
      → (os.fork before).0 ≡ ForkRes.forked pid child
      → Reports fd child
      → Ensures (λ r. Given r.0) (parent_run os t fuel pid worker w)
  unfolding parent_run
  parent_run-Given fuel fd pid child before worker w e piped forked told =
      let started : Worker = record worker { pid = pid; state = WorkerState.active } in
      let fresh : IsBacked os pid fd Given started = record {
        same_pid = refl;
        same_pipe = e;
        backed = λ h. cc;
      } in
      Ensures-bind (λ r. Given r.0 × IsBacked os pid fd Given r.1) (λ r. Given r.0)
        (parent_handle_child_call os fuel t.fork started (os.close worker.pipe w)) _
        (parent_handle-Given os pid fd Given (Reports-told fd pid child before piped forked told)
          fuel t.fork started (os.close worker.pipe w) fresh)
        λ r h.
          Ensures-bind (λ s. Unit {0}) (λ s. Given s.0)
            (step_waitpid os fuel _ (os.close worker.pipe r.2)) _ (Ensures-any _)
            λ s _. either_Given s.0 r.0 h.0

  -- What the loop around `fork` gives: the pipe is the same, and a child was forked.
  Forked : ℕ → Option (ℕ × W) → Worker → Type 0
  Forked fd none worker = worker.pipe ≡ fd
  Forked fd (some (pid, child)) worker =
      (worker.pipe ≡ fd) × ((w : W) × ((os.fork w).0 ≡ ForkRes.forked pid child))

  note_change-pipe :
      (fd pid : ℕ) (status : Status) (worker : Worker)
      → worker.pipe ≡ fd
      → (note_change pid status worker).pipe ≡ fd
  note_change-pipe fd pid status worker h = ground arith

  fork_round-Forked :
      (fuel tries tv_nsec fd : ℕ) (worker : Worker) (w : W) (res : ForkRes W)
      → (os.fork w).0 ≡ res
      → worker.pipe ≡ fd
      → ((worker' : Worker) (w' : W)
          → worker'.pipe ≡ fd
          → Ensures (λ r. Forked fd r.0 r.1) (fork_loop os fuel tries (tv_nsec * 2) worker' w'))
      → Ensures (λ r. Forked fd r.0 r.1) (fork_loop os fuel (suc tries) tv_nsec worker w)
  unfolding fork_loop Forked
  fork_round-Forked fuel tries tv_nsec fd worker w (ForkRes.forked pid child) e h ih =
      rw (e, fork_loop) (h, (w, e))
  fork_round-Forked fuel tries tv_nsec fd worker w ForkRes.failed e h ih = rw (e, fork_loop) h
  fork_round-Forked fuel tries tv_nsec fd worker w ForkRes.again e h ih =
      rw (e, fork_loop)
        (Ensures-bind (λ s. s.1.pipe ≡ fd) (λ r. Forked fd r.0 r.1)
          (step_waitpid os fuel worker (os.fork w).1) _
          (step_waitpid-keeps os (λ c. c.pipe ≡ fd)
            (λ w pid status worker e. note_change-pipe fd pid status worker) fuel worker
            (os.fork w).1 h)
          λ s same. retry s same)
    where
      retry :
          (s : Bool × Worker × W)
          → s.1.pipe ≡ fd
          → Ensures
              (λ r. Forked fd r.0 r.1)
              (if not s.0
                then done (none, s.1, s.2)
                else (if (os.nanosleep tv_nsec s.2).0 && not (leb (2 ^ max_fork_retries) tv_nsec)
                    then fork_loop os fuel tries (tv_nsec * 2) s.1 (os.nanosleep tv_nsec s.2).1
                    else done (none, s.1, (os.nanosleep tv_nsec s.2).1)))
      retry s same = ground (arith, ih s.1 (os.nanosleep tv_nsec s.2).1 same)

  fork_loop-Forked :
      (fuel tries tv_nsec fd : ℕ) (worker : Worker) (w : W)
      → worker.pipe ≡ fd
      → Ensures (λ r. Forked fd r.0 r.1) (fork_loop os fuel tries tv_nsec worker w)
  fork_loop-Forked fuel zero tv_nsec fd worker w h = unfold fork_loop in tt
  fork_loop-Forked fuel (suc tries) tv_nsec fd worker w h =
      fork_round-Forked fuel tries tv_nsec fd worker w (os.fork w).0 refl h
        (fork_loop-Forked fuel tries (tv_nsec * 2) fd)

  abbrev pub AllReport : ℕ → Type 0
  AllReport fd =
      (w : W) (pid : ℕ) (child : W) → (os.fork w).0 ≡ ForkRes.forked pid child → Reports fd child

  after_fork-Given :
      (fuel fd : ℕ) (r : Option (ℕ × W) × Worker × W)
      → IsPipe fd
      → AllReport fd
      → Forked fd r.0 r.1
      → Ensures (λ s. Given s.0) (after_fork os t fuel r)
  unfolding Forked
  after_fork-Given fuel fd (none, worker, w) piped told h =
      λ not_fail not_error. absurd (not_error refl)
  after_fork-Given fuel fd (some (pid, child), worker, w) piped told (same, (before, e)) =
      parent_run-Given fuel fd pid child before worker w same piped e (told before pid child e)

  call_forked-Given :
      (fuel fd : ℕ) (worker : Worker) (w : W)
      → IsPipe fd
      → AllReport fd
      → Ensures (λ s. Given s.0) (call_forked os t fuel fd worker w)
  unfolding call_forked
  call_forked-Given fuel fd worker w piped told =
      Ensures-bind (λ r. Forked fd r.0 r.1) (λ s. Given s.0) (fork_loop os fuel 11 1 _ w) _
        (fork_loop-Forked fuel 11 1 fd _ w refl) λ r h. after_fork-Given fuel fd r piped told h

  call_piped-Given :
      (fuel : ℕ) (fd? : Option ℕ) (worker : Worker) (w : W)
      → ((fd : ℕ) → fd? ≡ some fd → IsPipe fd)
      → ((fd : ℕ) → fd? ≡ some fd → AllReport fd)
      → Ensures (λ s. Given s.0) (call_piped os t fuel fd? worker w)
  call_piped-Given fuel none worker w piped told = λ not_fail not_error. absurd (not_error refl)
  call_piped-Given fuel (some fd) worker w piped told =
      call_forked-Given fuel fd worker w (piped fd refl) (told fd refl)

  in_process-Given :
      (worker : Worker) (w : W) (code : Option ℕ)
      → Ensures {A = TrialRes × Worker × W}
          (λ s. Given s.0)
          (elim code [
            | none ↦ done ((call_inner os t args w).0, worker, (call_inner os t args w).1)
            | some n ↦ aborted
          ])
  in_process-Given worker w none = λ not_fail not_error. inl (w, refl)
  in_process-Given worker w (some n) = tt

  call-Given :
      (fuel : ℕ) (worker : Worker) (w : W)
      → ((fd : ℕ) → (os.pipe w).0 ≡ some fd → AllReport fd)
      → Ensures (λ s. Given s.0) (call os t fuel args worker w)
  unfolding call
  call-Given fuel worker w told =
      Ensures-if (λ s. Given s.0) t.fork.enable _ _
        (call_piped-Given fuel (os.pipe w).0 worker (os.pipe w).1 (λ fd e. (w, e)) told)
        (in_process-Given worker w (exits_itself os t args w))

  -- A result of theft_call other than FAIL and ERROR is one that the property gives on the
  -- arguments in some state of the world, also where it was called in a worker process; provided
  -- that only a byte that the worker wrote comes out of its pipe; but for a PASS of a worker that
  -- was forked, where poll timed out on a pipe that was made for a call and waitpid reported that
  -- the worker exited with success.
  pub call-CanGive :
      (fuel : ℕ) (worker worker' : Worker) (w w' : W) (res : TrialRes)
      → ((fd : ℕ) → (os.pipe w).0 ≡ some fd → AllReport fd)
      → call os t fuel args worker w ≡ done (res, worker', w')
      → res ≢ TrialRes.fail
      → res ≢ TrialRes.error
      → ComesFrom res
  call-CanGive fuel worker worker' w w' res told e =
      Ensures-done (λ s. Given s.0) (call os t fuel args worker w) (res, worker', w')
        (call-Given fuel worker w told) e
