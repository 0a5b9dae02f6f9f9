-- ===== src/Worker.antt =====
-- src/theft_call.c, `theft_call`: a call of the property, in this process or in a worker process.
-- The operating system is a parameter, `System`: each of its calls takes and returns the world `W`.
-- A loop that ends only when the system lets it takes fuel.
pub mod Ends
pub mod Told
pub mod Passing
mod Tests
use theft.Base.{
  ℕ, zero, suc, ◌+◌, ◌*◌, ◌%◌, ◌^◌, Bool, true, false, not, ◌&&◌, ◌||◌, Option, none, some, List,
  [], ◌∷◌,
}
use theft.Base.{ltb, leb, ◌==◌, if◌then◌else◌, take}
use theft.Types.{TrialRes, Outcome, done, aborted, no_fuel, ◌>>=◌}

-- `enum worker_state`
pub data WorkerState : Type 0 where
  inactive active stopped : WorkerState

-- What `WIFEXITED` and `WEXITSTATUS` read from a status of `waitpid`.
pub data Status : Type 0 where
  exited : ℕ → Status
  signaled : Status

-- `struct worker_info`, whose pipe is one descriptor.
pub record Worker : Type 0 where
  pub state : WorkerState
  pub pipe : ℕ
  pub pid : ℕ
  pub wstatus : Status

-- `struct fork_info`
pub record ForkInfo : Type 0 where
  pub enable : Bool
  pub timeout : ℕ
  pub signal : ℕ
  pub exit_timeout : ℕ

-- `enum theft_hook_fork_post_res` and `struct theft_hook_fork_post_info`
pub data ForkPostRes : Type 0 where
  error continue : ForkPostRes

pub record ForkPostInfo (I : Type 0) : Type 0 where
  pub total_trials : ℕ
  pub failures : ℕ
  pub run_seed : ℕ
  pub arity : ℕ
  pub args : List I

-- What `theft_call` reads of `struct theft`; the property function of the arity is given its
-- arguments as a list. A property may call `exit` itself: then `own_exit` is the code.
pub record CallSetup (I W : Type 0) : Type 0 where
  pub arity : ℕ
  pub prop : List I → W → TrialRes × W
  pub own_exit : List I → W → Option ℕ
  pub fork : ForkInfo
  pub fork_post : Option (ForkPostInfo I → W → ForkPostRes × W)
  pub total_trials : ℕ
  pub failures : ℕ
  pub run_seed : ℕ

-- The results of the system's calls. `fork` gives the parent the process of the child, and the
-- child a world of its own. `interrupted` is EAGAIN or EINTR, where the code tries again. A `poll`
-- that `blocks` never returns, as one without a timeout does on a worker that never ends.
pub data ForkRes (W : Type 0) : Type 0 where
  forked : ℕ → W → ForkRes W
  again failed : ForkRes W

pub data PollRes : Type 0 where
  ready timed_out interrupted failed blocks : PollRes

pub data ReadRes : Type 0 where
  byte : TrialRes → ReadRes
  closed interrupted failed : ReadRes

pub data WaitRes : Type 0 where
  changed : ℕ → Status → WaitRes
  unchanged no_children failed : WaitRes

-- `pipe` is none where it fails; `poll` waits for ever at none; `kill`, `nanosleep` and `write` say
-- whether they succeed. A byte in a pipe is a `TrialRes`, as the code casts it both ways.
pub record System (W : Type 0) : Type 0 where
  pub pipe : W → Option ℕ × W
  pub fork : W → ForkRes W × W
  pub poll : ℕ → Option ℕ → W → PollRes × W
  pub read : ℕ → W → ReadRes × W
  pub write : ℕ → TrialRes → W → Bool × W
  pub close : ℕ → W → W
  pub kill : ℕ → ℕ → W → Bool × W
  pub waitpid : W → WaitRes × W
  pub nanosleep : ℕ → W → Bool × W

abbrev pub max_fork_retries : ℕ
max_fork_retries = 10

abbrev pub def_kill_signal : ℕ
def_kill_signal = 15

abbrev pub sigkill : ℕ
sigkill = 9

abbrev pub def_exit_timeout_msec : ℕ
def_exit_timeout_msec = 100

abbrev pub kill_time : ℕ
kill_time = 10

abbrev pub one_msec : ℕ
one_msec = 1000000

-- The timeout that `poll` is given: an `int`, of which 0 is made -1, and below 0 it has none.
abbrev pub poll_timeout : ℕ → Option ℕ
poll_timeout timeout = let n = timeout % 2 ^ 32 in if n == 0 || leb (2 ^ 31) n then none else some n

abbrev pub is_stopped : WorkerState → Bool
is_stopped stopped = true
is_stopped _ = false

abbrev pub is_success : Status → Bool
is_success (exited code) = code == 0
is_success signaled = false

-- How a round of the loop of `wait_for_exit` ends: `return`, `break`, or another round.
pub data WaitRound : Type 0 where
  goes_on breaks fails : WaitRound

-- What a child leaves behind: the byte that it wrote, if any, and whether it exits with success.
pub record ChildEnd : Type 0 where
  pub written : Option TrialRes
  pub success : Bool

-- What `step_waitpid` keeps of a child that changed its state.
abbrev pub note_change : ℕ → Status → Worker → Worker
note_change pid status worker =
    if pid == worker.pid then record worker { state = stopped; wstatus = status } else worker

-- The result where a byte, or the end of the pipe, was to be read.
abbrev pub read_result : ReadRes → TrialRes
read_result (byte res) = res
read_result closed = TrialRes.fail
read_result _ = TrialRes.error

-- The result where the worker was killed, and waited for.
abbrev pub killed_result : Bool → Worker → TrialRes
killed_result waited worker =
    if not waited
    then TrialRes.error
    else (if is_stopped worker.state && is_success worker.wstatus
        then TrialRes.pass
        else TrialRes.fail)

abbrev pub is_pass : TrialRes → Bool
is_pass TrialRes.pass = true
is_pass _ = false

module _ {W : Type 0} (os : System W) where
  -- `step_waitpid`. Where `waitpid` fails it returns THEFT_TRIAL_ERROR, which is not 0, as a bool.
  unfoldable pub step_waitpid : ℕ → Worker → W → Outcome (Bool × Worker × W)
  step_waitpid zero worker w = no_fuel
  step_waitpid (suc fuel) worker w =
      let r = os.waitpid w in
      elim (r.0) [
        | no_children ↦ done (true, worker, r.1)
        | failed ↦ done (true, worker, r.1)
        | unchanged ↦ done (true, worker, r.1)
        | changed pid status ↦ step_waitpid fuel (note_change pid status worker) r.1
      ]

  -- The SIGKILL of `wait_for_exit`, sent in the round after the timeout. The code asks whether the
  -- result of `kill`, which is -1 then, is ESRCH, so that any failure ends the loop.
  unfoldable pub kill_late : ℕ → ℕ → Worker → W → Bool × W
  kill_late i timeout worker w = if i == timeout then os.kill worker.pid sigkill w else (true, w)

  -- The rest of a round, once `step_waitpid` has returned.
  unfoldable pub after_step : ℕ → ℕ → Bool × Worker × W → WaitRound × Worker × W
  after_step i timeout (stepped, worker, w) =
      if not stepped
      then (fails, worker, w)
      else (if is_stopped worker.state
          then (breaks, worker, w)
          else (let k = kill_late i timeout worker w in
              let n = os.nanosleep one_msec k.1 in
              if not k.0
              then (fails, worker, k.1)
              else (if n.0 then (goes_on, worker, n.1) else (fails, worker, n.1))))

  -- The loop of `wait_for_exit`, with the rounds that are left from round `i` on.
  unfoldable pub wait_from : ℕ → ℕ → ℕ → ℕ → Worker → W → Outcome (Bool × Worker × W)
  wait_from fuel zero i timeout worker w = done (true, worker, w)
  wait_from fuel (suc left) i timeout worker w = step_waitpid fuel worker w >>= λ s.
      let r = after_step i timeout s in
      elim (r.0) [
        | goes_on ↦ wait_from fuel left (i + 1) timeout r.1 r.2
        | breaks ↦ done (true, r.1, r.2)
        | fails ↦ done (false, r.1, r.2)
      ]

  unfoldable pub wait_for_exit : ℕ → ℕ → ℕ → Worker → W → Outcome (Bool × Worker × W)
  wait_for_exit fuel timeout kill_timeout worker w =
      wait_from fuel (timeout + kill_timeout) 0 timeout worker w

  -- The loop around `poll`.
  unfoldable pub poll_loop : ℕ → ℕ → Option ℕ → W → Outcome (PollRes × W)
  poll_loop zero fd timeout w = no_fuel
  poll_loop (suc fuel) fd timeout w =
      let r = os.poll fd timeout w in
      elim (r.0) [
        | blocks ↦ no_fuel
        | interrupted ↦ poll_loop fuel fd timeout r.1
        | res ↦ done (res, r.1)
      ]

  -- The loop around `read`.
  unfoldable pub read_loop : ℕ → ℕ → W → Outcome (ReadRes × W)
  read_loop zero fd w = no_fuel
  read_loop (suc fuel) fd w =
      let r = os.read fd w in
      elim (r.0) [ interrupted ↦ read_loop fuel fd r.1 | res ↦ done (res, r.1) ]

  -- `if (res == 0)` of `parent_handle_child_call`: the worker did not answer in time.
  unfoldable pub handle_timeout : ℕ → ForkInfo → Worker → W → Outcome (TrialRes × Worker × W)
  handle_timeout fuel info worker w =
      let k = os.kill worker.pid (if info.signal == 0 then def_kill_signal else info.signal) w in
      let exit_timeout =
        if info.exit_timeout == 0 then def_exit_timeout_msec else info.exit_timeout in
      let waited = wait_for_exit fuel exit_timeout kill_time worker k.1 >>= λ r.
      done (killed_result r.0 r.1, r.1, r.2) in
      if k.0 then waited else done (TrialRes.error, worker, k.1)

  unfoldable pub handle_answer : ℕ → Worker → W → Outcome (TrialRes × Worker × W)
  handle_answer fuel worker w =
      read_loop fuel worker.pipe w >>= λ r. done (read_result r.0, worker, r.1)

  -- What follows the loop around `poll`, which neither result of the third clause ends.
  unfoldable pub handle_poll : ℕ → ForkInfo → Worker → PollRes → W → Outcome (TrialRes × Worker × W)
  handle_poll fuel info worker timed_out w = handle_timeout fuel info worker w
  handle_poll fuel info worker ready w = handle_answer fuel worker w
  handle_poll fuel info worker PollRes.failed w = done (TrialRes.error, worker, w)
  handle_poll fuel info worker _ w = done (TrialRes.error, worker, w)

  unfoldable pub parent_handle_child_call :
      ℕ → ForkInfo → Worker → W → Outcome (TrialRes × Worker × W)
  parent_handle_child_call fuel info worker w =
      poll_loop fuel worker.pipe (poll_timeout info.timeout) w >>= λ r.
      handle_poll fuel info worker r.0 r.1

  -- The loop around `fork`, at the nanoseconds of its next sleep: the process and the world of the
  -- child, or none where the code returns THEFT_TRIAL_ERROR.
  unfoldable pub fork_loop : ℕ → ℕ → ℕ → Worker → W → Outcome (Option (ℕ × W) × Worker × W)
  fork_loop fuel zero tv_nsec worker w = no_fuel
  fork_loop fuel (suc tries) tv_nsec worker w =
      let r = os.fork w in
      elim (r.0) [
        | forked pid child ↦ done (some (pid, child), worker, r.1)
        | failed ↦ done (none, worker, r.1)
        | again ↦ step_waitpid fuel worker r.1 >>= λ s.
            let n = os.nanosleep tv_nsec s.2 in
            let next = fork_loop fuel tries (tv_nsec * 2) s.1 n.1 in
            if not s.0
            then done (none, s.1, s.2)
            else (if n.0 && not (leb (2 ^ max_fork_retries) tv_nsec)
                then next
                else done (none, s.1, n.1))
      ]

  module _ {I : Type 0} (t : CallSetup I W) where
    -- `theft_call_inner`: its `switch` has a case for each arity from 1 to 7.
    unfoldable pub call_inner : List I → W → TrialRes × W
    call_inner args w =
        if ltb 0 t.arity && ltb t.arity 8 then t.prop (take t.arity args) w else (TrialRes.error, w)

    unfoldable pub run_fork_post_hook : List I → W → ForkPostRes × W
    run_fork_post_hook args w = elim (t.fork_post) [
      | none ↦ (ForkPostRes.continue, w)
      | some hook ↦
          hook
            (record {
              total_trials = t.total_trials;
              failures = t.failures;
              run_seed = t.run_seed;
              arity = t.arity;
              args = args;
            })
            w
    ]

    -- The write of the child's last byte, and its `exit`.
    abbrev child_exit : ℕ → TrialRes → Bool → W → ChildEnd
    child_exit fd res may_succeed w =
        let wrote = (os.write fd res w).0 in
        record { written = if wrote then some res else none; success = wrote && may_succeed }

    -- Whether the property ends its process itself, and with which code.
    abbrev pub exits_itself : List I → W → Option ℕ
    exits_itself args w = t.own_exit (take t.arity args) w

    -- The child's part of `theft_call`.
    unfoldable pub child_run : ℕ → List I → W → ChildEnd
    child_run fd args w =
        let h = run_fork_post_hook args (os.close fd w) in
        let c = call_inner args h.1 in
        elim (h.0) [
          | error ↦ child_exit fd TrialRes.error false h.1
          | continue ↦ elim (exits_itself args h.1) [
            | none ↦ child_exit fd c.0 (is_pass c.0) c.1
            | some code ↦ record { written = none; success = code == 0 }
          ]
        ]

    -- The parent's part, once there is a child.
    unfoldable pub parent_run : ℕ → ℕ → Worker → W → Outcome (TrialRes × Worker × W)
    parent_run fuel pid worker w =
        let started = record worker { pid = pid; state = active } in
        parent_handle_child_call fuel t.fork started (os.close worker.pipe w) >>= λ r.
        step_waitpid fuel (record (r.1) { state = inactive }) (os.close worker.pipe r.2) >>= λ s.
        done (if s.0 then r.0 else TrialRes.error, s.1, s.2)

    -- `theft_call` with a worker, once the loop around `fork` has ended.
    abbrev pub after_fork : ℕ → Option (ℕ × W) × Worker × W → Outcome (TrialRes × Worker × W)
    after_fork fuel (none, worker, w) = done (TrialRes.error, worker, w)
    after_fork fuel (some (pid, child), worker, w) = parent_run fuel pid worker w

    unfoldable pub call_forked : ℕ → ℕ → Worker → W → Outcome (TrialRes × Worker × W)
    call_forked fuel fd worker w =
        fork_loop fuel (suc max_fork_retries) 1 (record worker { pipe = fd }) w >>= after_fork fuel

    -- With a worker, once `pipe` has returned.
    abbrev pub call_piped : ℕ → Option ℕ → Worker → W → Outcome (TrialRes × Worker × W)
    call_piped fuel none worker w = done (TrialRes.error, worker, w)
    call_piped fuel (some fd) worker w = call_forked fuel fd worker w

    -- Without a worker, a property that calls `exit` ends the whole process: `aborted`.
    unfoldable pub call : ℕ → List I → Worker → W → Outcome (TrialRes × Worker × W)
    call fuel args worker w =
        if t.fork.enable
        then call_piped fuel (os.pipe w).0 worker (os.pipe w).1
        else elim (exits_itself args w) [
          | none ↦ done ((call_inner args w).0, worker, (call_inner args w).1)
          | some code ↦ aborted
        ]
