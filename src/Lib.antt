-- ===== src/Lib.antt =====
-- theft is a property-based testing library for C: it generates arguments for a property, calls
-- it, and shrinks the arguments of a failing trial to a simpler counterexample. This development
-- models its runner, its worker processes, its shrinker, its bloom filter, its hash and its
-- autoshrinker, and proves what they promise each other and the user.
--
-- The parts, from the bottom up (paths are from the repository's root):
--   Base        shared numbers, lists, words and byte arrays, with their lemmas.
--   Hash        src/theft_hash.c: theft_hash_init, _sink, _done, _onepass.
--   Bloom       src/theft_bloom.c: theft_bloom_init, _mark, _check. Children: Valid (the
--               invariant), Mark and Step (the loops and one marking), Laws, Growth.
--   Types       the result enumerations of inc/theft_types.h and of the internal headers, and
--               `Outcome`, the results of code that can fail an assertion or never end.
--   Theft       src/theft_types_internal.h: `Setup` is the part of struct theft that a run does
--               not change (property, callbacks, hooks, seeds), `Theft` is the part that it does.
--   Call        src/theft_call.c: the bloom filter of argument tuples.
--   Worker      src/theft_call.c: theft_call, which calls the property in this process or in a
--               worker process, and waits for it. The system calls are the record `System`.
--               Children: Ends (it returns), Told and Passing (where a result comes from).
--   Shrink      src/theft_shrink.c: theft_shrink, attempt_to_shrink_arg and the three hooks.
--               Children: Args, Settled and Failing (what is left in place), Frame (what is
--               not touched), Ends and Termination (how much fuel is enough).
--   Trial       src/theft_trial.c: theft_trial_run, report_on_failure, theft_trial_free_args.
--   Run         src/theft_run.c: theft_run_trials, run_step, gen_all_args. Children: Counts (a
--               step), Totals (a run).
--   Init        src/theft_run.c: what theft_run_init accepts, and the settings it derives.
--   Entry       src/theft.c: theft_run, which puts Init, Run and Worker's theft_call_inner together,
--               and theft_generate. Child: Failing (where a FAIL comes from).
--   Hooks       src/theft_aux.c: theft_hook_first_fail_halt. Child: FirstFail (a run with it).
--   Builtin     src/theft_aux_builtin.c: the alloc callbacks of the built-in scalars and arrays.
--               Children: Scalars (type and limit), Arrays (what is written, and where).
--   Random      src/theft_random.c: theft_random_bits, a buffer over the generator's words.
--   Model       src/theft_autoshrink.c: the weights by which the autoshrinker chooses its action.
--               Children: Weights (their ranges and moves), Draws (the choice).
--   Pool        src/theft_autoshrink.c: struct autoshrink_bit_pool, and the runs of bits in it.
--               Children: Cursor, Value (what a run spells), OneBit, Bits (writing runs),
--               Number (the buffer as one number), Truncated.
--   Mutate      src/theft_autoshrink.c: choose_and_mutate_request, its four mutations, and the loop
--               of mutate_bit_pool. Children: Lowered (SHIFT, MASK and SUB), Swapped (SWAP), Kept and
--               Bytes (the buffer), and Asserted (the assertions).
--   Fill        src/theft_autoshrink.c: the pool as a source of random bits for an alloc callback,
--               from theft_autoshrink_bit_pool_random on. Children: Words, Buffer and Loop (copying
--               bits out), Supply (growing and filling), Taken (a request), Agree (pools with the
--               same bits).
--   Autoshrink  src/theft_autoshrink.c: theft_autoshrink_alloc, _hash and, in the child Attempt,
--               theft_autoshrink_shrink. Children: Requests (the pool that is left), Taking and
--               Replay (an instance made again), Parts, Written and Drop (what drop_from_bit_pool
--               leaves), Copy, Indexed and Sound (an attempt as a whole).
--
-- How they interact: Run generates arguments and hands them to Trial; Trial marks them in the
-- bloom filter through Call, calls the property and, on a failure, calls Shrink; Shrink asks the
-- type's callback or the autoshrinker for a candidate, skips it if Call knows it, and calls the
-- property again. Entry starts all of it from a configuration. The autoshrinker is an interface
-- there (`Theft.Autoshrink`), with the pointer to a bit pool as a parameter type.
--
-- State is passed explicitly. What user callbacks, hooks, the PRNG and the memory share is one
-- parameter type `W`, the world, which each call takes and returns; instances are of a parameter
-- type `I`, pools of a parameter type `P` of the runner. The runner takes theft_call (Worker)
-- and the autoshrinker as functions, `Setup.call` and the record `Theft.Autoshrink`. An alloc
-- callback of an autoshrunk type is a `Gen`, the tree of its draws of random bits. Words are
-- read and written in a pool's buffer of bytes as by a machine that stores the lowest byte
-- first. A failed assertion is `Outcome.aborted` (`none` in Bloom), as is the end of the whole process
-- where a property that is called in it exits. Whether the runner draws from an injected pool is the
-- `in_use` of Autoshrink's `Source`.
--
-- Fuel: three loops end only when a hook or a callback lets them, and take fuel: the calls with
-- one candidate while a hook says REPEAT, the rounds of theft_shrink while candidates go on
-- failing, and the calls of report_on_failure while a hook says REPEAT. `no_fuel` is the end
-- without a result. How many rounds theft_shrink needs is in Shrink.Termination; the other two
-- need one call more than the hook asks for. The loop over tactics runs THEFT_MAX_TACTICS times,
-- the one over trials trial_count times. The loop of get_weighted_mutation for the number of
-- bits has 16 rounds, of which a valid model needs at most two. Its loop of draws takes fuel, as
-- the generator may never name a mutation. theft_random_bits_bulk has as many rounds as bits,
-- and each takes one at least; the same holds of fill_buf. char_ARRAY_alloc needs as many rounds
-- as its maximal length, and without one may go on for ever. The loops that grow and fill a pool
-- have one round more than the bits that are needed, and each adds a bit at least. The loop
-- around fork has 11 rounds, after which its sleep is too long; those around waitpid, poll and
-- read take fuel, as they go on while the system says so; a poll that blocks for ever, as one without a
-- timeout may, is `no_fuel` too.
--
-- Sizes and counters are natural numbers without a bound: size_t counters of trials do not come
-- near a wrap. uint8_t weights and masks, and 64-bit hashes, wrap as written.
--
-- Not modelled: printing and logging, floating point, freeing of memory other than the calls of
-- free callbacks, the Mersenne twister (a copy of other code; the parameter `next` of Random and
-- of Fill, while `set_seed` and `random` of Setup are the generator as the runner sees it),
-- requests that are not saved, and the hooks that print. A property that is called in the process of
-- the runner, as by Entry, returns; that it may call exit is in Worker.
pub mod Autoshrink
pub mod Base
pub mod Bloom
pub mod Builtin
pub mod Call
pub mod Entry
pub mod Fill
pub mod Hash
pub mod Hooks
pub mod Init
pub mod Model
pub mod Mutate
pub mod Pool
pub mod Random
pub mod Run
pub mod Shrink
pub mod Theft
pub mod Trial
pub mod Types
pub mod Worker
