-- ===== src/Hooks.antt =====
-- src/theft_aux.c: the hook `theft_hook_first_fail_halt`.
pub mod FirstFail
mod Tests
use theft.Base.{if◌then◌else◌, ltb}
use theft.Types.{TrialPreRes}
use theft.Theft.{PreInfo}

unfoldable pub first_fail_halt : {W : Type 0} → PreInfo → W → TrialPreRes × W
first_fail_halt info w = (if ltb 0 info.failures then TrialPreRes.halt else TrialPreRes.continue, w)
