-- ===== src/Blockimg/Machine.antt =====
-- updater/blockimg.cpp: what the transfer commands read and change. `CommandParameters` and the globals of
-- the file are in one state, with the device, the files on /cache, and a clock that counts system calls.
use recovery.Base.{ℕ, ◌+◌, Bool, true, false, List, Text, Option, none, some}
use recovery.ErrorCode.{CauseCode}
use recovery.Edify.Defs.{State, error_abort}
use recovery.Freecache.Defs.{System, Less}
use recovery.Applypatch.Bspatch.{Bzip2}
use recovery.Applypatch.Imgpatch.{Zlib}
use recovery.Blockimg.Ranges.{RangeSet}

-- What the functions call that is not of this repository, at each time of the clock. A read or a write
-- that succeeds tells how many bytes it moves; `discarded` is what a place reads as once it is discarded.
-- `retries` bounds the rounds in which new data are offered again after a failed write.
pub record Env : Type 0 where
  pub read_result : ℕ → ℕ → Option ℕ
  pub write_result : ℕ → ℕ → Option ℕ
  pub fails : ℕ → Bool
  pub discarded : ℕ → ℕ → ℕ
  pub is_block_device : Bool
  pub strerror : ℕ → Text
  pub sha1 : Text → List ℕ
  pub split : ℕ → Text → List Text
  pub parse_uint : Text → ℕ → Option ℕ
  pub parse_int : Text → ℕ → ℕ → Option ℕ
  pub cache : ℕ → System
  pub less : Less
  pub bzip2 : Bzip2
  pub zlib : Zlib
  pub retries : ℕ

-- The fields of `CommandParameters` that the functions of this file change or test. The file
-- descriptor is the device; what stands behind `patch_start` in the package is `patch_data`.
pub record CommandParameters : Type 0 where
  pub tokens : List Text
  pub cpos : ℕ
  pub cmdname : Text
  pub freestash : Text
  pub stashbase : Text
  pub canwrite : Bool
  pub createdstash : Bool
  pub foundwrites : Bool
  pub isunresumable : Bool
  pub version : ℕ
  pub written : ℕ
  pub stashed : ℕ
  pub patch_data : Text

-- `struct RangeSinkState`; its descriptor is the device.
pub record RangeSinkState : Type 0 where
  pub tgt : RangeSet
  pub p_block : ℕ
  pub p_remain : ℕ

-- `buffer` is `params.buffer`; `new_data` is what the other thread has yet to unpack, as it comes.
pub record Machine : Type 0 where
  pub params : CommandParameters
  pub buffer : Text
  pub device : Text
  pub offset : ℕ
  pub files : List (Text × Text)
  pub dirs : List Text
  pub stash_map : List (Text × RangeSet)
  pub failure_type : CauseCode
  pub is_retry : Bool
  pub sink : RangeSinkState
  pub new_data : List Text
  pub state : State
  pub tick : ℕ

-- How a call ends: with a value, with -1, with `exit(1)`, with undefined behaviour, or never.
pub data Outcome (A : Type 0) : Type 0 where
  ok : A → Outcome A
  failed : Outcome A
  exited : Outcome A
  fault : Outcome A
  hung : Outcome A

abbrev pub M : Type 0 → Type 0
M A = Machine → Outcome A × Machine

abbrev pub and_then : {A B : Type 0} → (A → M B) → Outcome A × Machine → Outcome B × Machine
and_then f (ok a, m) = f a m
and_then f (failed, m) = (failed, m)
and_then f (exited, m) = (exited, m)
and_then f (fault, m) = (fault, m)
and_then f (hung, m) = (hung, m)

infixl 5 ◌>>=◌ ◌>>◌
unfoldable pub ◌>>=◌ : {A B : Type 0} → M A → (A → M B) → M B
◌>>=◌ f g m = and_then g (f m)

unfoldable pub ◌>>◌ : {B : Type 0} → M (Unit {0}) → M B → M B
◌>>◌ f g = f >>= λ _. g

unfoldable pub pure : {A : Type 0} → A → M A
pure a m = (ok a, m)

unfoldable pub done : M (Unit {0})
done = pure tt

unfoldable pub get : M Machine
get m = (ok m, m)

unfoldable pub stop : {A : Type 0} → Outcome A → M A
stop r m = (r, m)

unfoldable pub modify : (Machine → Machine) → M (Unit {0})
modify f m = (ok tt, f m)

unfoldable pub set_params : (CommandParameters → CommandParameters) → M (Unit {0})
set_params f m = (ok tt, record m { params = f m.params })

-- A -1 as a value, for a caller that goes on.
abbrev pub caught : {A : Type 0} → Outcome A × Machine → Outcome (Option A) × Machine
caught (ok a, m) = (ok (some a), m)
caught (failed, m) = (ok none, m)
caught (exited, m) = (exited, m)
caught (fault, m) = (fault, m)
caught (hung, m) = (hung, m)

unfoldable pub attempt : {A : Type 0} → M A → M (Option A)
attempt f m = caught (f m)

-- A call over a buffer of its own: the buffer is handed back with the result.
abbrev pub with_own : {A : Type 0} → Text → Outcome A × Machine → Outcome (A × Text) × Machine
with_own own (ok a, m) = (ok (a, m.buffer), record m { buffer = own })
with_own own (failed, m) = (failed, record m { buffer = own })
with_own own (exited, m) = (exited, m)
with_own own (fault, m) = (fault, m)
with_own own (hung, m) = (hung, m)

unfoldable pub with_buffer : {A : Type 0} → Text → M A → M (A × Text)
with_buffer other f m = with_own m.buffer (f (record m { buffer = other }))

-- `failure_type = cause; return -1;`
unfoldable pub fail_as : {A : Type 0} → CauseCode → M A
fail_as cause m = (failed, record m { failure_type = cause })

-- `ErrorAbort(state, cause, message); return -1;`
unfoldable pub abort_with : {A : Type 0} → CauseCode → Text → M A
abort_with cause message m =
    (failed, record m { state = (error_abort {A = Unit {0}} cause message m.state).1 })

-- A system call that tells only whether it fails.
unfoldable pub system_call : Env → M Bool
system_call env m = (ok (env.fails m.tick), record m { tick = m.tick + 1 })

unfoldable pub or_fail : M (Unit {0}) → Bool → M (Unit {0})
or_fail failure true = failure
or_fail failure false = done

unfoldable pub require : M Bool → M (Unit {0}) → M (Unit {0})
require f failure = f >>= or_fail failure
