-- ===== src/Blockimg/Sink.antt =====
-- updater/blockimg.cpp: `RangeSinkWrite`, and `receive_new_data` of the thread that unpacks new data. The
-- main thread waits while the other one writes, so that their steps come one after the other.
use recovery.Base.{
  ℕ, suc, zero, ◌+◌, ◌-◌, ◌*◌, ◌==◌, ltb, Bool, true, false, not, List, [], ◌∷◌, length, take, drop,
  Text, if◌then◌else◌,
}
use recovery.Blockimg.Ranges.{start_of, block_size}
use recovery.Blockimg.Machine.{
  Env, Machine, RangeSinkState, Outcome, ok, failed, exited, fault, hung, M, ◌>>◌,
}
use recovery.Blockimg.Transfer.{device, smaller, write_all, discard_blocks, check_lseek, range_size}

abbrev pub is_ok : {A : Type 0} → Outcome A → Bool
is_ok (ok _) = true
is_ok failed = false
is_ok exited = false
is_ok fault = false
is_ok hung = false

abbrev pub set_sink : (RangeSinkState → RangeSinkState) → Machine → Machine
set_sink f m = record m { sink = f m.sink }

-- The sink moves to its next range; false where the loop breaks.
unfoldable pub next_range : Env → Machine → Bool × Machine
next_range env m =
    let i = m.sink.p_block + 1 in
    let size = range_size m.sink.tgt i in
    let place = start_of m.sink.tgt i * block_size in
    let r =
      (discard_blocks env place size >> check_lseek env place)
        (set_sink (λ s. record s { p_block = i; p_remain = size }) m) in
    if ltb i m.sink.tgt.count
    then (is_ok r.0, r.1)
    else (false, set_sink (λ s. record s { p_block = i }) m)

-- One round of the loop on what is left to write: how many bytes are written, and whether it goes on.
unfoldable pub sink_round : Env → Text → Machine → ℕ × Bool × Machine
sink_round env part m =
    let now = smaller (length part) m.sink.p_remain in
    let r = write_all env device (take now part) m in
    let left = set_sink (λ s. record s { p_remain = s.p_remain - now }) r.1 in
    let moved = next_range env left in
    if not (is_ok r.0)
    then (0, false, r.1)
    else if m.sink.p_remain - now == 0
    then (now, moved.0, moved.1)
    else (now, true, left)

unfoldable pub sink_loop : Env → ℕ → Text → Machine → ℕ × Machine
sink_loop env zero part m = (0, m)
sink_loop env (suc fuel) [] m = (0, m)
sink_loop env (suc fuel) (b ∷ part) m =
    let (now, more, m') = sink_round env (b ∷ part) m in
    let rest = sink_loop env fuel (drop now (b ∷ part)) m' in
    if more then (now + rest.0, rest.1) else (now, m')

-- `RangeSinkWrite`: each round writes a byte or ends a range.
unfoldable pub range_sink_write : Env → Text → Machine → ℕ × Machine
range_sink_write env part m =
    if m.sink.p_remain == 0 then (0, m) else sink_loop env (length part + m.sink.tgt.count) part m

abbrev pub put_back : Text → List Text → List Text
put_back [] chunks = chunks
put_back (b ∷ part) chunks = (b ∷ part) ∷ chunks

-- The rounds of `receive_new_data`, over its calls, while the main thread waits for the sink to be full. It
-- waits for ever if no more data come.
unfoldable pub receive : Env → ℕ → List Text → M (Unit {0})
receive env zero chunks m = (hung, m)
receive env (suc fuel) [] m = (hung, m)
receive env (suc fuel) ([] ∷ chunks) m = receive env fuel chunks m
receive env (suc fuel) ((b ∷ part) ∷ chunks) m =
    let (written, m') = range_sink_write env (b ∷ part) m in
    let left = put_back (drop written (b ∷ part)) chunks in
    let rest = receive env fuel left m' in
    if m'.sink.p_block == m'.sink.tgt.count then (ok tt, record m' { new_data = left }) else rest

-- The bytes and the calls to come.
unfoldable pub amount : List Text → ℕ
amount [] = 0
amount (part ∷ chunks) = suc (length part) + amount chunks
