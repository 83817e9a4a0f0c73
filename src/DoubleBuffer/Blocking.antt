-- ===== src/DoubleBuffer/Blocking.antt =====
-- core/double_buffer.go: `BlockingRead`, in the stages of the reader's goroutine. Between two stages
-- any other goroutine may take steps. The context is whether it is done; which of the ready cases
-- `select` takes is an argument.
pub mod Wakeup
pub mod Stop
mod Tests
use chanjet.Common.{
  ℕ, ◌-◌, ◌<◌, Bool, true, false, ◌||◌, not, Option, none, some, ltb, ◌==◌, if◌then◌else◌,
}
use chanjet.Common.Int.{ℤ}
use chanjet.Common.Run.{Run, ok, err, panic, buffer_close}
use chanjet.Waiters.{
  Channel, put_channel, Waiter, id_of, channel_of, WaiterManager, register, unregister,
}
use chanjet.DoubleBuffer.{DoubleBuffer}
use chanjet.DoubleBuffer.Read.{DataChunk, Reading, try_read}

-- What the call returns: a chunk, an error or a panic of its own, or the error of the context.
pub data Answer : Type 0 where
  answered : Run DataChunk → Answer
  context_error : Answer

-- Before the first `tryRead`, after it failed, in the `select`, before the second `tryRead`, before
-- the deferred `unregister`, and at the end.
pub data Phase : Type 0 where
  entered missed : Phase
  blocked : Waiter → Phase
  retrying : Waiter → Phase
  leaving : ℕ → Answer → Phase
  finished : Answer → Phase

pub data Case : Type 0 where
  told_case done_case stop_case : Case

-- What the code leaves open at a stage.
pub record Choices : Type 0 where
  pub now : ℤ
  pub object : ℕ
  pub done : Bool
  pub select_case : Case

unfoldable pub after_first : Run DataChunk → Phase
after_first (ok chunk) = finished (answered (ok chunk))
after_first (err _) = missed
after_first panic = finished (answered panic)

abbrev pub moved : (Run DataChunk → Phase) → Option Reading → Option (Phase × DoubleBuffer)
moved next none = none
moved next (some (d, r)) = some (next r, d)

unfoldable pub enlist : ℕ → DoubleBuffer → Phase × DoubleBuffer
enlist object d = let (w, wm) = register object d.wm in (blocked w, record d { wm = wm })

-- A receive from `ch`. A closed channel gives its tokens first, and is always ready.
unfoldable pub receive_token : ℕ → WaiterManager → WaiterManager
receive_token ch w =
    let c = w.chans ch in
    record w { chans = put_channel w.chans ch (record c { tokens = c.tokens - 1 }) }

unfoldable pub is_ready : Case → Bool → Waiter → DoubleBuffer → Bool
is_ready told_case done w d = let ch = d.wm.chans (channel_of w) in ltb 0 ch.tokens || ch.closed
is_ready done_case done w d = done
is_ready stop_case done w d = d.stopped

unfoldable pub take_case : Case → Waiter → DoubleBuffer → Phase × DoubleBuffer
unfolding receive_token
take_case told_case w d = (retrying w, record d { wm = receive_token (channel_of w) d.wm })
take_case done_case w d = (leaving (id_of w) context_error, d)
take_case stop_case w d = (leaving (id_of w) (answered (err buffer_close)), d)

-- The `select`: a reader with no ready case stays where it is.
unfoldable pub select : Choices → Waiter → DoubleBuffer → Phase × DoubleBuffer
unfolding is_ready take_case
select c w d =
    if is_ready c.select_case c.done w d then take_case c.select_case w d else (blocked w, d)

-- The next stage. No value only if a loop of the heap runs out of fuel.
unfoldable pub advance : Choices → Phase → DoubleBuffer → Option (Phase × DoubleBuffer)
unfolding after_first enlist select
advance c entered d = moved after_first (try_read c.now d)
advance c missed d = some (enlist c.object d)
advance c (blocked w) d = some (select c w d)
advance c (retrying w) d = moved (λ r. leaving (id_of w) (answered r)) (try_read c.now d)
advance c (leaving id a) d = some (finished a, record d { wm = unregister id d.wm })
advance c (finished a) d = some (finished a, d)
