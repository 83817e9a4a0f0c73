-- ===== src/Buffer/Calls.antt =====
-- The calls of a client on a `SmartBuffer`.
use chanjet.Common.{List, [], ◌∷◌}
use chanjet.Buffer.{SmartBuffer, set_state, len, write, pop, reset}
use chanjet.Buffer.Queue.{
  Op, write_op, pop_op, len_op, reset_op, set_state_op, Reply, wrote, popped, measured, done,
}

-- The calls of a client on a `SmartBuffer`, one after the other.
unfoldable pub step : Op → SmartBuffer → SmartBuffer × Reply
unfolding write pop len reset set_state
step (write_op x) s = let (s', r) = write x s in (s', wrote r)
step pop_op s = let (s', r) = pop s in (s', popped r)
step len_op s = (s, measured (len s))
step reset_op s = (reset s, done)
step (set_state_op k) s = (set_state k s, done)

unfoldable pub run : List Op → SmartBuffer → List Reply
run [] s = []
run (op ∷ ops) s = let (s', r) = step op s in r ∷ run ops s'
