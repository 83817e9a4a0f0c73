-- ===== src/DoubleBuffer/Delivery/Lasting.antt =====
-- Writes and the steps of the goroutines keep the buffers that come in next open for writes.
use chanjet.Common.{
  ℕ, ◌≡◌, sym, subst, ◌∙◌, Bool, Option, none, some, Option-cases, ◌==◌, if◌then◌else◌, inl, inr,
}
use chanjet.Common.Int.{ℤ}
use chanjet.Common.Run.{Run, ok, err, panic}
use chanjet.Consts.{writing_state, closed_state, read_only}
use chanjet.Consts.ReadMode.{validate}
use chanjet.Config.{receive, get_config}
use chanjet.Buffer.{Ptr, BufferItem}
use chanjet.DoubleBuffer.{
  DoubleBuffer, switch_channel, need_switch, monitor_tick, draw_number, file_buffer, take_note,
  tell,
}
use chanjet.DoubleBuffer.Write.{
  admit, write_active, write_slow, after_fast, write_item, write_admitted, write,
}
use chanjet.DoubleBuffer.Read.{DataChunk, register_read_mode, release}
use chanjet.DoubleBuffer.Ownership.{times-take_at}
use chanjet.DoubleBuffer.Handover.{file_lem}
use chanjet.DoubleBuffer.Valid.{IsValid, both, PoolsOnly, IsValid-new_parts, IsValid-new_config}
use chanjet.DoubleBuffer.Writing.{Writing, admit_lem}
use chanjet.DoubleBuffer.Steps.{
  Step, written, ticked, drawn, filed, told, tried, moded, released, registered, unregistered,
  received, closed, run_cleanup_lem,
}
use chanjet.DoubleBuffer.Delivery.{IsQuiet}
use chanjet.DoubleBuffer.Delivery.Quiet.{tell_next-WaitersOnly}
use chanjet.DoubleBuffer.Delivery.Ready.{Ready, Open, switch-Open, write_active-Open}

-- Writes.
module _ (choice : ℕ) (now : ℤ) (y : BufferItem) where
  slow-Open : (d : DoubleBuffer) → Open d → Open (write_slow choice now y d).0
  unfolding write_slow
  slow-Open d o =
      let full = (d.store d.active).state == read_only in
      write_active-Open (if full then switch_channel choice now d else d)
        (both Open full (switch-Open d o choice now) o) y

  fast-Open : (p : Writing) → Open p.0 → Open (after_fast (write_slow choice now y) p).0
  unfolding after_fast
  fast-Open (d, ok u) o = o
  fast-Open (d, err e) o = slow-Open d o
  fast-Open (d, panic) o = o

  item-Open : (d : DoubleBuffer) → Open d → Open (write_item choice now y d).0
  unfolding write_item
  item-Open d o =
      both (λ (p : Writing). Open p.0) (d.state == writing_state)
        (fast-Open (write_active y d) (write_active-Open d o y)) (slow-Open d o)

admitted-Open :
    (choice : ℕ) (now : ℤ) (d : DoubleBuffer) (r : Run BufferItem)
    → Open d
    → Open (write_admitted choice now (d, r)).0
unfolding write_admitted
admitted-Open choice now d (ok y) o = item-Open choice now y d o
admitted-Open choice now d (err e) o = o
admitted-Open choice now d panic o = o

pub pools-Open : (d d' : DoubleBuffer) → PoolsOnly d d' → Open d → Open d'
pools-Open d d' (pm, e) o = subst Open (sym e) (record {
  valid = IsValid-new_parts d d.store pm d.count o.valid;
  live = o.live;
  ready = o.ready;
})

pub write-Open :
    (copy : Ptr) (choice : ℕ) (now : ℤ) (item : BufferItem) (d : DoubleBuffer)
    → Open d
    → Open (write copy choice now item d).0
unfolding write
write-Open copy choice now item d o =
    both (λ (p : Writing). Open p.0) (d.state == closed_state) o
      (admitted-Open choice now (admit copy now item d).0 (admit copy now item d).1
        (pools-Open d (admit copy now item d).0 (admit_lem copy now item d) o))

-- Steps that do not touch the buffers.
tick-Open :
    (strategy : ℤ → ℤ → ℤ → ℤ → Bool) (choice : ℕ) (elapsed now : ℤ) (d : DoubleBuffer)
    → Open d
    → Open (monitor_tick strategy choice elapsed now d)
unfolding monitor_tick need_switch
tick-Open strategy choice elapsed now d o =
    let (scd, signalled) = receive d.scd in
    let (due, d') = need_switch strategy elapsed d in
    let o' : Open d' =
      both Open signalled
        (record {
          valid = IsValid-new_config d (get_config scd) scd d.read_mode o.valid;
          live = o.live;
          ready = o.ready;
        })
        o in
    both Open due (switch-Open d' o' choice now) o'

drawn-Ready : (k : ℕ) (d : DoubleBuffer) → Ready d → Ready (draw_number k d)
unfolding draw_number
drawn-Ready k d g = elim (times-take_at k d.spawned) [
  | inl e ↦ rw (e, draw_number) g
  | inr (b, rest, e, t) ↦ rw (e, draw_number) g
]

filed-Ready :
    (k : ℕ) (d d' : DoubleBuffer) → file_buffer k d ≡ some d' → IsValid d → Ready d → Ready d'
filed-Ready k d d' e v g = let f = file_lem k d v.heap in subst LeavesReady (sym f.ended ∙ e) g
  where
    LeavesReady : Option DoubleBuffer → Type 0
    LeavesReady (some d) = Ready d
    LeavesReady none = Unit

release-Ready : (c : DataChunk) (d : DoubleBuffer) → Ready d → Ready (release c d).1
unfolding release
release-Ready c d g = elim (Option-cases c.free) [
  | inl e ↦ rw (e, release) g
  | inr (f, e) ↦ let (pm, same) = run_cleanup_lem f d in rw (e, release) (rw same g)
]

pub quiet-Ready : {d d' : DoubleBuffer} (s : Step d d') → IsQuiet s → Open d → Ready d'
unfolding register_read_mode tell
quiet-Ready (written copy choice now item) q o = absurd q
quiet-Ready {d} (ticked strategy choice elapsed now) q o =
    (tick-Open strategy choice elapsed now d o).ready
quiet-Ready {d} (drawn k room) q o = drawn-Ready k d o.ready
quiet-Ready {d} {d'} (filed k e) q o = filed-Ready k d d' e o.valid o.ready
quiet-Ready {d} {d'} (told order k e) q o =
    subst Ready (sym (tell_next-WaitersOnly order (take_note k d.told) d d' e)) o.ready
quiet-Ready (tried now e) q o = absurd q
quiet-Ready {d} (moded mode) q o =
    both (λ (r : DoubleBuffer × Run (Unit {0})). Ready r.0) (validate mode) o.ready o.ready
quiet-Ready {d} (released c) q o = release-Ready c d o.ready
quiet-Ready {d} (registered choice) q o = o.ready
quiet-Ready {d} (unregistered id) q o = o.ready
quiet-Ready {d} (received ch) q o = o.ready
quiet-Ready (closed e) q o = absurd q
