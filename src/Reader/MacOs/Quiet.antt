-- ===== src/Reader/MacOs/Quiet.antt =====
-- `Stop` while the command writes nothing.
use tailpost.Base.{true, false, [], ◌≡◌, ◌≢◌, arith}
use tailpost.Reader.Stopping.{polling, exited}
use tailpost.Reader.MacOs.{
  Stream, Step, command_writes, command_ends, blank_skipped, line_scanned, line_sent, send_given_up,
  scan_ended, scan_failed, line_taken, stop_called, Reach, here, next,
}

-- `readLogs` waits in `Scan` for a command that runs.
pub record IsWaiting (w : Stream) : Type 0 where
  pub scanning : w.phase ≡ polling
  pub nothing_unread : w.unread ≡ []
  pub running : w.ended ≡ false

Step-IsWaiting : {v w : Stream} → Step true v w → IsWaiting v → IsWaiting w
Step-IsWaiting (command_writes w l q e) h = cc
Step-IsWaiting (command_ends w q) h = cc
Step-IsWaiting (blank_skipped w l rest p u b) h = ground (arith, h.nothing_unread)
Step-IsWaiting (line_scanned w l rest p e u b) h = ground (arith, h.nothing_unread)
Step-IsWaiting (line_sent w l p e r) h = ground (arith, h.scanning)
Step-IsWaiting (send_given_up w p s) h = ground (arith, h.scanning)
Step-IsWaiting (scan_ended w p u e) h = ground (arith, h.running)
Step-IsWaiting (scan_failed w t q p) h = cc
Step-IsWaiting (line_taken w l rest e) h = record {
  scanning = h.scanning;
  nothing_unread = h.nothing_unread;
  running = h.running;
}
Step-IsWaiting (stop_called w) h = record {
  scanning = h.scanning;
  nothing_unread = h.nothing_unread;
  running = h.running;
}

Reach-IsWaiting : {v w : Stream} → Reach true v w → IsWaiting v → IsWaiting w
Reach-IsWaiting here h = h
Reach-IsWaiting (next r s) h = Step-IsWaiting s (Reach-IsWaiting r h)

-- When `readLogs` has read all that the command has written, and the command runs on and writes
-- nothing, `readLogs` never closes `stoppedCh`, whether or not `Stop` is called: `Stop` waits until
-- the command writes or ends, and nothing has told it to end.
pub quiet_stop_hangs : {v w : Stream} → IsWaiting v → Reach true v w → w.phase ≢ exited
quiet_stop_hangs h r e = let at = (Reach-IsWaiting r h).scanning in ground arith
