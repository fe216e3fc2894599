-- ===== src/Examples/Platform.antt =====
-- The theorems on the readers of containers, Windows and macOS, on short runs.
use tailpost.Base.{
  true, false, List, [], ◌∷◌, ◌++◌, ◌≡◌, ◌≢◌, refl, arith, some, Bytes, bytes, length,
}
use tailpost.Base.Int.{pos}
use tailpost.Reader.Stopping.{polling, exited}
use tailpost.Reader.Session.{Session, new_session}
use tailpost.Reader.Session
use tailpost.Reader.MacOs.{Stream}
use tailpost.Reader.MacOs
use tailpost.Reader.MacOs.Lines.{nonblank, sent_lines}
use tailpost.Reader.MacOs.Quiet.{IsWaiting, quiet_stop_hangs}
use tailpost.Reader.Windows.{WindowsEventLogReader, get_latest_events}
use tailpost.Reader.Windows
use tailpost.Reader.Windows.Records.{record_ids, first, sent_records}
use tailpost.Reader.Container.{Round, not_opened, streamed}
use tailpost.Reader.Container.Restart
use tailpost.Reader.Container.Restart.{Handle, done, refused, panics, new_handle}
use tailpost.Security.Hex.{decimal}
use tailpost.Security.Text.{trim_space}

abbrev closed : Session
closed = record { running = false; stop_closed = true; stopped_closed = true; lines_closed = true }

closed_lem : Session.stop (Session.start new_session) ≡ some closed
unfolding new_session Session.start Session.stop Session.ended
closed_lem = refl

abbrev wrote : Stream
wrote = record MacOs.started { unread = bytes "login" ∷ []; written = bytes "login" ∷ [] }

abbrev sending : Stream
sending = record wrote {
  phase = tailpost.Reader.Stopping.sending;
  line = bytes "login" ∷ [];
  unread = [];
}

sending-Reach : MacOs.Reach false MacOs.started sending
unfolding MacOs.is_blank trim_space
sending-Reach =
    MacOs.next (MacOs.next MacOs.here (MacOs.command_writes _ (bytes "login") refl refl))
      (MacOs.line_scanned _ (bytes "login") [] refl refl refl refl)

sent_lines_example :
    (sending.taken ++ sending.queue ≡ sending.sent ++ sending.report)
    × (sending.phase ≢ exited → sending.report ≡ [])
    × (sending.sent ++ (sending.line ++ nonblank sending.unread) ≡ nonblank sending.written)
sent_lines_example = sent_lines _ sending-Reach

abbrev quiet : Stream
quiet = record MacOs.started { stop_closed = true }

started-IsWaiting : IsWaiting MacOs.started
started-IsWaiting = record { scanning = refl; nothing_unread = refl; running = refl }

quiet_stop_hangs_example : quiet.phase ≢ exited
quiet_stop_hangs_example =
    quiet_stop_hangs started-IsWaiting (MacOs.next MacOs.here (MacOs.stop_called MacOs.started))

abbrev application : WindowsEventLogReader
application = record { log_name = bytes "Application"; min_level = bytes "Information" }

abbrev one_sent : Windows.Round
one_sent = record Windows.started {
  last_record = pos 1;
  queue =
      bytes
        "[now] Application EventID=1000 Computer=localhost Provider=Application Level=Information RecordID=1 Message=This is a mock Windows event log entry for testing"
      ∷ [];
  sent = get_latest_events application (bytes "now") (pos 0);
}

one_sent-Reach : Windows.Reach application Windows.started one_sent
unfolding get_latest_events Windows.format_as_log_line Windows.one_line decimal
one_sent-Reach =
    Windows.next (Windows.next Windows.here (Windows.ticked _ (bytes "now") refl))
      (Windows.event_sent _ _ [] refl refl (omega arith))

sent_records_example :
    (record_ids one_sent.sent ≡ first (length one_sent.sent))
    × (one_sent.last_record ≡ pos (length one_sent.sent))
unfolding get_latest_events
sent_records_example = sent_records one_sent-Reach (omega arith)

abbrev ten : List Bytes
ten = [] ∷ [] ∷ [] ∷ [] ∷ [] ∷ [] ∷ [] ∷ [] ∷ [] ∷ [] ∷ []

abbrev rounds : List Round
rounds =
    streamed [] (bytes "in" ∷ []) true
    ∷ not_opened (bytes "out" ∷ [])
    ∷ streamed (bytes "gone" ∷ []) [] true
    ∷ []

abbrev begun : Handle
begun = record { is_running = true; stop_closed = false; stopped_closed = false }

abbrev gone : Handle
gone = record begun { stopped_closed = true }

abbrev stopped : Handle
stopped = record { is_running = false; stop_closed = true; stopped_closed = true }

abbrev again : Handle
again = record stopped { is_running = true }

begun_lem : Restart.start new_handle ≡ done begun
unfolding new_handle Restart.start
begun_lem = refl

gone_lem : Restart.ended begun ≡ done gone
unfolding Restart.ended
gone_lem = refl

stopped_lem : Restart.stop begun ≡ done stopped
unfolding Restart.stop
stopped_lem = refl

again_lem : Restart.start stopped ≡ done again
unfolding Restart.start
again_lem = refl
