-- ===== src/EventLog/Close.antt =====
-- `close` and `readAll` of src/host/eventLog.ts, cut at each await: any step of the log may come
-- between two of these steps, so an append can still come before the last one of `close`.
use agent_tty.Prelude.{Bool, true, not, List, ok, err, if◌then◌else◌}
use agent_tty.EventLog.Record.{EventRecord}
use agent_tty.EventLog.Store.{M, assert, ◌>>◌, gets, modify, io_failed}

-- `close`, up to its first await
unfoldable pub start_close : M (Unit {0})
start_close s = assert (not s.is_closed) "event log is already closed" s

-- `await this.writeQueue`, once the writes that waited at the call have settled
unfoldable pub await_write_queue : M (Unit {0})
await_write_queue s = (s, if s.poisoned then err io_failed else ok tt)

-- `await this.fileHandle.sync()` and `await this.fileHandle.close()`; `done` says whether the
-- operation succeeds. On a closed handle every write that is tried fails.
unfoldable pub await_file : Bool → M (Unit {0})
await_file done s = (s, if done then ok tt else err io_failed)

-- `close`, behind its last await
unfoldable pub finish_close : M (Unit {0})
finish_close = modify (λ s. record s { is_closed = true })

-- `readAll`, behind its await
unfoldable pub read_all : M (List EventRecord)
unfolding await_write_queue
read_all = await_write_queue >> gets (λ s. s.event_buffer)
