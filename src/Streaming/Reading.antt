-- ===== src/Streaming/Reading.antt =====
-- core/Streaming.h: the reader of a stream, which takes what is there or waits on a timer.
use i2pd.Prelude.{ℕ, Bool, true, false, not, ◌||◌, List, [], if◌then◌else◌}
use i2pd.Streaming.{Status, reset, Stream}
use i2pd.Streaming.Closing.{is_empty}
use i2pd.Streaming.Sending.{concatenate_packets}

-- What the handler of a reader is called with, or that it is not called yet.
pub data ReadResult : Type 0 where
  received_bytes : List ℕ → ReadResult
  connection_reset operation_aborted timed_out wait : ReadResult

-- The bytes of a result.
abbrev pub bytes_of : ReadResult → List ℕ
bytes_of (received_bytes bytes) = bytes
bytes_of _ = []

abbrev pub is_reset : Status → Bool
is_reset reset = true
is_reset _ = false

module _ {I : Type 0} where
  -- The queue that a read of so many bytes leaves.
  abbrev pub after_read : ℕ → Stream I → Stream I
  after_read len s = record s { receive_queue = (concatenate_packets len s.receive_queue).1 }

  -- `HandleReceiveTimer`, for a timer that was cancelled or one that ran out.
  unfoldable pub handle_receive_timer : Bool → ℕ → Stream I → ReadResult × Stream I
  handle_receive_timer is_aborted len s =
      let bytes = (concatenate_packets len s.receive_queue).0 in
      let error =
        if is_aborted
        then (if is_reset s.status then connection_reset else operation_aborted)
        else timed_out in
      (if is_empty bytes then error else received_bytes bytes, after_read len s)

  -- `AsyncReceive`, in the queue of the I/O service.
  unfoldable pub async_receive : ℕ → Stream I → ReadResult × Stream I
  unfolding handle_receive_timer
  async_receive len s =
      if not (is_empty s.receive_queue) || is_reset s.status
      then handle_receive_timer true len s
      else (wait, s)
