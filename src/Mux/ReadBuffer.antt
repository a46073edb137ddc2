-- ===== src/Mux/ReadBuffer.antt =====
-- transport/phpbox/mux.go, the blocking byte buffer of a stream: `rbuffer`. A read that would block
-- answers that it waits, and is made again.
pub mod Fifo
use openflux_zen_server.Prelude.{
  ℕ, Bool, true, false, List, [], ◌∷◌, ◌++◌, ◌==◌, if◌then◌else◌, length, take, drop,
}

-- `rbuffer`
pub record RBuffer : Type 0 where
  pub buf : List ℕ
  pub eof : Bool

pub new_rbuffer : RBuffer
new_rbuffer = record { buf = []; eof = false }

-- `took` has what was copied, and whether the buffer is empty then, as `onRead` is told.
pub data ReadResult : Type 0 where
  waits ended : ReadResult
  took : List ℕ → Bool → ReadResult

-- `write`
pub write : RBuffer → List ℕ → RBuffer
write r p = if r.eof then r else record r { buf = r.buf ++ p }

-- `close`
pub close_rbuffer : RBuffer → RBuffer
close_rbuffer r = record r { eof = true }

-- `read` with what is in the buffer, into `room` bytes.
pub read_from : RBuffer → ℕ → List ℕ → RBuffer × ReadResult
read_from r room [] = (r, if r.eof then ended else waits)
read_from r room (b ∷ bs) =
    let left = drop room (b ∷ bs) in
    (record r { buf = left }, took (take room (b ∷ bs)) (length left == 0))

-- `read`
pub read : RBuffer → ℕ → RBuffer × ReadResult
unfolding read_from
read r room = read_from r room r.buf

pub data BufferCall : Type 0 where
  writes : List ℕ → BufferCall
  reads : ℕ → BufferCall
  closes : BufferCall

pub bytes_of : ReadResult → List ℕ
bytes_of waits = []
bytes_of ended = []
bytes_of (took bs empty) = bs

-- A run of calls: the buffer afterwards and the bytes that the reads gave, in order.
pub run_calls : RBuffer → List BufferCall → RBuffer × List ℕ
run_calls r [] = (r, [])
run_calls r (writes p ∷ rest) = run_calls (write r p) rest
run_calls r (reads room ∷ rest) =
    let (r', result) = read r room in
    let (end, more) = run_calls r' rest in (end, bytes_of result ++ more)
run_calls r (closes ∷ rest) = run_calls (close_rbuffer r) rest
