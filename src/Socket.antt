-- ===== src/Socket.antt =====
-- src/co_socket.cpp: the owner of a file descriptor, and the calls of the system that it makes.
pub mod Ownership
pub mod Reading
pub mod Writing
use redis_proxy.Base.{
  ℕ, Bool, true, false, List, [], ◌∷◌, ◌++◌, Option, none, some, if◌then◌else◌, codes,
}
use redis_proxy.Status.{Status, status_ok, invalid_argument, io_error}

-- `fd_`; `none` stands for -1.
pub record CoSocket : Type 0 where
  pub fd : Option ℕ

-- `::close`, and `::shutdown` with `SHUT_RDWR` and with `SHUT_RD`.
pub data Call : Type 0 where
  closes shuts shuts_read : ℕ → Call

unfoldable pub new_socket : Option ℕ → CoSocket
new_socket fd = record { fd = fd }

-- `(socket, the descriptor)`.
unfoldable pub release : CoSocket → CoSocket × Option ℕ
release c = (record { fd = none }, c.fd)

abbrev pub call_with : (ℕ → Call) → Option ℕ → List Call
call_with f none = []
call_with f (some fd) = f fd ∷ []

-- `close`, also the destructor.
unfoldable pub close : CoSocket → CoSocket × List Call
close c = (record { fd = none }, call_with Call.closes c.fd)

unfoldable pub reset : Option ℕ → CoSocket → CoSocket × List Call
unfolding close
reset fd c = (record { fd = fd }, (close c).1)

-- The move constructor: `(new socket, source)`.
unfoldable pub move : CoSocket → CoSocket × CoSocket
unfolding release
move other = let (other', fd) = release other in (record { fd = fd }, other')

-- Move assignment from another object: `(destination, source, calls)`.
unfoldable pub move_assign : CoSocket → CoSocket → CoSocket × CoSocket × List Call
unfolding close release
move_assign c other = let (other', fd) = release other in (record { fd = fd }, other', (close c).1)

unfoldable pub shutdown : CoSocket → List Call
shutdown c = call_with Call.shuts c.fd

unfoldable shutdown_read : CoSocket → List Call
shutdown_read c = call_with Call.shuts_read c.fd

abbrev invalid_endpoint : List ℕ
invalid_endpoint = codes "invalid endpoint"

abbrev connect_timeout : List ℕ
connect_timeout = codes "connect timeout"

abbrev connect_failed : List ℕ
connect_failed = codes "connect failed"

abbrev pub read_timeout : List ℕ
read_timeout = codes "read timeout"

abbrev pub write_timeout : List ℕ
write_timeout = codes "write timeout"

abbrev pub zero_write : List ℕ
zero_write = codes "zero write"

abbrev pub peer_closed : List ℕ
peer_closed = codes "peer closed"

-- What `::connect` answers: success, `EINPROGRESS` or `EAGAIN`, or the text of another error.
pub data Connecting : Type 0 where
  at_once in_progress : Connecting
  refused : List ℕ → Connecting

-- The end of `connectTo`: whether the poll is ready in time, and whether `getsockopt` shows no error.
unfoldable finish_connect : Bool → Bool → Status
finish_connect false no_error = io_error connect_timeout
finish_connect true no_error = if no_error then status_ok else io_error connect_failed

unfoldable await_connect : Connecting → Bool → Bool → Status
unfolding finish_connect
await_connect Connecting.at_once ready no_error = status_ok
await_connect (Connecting.refused m) ready no_error = io_error m
await_connect Connecting.in_progress ready no_error = finish_connect ready no_error

-- `connectTo`, given whether `toSockAddr` succeeds and what the system answers.
unfoldable pub connect_to : Bool → Connecting → Bool → Bool → Status
unfolding await_connect
connect_to address answer ready no_error =
    if address then await_connect answer ready no_error else invalid_argument invalid_endpoint
