-- ===== src/Ipc/State.antt =====
-- fuse_ipc.h and fuse_kernel.h: the state of one device's connection to its daemon.
-- Tickets live in a heap, by address; a queue of <sys/queue.h> is the list of the addresses that
-- are linked in it. Of the message in `ms_fiov` the model has the header and the `size` of a
-- `fuse_read_in` behind it; of the answer in `aw_fiov`, its bytes.
use kext.Prelude.{ℕ, Bool, true, Option, List, ◌==◌, if◌then◌else◌}
use kext.Opcode.{Opcode}
use kext.Iov.{Iov}

-- A set of flags, by bit number.
abbrev pub Flags : Type 0
Flags = ℕ → Bool

abbrev pub set_flag : ℕ → Flags → Flags
set_flag b f i = if b == i then true else f i

-- `struct fuse_in_header`.
pub record InHeader : Type 0 where
  pub len : ℕ
  pub opcode : Opcode
  pub unique : ℕ
  pub nodeid : ℕ
  pub uid : ℕ
  pub gid : ℕ
  pub pid : ℕ

-- `struct fuse_out_header`. `error` is the bit pattern of an int32_t.
pub record OutHeader : Type 0 where
  pub len : ℕ
  pub error : ℕ
  pub unique : ℕ

abbrev pub zero_in_header : InHeader
zero_in_header = record {
  len = 0;
  opcode = Opcode.zeroed;
  unique = 0;
  nodeid = 0;
  uid = 0;
  gid = 0;
  pid = 0;
}

abbrev pub zero_out_header : OutHeader
zero_out_header = record { len = 0; error = 0; unique = 0 }

-- sizeof.
abbrev pub sizeof_in_header : ℕ
sizeof_in_header = 40

abbrev pub sizeof_out_header : ℕ
sizeof_out_header = 16

pub data MsType : Type 0 where
  ft_m_fiov ft_m_buf : MsType

pub data AwType : Type 0 where
  ft_a_fiov ft_a_buf : AwType

-- The functions that the sources install with `fuse_insert_callback`.
pub data Callback : Type 0 where
  fuse_standard_callback fuse_internal_fsync_callback : Callback
  fuse_internal_init_callback fuse_internal_forget_callback : Callback

-- `struct fuse_ticket`.
pub record Ticket : Type 0 where
  pub unique : ℕ
  pub answered : Bool
  pub invalid : Bool
  pub dirty : Bool
  pub killed : Bool
  pub ms_fiov : Iov
  pub ms_header : InHeader
  pub ms_read_size : ℕ
  pub ms_bufdata : Option ℕ
  pub ms_bufsize : ℕ
  pub ms_type : MsType
  pub aw_fiov : Iov
  pub aw_body : List ℕ
  pub aw_bufdata : List ℕ
  pub aw_bufsize : ℕ
  pub aw_type : AwType
  pub aw_ohead : OutHeader
  pub aw_errno : ℕ
  pub aw_callback : Option Callback

-- `struct fuse_data`, with the heap of tickets; `brk` is the next address that was never used.
pub record FuseData : Type 0 where
  pub daemon_uid : ℕ
  pub daemon_gid : ℕ
  pub dataflags : Flags
  pub noimplflags : Flags
  pub opened : Bool
  pub mounted : Bool
  pub inited : Bool
  pub dead : Bool
  pub ms_head : List ℕ
  pub aw_head : List ℕ
  pub freetickets_head : List ℕ
  pub alltickets_head : List ℕ
  pub freeticket_counter : ℕ
  pub deadticket_counter : ℕ
  pub ticketer : ℕ
  pub max_write : ℕ
  pub iosize : ℕ
  pub heap : ℕ → Option Ticket
  pub brk : ℕ

-- The identity that `fuse_setup_ihead` reads off a context, or off the current process.
pub record Cred : Type 0 where
  pub pid : ℕ
  pub uid : ℕ
  pub gid : ℕ

-- The channels that a thread sleeps on: the ticket, the device, the ticket counter.
pub data Channel : Type 0 where
  fu_ans fu_msg fu_ini : Channel

-- What the kernel answers during one call. `msleep` gives the code with which the thread wakes, and
-- the state that the other threads have left by then.
pub record Kernel : Type 0 where
  pub malloc : ℕ → Bool
  pub ticket_memory : Bool
  pub uiomove : ℕ → ℕ
  pub msleep : Channel → FuseData → ℕ × FuseData
  pub self : Cred
  pub page_size : ℕ
