-- ===== src/Tests.antt =====
-- Concrete devices, tickets and messages at which the theorems apply.
mod Buffers
mod Tickets
mod Handshake
mod Answers
mod Devices
mod Nodes
mod BigLocks
mod NodeTable
mod Vnodes
mod Directories
mod Transfers
mod Attributes
mod Mounts
use kext.Prelude.{ℕ, true, false, none, some, List, [], ◌∷◌, pos}
use kext.Opcode.{Opcode}
use kext.Iov.{Tunables, Iov}
use kext.Ipc.State.{
  Ticket, FuseData, Kernel, InHeader, zero_in_header, zero_out_header, ft_m_fiov, ft_a_fiov,
}
use kext.Ipc.Monad.{update}
use kext.Device.Lifecycle.{fuse_data_alloc, Process}

abbrev pub tun : Tunables
tun = record {
  iov_credit = pos 16;
  iov_permanent_bufsize = 524288;
  max_freetickets = 1024;
  max_tickets = 0;
}

-- No free ticket is kept.
abbrev pub no_freetickets : Tunables
no_freetickets = record tun { max_freetickets = 0 }

-- Memory and copying never fail, and nobody else runs.
abbrev pub kernel : Kernel
kernel = record {
  malloc = λ n. true;
  ticket_memory = true;
  uiomove = λ n. 0;
  msleep = λ c d. (0, d);
  self = record { pid = 7; uid = 501; gid = 20 };
  page_size = 4096;
}

abbrev pub buffer : Iov
buffer = record { capacity = 160; len = 0; allocated_size = 160; credit = pos 16 }

abbrev pub daemon : Process
daemon = record { pid = 9; uid = 501; gid = 20 }

-- A device that a daemon has opened, without any ticket.
abbrev pub idle : FuseData
idle = record {
  daemon_uid = 501;
  daemon_gid = 20;
  dataflags = λ b. false;
  noimplflags = λ b. false;
  opened = true;
  mounted = false;
  inited = true;
  dead = false;
  ms_head = [];
  aw_head = [];
  freetickets_head = [];
  alltickets_head = [];
  freeticket_counter = 0;
  deadticket_counter = 0;
  ticketer = 0;
  max_write = 4096;
  iosize = 4096;
  heap = λ a. none;
  brk = 0;
}

-- A ticket with the request to read the target of a symbolic link.
abbrev pub ticket : Ticket
ticket = record {
  unique = 1;
  answered = false;
  invalid = false;
  dirty = false;
  killed = false;
  ms_fiov = record buffer { len = 40 };
  ms_header = record zero_in_header { len = 40; opcode = Opcode.readlink; unique = 1; nodeid = 5 };
  ms_read_size = 0;
  ms_bufdata = none;
  ms_bufsize = 0;
  ms_type = ft_m_fiov;
  aw_fiov = buffer;
  aw_body = [];
  aw_bufdata = [];
  aw_bufsize = 0;
  aw_type = ft_a_fiov;
  aw_ohead = zero_out_header;
  aw_errno = 0;
  aw_callback = none;
}

-- The device with that ticket in use.
abbrev pub busy : FuseData
busy = record idle {
  alltickets_head = 3 ∷ [];
  ticketer = 2;
  deadticket_counter = 1;
  heap = update (λ a. none) 3 (some ticket);
  brk = 4;
}
