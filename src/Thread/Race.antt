-- ===== src/Thread/Race.antt =====
-- userprog/process.c and threads/thread.c: a child that exits between two steps of process_wait().
use turbo_baker.Thread.{Thread}
use turbo_baker.Thread.Inv.{Inv}
