-- ===== src/Vfs.antt =====
-- kernel/fs/vfs.c: file contents (Tmpfs), the tree of vnodes (Node), and the table of open files
-- (Files).
pub mod Tmpfs
pub mod Node
pub mod Calls
pub mod Files
mod Examples
