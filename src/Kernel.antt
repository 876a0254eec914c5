-- ===== src/Kernel.antt =====
-- kernel/: one module for each source file that is modelled.
pub mod Params
pub mod Strings
pub mod Kalloc
pub mod Pipe
pub mod Log
pub mod Proc
pub mod Bio
pub mod Console
pub mod Locks
pub mod Inode
pub mod Blocks
pub mod File
pub mod Pagetable
pub mod Uvm
pub mod Transfer
pub mod Space
pub mod Sysproc
pub mod Path
pub mod FileData
pub mod FileIo
pub mod Dir
pub mod Virtio
pub mod Sysfile
