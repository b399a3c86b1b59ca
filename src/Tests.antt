-- ===== src/Tests.antt =====
-- Concrete codecs, environments and file systems, and runs of the theorems on them.
mod Codecs
mod Consoles
mod Keys
mod Shares
mod Files
mod Guards
mod Processes
mod Mounts
mod Acls
mod Disks
mod Networks
mod Routes
