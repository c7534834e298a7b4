-- ===== src/Examples.antt =====
-- Theorems of the other modules at concrete inputs.
mod Crypto
mod Wire
mod Vault
mod Api
mod Socket
mod TreeKem
mod Messages
mod Outbox
mod Merkle
mod Pairing
mod Approval
mod Backup
mod Escape
mod Lifecycle
mod Login
mod Markdown
mod Previews
mod ChatKeys
mod Decode
mod Rotation
mod Router
mod Search
mod Threads
