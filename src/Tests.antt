-- ===== src/Tests.antt =====
-- Concrete runs of the packets, the files, the operations and the server's loop.
mod Samples
mod Packets
mod Games
mod Loop
mod Reports
mod Transfers
mod Tcp
mod Play
mod Commands
mod Fetches
mod Pool
mod Loops
mod Sockets
mod Options
mod Endings
