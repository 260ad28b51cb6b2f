-- ===== src/Ito.antt =====
-- include/ityr/ito: threads and their schedulers.
pub mod JoinRace
pub mod WsQueue
