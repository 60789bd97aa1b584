-- ===== src/Lobby/Automatic.antt =====
-- `AcquireGameRoom` where the client asks for any room: which room it gets.
