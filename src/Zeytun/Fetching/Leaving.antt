-- ===== src/Zeytun/Fetching/Leaving.antt =====
-- Whatever happens, `zt_get2` leaves no socket open and no session behind.
